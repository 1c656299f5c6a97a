-- ===== src/Client/Record.antt =====
-- The members of include/client.hpp and the constructor of src/client.cpp. The members that clients
-- exchange stand in a record of their own, `Player`.
use ogmp_server.Base.{ℕ, Bool, false, List, [], ℤ, pos}
use ogmp_server.Text.{Str}
use ogmp_server.StringMap.{StringMap}
use ogmp_server.Reply.{Reply}

-- The members that hold the variables which clients exchange.
pub record Player : Type 0 where
  pub iscrouching : Bool
  pub isjumping : Bool
  pub isattacking : Bool
  pub isgrabbing : Bool
  pub isusingitem : Bool
  pub isdropping : Bool
  pub blood_damage : ℕ
  pub blood_health : ℕ
  pub block_health : ℕ
  pub temp_health : ℕ
  pub permanent_health : ℕ
  pub blood_amount : ℕ
  pub recovery_time : ℕ
  pub roll_recovery_time : ℕ
  pub knocked_out : ℤ
  pub ragdoll_type : ℤ
  pub blood_delay : ℤ
  pub state : ℤ
  pub cut_throat : Bool
  pub posx : ℕ
  pub posy : ℕ
  pub posz : ℕ
  pub dirx : ℕ
  pub dirz : ℕ
  pub remove_blood : Bool
  pub velx : ℕ
  pub vely : ℕ
  pub velz : ℕ

pub record Client : Type 0 where
  pub uid : Str
  pub username : Str
  pub team : Str
  pub character : Str
  pub level_path : Str
  pub level_name : Str
  pub player : Player
  pub open player use *
  pub saved_posx : ℕ
  pub saved_posy : ℕ
  pub saved_posz : ℕ
  pub isrolling : Bool
  pub isjumpingoffwall : Bool
  pub isactiveblocking : Bool
  pub death_changed : Bool
  pub has_signed_on : Bool
  pub last_updated : ℕ
  pub time_of_death : ℕ
  pub commands : List (StringMap Str)
  pub inbox : List Reply
  pub variable_states : ℕ → Bool
  pub client_update_history : List (ℕ × List ℕ)
  pub history_index : ℕ
  pub keys : StringMap ℤ

-- What the members that the constructor leaves uninitialised happen to hold.
pub record Uninitialised : Type 0 where
  pub velx : ℕ
  pub vely : ℕ
  pub velz : ℕ
  pub death_changed : Bool
  pub last_updated : ℕ

-- 1.0f and 10.0f.
abbrev pub one : ℕ
one = 0x3f80_0000

abbrev pub ten : ℕ
ten = 0x4120_0000

-- `_awake` of include/shared.hpp.
abbrev pub awake : ℤ
awake = pos 0

initial_player : Uninitialised → Player
initial_player u = record {
  iscrouching = false;
  isjumping = false;
  isattacking = false;
  isgrabbing = false;
  isusingitem = false;
  isdropping = false;
  blood_damage = 0;
  blood_health = one;
  block_health = one;
  temp_health = one;
  permanent_health = one;
  blood_amount = ten;
  recovery_time = 0;
  roll_recovery_time = 0;
  knocked_out = awake;
  ragdoll_type = pos 0;
  blood_delay = pos 0;
  state = pos 0;
  cut_throat = false;
  posx = 0;
  posy = 0;
  posz = 0;
  dirx = 0;
  dirz = 0;
  remove_blood = false;
  velx = u.velx;
  vely = u.vely;
  velz = u.velz;
}

-- `client::client()`.
unfoldable pub new_client : Uninitialised → Client
unfolding initial_player
new_client u = record {
  uid = [];
  username = [];
  team = [];
  character = [];
  level_path = [];
  level_name = [];
  player = initial_player u;
  saved_posx = 0;
  saved_posy = 0;
  saved_posz = 0;
  isrolling = false;
  isjumpingoffwall = false;
  isactiveblocking = false;
  death_changed = u.death_changed;
  has_signed_on = false;
  last_updated = u.last_updated;
  time_of_death = 0;
  commands = [];
  inbox = [];
  variable_states = λ _. false;
  client_update_history = [];
  history_index = 0;
  keys = [];
}
