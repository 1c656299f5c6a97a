-- ===== src/Examples.antt =====
-- Two players on one level and a third on another, with whom the theorems and the operations of the
-- other modules are tried out.
pub mod Bytes
pub mod Clients
pub mod Network
pub mod Delivery
pub mod Chat
pub mod Players
pub mod Sessions
pub mod Updates
pub mod Strings
pub mod Log
pub mod Startup
use ogmp_server.Base.{ℕ, zero, suc, refl, List, [], ◌∷◌, Option, none, some, arith, false, true}
use ogmp_server.Text.{Str, codes, str_lt}
use ogmp_server.Client.{Client, Uninitialised, new_client}
use ogmp_server.Config.{Config}
use ogmp_server.Manager.{Heap, Server}
use ogmp_server.Manager.Invariant.{IsServer}
use ogmp_server.Handler.Session.{Session}
use ogmp_server.Handler.Invariant.{IsSession}

abbrev pub zeros : Uninitialised
zeros = record { velx = 0; vely = 0; velz = 0; death_changed = false; last_updated = 0 }

abbrev pub player_on : Str → Str → Client
player_on name path = record (new_client zeros) { username = name; level_path = path }

abbrev pub three : Heap
three zero = player_on (codes "ann") (codes "a.xml")
three (suc zero) = player_on (codes "bob") (codes "a.xml")
three (suc (suc _)) = player_on (codes "cat") (codes "b.xml")

abbrev pub config : Config
config = record {
  update_refresh_rate = 10;
  welcome_message = codes "hi";
  server_name = codes "s";
  remove_delay = 0x4014_0000_0000_0000;
  allow_teleport = false;
  debug = false;
  log_file = [];
  allow_other_maps = true;
  map_list = (codes "A", codes "a.xml") ∷ [];
}

abbrev pub server : Server
server = record {
  heap = three;
  next = 3;
  clients = (codes "ann", 0) ∷ (codes "bob", 1) ∷ (codes "cat", 2) ∷ [];
  log = [];
}

-- The connection of a player, and one without.
abbrev pub of_player : Option ℕ → Session
of_player p = record { server = server; this_client = p; rep = [] }

pub server-IsServer : IsServer server
unfolding str_lt new_client
server-IsServer = record {
  sorted = ((refl, (refl, tt)), ((refl, tt), (tt, tt)));
  named = (refl, (refl, (refl, tt)));
  allocated = (omega arith, (omega arith, (omega arith, tt)));
}

pub of_ann-IsSession : IsSession (of_player (some 0))
of_ann-IsSession = record { server = server-IsServer; client = λ p e. ground arith }
