-- ===== src/Config/Reading.antt =====
-- The constructor of src/config.cpp. boost's property tree reads the file; a tree is what its getters
-- return, which throw where an entry is missing or does not parse.
use ogmp_server.Base.{ℕ, Bool, List, [], ◌∷◌, Option, none, some}
use ogmp_server.Text.{Str, codes, c_str}
use ogmp_server.Config.{Config}

pub record Tree : Type 0 where
  pub float_at : Str → Option ℕ
  pub double_at : Str → Option ℕ
  pub string_at : Str → Option Str
  pub bool_at : Str → Option Bool
  pub child_at : Str → Option (List (Str × Str))

-- A throw ends the constructor.
infixl 5 ◌>>=◌
abbrev pub ◌>>=◌ : {A B : Type 0} → Option A → (A → Option B) → Option B
◌>>=◌ m f = elim m [ none ↦ none | some a ↦ f a ]

-- The loop over the children: `data()` of a name is a C string.
unfoldable pub read_map_list : List (Str × Str) → List (Str × Str)
read_map_list [] = []
read_map_list ((name, path) ∷ children) = (c_str name, path) ∷ read_map_list children

unfoldable pub read_config : Tree → Option Config
read_config pt = do
  update_refresh_rate ← pt.float_at (codes "ServerSettings.update_refresh_rate")
  welcome_message ← pt.string_at (codes "ServerSettings.welcome_message")
  server_name ← pt.string_at (codes "ServerSettings.server_name")
  remove_delay ← pt.double_at (codes "ServerSettings.remove_delay")
  allow_teleport ← pt.bool_at (codes "ServerSettings.allow_teleport")
  debug ← pt.bool_at (codes "ServerSettings.debug")
  log_file ← pt.string_at (codes "ServerSettings.log_file")
  allow_other_maps ← pt.bool_at (codes "ServerSettings.allow_other_maps")
  children ← pt.child_at (codes "Maps")
  some (record {
    update_refresh_rate = update_refresh_rate;
    welcome_message = welcome_message;
    server_name = server_name;
    remove_delay = remove_delay;
    allow_teleport = allow_teleport;
    debug = debug;
    log_file = log_file;
    allow_other_maps = allow_other_maps;
    map_list = read_map_list children;
  })
