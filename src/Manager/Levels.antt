-- ===== src/Manager/Levels.antt =====
-- `TempLevelInfo` and `client_manager::get_level_list` of src/client_manager.cpp: the levels, those
-- of the settings and those that players brought, each with its number of players.
pub mod Total
use ogmp_server.Base.{
  ℕ, suc, ◌+◌, Bool, true, false, ◌||◌, List, [], ◌∷◌, ◌++◌, ℤ, pos, if◌then◌else◌,
}
use ogmp_server.Text.{Str, str_eq, c_str}
use ogmp_server.StringMap.{StringMap}
use ogmp_server.Reply.{Reply, add_string, add_int}
use ogmp_server.Config.{Config}
use ogmp_server.Manager.{Heap, Server}

pub record TempLevelInfo : Type 0 where
  pub level_name : Str
  pub level_path : Str
  pub nr_players : ℕ

-- The counting loop: the players on a level.
unfoldable pub count_players : Heap → Str → StringMap ℕ → ℕ
count_players heap path [] = 0
count_players heap path ((k, p) ∷ items) =
    let rest = count_players heap path items in
    if str_eq (heap p).level_path path then suc rest else rest

-- The levels of the settings. `data()` gives their names and paths as C strings.
unfoldable pub default_levels : Heap → StringMap ℕ → List (Str × Str) → List TempLevelInfo
default_levels heap clients [] = []
default_levels heap clients ((name, path) ∷ maps) =
    record {
      level_name = c_str name;
      level_path = c_str path;
      nr_players = count_players heap (c_str path) clients;
    }
    ∷ default_levels heap clients maps

unfoldable pub is_on_default : Str → List (Str × Str) → Bool
is_on_default level [] = false
is_on_default level ((name, path) ∷ maps) = str_eq level (c_str path) || is_on_default level maps

unfoldable pub already_added : Str → List TempLevelInfo → Bool
already_added level [] = false
already_added level (info ∷ infos) = str_eq info.level_path level || already_added level infos

-- One player's level, at the end, unless it is there.
unfoldable pub add_level :
    List (Str × Str) → Heap → StringMap ℕ → ℕ → List TempLevelInfo → List TempLevelInfo
add_level maps heap clients p infos =
    if is_on_default (heap p).level_path maps || already_added (heap p).level_path infos
    then infos
    else infos
      ++ record {
        level_name = (heap p).level_name;
        level_path = (heap p).level_path;
        nr_players = count_players heap (heap p).level_path clients;
      }
        ∷ []

unfoldable pub custom_levels :
    List (Str × Str) → Heap → StringMap ℕ → StringMap ℕ → List TempLevelInfo → List TempLevelInfo
custom_levels maps heap clients [] infos = infos
custom_levels maps heap clients ((k, p) ∷ items) infos =
    custom_levels maps heap clients items (add_level maps heap clients p infos)

unfoldable pub temp_levels : Config → Server → List TempLevelInfo
temp_levels config s =
    custom_levels config.map_list s.heap s.clients s.clients
      (default_levels s.heap s.clients config.map_list)

unfoldable pub write_levels : List TempLevelInfo → Reply → Reply
write_levels [] rep = rep
write_levels (info ∷ infos) rep =
    write_levels infos
      (add_int (pos info.nr_players) (add_string info.level_path (add_string info.level_name rep)))

unfoldable pub get_level_list : Config → Server → Reply → Reply
get_level_list config s rep = write_levels (temp_levels config s) rep
