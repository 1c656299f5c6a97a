-- ===== src/Config.antt =====
-- include/config.hpp and src/config.cpp: the settings. boost's property tree reads them from
-- config.ini, so the record's values are any; a getter is the record's field. A float or a
-- double is the number of its bits.
pub mod Reading
use ogmp_server.Base.{ℕ, Bool, List}
use ogmp_server.Text.{Str}

pub record Config : Type 0 where
  pub update_refresh_rate : ℕ
  pub welcome_message : Str
  pub server_name : Str
  pub remove_delay : ℕ
  pub allow_teleport : Bool
  pub debug : Bool
  pub log_file : Str
  pub allow_other_maps : Bool
  pub map_list : List (Str × Str)
