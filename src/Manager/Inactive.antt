-- ===== src/Manager/Inactive.antt =====
-- `client_manager::pop_inactive_clients` of src/client_manager.cpp. A client's time and the delay are
-- doubles, whose arithmetic is an argument.
use ogmp_server.Base.{ℕ, Bool, ◌||◌, not, Option}
use ogmp_server.StringMap.{StringMap}
use ogmp_server.Config.{Config}
use ogmp_server.Manager.{Heap, Doubles, is_initiator, is_inactive}

module _ (doubles : Doubles) (config : Config) (now start : ℕ) (initiator : Option ℕ) where
  -- The initiator, by its name, and whoever is active stay.
  abbrev pub stays : Heap → ℕ → Bool
  stays heap p =
      is_initiator heap initiator p || not (is_inactive doubles config now start (heap p))
