-- ===== src/Examples/Startup.antt =====
-- A start of the server that succeeds.
use ogmp_server.Base.{inr, true, some, List, [], ◌∷◌}
use ogmp_server.Text.{Str, codes}
use ogmp_server.Config.Reading.{Tree}
use ogmp_server.Log.{Log}
use ogmp_server.Startup.{Boost}

abbrev settings : Tree
settings = record {
  float_at = λ _. some 0;
  double_at = λ _. some 0x4024_0000_0000_0000;
  string_at = λ _. some (codes "log.txt");
  bool_at = λ _. some true;
  child_at = λ _. some [];
}

abbrev willing : Boost
willing = record {
  read_ini = λ _. inr settings;
  bad_path = codes "No such node";
  resolve = λ address port. inr (address, port);
  open_ = λ _. inr tt;
  set_option = inr tt;
  bind = λ _. inr tt;
  listen = inr tt;
}

abbrev arguments : List Str
arguments = codes "server" ∷ codes "0.0.0.0" ∷ codes "9000" ∷ codes "." ∷ []

abbrev no_log : Log
no_log = record { file = []; disk = λ _. [] }
