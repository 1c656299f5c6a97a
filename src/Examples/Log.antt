-- ===== src/Examples/Log.antt =====
-- The log, and a chat line that is two lines in it.
use ogmp_server.Base.{ℕ, ok, ◌≡◌, refl, Bool, true, false, some, List, [], ◌∷◌, ◌++◌, arith}
use ogmp_server.Text.{Str, codes, str_eq, c_str}
use ogmp_server.Log.{Log, get_current_time, print_all}
use ogmp_server.Log.RoundTrip.{read_entries, read_entries-print_all}
use ogmp_server.Log.Forged.{at, forge, chat_bytes, chat-forge}
use ogmp_server.Handler.Session.{Session}
use ogmp_server.Handler.Messages.{handle_chat_message}
use ogmp_server.Examples.{server}

-- Noon on one day.
abbrev noon : ℕ → Str
noon now = codes "2016-05-01 12:00:00"

abbrev empty_log : Log
empty_log = record { file = codes "log.txt"; disk = λ _. [] }

abbrev two_calls : List (Bool × ℕ × Str)
two_calls = (true, 7, codes "dan: hi") ∷ (false, 8, codes "eve: ho") ∷ []

read_entries-print_all_example :
    (read_entries ((print_all noon two_calls empty_log).disk (c_str (codes "log.txt")))
      ≡ (get_current_time noon 7, codes "dan: hi") ∷ [])
    × ((n : Str)
        → str_eq (c_str (codes "log.txt")) n ≡ false
        → (print_all noon two_calls empty_log).disk n ≡ [])
unfolding get_current_time c_str
read_entries-print_all_example =
    read_entries-print_all noon two_calls empty_log (λ now. ground arith) (ground arith) refl

abbrev of_ann : Session
of_ann = record { server = server; this_client = some 0; rep = [] }

chat-forge_example :
    (t : Session) × (texts : List Str) × (handle_chat_message
        (chat_bytes 7 (codes "x") (forge noon 7 (codes "hi") (codes "bob: bye")) [])
        1
        of_ann
      ≡ ok t)
    × (t.log ≡ of_ann.log ++ texts)
    × ((n : Str)
        → (print_all noon (at 7 texts) empty_log).disk n
          ≡ (print_all noon
                (at 7 (
                  ((of_ann.heap 0).username ++ (codes ": " ++ codes "hi")) ∷ codes "bob: bye" ∷ []))
                empty_log).disk
              n)
unfolding get_current_time c_str
chat-forge_example =
    chat-forge noon 7 0 7 (codes "x") (codes "hi") (codes "bob: bye") [] of_ann empty_log refl
      (omega arith) (ground arith)
