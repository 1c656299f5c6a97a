-- ===== src/Log.antt =====
-- src/log.cpp and include/log.hpp: lines with the time, appended to a file. Whether the file can be
-- opened, and what strftime makes of the time, are arguments.
pub mod RoundTrip
pub mod Forged
use ogmp_server.Base.{ℕ, Bool, true, false, not, List, [], ◌∷◌, ◌++◌, if◌then◌else◌}
use ogmp_server.Text.{Str, str_eq, c_str}

-- The static member, and what the files hold, by their names.
pub record Log : Type 0 where
  pub file : Str
  pub disk : Str → Str

unfoldable pub set_log_file : Str → Log → Log
set_log_file file l = record l { file = file }

-- What is written to a stream that is opened with `ios_base::app`.
abbrev pub append : Str → Str → (Str → Str) → Str → Str
append name more disk n = if str_eq name n then disk n ++ more else disk n

abbrev pub tab : ℕ
tab = 9

abbrev pub newline : ℕ
newline = 10

module _ (strftime : ℕ → Str) where
  -- The text in `buf`, up to its NUL.
  unfoldable pub get_current_time : ℕ → Str
  get_current_time now = c_str (strftime now)

  -- `get_current_time() << "\t" << text << "\n"`.
  abbrev pub line : ℕ → Str → Str
  line now text = get_current_time now ++ tab ∷ (text ++ newline ∷ [])

  -- `log::print`, on a file that can be opened or not.
  unfoldable pub print : Bool → ℕ → Str → Log → Log
  print is_open now text l =
      if not is_open then l else record l { disk = append (c_str l.file) (line now text) l.disk }

  -- Calls one after the other.
  unfoldable pub print_all : List (Bool × ℕ × Str) → Log → Log
  print_all [] l = l
  print_all ((is_open, now, text) ∷ calls) l = print_all calls (print is_open now text l)
