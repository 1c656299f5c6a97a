-- ===== src/Log/RoundTrip.antt =====
-- What the log file of src/log.cpp holds.
use ogmp_server.Base.{
  ℕ, ◌≡◌, ◌≢◌, refl, ap, ◌∙◌, sym, Bool, true, false, List, [], ◌∷◌, ◌++◌, Option, none, some,
  append_assoc, append-nil, All, arith, ◌==◌, if◌then◌else◌,
}
use ogmp_server.Text.{Str, str_eq, str_eq_refl, c_str}
use ogmp_server.Log.{Log, append, tab, newline, get_current_time, line, print, print_all}

-- The entries that a reader of the file makes out: up to the first tab the time, from there to the
-- end of the line the text. What has been read of the entry stands in front.
unfoldable read_log : Str → Option Str → Str → List (Str × Str)
read_log time text [] = []
read_log time none (c ∷ s) = elim (c == tab) [
  | true ↦ read_log time (some []) s
  | false ↦ read_log (time ++ c ∷ []) none s
]
read_log time (some text) (c ∷ s) = elim (c == newline) [
  | true ↦ (time, text) ∷ read_log [] none s
  | false ↦ read_log time (some (text ++ c ∷ [])) s
]

unfoldable pub read_entries : Str → List (Str × Str)
unfolding read_log
read_entries s = read_log [] none s

read_log-time :
    (time t s : Str)
    → All (λ c. c ≢ tab) t
    → read_log time none (t ++ tab ∷ s) ≡ read_log (time ++ t) (some []) s
unfolding read_log
read_log-time time [] s h = ap (λ x. read_log x (some []) s) (sym (append-nil time))
read_log-time time (c ∷ t) s h =
    ground (arith, h.0, read_log-time (time ++ c ∷ []) t s h.1, append_assoc time (c ∷ []) t)

read_log-text :
    (time text t s : Str)
    → All (λ c. c ≢ newline) t
    → read_log time (some text) (t ++ newline ∷ s) ≡ (time, text ++ t) ∷ read_log [] none s
unfolding read_log
read_log-text time text [] s h = ap (λ x. (time, x) ∷ read_log [] none s) (sym (append-nil text))
read_log-text time text (c ∷ t) s h =
    ground (arith, h.0, read_log-text time (text ++ c ∷ []) t s h.1, append_assoc text (c ∷ []) t)

module _ (strftime : ℕ → Str) where
  -- The lines of the calls that could open the file, and their entries.
  lines : List (Bool × ℕ × Str) → Str
  lines [] = []
  lines ((true, now, text) ∷ calls) = line strftime now text ++ lines calls
  lines ((false, now, text) ∷ calls) = lines calls

  abbrev pub entries : List (Bool × ℕ × Str) → List (Str × Str)
  entries [] = []
  entries ((true, now, text) ∷ calls) = (get_current_time strftime now, text) ∷ entries calls
  entries ((false, now, text) ∷ calls) = entries calls

  print_all-disk :
      (calls : List (Bool × ℕ × Str)) (l : Log) (n : Str)
      → (print_all strftime calls l).disk n
        ≡ (if str_eq (c_str l.file) n then l.disk n ++ lines calls else l.disk n)
  unfolding print_all print lines
  print_all-disk [] l n = ground (arith, append-nil (l.disk n))
  print_all-disk ((true, now, text) ∷ calls) l n = ground (
    arith,
    print_all-disk calls (record l { disk = append (c_str l.file) (line strftime now text) l.disk })
        n,
    append_assoc (l.disk n) (line strftime now text) (lines calls),
  )
  print_all-disk ((false, now, text) ∷ calls) l n = print_all-disk calls l n

  read_log-lines :
      (calls : List (Bool × ℕ × Str))
      → ((now : ℕ) → All (λ c. c ≢ tab) (get_current_time strftime now))
      → All (λ call. All (λ c. c ≢ newline) call.2) calls
      → read_log [] none (lines calls) ≡ entries calls
  unfolding lines
  read_log-lines [] t h = unfold read_log in refl
  read_log-lines ((true, now, text) ∷ calls) t h =
      ap (read_log [] none) (
        append_assoc time (tab ∷ (text ++ newline ∷ [])) (lines calls)
        ∙ ap (λ x. time ++ tab ∷ x) (append_assoc text (newline ∷ []) (lines calls)))
      ∙ read_log-time [] time (text ++ newline ∷ lines calls) (t now)
      ∙ read_log-text time [] text (lines calls) h.0
      ∙ ap (λ es. (time, text) ∷ es) (read_log-lines calls t h.1)
    where
      time : Str
      time = get_current_time strftime now
  read_log-lines ((false, now, text) ∷ calls) t h = read_log-lines calls t h.1

  -- When the times hold no tab, the texts hold no newline, and the log file is empty at first, the
  -- file gives each text that was printed while it could be opened, with its time and in the order of
  -- the calls; every other file holds what it held.
  pub read_entries-print_all :
      (calls : List (Bool × ℕ × Str)) (l : Log)
      → ((now : ℕ) → All (λ c. c ≢ tab) (get_current_time strftime now))
      → All (λ call. All (λ c. c ≢ newline) call.2) calls
      → l.disk (c_str l.file) ≡ []
      → (read_entries ((print_all strftime calls l).disk (c_str l.file)) ≡ entries calls)
        × ((n : Str)
            → str_eq (c_str l.file) n ≡ false
            → (print_all strftime calls l).disk n ≡ l.disk n)
  read_entries-print_all calls l t h empty = (
    unfold read_entries in ap (read_log [] none) own ∙ read_log-lines calls t h,
    λ n other. print_all-disk calls l n ∙ rw other refl,
  )
    where
      own : (print_all strftime calls l).disk (c_str l.file) ≡ lines calls
      own =
          print_all-disk calls l (c_str l.file)
          ∙ rw (str_eq_refl (c_str l.file)) (ap (λ x. x ++ lines calls) empty)
