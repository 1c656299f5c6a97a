-- ===== src/Log/Forged.antt =====
-- A chat line in the log: `HandleChatMessage` of src/request_handler.cpp and src/log.cpp.
use ogmp_server.Base.{
  ℕ, ◌≡◌, refl, ap, ◌∙◌, sym, true, Bool, List, [], ◌∷◌, ◌++◌, append_assoc, Bool-cases, inl, inr,
  ok, some, length, ◌%◌, ◌<◌, ◌+◌, arith,
}
use ogmp_server.Text.{Str, codes, str_eq, c_str}
use ogmp_server.Log.{Log, tab, newline, get_current_time, line, print, print_all}
use ogmp_server.Manager.{add_to_inbox}
use ogmp_server.Handler.Session.{Session, on_client, on_server}
use ogmp_server.Handler.Session
use ogmp_server.Handler.Messages.{chat, read_chat, handle_chat_message}
use ogmp_server.Handler.Keeps.Messages.{chat_read}
use ogmp_server.Input.RoundTrip.{get_string-drop}

-- The calls that hand over the texts in one second, on a file that can be opened.
abbrev pub at : ℕ → List Str → List (Bool × ℕ × Str)
at now [] = []
at now (text ∷ texts) = (true, now, text) ∷ at now texts

-- A chat message: its first byte, its source, its content, and what else is in the buffer.
abbrev pub chat_bytes : ℕ → Str → Str → List ℕ → List ℕ
chat_bytes b source said rest =
    b ∷ length source % 256 ∷ source ++ (length said % 256 ∷ said ++ rest)

read_chat-bytes :
    (b : ℕ) (source said : Str) (rest : List ℕ)
    → length source < 128
    → length said < 128
    → read_chat (chat_bytes b source said rest) 1
      ≡ ok ((source, said), 1 + 1 + length source + 1 + length said)
unfolding read_chat
read_chat-bytes b source said rest short fits = ground (
  arith,
  get_string-drop (chat_bytes b source said rest) 1 source (length said % 256 ∷ said ++ rest),
  get_string-drop (chat_bytes b source said rest) (1 + 1 + length source) said rest,
)

module _ (strftime : ℕ → Str) (now : ℕ) where
  -- A text with a newline in it that goes on like a line of the log.
  abbrev pub forge : Str → Str → Str
  forge a b = a ++ newline ∷ (get_current_time strftime now ++ tab ∷ b)

  line-forge :
      (a b : Str) → line strftime now (forge a b) ≡ line strftime now a ++ line strftime now b
  line-forge a b =
      ap (λ x. time ++ tab ∷ x)
        (append_assoc a (newline ∷ (time ++ tab ∷ b)) (newline ∷ [])
          ∙ ap (λ x. a ++ newline ∷ x) (append_assoc time (tab ∷ b) (newline ∷ []))
          ∙ sym (append_assoc a (newline ∷ []) (line strftime now b)))
      ∙ sym (append_assoc time (tab ∷ (a ++ newline ∷ [])) (line strftime now b))
    where
      time : Str
      time = get_current_time strftime now

  print-forge :
      (a b : Str) (l : Log) (n : Str)
      → (print strftime true now (forge a b) l).disk n
        ≡ (print strftime true now b (print strftime true now a l)).disk n
  unfolding print
  print-forge a b l n = elim (Bool-cases (str_eq (c_str l.file) n)) [
    | inl own ↦ rw own (
        ap (λ x. l.disk n ++ x) (line-forge a b)
        ∙ sym (append_assoc (l.disk n) (line strftime now a) (line strftime now b)))
    | inr other ↦ rw other refl
  ]

  -- What a log file would hold is the same for the two lists of texts.
  forged_text :
      (name content other : Str) (l : Log) (n : Str)
      → (print_all strftime (at now ((name ++ (codes ": " ++ forge content other)) ∷ [])) l).disk n
        ≡ (print_all strftime (at now ((name ++ (codes ": " ++ content)) ∷ other ∷ [])) l).disk n
  unfolding print_all
  forged_text name content other l n =
      ap (λ x. (print strftime true now x l).disk n)
        (ap (λ x. name ++ x) (sym (append_assoc (codes ": ") content rest))
          ∙ sym (append_assoc name (codes ": " ++ content) rest))
      ∙ print-forge (name ++ (codes ": " ++ content)) other l n
    where
      rest : Str
      rest = newline ∷ (get_current_time strftime now ++ tab ∷ other)

  -- A player can write a line of another text into the log. Where a client's chat message, whose
  -- source has at most 127 bytes, says `content` and, behind a newline, the time and a tab, the
  -- text `other`, all in at most 127 bytes, which is what GetString reads, the handler ends, and
  -- what it has the log print, in that second, leaves every file as if the server had printed the
  -- chat line for `content` and then `other` as a line of its own.
  pub chat-forge :
      (p b : ℕ) (source content other : Str) (rest : List ℕ) (s : Session) (l : Log)
      → s.this_client ≡ some p
      → length source < 128
      → length (forge content other) < 128
      → (t : Session) × (texts : List Str) × (handle_chat_message
            (chat_bytes b source (forge content other) rest)
            1
            s
          ≡ ok t)
        × (t.log ≡ s.log ++ texts)
        × ((n : Str)
            → (print_all strftime (at now texts) l).disk n
              ≡ (print_all strftime
                    (at now (((s.heap p).username ++ (codes ": " ++ content)) ∷ other ∷ []))
                    l).disk
                  n)
  unfolding chat on_client on_server add_to_inbox Session.print
  chat-forge p b source content other rest s l own short fits = (
    chat p (forge content other) s,
    ((s.heap p).username ++ (codes ": " ++ forge content other)) ∷ [],
    chat_read (chat_bytes b source (forge content other) rest) s _ p
        (read_chat-bytes b source (forge content other) rest short fits) own,
    refl,
    forged_text (s.heap p).username content other l,
  )
