-- ===== src/Handler/Update/Relay.antt =====
-- What the last loop of `HandleUpdate` of src/request_handler.cpp leaves a reader knowing.
use ogmp_server.Base.{
  ℕ, ◌≡◌, refl, ◌∙◌, ap, sym, Bool, true, false, ℤ, negsuc, int_eq, length, arith, ◌==◌, ==_iff,
  ==-refl, Bool-cases, ◌⊎◌, inl, inr,
}
use ogmp_server.Text.{Str, str_eq_refl}
use ogmp_server.Reply.{Reply}
use ogmp_server.Client.{Client}
use ogmp_server.Client.History.{get_key, set_key, get_last_update_key}
use ogmp_server.Client.History.Missing.{missing-last_key}
use ogmp_server.Client.History.Keys.{get_key-set_key}
use ogmp_server.Manager.{Heap, write}
use ogmp_server.Handler.Session.{Session, push_reply, on_client}
use ogmp_server.Handler.Update.Send.{
  update_head, send_update, add_other_client_variables, add_other_types,
}

-- The reader in cell `p` knows the newest update of the client in cell `q`.
abbrev pub IsUpToDate : ℕ → ℕ → Session → Type 0
IsUpToDate p q s = get_key (s.heap q).username (s.heap p) ≡ get_last_update_key (s.heap q)

add_nothing : (c : Client) (r : Reply) → add_other_client_variables c (get_last_update_key c) r ≡ r
unfolding add_other_client_variables add_other_types
add_nothing c r = rw (missing-last_key c) refl

-- A reader that knows the newest update is sent nothing.
pub send_update-IsUpToDate : (p q : ℕ) (s : Session) → IsUpToDate p q s → send_update p q s ≡ s
unfolding send_update
send_update-IsUpToDate p q s e =
    elim (Bool-cases (int_eq (get_last_update_key (s.heap q)) (negsuc 0))) [
      | inl h ↦ rw (e, h) refl
      | inr h ↦
          rw
            (
              e,
              h,
              add_nothing (s.heap q) (update_head (s.heap q)),
              ==-refl (length (update_head (s.heap q))),
            )
            refl
    ]

pub write-same :
    {A : Type 0} (g : Client → A) (p q : ℕ) (c : Client) (heap : Heap)
    → g c ≡ g (heap p)
    → g (write p c heap q) ≡ g (heap q)
write-same g p q c heap e = ground (arith, ==_iff p q, λ (d : p ≡ q). e ∙ ap (λ i. g (heap i)) d)

write_self : (p : ℕ) (c : Client) (heap : Heap) → write p c heap p ≡ c
write_self p c heap = rw (==-refl p)

-- The session after the reader's index has been set.
abbrev pub noted : ℕ → ℕ → Session → Session
noted p q s = on_client p (set_key (s.heap q).username (get_last_update_key (s.heap q))) s

noted-IsUpToDate : (p q : ℕ) (s : Session) → IsUpToDate p q (noted p q s)
unfolding on_client
noted-IsUpToDate p q s =
    ap (λ n. get_key n (write p c s.heap p))
      (write-same (λ (d : Client). d.username) p q c s.heap name)
    ∙ ap (get_key (s.heap q).username) (write_self p c s.heap)
    ∙ get_key-set_key (s.heap q).username (s.heap q).username (get_last_update_key (s.heap q))
        (s.heap p)
    ∙ rw (str_eq_refl (s.heap q).username) (sym (write-same get_last_update_key p q c s.heap key))
  where
    c : Client
    c = set_key (s.heap q).username (get_last_update_key (s.heap q)) (s.heap p)

    name : c.username ≡ (s.heap p).username
    name = unfold set_key in refl

    key : get_last_update_key c ≡ get_last_update_key (s.heap p)
    key = unfold set_key get_last_update_key in refl

-- The message with the variables that the reader has missed.
abbrev pub full : ℕ → ℕ → Session → Reply
full p q s =
    add_other_client_variables (s.heap q) (get_key (s.heap q).username (s.heap p))
      (update_head (s.heap q))

-- The four ways through the round, by its tests: whether the reader has an index, whether the other
-- client has an update, and whether the message has grown.
module _ (p q : ℕ) (s : Session) where
  abbrev pub is_first : Bool
  is_first = int_eq (get_key (s.heap q).username (s.heap p)) (negsuc 0)

  abbrev is_silent : Bool
  is_silent = int_eq (get_last_update_key (s.heap q)) (negsuc 0)

  abbrev pub is_unchanged : Bool
  is_unchanged = length (full p q s) == length (update_head (s.heap q))

  send_update_silent : is_first ≡ true → is_silent ≡ true → send_update p q s ≡ s
  unfolding send_update
  send_update_silent a b = rw (a, b) refl

  send_update_first : is_first ≡ true → is_silent ≡ false → send_update p q s ≡ noted p q s
  unfolding send_update
  send_update_first a b = rw (a, b) refl

  send_update_unchanged : is_first ≡ false → is_unchanged ≡ true → send_update p q s ≡ s
  unfolding send_update
  send_update_unchanged a b = rw (a, b) refl

  pub send_update_news :
      is_first ≡ false
      → is_unchanged ≡ false
      → send_update p q s ≡ push_reply (full p q s) (noted p q s)
  unfolding send_update
  send_update_news a b = rw (a, b) refl

  pub push_reply-IsUpToDate : (r : Reply) → IsUpToDate p q (push_reply r (noted p q s))
  unfolding push_reply
  push_reply-IsUpToDate r = noted-IsUpToDate p q s

-- A round changes nothing in the store, or the reader's index.
pub send_update-heap :
    (p q : ℕ) (s : Session)
    → ((send_update p q s).heap ≡ s.heap) ⊎ ((send_update p q s).heap ≡ (noted p q s).heap)
unfolding push_reply
send_update-heap p q s = elim (Bool-cases (is_first p q s)) [
  | inl first ↦ elim (Bool-cases (is_silent p q s)) [
    | inl silent ↦ inl (rw (send_update_silent p q s first silent) refl)
    | inr update ↦ inr (rw (send_update_first p q s first update) refl)
  ]
  | inr later ↦ elim (Bool-cases (is_unchanged p q s)) [
    | inl unchanged ↦ inl (rw (send_update_unchanged p q s later unchanged) refl)
    | inr news ↦ inr (rw (send_update_news p q s later news) refl)
  ]
]

-- A round changes nothing of a client but its keys.
pub send_update-same :
    {A : Type 0} (g : Client → A)
    → ((n : Str) (k : ℤ) (c : Client) → g (set_key n k c) ≡ g c)
    → (p q r : ℕ) (s : Session) → g ((send_update p q s).heap r) ≡ g (s.heap r)
unfolding on_client
send_update-same g keeps p q r s = elim (send_update-heap p q s) [
  | inl e ↦ ap (λ h. g (h r)) e
  | inr e ↦ ap (λ h. g (h r)) e ∙ write-same g p r _ s.heap (keeps _ _ (s.heap p))
]
