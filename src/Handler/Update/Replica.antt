-- ===== src/Handler/Update/Replica.antt =====
-- What another player's client knows of a player, over `HandleUpdate` of the one and of the other in
-- src/request_handler.cpp.
use ogmp_server.Text.{Str, str_eq, str_eq_refl, c_str}
use ogmp_server.Base.{
  take, take-length-append, ◌%◌, ◌<◌, ◌==◌, Option, none, some, ℕ, ◌≤◌, ◌≡◌, refl, ◌∙◌, ap, sym,
  List, [], ◌∷◌, ◌++◌, false, length, drop, drop-length-append, append-nil, arith, inl, inr,
  Bool-cases, if◌then◌else◌,
}
use ogmp_server.Reply.{Reply}
use ogmp_server.Client.{Client}
use ogmp_server.Client.History.{
  UpdateHistory, elem, get_key, set_key, get_last_update_key, last_key,
}
use ogmp_server.Client.History.Cycle.{IsHistory}
use ogmp_server.Client.History.Missing.{sent}
use ogmp_server.Handler.Session.{Session}
use ogmp_server.Handler.Update.Send.{update_head, send_update, add_other_types}
use ogmp_server.Handler.Update.Relay.{IsUpToDate, send_update-IsUpToDate, send_update-same}
use ogmp_server.Handler.Update.Delivery.{send_update_types}
use ogmp_server.Handler.Update.Values.{
  about, update_head_lem, View, value_of, unpack, body, add_other_types-body, length-body,
  unpack-body,
}
use ogmp_server.Handler.Update.Recorded.{
  Updates, value_of-same, Updates-keeps, Updates-IsHistory, Updates-Knows, Updates-new,
}

-- The name in a message about a player, and the types and values behind it.
parse_update : Reply → Option (Str × List ℕ)
parse_update (kind ∷ size ∷ rest) =
    if kind == 9 then some (take size rest, drop size rest) else none
parse_update _ = none

-- What a reader knows of the player with the name when it has taken in one message.
hear : Str → Option (Str × List ℕ) → View → View
hear name none view = view
hear name (some (who, types)) view =
    if str_eq who name then unpack (length types) types view else view

-- And the messages, one after the other.
pub learn : Str → List Reply → View → View
learn name [] view = view
learn name (m ∷ ms) view = learn name ms (hear name (parse_update m) view)

parse_update-about :
    (name : Str) (types : List ℕ)
    → length (c_str name) < 256
    → parse_update (about name ++ types) ≡ some (c_str name, types)
unfolding parse_update
parse_update-about name types short =
    rw (small, take-length-append (c_str name) types, drop-length-append (c_str name) types) refl
  where
    small : length (c_str name) % 256 ≡ length (c_str name)
    small = omega arith

learn-about :
    (name : Str) (types : List ℕ) (view : View)
    → length (c_str name) < 256
    → learn (c_str name) ((about name ++ types) ∷ []) view ≡ unpack (length types) types view
unfolding learn hear
learn-about name types view short =
    ap (λ o. hear (c_str name) o view) (parse_update-about name types short)
    ∙ rw (str_eq_refl (c_str name)) refl

learn-add_other_types :
    (types : List ℕ) (c : Client) (view : View) (u : ℕ)
    → length (c_str c.username) < 256
    → learn (c_str c.username) (add_other_types types c (update_head c) ∷ []) view u
      ≡ (if elem u types then value_of u c else view u)
learn-add_other_types types c view u short =
    ap (λ m. learn (c_str c.username) (m ∷ []) view u)
      (add_other_types-body types c (update_head c)
        ∙ ap (λ x. x ++ body types c) (update_head_lem c))
    ∙ ap (λ f. f u) (learn-about c.username (body types c) view short)
    ∙ unpack-body (length (body types c)) types c view u (length-body types c)

send_update-value_of :
    (p q u : ℕ) (s : Session) → value_of u ((send_update p q s).heap q) ≡ value_of u (s.heap q)
send_update-value_of p q u s =
    value_of-same u (s.heap q) ((send_update p q s).heap q)
      (send_update-same (λ c. c.player) (λ n k c. unfold set_key in refl) p q q s)

-- A reader whose copy was right, and who knew the newest update then, gets what makes it right again,
-- where at most nine updates have been recorded since.
pub caught_up :
    (p q : ℕ) (c : Client) (h : UpdateHistory) (older newer : List UpdateHistory) (s : Session)
    (view : View)
    → IsHistory c
    → c.client_update_history ≡ h ∷ older
    → ((u : ℕ) → view u ≡ value_of u c)
    → Updates c newer (s.heap q)
    → length newer ≤ 9
    → get_key (s.heap q).username (s.heap p) ≡ get_last_update_key c
    → length (c_str (s.heap q).username) < 256
    → (news : List Reply) × ((send_update p q s).rep ≡ s.rep ++ news)
      × (length news ≤ 1)
      × ((u : ℕ)
          → learn (c_str (s.heap q).username) news view u ≡ value_of u ((send_update p q s).heap q))
      × IsUpToDate p q (send_update p q s)
unfolding get_last_update_key last_key
caught_up p q c (k, ts) older newer s view v e right us short key named =
    let (older', at) = Updates-Knows c (k, ts) older us e short in
    let kept = Updates-IsHistory c us v in
    let known = key ∙ ap last_key e in
    elim (Updates-new c us) [
      | inl none_new ↦
          let current = known ∙ sym (ap last_key (at ∙ ap (λ z. z ++ (k, ts) ∷ older') none_new)) in
          let quiet = send_update-IsUpToDate p q s current in
          (
            [],
            rw quiet (sym (append-nil s.rep)),
            omega arith,
            λ u.
                unfold learn in
                rw quiet (right u ∙ sym (unchanged u (ap (sent u) none_new ∙ unfold sent in refl))),
            rw quiet current,
          )
      | inr (t, some_type) ↦
          let (types, message, carried, distinct, current) =
            send_update_types p q s k t newer ts older' kept at known some_type in
          (
            add_other_types types (s.heap q) (update_head (s.heap q)) ∷ [],
            message,
            omega arith,
            λ u.
                learn-add_other_types types (s.heap q) view u named
                ∙ taken types carried u
                ∙ sym (send_update-value_of p q u s),
            current,
          )
    ]
  where
    unchanged : (u : ℕ) → sent u newer ≡ false → value_of u (s.heap q) ≡ value_of u c
    unchanged u n = Updates-keeps c us u n

    taken :
        (types : List ℕ)
        → ((u : ℕ) → elem u types ≡ sent u newer)
        → (u : ℕ) → (if elem u types then value_of u (s.heap q) else view u) ≡ value_of u (s.heap q)
    taken types carried u = elim (Bool-cases (sent u newer)) [
      | inl new ↦ rw (carried u, new) refl
      | inr old ↦ rw (carried u, old) (right u ∙ sym (unchanged u old))
    ]
