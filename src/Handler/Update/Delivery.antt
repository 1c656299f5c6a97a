-- ===== src/Handler/Update/Delivery.antt =====
-- What a reader who has missed updates gets from `AddOtherClientVariables` of
-- src/request_handler.cpp.
use ogmp_server.Base.{
  Option-cases, inl, inr, if◌then◌else◌, to_char, ℕ, ◌+◌, ◌≤◌, ◌<◌, ◌≡◌, refl, ◌∙◌, ap, true, false,
  List, [], ◌∷◌, ◌++◌, pos, length, length-append, arith, ◌==◌,
}
use ogmp_server.Reply.{Reply, add_char, add_bool, add_float, add_int, float_bytes}
use ogmp_server.Client.{Client}
use ogmp_server.Client.Variables.{Value, add_value, variable_of, PlayerVariable}
use ogmp_server.Client.Setters.{get_variable}
use ogmp_server.Client.History.{UpdateHistory, elem, get_key, get_missing_update_variable_types}
use ogmp_server.Client.History.Cycle.{IsHistory}
use ogmp_server.Client.History.Missing.{missing_exact, IsDistinct, sent}
use ogmp_server.Handler.Session.{Session, push_reply, on_client}
use ogmp_server.Handler.Update.Send.{
  update_head, send_update, add_other_value, add_other_variable, add_other_types,
  add_other_client_variables,
}
use ogmp_server.Handler.Update.Values.{about, body, update_head_lem, add_other_types-body}
use ogmp_server.Handler.Update.Relay.{
  is_first, is_unchanged, IsUpToDate, full, noted, send_update_news, push_reply-IsUpToDate,
}

add_value-grows : (v : Value) (r : Reply) → length r ≤ length (add_value v r)
unfolding add_value add_bool add_float add_int add_char
add_value-grows (Value.flag b) r = omega (arith, length-append r ((if b then 1 else 0) ∷ []))
add_value-grows (Value.real f) r = omega (arith, length-append r (float_bytes f))
add_value-grows (Value.whole n) r = omega (arith, length-append r (to_char n ∷ []))

add_other_value-grows :
    (v : PlayerVariable) (c : Client) (r : Reply) → length r ≤ length (add_other_value v c r)
unfolding add_other_value
add_other_value-grows PlayerVariable.remove_blood c r = omega arith
add_other_value-grows v c r = add_value-grows (get_variable v c) r

add_other_variable-grows :
    (b : ℕ) (c : Client) (r : Reply) → length r < length (add_other_variable b c r)
unfolding add_other_variable add_char variable_of
add_other_variable-grows b c r = elim (Option-cases (variable_of b)) [
  | inl e ↦ rw e (omega (arith, length-append r (b ∷ [])))
  | inr (v, e) ↦
      rw e (omega (arith, length-append r (b ∷ []), add_other_value-grows v c (r ++ b ∷ [])))
]

add_other_types-grows :
    (bs : List ℕ) (c : Client) (r : Reply) → length r + length bs ≤ length (add_other_types bs c r)
unfolding add_other_types
add_other_types-grows [] c r = omega arith
add_other_types-grows (b ∷ bs) c r =
    omega
      (arith, add_other_variable-grows b c r, add_other_types-grows bs c (add_other_variable b c r))

elem→length : (t : ℕ) (bs : List ℕ) → elem t bs ≡ true → 0 < length bs
unfolding elem
elem→length t [] h = cc
elem→length t (b ∷ bs) h = omega arith

larger : (a b : ℕ) → a < b → (b == a) ≡ false
larger a b h = ground arith

-- The message that is sent, as the code puts it together.
pub send_update_types :
    (p q : ℕ) (s : Session) (k t : ℕ) (newer : List UpdateHistory) (ts : List ℕ)
    (older : List UpdateHistory)
    → IsHistory (s.heap q)
    → (s.heap q).client_update_history ≡ newer ++ (k, ts) ∷ older
    → get_key (s.heap q).username (s.heap p) ≡ pos k
    → sent t newer ≡ true
    → (types : List ℕ) × ((send_update p q s).rep
        ≡ s.rep ++ add_other_types types (s.heap q) (update_head (s.heap q)) ∷ [])
      × ((u : ℕ) → elem u types ≡ sent u newer)
      × IsDistinct types
      × IsUpToDate p q (send_update p q s)
unfolding push_reply on_client add_other_client_variables
send_update_types p q s k t newer ts older v e key some_type = rw news (
  types,
  ap
      (λ i.
        s.rep
        ++ add_other_types (get_missing_update_variable_types i (s.heap q)) (s.heap q)
            (update_head (s.heap q))
          ∷ [])
      key,
  λ u. (missing_exact (s.heap q) k newer ts older v e u).0,
  (missing_exact (s.heap q) k newer ts older v e t).1,
  push_reply-IsUpToDate p q s (full p q s),
)
  where
    types : List ℕ
    types = get_missing_update_variable_types (pos k) (s.heap q)

    head : Reply
    head = update_head (s.heap q)

    message : full p q s ≡ add_other_types types (s.heap q) head
    message =
        unfold add_other_client_variables in
        ap (λ i. add_other_types (get_missing_update_variable_types i (s.heap q)) (s.heap q) head)
          key

    some_missing : 0 < length types
    some_missing =
        elem→length t types ((missing_exact (s.heap q) k newer ts older v e t).0 ∙ some_type)

    later : is_first p q s ≡ false
    later = rw key refl

    grown : is_unchanged p q s ≡ false
    grown =
        ap (λ r. length r == length head) message
        ∙ larger (length head) (length (add_other_types types (s.heap q) head))
            (omega (arith, some_missing, add_other_types-grows types (s.heap q) head))

    news : send_update p q s ≡ push_reply (full p q s) (noted p q s)
    news = send_update_news p q s later grown

-- A reader who knows an entry that is still in another client's history, where the indices of the
-- history are in their cycle, and has missed newer ones of which at least one carried a type, is sent
-- one message about that client. It names the client, and holds each type that a missed update carried,
-- once and no others, with the bytes of the client's current value of that variable; the reader's index
-- is then the newest.
pub send_update_missed :
    (p q : ℕ) (s : Session) (k t : ℕ) (newer : List UpdateHistory) (ts : List ℕ)
    (older : List UpdateHistory)
    → IsHistory (s.heap q)
    → (s.heap q).client_update_history ≡ newer ++ (k, ts) ∷ older
    → get_key (s.heap q).username (s.heap p) ≡ pos k
    → sent t newer ≡ true
    → (types : List ℕ) × ((send_update p q s).rep
        ≡ s.rep ++ (about (s.heap q).username ++ body types (s.heap q)) ∷ [])
      × ((u : ℕ) → elem u types ≡ sent u newer)
      × IsDistinct types
      × IsUpToDate p q (send_update p q s)
send_update_missed p q s k t newer ts older v e key some_type =
    let (types, message, carried, distinct, current) =
      send_update_types p q s k t newer ts older v e key some_type in
    (
      types,
      message
          ∙ ap (λ m. s.rep ++ m ∷ [])
              (add_other_types-body types (s.heap q) (update_head (s.heap q))
                ∙ ap (λ x. x ++ body types (s.heap q)) (update_head_lem (s.heap q))),
      carried,
      distinct,
      current,
    )
