-- ===== src/Client/History/Lag.antt =====
-- A reader that falls behind by a whole cycle of indices.
use ogmp_server.Base.{
  ℕ, ◌+◌, ◌%◌, ◌<◌, ◌≡◌, refl, ◌∙◌, sym, ap, List, [], ◌∷◌, arith, length, pos, subst,
}
use ogmp_server.Client.Record.{Client}
use ogmp_server.Client.History.{
  UpdateHistory, get_last_update_key, last_key, get_missing_update_variable_types, add_history,
  pop_back,
}
use ogmp_server.Client.History.Cycle.{IsHistory, Chain, add_history-IsHistory, previous}
use ogmp_server.Client.History.Missing.{missing-last_key}

-- The updates of a player, in the order in which they come.
pub add_updates : List (List ℕ) → Client → Client
add_updates [] c = c
add_updates (ts ∷ tss) c = add_updates tss (add_history ts c)

last_key-pop_back :
    (h : UpdateHistory) (hs : List UpdateHistory)
    → 0 < length hs
    → last_key (pop_back (h ∷ hs)) ≡ pos h.0
unfolding last_key pop_back
last_key-pop_back h [] p = elim p [ ]
last_key-pop_back h (g ∷ hs) p = refl

-- The newest entry has the index in front of the next one.
abbrev IsCurrent : Client → Type 0
IsCurrent c = get_last_update_key c ≡ pos (previous c.history_index)

add_history-index :
    (ts : List ℕ) (c : Client)
    → IsHistory c
    → (add_history ts c).history_index ≡ (c.history_index + 1) % 11
unfolding add_history
add_history-index ts c v = ground arith

add_history-key :
    (ts : List ℕ) (c : Client) → get_last_update_key (add_history ts c) ≡ pos c.history_index
unfolding add_history get_last_update_key last_key
add_history-key ts c =
    ground (arith, last_key-pop_back (c.history_index, ts) c.client_update_history)

add_updates-index :
    (tss : List (List ℕ)) (c : Client)
    → IsHistory c
    → (add_updates tss c).history_index ≡ (c.history_index + length tss) % 11
unfolding add_updates
add_updates-index [] c v = omega (arith, v.index)
add_updates-index (ts ∷ tss) c v = omega (
  arith,
  add_updates-index tss (add_history ts c) (add_history-IsHistory ts c v),
  add_history-index ts c v,
)

add_updates-IsCurrent :
    (tss : List (List ℕ)) (c : Client) → IsHistory c → IsCurrent c → IsCurrent (add_updates tss c)
unfolding add_updates
add_updates-IsCurrent [] c v e = e
add_updates-IsCurrent (ts ∷ tss) c v e =
    add_updates-IsCurrent tss (add_history ts c) (add_history-IsHistory ts c v) step
  where
    back : c.history_index ≡ previous (add_history ts c).history_index
    back = omega (arith, add_history-index ts c v, v.index)

    step : IsCurrent (add_history ts c)
    step = add_history-key ts c ∙ ap pos back

abbrev eleven : ℕ
eleven = 11

-- A reader that saw the newest of a player's updates, from a history whose indices are in their
-- cycle, and then misses eleven of them gets nothing, as if it were up to date: the index that it
-- knows is the newest one again.
pub eleven_updates_lost :
    (c : Client) (h : UpdateHistory) (hs : List UpdateHistory) (tss : List (List ℕ))
    → IsHistory c
    → c.client_update_history ≡ h ∷ hs
    → length tss ≡ eleven
    → get_missing_update_variable_types (get_last_update_key c) (add_updates tss c) ≡ []
eleven_updates_lost c h hs tss v e n = rw same (missing-last_key (add_updates tss c))
  where
    current : get_last_update_key c ≡ pos (previous c.history_index)
    current =
        unfold get_last_update_key last_key in
        rw e (ap pos (subst (Chain c.history_index) e v.chain).0)

    turned : (add_updates tss c).history_index ≡ c.history_index
    turned = omega (arith, add_updates-index tss c v, n, v.index)

    same : get_last_update_key c ≡ get_last_update_key (add_updates tss c)
    same =
        current
        ∙ ap (λ i. pos (previous i)) (sym turned)
        ∙ sym (add_updates-IsCurrent tss c v current)
