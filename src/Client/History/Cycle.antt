-- ===== src/Client/History/Cycle.antt =====
-- The indices of the history run through 0 to 10, and among the ten entries kept none stands twice.
use ogmp_server.Base.{
  ℕ, ◌+◌, ◌-◌, ◌%◌, ◌≤◌, ◌≡◌, ◌≢◌, refl, List, [], ◌∷◌, ◌++◌, arith, length, All, ltb,
  if◌then◌else◌,
}
use ogmp_server.Client.Record.{Client, Uninitialised, new_client}
use ogmp_server.Client.History.{UpdateHistory, add_history, pop_back}

-- The index in front of `k` in the cycle.
abbrev pub previous : ℕ → ℕ
previous k = (k + 10) % 11

-- The entries' indices go down the cycle from `k`.
abbrev pub Chain : ℕ → List UpdateHistory → Type 0
Chain k [] = Unit
Chain k (h ∷ hs) = (h.0 ≡ previous k) × Chain h.0 hs

pub record IsHistory (c : Client) : Type 0 where
  pub index : c.history_index ≤ 10
  pub size : length c.client_update_history ≤ 10
  pub chain : Chain c.history_index c.client_update_history

Chain-pop_back : (k : ℕ) (hs : List UpdateHistory) → Chain k hs → Chain k (pop_back hs)
unfolding pop_back
Chain-pop_back k [] c = c
Chain-pop_back k (h ∷ []) c = tt
Chain-pop_back k (h ∷ g ∷ hs) c = (c.0, Chain-pop_back h.0 (g ∷ hs) c.1)

length-pop_back : (hs : List UpdateHistory) → length (pop_back hs) ≡ length hs - 1
unfolding pop_back
length-pop_back [] = refl
length-pop_back (h ∷ []) = refl
length-pop_back (h ∷ g ∷ hs) = omega (arith, length-pop_back (g ∷ hs))

pub new_client-IsHistory : (u : Uninitialised) → IsHistory (new_client u)
unfolding new_client
new_client-IsHistory u = record { index = omega arith; size = omega arith; chain = tt }

-- Adding an update keeps the indices in their cycle, one step from entry to entry, and at most ten
-- entries.
pub add_history-IsHistory : (ts : List ℕ) (c : Client) → IsHistory c → IsHistory (add_history ts c)
unfolding add_history
add_history-IsHistory ts c v = ground (
  arith,
  length-pop_back ((c.history_index, ts) ∷ c.client_update_history),
  Chain-pop_back (if ltb 10 (c.history_index + 1) then 0 else c.history_index + 1)
      ((c.history_index, ts) ∷ c.client_update_history),
)

-- An entry's index, from its position.
Chain-index :
    (k : ℕ) (newer : List UpdateHistory) (h : UpdateHistory) (older : List UpdateHistory)
    → k ≤ 10
    → length newer ≤ 9
    → Chain k (newer ++ h ∷ older)
    → h.0 ≡ (k + 10 - length newer) % 11
Chain-index k [] h older le short c = omega (arith, c.0)
Chain-index k (g ∷ newer) h older le short c =
    let ih = Chain-index g.0 newer h older (omega (arith, c.0)) (omega arith) c.1 in
    omega (arith, c.0, ih)

-- No newer entry has the index of an entry.
pub Chain-distinct :
    (k : ℕ) (newer : List UpdateHistory) (h : UpdateHistory) (older : List UpdateHistory)
    → k ≤ 10
    → length newer ≤ 9
    → Chain k (newer ++ h ∷ older)
    → All (λ g. g.0 ≢ h.0) newer
Chain-distinct k [] h older le short c = tt
Chain-distinct k (g ∷ newer) h older le short c =
    let le' : g.0 ≤ 10 = omega (arith, c.0) in
    let at = Chain-index g.0 newer h older le' (omega arith) c.1 in
    (λ e. omega (arith, e, at), Chain-distinct g.0 newer h older le' (omega arith) c.1)
