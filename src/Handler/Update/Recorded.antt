-- ===== src/Handler/Update/Recorded.antt =====
-- A client over updates that `HandleUpdate` of src/request_handler.cpp reads and records: what stays of
-- its variables and of its history.
use ogmp_server.Base.{
  ℕ, suc, ◌≤◌, ◌≡◌, refl, ◌∙◌, ap, List, [], ◌∷◌, ◌++◌, true, false, length, length-append, arith,
  ok, ltb, ◌⊎◌, inl, inr, Bool-cases, Option-cases,
}
use ogmp_server.Client.{Client, Player}
use ogmp_server.Client.Variables.{PlayerVariable, variable_of}
use ogmp_server.Client.Setters.{set_all_variables_old, get_variable}
use ogmp_server.Client.History.{UpdateHistory, max_history, add_history, pop_back, elem}
use ogmp_server.Client.History.Cycle.{IsHistory}
use ogmp_server.Client.History.Missing.{sent}
use ogmp_server.Handler.Keeps.{IsHistory-same}
use ogmp_server.Handler.Update.{record_history}
use ogmp_server.Handler.Update.Read.{read_variables}
use ogmp_server.Handler.Update.Keeps.{read_variables-IsSame'}
use ogmp_server.Handler.Update.History.{record_history-IsHistory}
use ogmp_server.Handler.Update.Values.{value_of, sent_bytes}
use ogmp_server.Handler.Update.Untouched.{read_variables-IsUntouched}

-- From one state of a client to a later one, with the updates in between that were recorded, newest
-- first: messages whose variables are read and recorded, and changes of other members.
pub data Updates (c : Client) : List UpdateHistory → Client → Type 0 where
  stays : Updates c [] c
  silent :
      {newer : List UpdateHistory} {d e : Client}
      → Updates c newer d
      → (data_ : List ℕ) (size : ℕ)
      → read_variables (suc size) size data_ 1 (set_all_variables_old d) [] ≡ ok (e, [])
      → Updates c newer (record_history [] e)
  update :
      {newer : List UpdateHistory} {d e : Client} {t : ℕ} {ts : List ℕ}
      → Updates c newer d
      → (data_ : List ℕ) (size : ℕ)
      → read_variables (suc size) size data_ 1 (set_all_variables_old d) [] ≡ ok (e, t ∷ ts)
      → Updates c ((e.history_index, t ∷ ts) ∷ newer) (record_history (t ∷ ts) e)
  aside :
      {newer : List UpdateHistory} {d e : Client}
      → Updates c newer d
      → e.player ≡ d.player
      → e.history_index ≡ d.history_index
      → e.client_update_history ≡ d.client_update_history
      → Updates c newer e

get_variable-player :
    (v : PlayerVariable) (c d : Client)
    → get_variable v c ≡ get_variable v (record d { player = c.player })
unfolding get_variable
get_variable-player PlayerVariable.crouch c d = refl
get_variable-player _ c d = refl

pub value_of-same : (u : ℕ) (c d : Client) → d.player ≡ c.player → value_of u d ≡ value_of u c
unfolding value_of variable_of
value_of-same u c d e = elim (Option-cases (variable_of u)) [
  | inl g ↦ rw g refl
  | inr (v, g) ↦ rw g (
      ap (sent_bytes v) (
        get_variable-player v d c
        ∙ ap (λ (x : Player). get_variable v (record c { player = x })) e))
]

-- A value whose type is in no update stays.
pub Updates-keeps :
    (c : Client) {newer : List UpdateHistory} {d : Client}
    → Updates c newer d
    → (u : ℕ) → sent u newer ≡ false
    → value_of u d ≡ value_of u c
unfolding sent record_history add_history set_all_variables_old elem
Updates-keeps c stays u n = refl
Updates-keeps c (silent {newer = newer} {d = d} {e = e} us data_ size f) u n =
    read_variables-IsUntouched (suc size) size data_ 1 (set_all_variables_old d) e [] f u refl
    ∙ value_of-same u d (set_all_variables_old d) refl
    ∙ Updates-keeps c us u n
Updates-keeps c (update {newer = newer} {d = d} {e = e} {t = t} {ts = ts} us data_ size f) u n =
    value_of-same u e (add_history (t ∷ ts) e) refl
    ∙ read_variables-IsUntouched (suc size) size data_ 1 (set_all_variables_old d) e (t ∷ ts) f u
        (ground arith)
    ∙ value_of-same u d (set_all_variables_old d) refl
    ∙ Updates-keeps c us u (ground arith)
Updates-keeps c (aside {newer = newer} {d = d} {e = e} us same i hs) u n =
    value_of-same u d e same ∙ Updates-keeps c us u n

pub Updates-IsHistory :
    (c : Client) {newer : List UpdateHistory} {d : Client}
    → Updates c newer d
    → IsHistory c
    → IsHistory d
unfolding set_all_variables_old
Updates-IsHistory c stays v = v
Updates-IsHistory c (silent {d = d} {e = e} us data_ size f) v =
    let same =
      read_variables-IsSame' (suc size) size data_ 1 (set_all_variables_old d) [] (e, []) f in
    record_history-IsHistory e (IsHistory-same d e same.1 same.2 (Updates-IsHistory c us v)) []
Updates-IsHistory c (update {d = d} {e = e} {t = t} {ts = ts} us data_ size f) v =
    let same =
      read_variables-IsSame' (suc size) size data_ 1 (set_all_variables_old d) [] (e, t ∷ ts) f in
    record_history-IsHistory e (IsHistory-same d e same.1 same.2 (Updates-IsHistory c us v))
      (t ∷ ts)
Updates-IsHistory c (aside {d = d} {e = e} us same i hs) v =
    IsHistory-same d e i hs (Updates-IsHistory c us v)

-- The entry `h` stands behind the newer ones.
abbrev Knows : UpdateHistory → List UpdateHistory → List UpdateHistory → Type 0
Knows h newer hs = (older : List UpdateHistory) × (hs ≡ newer ++ h ∷ older)

pop_back-append :
    (newer : List UpdateHistory) (h g : UpdateHistory) (older : List UpdateHistory)
    → pop_back (newer ++ h ∷ g ∷ older) ≡ newer ++ h ∷ pop_back (g ∷ older)
unfolding pop_back
pop_back-append [] h g older = refl
pop_back-append (x ∷ []) h g older = refl
pop_back-append (x ∷ y ∷ newer) h g older = ap (λ z. x ∷ z) (pop_back-append (y ∷ newer) h g older)

add_history-Knows :
    (h : UpdateHistory) (newer : List UpdateHistory) (ts : List ℕ) (e : Client)
    → length newer ≤ 8
    → Knows h newer e.client_update_history
    → Knows h ((e.history_index, ts) ∷ newer) (add_history ts e).client_update_history
unfolding add_history
add_history-Knows h newer ts e short ([], k) = (
  [],
  ground (arith, ap length k, length-append newer (h ∷ []), ap (λ z. (e.history_index, ts) ∷ z) k),
)
add_history-Knows h newer ts e short (g ∷ older, k) =
    elim (Bool-cases (ltb max_history (length ((e.history_index, ts) ∷ e.client_update_history)))) [
      | inl full ↦ (
        pop_back (g ∷ older),
        rw full (
            ap (λ z. pop_back ((e.history_index, ts) ∷ z)) k
            ∙ pop_back-append ((e.history_index, ts) ∷ newer) h g older),
      )
      | inr room ↦ (g ∷ older, rw room (ap (λ z. (e.history_index, ts) ∷ z) k))
    ]

pub Updates-Knows :
    (c : Client) (h : UpdateHistory) (older : List UpdateHistory) {newer : List UpdateHistory}
    {d : Client}
    → Updates c newer d
    → c.client_update_history ≡ h ∷ older
    → length newer ≤ 9
    → Knows h newer d.client_update_history
unfolding set_all_variables_old record_history
Updates-Knows c h older stays e short = (older, e)
Updates-Knows c h older (silent {d = d} {e = e} us data_ size f) k short =
    let same =
      read_variables-IsSame' (suc size) size data_ 1 (set_all_variables_old d) [] (e, []) f in
    let (older', at) = Updates-Knows c h older us k short in (older', same.2 ∙ at)
Updates-Knows c h older (update {newer = newer} {d = d} {e = e} {t = t} {ts = ts} us data_ size f) k
      short =
    let same =
      read_variables-IsSame' (suc size) size data_ 1 (set_all_variables_old d) [] (e, t ∷ ts) f in
    let (older', at) = Updates-Knows c h older us k (omega arith) in
    add_history-Knows h newer (t ∷ ts) e (omega arith) (older', same.2 ∙ at)
Updates-Knows c h older (aside {d = d} {e = e} us same i hs) k short =
    let (older', at) = Updates-Knows c h older us k short in (older', hs ∙ at)

-- Recorded updates carry a type.
pub Updates-new :
    (c : Client) {newer : List UpdateHistory} {d : Client}
    → Updates c newer d
    → (newer ≡ []) ⊎ ((t : ℕ) × (sent t newer ≡ true))
unfolding sent elem
Updates-new c stays = inl refl
Updates-new c (silent us data_ size f) = Updates-new c us
Updates-new c (update {t = t} us data_ size f) = inr (t, ground arith)
Updates-new c (aside us same i hs) = Updates-new c us
