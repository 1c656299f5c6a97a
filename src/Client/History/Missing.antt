-- ===== src/Client/History/Missing.antt =====
-- What a reader has missed, against the entries that are newer than the index it knows.
use ogmp_server.Base.{
  ℕ, ◌+◌, ◌≤◌, ◌≡◌, ◌≢◌, refl, ◌∙◌, ap, subst, List, [], ◌∷◌, ◌++◌, arith, length, All, Bool, true,
  false, ◌||◌, pos, int_eq_iff, ℤ, if◌then◌else◌,
}
use ogmp_server.Text.{str_eq_refl}
use ogmp_server.Client.Record.{Client}
use ogmp_server.Client.History.{
  UpdateHistory, elem, add_types, collect, update_eq, scan, missing, get_last_update_key, last_key,
  get_missing_update_variable_types,
}
use ogmp_server.Client.History.Cycle.{IsHistory, Chain, Chain-distinct}

-- Whether one of the updates carried the type.
unfoldable pub sent : ℕ → List UpdateHistory → Bool
sent t [] = false
sent t (h ∷ hs) = elem t h.1 || sent t hs

-- No type stands twice.
abbrev pub IsDistinct : List ℕ → Type 0
IsDistinct [] = Unit
IsDistinct (t ∷ ts) = (elem t ts ≡ false) × IsDistinct ts

pub elem-append : (t : ℕ) (xs ys : List ℕ) → elem t (xs ++ ys) ≡ (elem t xs || elem t ys)
unfolding elem
elem-append t [] ys = refl
elem-append t (x ∷ xs) ys = ground (arith, elem-append t xs ys)

elem-add_types :
    (t : ℕ) (types ts : List ℕ) → elem t (add_types types ts) ≡ (elem t types || elem t ts)
unfolding elem add_types
elem-add_types t types [] = ground arith
elem-add_types t types (u ∷ us) = ground (
  arith,
  elem-add_types t (if elem u types then types else types ++ u ∷ []) us,
  elem-append t types (u ∷ []),
)

IsDistinct-append :
    (xs : List ℕ) (u : ℕ) → elem u xs ≡ false → IsDistinct xs → IsDistinct (xs ++ u ∷ [])
unfolding elem
IsDistinct-append [] u h d = (refl, tt)
IsDistinct-append (x ∷ xs) u h d = ground (arith, elem-append x xs (u ∷ []), IsDistinct-append xs u)

add_types-IsDistinct : (types ts : List ℕ) → IsDistinct types → IsDistinct (add_types types ts)
unfolding add_types
add_types-IsDistinct types [] d = d
add_types-IsDistinct types (u ∷ us) d = ground (
  arith,
  IsDistinct-append types u,
  add_types-IsDistinct (if elem u types then types else types ++ u ∷ []) us,
)

collect-IsDistinct :
    (types : List ℕ) (hs : List UpdateHistory) → IsDistinct types → IsDistinct (collect types hs)
unfolding collect
collect-IsDistinct types [] d = d
collect-IsDistinct types (h ∷ hs) d =
    collect-IsDistinct (add_types types h.1) hs (add_types-IsDistinct types h.1 d)

-- `newer` holds in front what the loop has passed.
passed : List UpdateHistory → List UpdateHistory → List UpdateHistory
passed newer [] = newer
passed newer (h ∷ hs) = passed (h ∷ newer) hs

sent-passed :
    (t : ℕ) (newer hs : List UpdateHistory) → sent t (passed newer hs) ≡ (sent t newer || sent t hs)
unfolding passed sent
sent-passed t newer [] = ground arith
sent-passed t newer (h ∷ hs) = ground (arith, sent-passed t (h ∷ newer) hs)

elem-collect :
    (t : ℕ) (types : List ℕ) (hs : List UpdateHistory)
    → elem t (collect types hs) ≡ (elem t types || sent t hs)
unfolding collect sent
elem-collect t types [] = ground arith
elem-collect t types (h ∷ hs) =
    ground (arith, elem-collect t (add_types types h.1) hs, elem-add_types t types h.1)

scan-passed :
    (k : ℕ) (front : UpdateHistory) (newer hs : List UpdateHistory) (ts : List ℕ)
    (older : List UpdateHistory)
    → All (λ g. g.0 ≢ k) hs
    → scan (pos k) front newer (hs ++ (k, ts) ∷ older)
      ≡ (if update_eq (k, ts) front then [] else collect [] (passed newer hs))
unfolding scan passed
scan-passed k front newer [] ts older a = ground arith
scan-passed k front newer (h ∷ hs) ts older a =
    ground (arith, a.0, scan-passed k front (h ∷ newer) hs ts older a.1)

length-front :
    (newer : List UpdateHistory) (h : UpdateHistory) (older : List UpdateHistory)
    → length newer + 1 ≤ length (newer ++ h ∷ older)
length-front [] h older = omega arith
length-front (g ∷ newer) h older = omega (arith, length-front newer h older)

missing-cases :
    (k : ℕ) (newer : List UpdateHistory) (ts : List ℕ) (older : List UpdateHistory) (t : ℕ)
    → All (λ g. g.0 ≢ k) newer
    → (elem t (missing (pos k) (newer ++ (k, ts) ∷ older)) ≡ sent t newer)
      × IsDistinct (missing (pos k) (newer ++ (k, ts) ∷ older))
unfolding missing sent
missing-cases k [] ts older t a =
    rw (scan-passed k (k, ts) [] [] ts older tt, self) (unfold elem sent in (refl, tt))
  where
    self : update_eq (k, ts) (k, ts) ≡ true
    self = unfold update_eq in ground (arith, str_eq_refl ts)
missing-cases k (g ∷ newer) ts older t a =
    rw (scan-passed k g [] (g ∷ newer) ts older a, other)
      (
        elem-collect t [] (passed [] (g ∷ newer)) ∙ (unfold elem in sent-passed t [] (g ∷ newer)),
        collect-IsDistinct [] (passed [] (g ∷ newer)) tt,
      )
  where
    other : update_eq (k, ts) g ≡ false
    other = unfold update_eq in ground (arith, a.0)

-- A reader that knows an entry of a history whose indices are in their cycle gets the types of the
-- newer entries: each type that one of them carries, no other, and none twice.
pub missing_exact :
    (c : Client) (k : ℕ) (newer : List UpdateHistory) (ts : List ℕ) (older : List UpdateHistory)
    → IsHistory c
    → c.client_update_history ≡ newer ++ (k, ts) ∷ older
    → (t : ℕ)
    → (elem t (get_missing_update_variable_types (pos k) c) ≡ sent t newer)
      × IsDistinct (get_missing_update_variable_types (pos k) c)
unfolding get_missing_update_variable_types
missing_exact c k newer ts older v e t = rw e (missing-cases k newer ts older t distinct)
  where
    short : length newer ≤ 9
    short = omega (arith, ap length e, length-front newer (k, ts) older, v.size)

    distinct : All (λ g. g.0 ≢ k) newer
    distinct =
        Chain-distinct c.history_index newer (k, ts) older v.index short
          (subst (Chain c.history_index) e v.chain)

scan_unknown :
    (key : ℤ) (front : UpdateHistory) (newer hs : List UpdateHistory)
    → All (λ g. pos g.0 ≢ key) hs
    → scan key front newer hs ≡ []
unfolding scan
scan_unknown key front newer [] a = refl
scan_unknown key front newer (h ∷ hs) a =
    ground (arith, int_eq_iff (pos h.0) key, a.0, scan_unknown key front (h ∷ newer) hs a.1)

-- A reader whose index is not in the history any more, or never was, gets nothing.
pub missing_unknown :
    (c : Client) (key : ℤ)
    → All (λ g. pos g.0 ≢ key) c.client_update_history
    → get_missing_update_variable_types key c ≡ []
unfolding get_missing_update_variable_types
missing_unknown c key a = go c.client_update_history a
  where
    go : (hs : List UpdateHistory) → All (λ g. pos g.0 ≢ key) hs → missing key hs ≡ []
    go [] a = unfold missing in refl
    go (h ∷ hs) a = unfold missing in scan_unknown key h [] (h ∷ hs) a

missing_newest : (hs : List UpdateHistory) → missing (last_key hs) hs ≡ []
missing_newest [] = unfold missing in refl
missing_newest ((k, ts) ∷ hs) =
    unfold missing last_key in rw (scan-passed k (k, ts) [] [] ts hs tt, self)
  where
    self : update_eq (k, ts) (k, ts) ≡ true
    self = unfold update_eq in ground (arith, str_eq_refl ts)

-- A reader that knows the newest index gets nothing.
pub missing-last_key :
    (c : Client) → get_missing_update_variable_types (get_last_update_key c) c ≡ []
unfolding get_missing_update_variable_types get_last_update_key
missing-last_key c = missing_newest c.client_update_history
