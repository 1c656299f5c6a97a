-- ===== src/StringMap.antt =====
-- `std::map` with `std::string` keys, as the list of its entries in iteration order: keys ascend by
-- `std::less<std::string>`, and no key stands twice (`IsSorted`). The typedefs of
-- include/shared.hpp, `client_map` of include/client_manager.hpp and `history_keys` are such maps.
use ogmp_server.Base.{◌≡◌, refl, true, List, [], ◌∷◌, Option, none, some, arith, if◌then◌else◌, All}
use ogmp_server.Text.{
  Str, str_eq, str_lt, str_eq_iff, str_eq_refl, str_lt_irrefl, str_lt_trans, str_lt_total,
}

abbrev pub StringMap {ℓ} : Type ℓ → Type ℓ
StringMap V = List (Str × V)

module _ {ℓ} {V : Type ℓ} where
  -- `m.find(k)`, with `none` for `m.end()`.
  unfoldable pub find : Str → StringMap V → Option V
  find k [] = none
  find k ((j, v) ∷ m) = if str_eq j k then some v else find k m

  -- `m[k] = v`.
  unfoldable pub insert : Str → V → StringMap V → StringMap V
  insert k v [] = (k, v) ∷ []
  insert k v ((j, w) ∷ m) =
      if str_eq j k
      then (k, v) ∷ m
      else if str_lt k j
      then (k, v) ∷ (j, w) ∷ m
      else (j, w) ∷ insert k v m

  -- `m.erase(k)`.
  unfoldable pub erase : Str → StringMap V → StringMap V
  erase k [] = []
  erase k ((j, w) ∷ m) = let rest = erase k m in if str_eq j k then rest else (j, w) ∷ rest

  abbrev pub Above : Str → StringMap V → Type 0
  Above k = All (λ e. str_lt k e.0 ≡ true)

  abbrev pub IsSorted : StringMap V → Type 0
  IsSorted [] = Unit
  IsSorted ((k, v) ∷ m) = Above k m × IsSorted m

module _ {ℓ} {V : Type ℓ} where
  pub find-insert :
      (k j : Str) (v : V) (m : StringMap V)
      → find j (insert k v m) ≡ (if str_eq k j then some v else find j m)
  unfolding find insert
  find-insert k j v [] = refl
  find-insert k j v ((i, w) ∷ m) =
      ground (arith, str_eq_iff k j, str_eq_iff i k, str_eq_iff i j, find-insert k j v m)

  pub find-erase :
      (k j : Str) (m : StringMap V) → find j (erase k m) ≡ (if str_eq k j then none else find j m)
  unfolding find erase
  find-erase k j [] = ground arith
  find-erase k j ((i, w) ∷ m) =
      ground (arith, str_eq_iff k j, str_eq_iff i k, str_eq_iff i j, find-erase k j m)

  Above-trans : (i k : Str) (m : StringMap V) → str_lt i k ≡ true → Above k m → Above i m
  Above-trans i k [] h a = tt
  Above-trans i k ((j, w) ∷ m) h a = (str_lt_trans i k j h a.0, Above-trans i k m h a.1)

  Above-insert :
      (i k : Str) (v : V) (m : StringMap V) → str_lt i k ≡ true → Above i m → Above i (insert k v m)
  unfolding insert
  Above-insert i k v [] h a = (h, tt)
  Above-insert i k v ((j, w) ∷ m) h a = ground (arith, Above-insert i k v m h a.1)

  Above-erase : (i k : Str) (m : StringMap V) → Above i m → Above i (erase k m)
  unfolding erase
  Above-erase i k [] a = tt
  Above-erase i k ((j, w) ∷ m) a = ground (arith, Above-erase i k m a.1)

  pub insert-IsSorted : (k : Str) (v : V) (m : StringMap V) → IsSorted m → IsSorted (insert k v m)
  unfolding insert
  insert-IsSorted k v [] s = (tt, tt)
  insert-IsSorted k v ((j, w) ∷ m) s = ground (
    arith,
    str_eq_iff j k,
    Above-trans k j m,
    str_lt_total j k,
    Above-insert j k v m,
    insert-IsSorted k v m s.1,
  )

  pub erase-IsSorted : (k : Str) (m : StringMap V) → IsSorted m → IsSorted (erase k m)
  unfolding erase
  erase-IsSorted k [] s = tt
  erase-IsSorted k ((j, w) ∷ m) s = ground (arith, Above-erase j k m s.0, erase-IsSorted k m s.1)

  -- A key below all of a map's is not in it.
  pub find-Above : (k : Str) (m : StringMap V) → Above k m → find k m ≡ none
  unfolding find
  find-Above k [] a = refl
  find-Above k ((j, v) ∷ m) a = ground (arith, str_eq_iff j k, str_lt_irrefl k, find-Above k m a.1)

  -- Nothing is erased for a key below all of a map's.
  pub erase-Above : (k : Str) (m : StringMap V) → Above k m → erase k m ≡ m
  unfolding erase
  erase-Above k [] a = refl
  erase-Above k ((j, v) ∷ m) a =
      ground (arith, str_eq_iff j k, str_lt_irrefl k, erase-Above k m a.1)

  -- The first entry of a map is erased by its key, and no other.
  pub erase-first :
      (k : Str) (v : V) (m : StringMap V) → IsSorted ((k, v) ∷ m) → erase k ((k, v) ∷ m) ≡ m
  unfolding erase
  erase-first k v m s = ground (arith, str_eq_refl k, erase-Above k m s.0)
