-- ===== src/Handler/Strings/Separate.antt =====
-- `seperate_string` of src/request_handler.cpp.
use mathlib.Core.Option
use ogmp_server.Base.{
  ℕ, zero, suc, ◌+◌, ◌<◌, ◌≡◌, ◌≢◌, refl, ap, ◌∙◌, inl, inr, ◌⊎◌, Bool, true, false, ◌&&◌, List, [],
  ◌∷◌, ◌++◌, Option, none, some, Option-cases, Bool-cases, All, arith, ◌==◌, ==_iff, length,
  length-append, drop-add, take, drop, if◌then◌else◌,
}
use ogmp_server.Text.{Str}

unfoldable pub starts_with : Str → Str → Bool
starts_with [] s = true
starts_with (a ∷ t) [] = false
starts_with (a ∷ t) (b ∷ s) = (a == b) && starts_with t s

-- `input.find(seperator)`: where the separator is for the first time.
unfoldable pub find : Str → Str → Option ℕ
find seperator [] = if starts_with seperator [] then some 0 else none
find seperator (a ∷ s) =
    let later = Option.map suc (find seperator s) in
    if starts_with seperator (a ∷ s) then some 0 else later

-- The loop, for a number of rounds; `none` if that is not enough.
unfoldable pub seperate : ℕ → Str → Str → Option (List Str)
seperate zero input seperator = none
seperate (suc rounds) input seperator = elim (find seperator input) [
  | none ↦ some (input ∷ [])
  | some pos ↦
      Option.map (λ tokens. take pos input ∷ tokens)
        (seperate rounds (drop (pos + length seperator) input) seperator)
]

-- `seperate_string`. A round takes a byte off the input at least, unless the separator is empty.
unfoldable pub seperate_string : Str → Str → Option (List Str)
seperate_string input seperator = seperate (suc (length input)) input seperator

-- The tokens with the separator between each two.
unfoldable pub join : Str → List Str → Str
join seperator [] = []
join seperator (t ∷ []) = t
join seperator (t ∷ u ∷ ts) = t ++ (seperator ++ join seperator (u ∷ ts))

starts_with-append : (t s : Str) → starts_with t s ≡ true → t ++ drop (length t) s ≡ s
unfolding starts_with
starts_with-append [] s h = refl
starts_with-append (a ∷ t) [] h = cc
starts_with-append (a ∷ t) (b ∷ s) h = ground (arith, ==_iff a b, starts_with-append t s)

-- The separator is at the front, or it is found behind the first byte.
find-cases :
    (t : Str) (a : ℕ) (s : Str) (pos : ℕ)
    → find t (a ∷ s) ≡ some pos
    → ((starts_with t (a ∷ s) ≡ true) × (pos ≡ 0))
      ⊎ ((starts_with t (a ∷ s) ≡ false) × (k : ℕ) × (find t s ≡ some k) × (pos ≡ suc k))
unfolding find
find-cases t a s pos h = elim (Bool-cases (starts_with t (a ∷ s))) [
  | inl first ↦ inl (first, ground arith)
  | inr later ↦ elim (Option-cases (find t s)) [
    | inl gone ↦ absurd (ground arith)
    | inr (k, e) ↦ inr (later, k, e, ground arith)
  ]
]

find-nil : (t : Str) (pos : ℕ) → find t [] ≡ some pos → (t ≡ []) × (pos ≡ 0)
unfolding find starts_with
find-nil [] pos h = (refl, ground arith)
find-nil (a ∷ t) pos h = cc

find-append :
    (t s : Str) (pos : ℕ)
    → find t s ≡ some pos
    → take pos s ++ (t ++ drop (length t) (drop pos s)) ≡ s
find-append t [] pos h = let (e, f) = find-nil t pos h in rw (e, f) refl
find-append t (a ∷ s) pos h = elim (find-cases t a s pos h) [
  | inl (first, e) ↦ rw e (starts_with-append t (a ∷ s) first)
  | inr (later, k, e, f) ↦ rw f (ap (◌∷◌ a) (find-append t s k e))
]

starts_with-take : (t s : Str) (n : ℕ) → starts_with t (take n s) ≡ true → starts_with t s ≡ true
unfolding starts_with
starts_with-take [] s n h = refl
starts_with-take (a ∷ t) s zero h = cc
starts_with-take (a ∷ t) [] (suc n) h = cc
starts_with-take (a ∷ t) (b ∷ s) (suc n) h = ground (arith, starts_with-take t s n)

find-later :
    (t : Str) (a : ℕ) (s : Str)
    → starts_with t (a ∷ s) ≡ false
    → find t s ≡ none
    → find t (a ∷ s) ≡ none
unfolding find
find-later t a s h e = ground arith

-- In front of the first separator there is none.
find-take :
    (a : ℕ) (t s : Str) (pos : ℕ) → find (a ∷ t) s ≡ some pos → find (a ∷ t) (take pos s) ≡ none
unfolding find starts_with
find-take a t [] pos h = cc
find-take a t (b ∷ s) pos h = elim (find-cases (a ∷ t) b s pos h) [
  | inl (first, e) ↦ rw e refl
  | inr (later, k, e, f) ↦
      rw f (find-later (a ∷ t) b (take k s) (shorter k later) (find-take a t s k e))
]
  where
    shorter :
        (k : ℕ) → starts_with (a ∷ t) (b ∷ s) ≡ false → starts_with (a ∷ t) (b ∷ take k s) ≡ false
    shorter k later = elim (Bool-cases (starts_with (a ∷ t) (b ∷ take k s))) [
      | inl first ↦ absurd (let earlier = starts_with-take (a ∷ t) (b ∷ s) (suc k) first in cc)
      | inr later ↦ later
    ]

-- The rounds of the loop: what each leaves is shorter.
find-drop :
    (a : ℕ) (t s : Str) (pos : ℕ)
    → find (a ∷ t) s ≡ some pos
    → length (drop (length (a ∷ t)) (drop pos s)) < length s
find-drop a t s pos h =
    omega (arith, found, length-append (take pos s) (a ∷ t ++ tail), length-append (a ∷ t) tail)
  where
    tail : Str
    tail = drop (length (a ∷ t)) (drop pos s)

    found : length (take pos s ++ (a ∷ t ++ tail)) ≡ length s
    found = ap (λ r. length r) (find-append (a ∷ t) s pos h)

-- Tokens that hold no separator, and the string they were separated from.
abbrev pub IsSeperated : Str → Str → Option (List Str) → Type 0
IsSeperated seperator s r =
    (u : Str) × (us : List Str) × (r ≡ some (u ∷ us))
    × (join seperator (u ∷ us) ≡ s)
    × All (λ v. find seperator v ≡ none) (u ∷ us)

seperate-IsSeperated :
    (a : ℕ) (t : Str) (rounds : ℕ) (s : Str)
    → length s < rounds
    → IsSeperated (a ∷ t) s (seperate rounds s (a ∷ t))
unfolding seperate join
seperate-IsSeperated a t zero s l = absurd (omega (arith, l))
seperate-IsSeperated a t (suc rounds) s l = elim (Option-cases (find (a ∷ t) s)) [
  | inl gone ↦ rw (gone, seperate) (s, [], refl, refl, (gone, tt))
  | inr (pos, e) ↦
      let (u, us, rest, joined, all) =
        seperate-IsSeperated a t rounds (drop (length (a ∷ t)) (drop pos s))
          (omega (arith, l, find-drop a t s pos e)) in
      rw (e, drop-add pos (length (a ∷ t)) s, rest, seperate)
        (
          take pos s,
          u ∷ us,
          refl,
          ap (λ r. take pos s ++ (a ∷ t ++ r)) joined ∙ find-append (a ∷ t) s pos e,
          (find-take a t s pos e, all),
        )
]

-- With a separator that is not empty, the loop ends, no token holds the separator, and the tokens with
-- the separator between each two are the string again.
pub seperate_string_lem :
    (s seperator : Str) → seperator ≢ [] → IsSeperated seperator s (seperate_string s seperator)
unfolding seperate_string
seperate_string_lem s [] n = absurd (n refl)
seperate_string_lem s (a ∷ t) n = seperate-IsSeperated a t (suc (length s)) s (omega arith)

-- With an empty separator the loop never ends: no number of rounds is enough.
pub seperate-empty : (rounds : ℕ) (s : Str) → seperate rounds s [] ≡ none
unfolding seperate
seperate-empty zero s = refl
seperate-empty (suc rounds) s = rw (first s, seperate, seperate-empty rounds (drop (0 + 0) s)) refl
  where
    first : (s : Str) → find [] s ≡ some 0
    first [] = unfold find starts_with in refl
    first (a ∷ s) = unfold find starts_with in refl
