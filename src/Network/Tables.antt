-- ===== src/Network/Tables.antt =====
-- The connections by their addresses, and `std::set<connection_ptr>`, which is ordered by address.
use ogmp_server.Base.{
  ℕ, ◌+◌, ◌≡◌, ◌≢◌, ◌⊎◌, inl, inr, subst, refl, Bool, false, ◌||◌, List, [], ◌∷◌, Option, none,
  some, arith, ltb, ◌==◌, ==_iff, if◌then◌else◌,
}

abbrev pub Table : Type 0 → Type 0
Table A = List (ℕ × A)

abbrev pub Set : Type 0
Set = List ℕ

module _ {A : Type 0} where
  unfoldable pub find : ℕ → Table A → Option A
  find a [] = none
  find a ((b, x) ∷ t) = let rest = find a t in if b == a then some x else rest

  -- The value at an address, old or new.
  unfoldable pub put : ℕ → A → Table A → Table A
  put a x [] = (a, x) ∷ []
  put a x ((b, y) ∷ t) = let rest = put a x t in if b == a then (b, x) ∷ t else (b, y) ∷ rest

module _ {A : Type 0} where
  pub find-put :
      (a b : ℕ) (x : A) (t : Table A) → find b (put a x t) ≡ (if a == b then some x else find b t)
  unfolding find put
  find-put a b x [] = refl
  find-put a b x ((c, y) ∷ t) = ground (arith, ==_iff c a, ==_iff c b, ==_iff a b, find-put a b x t)

  -- What is found behind a `put` is the value that was put there, or was there before.
  pub put-cases :
      (a b : ℕ) (x c : A) (t : Table A)
      → find b (put a x t) ≡ some c
      → ((a ≡ b) × (x ≡ c)) ⊎ ((a ≢ b) × (find b t ≡ some c))
  put-cases a b x c t e = ground (arith, find-put a b x t, ==_iff a b)

-- Every value in the table has a property.
abbrev pub Every : {A : Type 0} → (A → Type 0) → Table A → Type 0
Every {A = A} P t = (a : ℕ) (c : A) → find a t ≡ some c → P c

pub Every-put :
    {A : Type 0} (P : A → Type 0) (a : ℕ) (x : A) (t : Table A)
    → P x
    → Every P t
    → Every P (put a x t)
Every-put P a x t h hs b c e = elim (put-cases a b x c t e) [
  | inl (p, q) ↦ subst P q h
  | inr (p, q) ↦ hs b c q
]

-- A sum over the table.
abbrev pub sum : {A : Type 0} → (A → ℕ) → Table A → ℕ
sum f [] = 0
sum f ((a, x) ∷ t) = f x + sum f t

pub sum-put :
    {A : Type 0} (f : A → ℕ) (a : ℕ) (x y : A) (t : Table A)
    → find a t ≡ some y
    → sum f (put a x t) + f y ≡ sum f t + f x
unfolding find put
sum-put f a x y [] e = cc
sum-put f a x y ((b, z) ∷ t) e = ground (arith, sum-put f a x y t)

unfoldable pub insert : ℕ → Set → Set
insert a [] = a ∷ []
insert a (b ∷ s) =
    let rest = insert a s in if a == b then b ∷ s else if ltb a b then a ∷ b ∷ s else b ∷ rest

unfoldable pub erase : ℕ → Set → Set
erase a [] = []
erase a (b ∷ s) = let rest = erase a s in if b == a then rest else b ∷ rest

unfoldable pub contains : ℕ → Set → Bool
contains a [] = false
contains a (b ∷ s) = b == a || contains a s

pub contains-insert : (a b : ℕ) (s : Set) → contains b (insert a s) ≡ (a == b || contains b s)
unfolding contains insert
contains-insert a b [] = refl
contains-insert a b (c ∷ s) =
    ground (arith, ==_iff a c, ==_iff c b, ==_iff a b, contains-insert a b s)

pub contains-erase :
    (a b : ℕ) (s : Set) → contains b (erase a s) ≡ (if a == b then false else contains b s)
unfolding contains erase
contains-erase a b [] = ground arith
contains-erase a b (c ∷ s) =
    ground (arith, ==_iff c a, ==_iff c b, ==_iff a b, contains-erase a b s)
