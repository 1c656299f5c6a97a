-- ===== src/Input/Bounds.antt =====
-- Reads that stay within the buffer, whatever it holds.
use ogmp_server.Base.{
  ℕ, zero, suc, ◌+◌, ◌≤◌, List, [], ◌∷◌, of_char, arith, length, get_elem?-total, Result, ok, err,
  Returns,
}
use native.Mathlib.Nat.{le_trans}
use ogmp_server.Input.{
  Read, ◌>>=◌, pure, get_char, get_chars, get_string, get_float, get_bool, get_int, rounds,
}

-- From index `i` the action returns, with a value in `P` and an index past `i` by at most `n`.
pub record ReadsAtMost {A : Type 0} (P : A → Type 0) (n : ℕ) (m : Read A) : Type 0 where
  pub at :
      (data_ : List ℕ) (i : ℕ)
      → i + n ≤ length data_
      → Returns (λ r. P r.0 × (i ≤ r.1) × (r.1 ≤ i + n)) (m data_ i)

module _ {A B : Type 0} {P : A → Type 0} {Q : B → Type 0} where
  pub ReadsAtMost-bind :
      (k l n : ℕ) (m : Read A) (f : A → Read B)
      → k + l ≤ n
      → ReadsAtMost P k m
      → ((a : A) → P a → ReadsAtMost Q l (f a))
      → ReadsAtMost Q n (m >>= f)
  ReadsAtMost-bind k l n m f le rm rf = record {
    at = λ data_ i h. go data_ i h (m data_ i) (rm.at data_ i (omega arith));
  }
    where
      widen :
          (i j : ℕ) (r : Result (B × ℕ))
          → i ≤ j
          → j ≤ i + k
          → Returns (λ r. Q r.0 × (j ≤ r.1) × (r.1 ≤ j + l)) r
          → Returns (λ r. Q r.0 × (i ≤ r.1) × (r.1 ≤ i + n)) r
      widen i j (ok (b, e)) p q h = (h.0, omega arith, omega arith)
      widen i j (err e) p q h = h

      go :
          (data_ : List ℕ) (i : ℕ)
          → i + n ≤ length data_
          → (r : Result (A × ℕ)) → Returns (λ r. P r.0 × (i ≤ r.1) × (r.1 ≤ i + k)) r
          → Returns
              (λ r. Q r.0 × (i ≤ r.1) × (r.1 ≤ i + n))
              (elim r [ err e ↦ err e | ok (a, j) ↦ f a data_ j ])
      go data_ i h (ok (a, j)) p =
          widen i j (f a data_ j) p.1 p.2 ((rf a p.0).at data_ j (omega arith))
      go data_ i h (err e) p = p

module _ {A : Type 0} {P : A → Type 0} where
  pub ReadsAtMost-pure : (a : A) → P a → ReadsAtMost P 0 (pure a)
  ReadsAtMost-pure a p = record { at = λ data_ i h. (p, omega arith, omega arith) }

  -- A weaker value and a higher bound.
  pub ReadsAtMost-mono :
      {Q : A → Type 0} (k n : ℕ) (m : Read A)
      → k ≤ n
      → ((a : A) → P a → Q a)
      → ReadsAtMost P k m
      → ReadsAtMost Q n m
  ReadsAtMost-mono {Q} k n m le f rm = record {
    at = λ data_ i h. go i (m data_ i) (rm.at data_ i (omega arith));
  }
    where
      go :
          (i : ℕ) (r : Result (A × ℕ))
          → Returns (λ r. P r.0 × (i ≤ r.1) × (r.1 ≤ i + k)) r
          → Returns (λ r. Q r.0 × (i ≤ r.1) × (r.1 ≤ i + n)) r
      go i (ok (a, j)) p = (f a p.0, p.1, omega arith)
      go i (err e) p = p

pub get_char-ReadsAtMost : ReadsAtMost (λ _. Unit) 1 get_char
unfolding get_char
get_char-ReadsAtMost = record {
  at = λ data_ i h.
      let (b, e) = get_elem?-total data_ i (omega arith) in
      rw (e, get_char) (tt, omega arith, omega arith);
}

pub get_chars-ReadsAtMost : (n : ℕ) → ReadsAtMost (λ s. length s ≤ n) n (get_chars n)
unfolding get_chars
get_chars-ReadsAtMost zero = ReadsAtMost-pure [] (omega arith)
get_chars-ReadsAtMost (suc n) =
    ReadsAtMost-bind 1 n (suc n) get_char _ (omega arith) get_char-ReadsAtMost λ c _.
      ReadsAtMost-bind n 0 n (get_chars n) _ (omega arith) (get_chars-ReadsAtMost n)
        λ rest h. ReadsAtMost-pure (c ∷ rest) (omega arith)

-- A signed char is at most 127, and a negative size starts no round.
rounds-char : (b : ℕ) → rounds (of_char b) ≤ 127
rounds-char b = ground arith

-- A string is at most 127 bytes long and takes one byte more.
pub get_string-ReadsAtMost : ReadsAtMost (λ s. length s ≤ 127) 128 get_string
unfolding get_string
get_string-ReadsAtMost =
    ReadsAtMost-bind 1 127 128 get_char _ (omega arith) get_char-ReadsAtMost λ size _.
      ReadsAtMost-mono (rounds (of_char size)) 127 _ (rounds-char size)
        (λ s h. le_trans h (rounds-char size)) (get_chars-ReadsAtMost (rounds (of_char size)))

pub get_float-ReadsAtMost : ReadsAtMost (λ _. Unit) 4 get_float
unfolding get_float
get_float-ReadsAtMost = ReadsAtMost-bind 1 3 4 get_char _ (omega arith) get_char-ReadsAtMost λ b3 _.
    ReadsAtMost-bind 1 2 3 get_char _ (omega arith) get_char-ReadsAtMost λ b2 _.
      ReadsAtMost-bind 1 1 2 get_char _ (omega arith) get_char-ReadsAtMost λ b1 _.
        ReadsAtMost-bind 1 0 1 get_char _ (omega arith) get_char-ReadsAtMost
          λ b0 _. ReadsAtMost-pure _ tt

pub get_bool-ReadsAtMost : ReadsAtMost (λ _. Unit) 1 get_bool
unfolding get_bool
get_bool-ReadsAtMost =
    ReadsAtMost-bind 1 0 1 get_char _ (omega arith) get_char-ReadsAtMost
      λ c _. ReadsAtMost-pure _ tt

pub get_int-ReadsAtMost : ReadsAtMost (λ _. Unit) 1 get_int
unfolding get_int
get_int-ReadsAtMost =
    ReadsAtMost-bind 1 0 1 get_char _ (omega arith) get_char-ReadsAtMost
      λ c _. ReadsAtMost-pure _ tt
