-- ===== src/Text.antt =====
-- `std::string` as a list of bytes: its equality and its order, which are those of the bytes read
-- as unsigned numbers, and the C string that `c_str()` and `data()` give to code that stops at the
-- first NUL.
use Prim.Native.Char.{code}
use Prim.Native.String.{String}
use ogmp_server.Base.{
  ℕ, ◌≤◌, ◌<◌, ◌≡◌, refl, ◌↔◌, Bool, true, false, ◌&&◌, List, [], ◌∷◌, arith, ltb, ◌==◌,
  if◌then◌else◌, length, All,
}

abbrev pub Str : Type 0
Str = List ℕ

-- The bytes of a literal of the source, which are ASCII.
abbrev pub codes : String → Str
codes String.[] = []
codes (String.◌∷◌ c s) = code c ∷ codes s

unfoldable pub str_eq : Str → Str → Bool
str_eq [] [] = true
str_eq (a ∷ s) (b ∷ t) = (a == b) && str_eq s t
str_eq _ _ = false

-- `std::less<std::string>`.
unfoldable pub str_lt : Str → Str → Bool
str_lt s [] = false
str_lt [] (b ∷ t) = true
str_lt (a ∷ s) (b ∷ t) = let rest = str_lt s t in if a == b then rest else ltb a b

-- What a C string keeps: the bytes in front of the first NUL.
unfoldable pub c_str : Str → Str
c_str [] = []
c_str (a ∷ s) = let rest = c_str s in if a == 0 then [] else a ∷ rest

pub str_eq_refl : (s : Str) → str_eq s s ≡ true
unfolding str_eq
str_eq_refl [] = refl
str_eq_refl (a ∷ s) = ground (arith, str_eq_refl s)

str_eq→eq : (s t : Str) → str_eq s t ≡ true → s ≡ t
unfolding str_eq
str_eq→eq [] [] h = refl
str_eq→eq [] (b ∷ t) h = cc
str_eq→eq (a ∷ s) [] h = cc
str_eq→eq (a ∷ s) (b ∷ t) h = ground (arith, str_eq→eq s t)

pub str_eq_iff : (s t : Str) → (str_eq s t ≡ true) ↔ (s ≡ t)
str_eq_iff s t = (str_eq→eq s t, λ e. let h : str_eq s s ≡ true = str_eq_refl s in subst_eq e h)
  where
    subst_eq : {t : Str} → s ≡ t → str_eq s s ≡ true → str_eq s t ≡ true
    subst_eq e h = rw (← e) h

pub str_lt_irrefl : (s : Str) → str_lt s s ≡ false
unfolding str_lt
str_lt_irrefl [] = refl
str_lt_irrefl (a ∷ s) = ground (arith, str_lt_irrefl s)

pub str_lt_trans : (s t u : Str) → str_lt s t ≡ true → str_lt t u ≡ true → str_lt s u ≡ true
unfolding str_lt
str_lt_trans s [] u h k = cc
str_lt_trans s (b ∷ t) [] h k = cc
str_lt_trans [] (b ∷ t) (c ∷ u) h k = refl
str_lt_trans (a ∷ s) (b ∷ t) (c ∷ u) h k = ground (arith, str_lt_trans s t u)

-- Of two different strings one is the smaller.
pub str_lt_total : (s t : Str) → str_eq s t ≡ false → str_lt s t ≡ false → str_lt t s ≡ true
unfolding str_lt str_eq
str_lt_total [] [] h k = cc
str_lt_total [] (b ∷ t) h k = cc
str_lt_total (a ∷ s) [] h k = refl
str_lt_total (a ∷ s) (b ∷ t) h k = ground (arith, str_lt_total s t)

-- A text with no NUL is its own C string.
pub c_str_lem : (s : Str) → All (λ a. 0 < a) s → c_str s ≡ s
unfolding c_str
c_str_lem [] h = refl
c_str_lem (a ∷ s) h = ground (arith, c_str_lem s h.1)

pub length-c_str : (s : Str) → length (c_str s) ≤ length s
unfolding c_str
length-c_str [] = omega arith
length-c_str (a ∷ s) = ground (arith, length-c_str s)
