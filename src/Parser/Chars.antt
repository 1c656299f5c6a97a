-- ===== src/Parser/Chars.antt =====
-- The classes of chars of src/request_parser.cpp, and `atoi`.
use ogmp_server.Base.{
  ℕ, zero, suc, ◌+◌, ◌-◌, ◌*◌, Bool, false, ◌&&◌, ◌||◌, not, List, [], ◌∷◌, ℤ, pos, negsuc, leb,
  ◌==◌, if◌then◌else◌,
}
use ogmp_server.Text.{Str}

unfoldable pub is_char : ℕ → Bool
is_char c = leb c 127

unfoldable pub is_ctl : ℕ → Bool
is_ctl c = leb c 31 || c == 127

unfoldable pub is_one_of : ℕ → List ℕ → Bool
is_one_of c [] = false
is_one_of c (d ∷ ds) = c == d || is_one_of c ds

-- `( ) < > @ , ; : \ " / [ ] ? = { }`, the space and the tab.
abbrev tspecials : List ℕ
tspecials =
    40 ∷ 41 ∷ 60 ∷ 62 ∷ 64 ∷ 44 ∷ 59 ∷ 58 ∷ 92 ∷ 34 ∷ 47 ∷ 91 ∷ 93 ∷ 63 ∷ 61 ∷ 123 ∷ 125 ∷ 32 ∷ 9
    ∷ []

unfoldable pub is_tspecial : ℕ → Bool
unfolding is_one_of
is_tspecial c = is_one_of c tspecials

unfoldable pub is_digit : ℕ → Bool
is_digit c = leb b'0' c && leb c b'9'

-- The test of every state that reads a name: a char that is no control and no special.
unfoldable pub is_token : ℕ → Bool
is_token c = is_char c && (not (is_ctl c) && not (is_tspecial c))

is_space : ℕ → Bool
is_space c = c == 32 || leb 9 c && leb c 13

digits : ℕ → Str → ℕ
digits n [] = n
digits n (c ∷ s) = let rest = digits (n * 10 + (c - b'0')) s in if is_digit c then rest else n

negated : ℕ → ℤ
negated zero = pos 0
negated (suc n) = negsuc n

signed : Str → ℤ
signed [] = pos 0
signed (c ∷ s) =
    if c == b'-'
    then negated (digits 0 s)
    else if c == b'+'
    then pos (digits 0 s)
    else pos (digits 0 (c ∷ s))

-- `atoi`: spaces, a sign and digits. Beyond the range of an int it is undefined in C; here it is the
-- number that is written.
unfoldable pub atoi : Str → ℤ
unfolding is_space digits negated signed is_digit
atoi [] = pos 0
atoi (c ∷ s) = let rest = atoi s in if is_space c then rest else signed (c ∷ s)
