-- ===== src/Handler/Strings/Url.antt =====
-- `url_decode` of src/request_handler.cpp.
use ogmp_server.Base.{
  ℕ, ◌+◌, ◌-◌, ◌*◌, ◌%◌, ◌≡◌, refl, Bool, true, false, ◌&&◌, ◌||◌, [], ◌∷◌, Option, none, some, ℤ,
  pos, negsuc, leb, ◌==◌, if◌then◌else◌,
}
use ogmp_server.Text.{Str}

unfoldable pub is_space : ℕ → Bool
is_space c = (leb 9 c && leb c 13) || c == 32

unfoldable pub hex_digit : ℕ → Option ℕ
hex_digit c =
    if leb 48 c && leb c 57
    then some (c - 48)
    else if leb 97 c && leb c 102
    then some (c - 87)
    else if leb 65 c && leb c 70
    then some (c - 55)
    else none

abbrev negative : ℕ → ℤ
negative n = if n == 0 then pos 0 else negsuc (n - 1)

-- `is >> hex >> value` on a stream of two chars: a blank in front is skipped, a sign is taken, the
-- digits end at the first other char, and `0x` needs a digit behind it.
unfoldable pub read_hex : ℕ → ℕ → Option ℤ
read_hex a b = elim (hex_digit a) [
  | some x ↦ elim (hex_digit b) [
    | some y ↦ some (pos (16 * x + y))
    | none ↦ if a == 48 && (b == 120 || b == 88) then none else some (pos x)
  ]
  | none ↦ elim (hex_digit b) [
    | some y ↦
        if is_space a || a == 43 then some (pos y) else if a == 45 then some (negative y) else none
    | none ↦ none
  ]
]

-- `static_cast<char>`.
unfoldable pub to_char : ℤ → ℕ
to_char (pos n) = n % 256
to_char (negsuc n) = 255 - n % 256

-- What `url_decode` returns, and what it leaves in `out`.
abbrev pub Decoded : Type 0
Decoded = Bool × Str

unfoldable pub add : ℕ → Decoded → Decoded
add c d = (d.0, c ∷ d.1)

unfoldable pub unplus : ℕ → ℕ
unplus c = if c == 43 then 32 else c

unfoldable pub url_decode : Str → Decoded
url_decode [] = (true, [])
url_decode (c ∷ []) = if c == 37 then (false, []) else add (unplus c) (true, [])
url_decode (c ∷ a ∷ []) = elim (c == 37) [
  | true ↦ (false, [])
  | false ↦ add (unplus c) (url_decode (a ∷ []))
]
url_decode (c ∷ a ∷ b ∷ s) = elim (c == 37) [
  | true ↦ elim (read_hex a b) [
    | some value ↦ add (to_char value) (url_decode s)
    | none ↦ (false, [])
  ]
  | false ↦ add (unplus c) (url_decode (a ∷ b ∷ s))
]

-- A char that is no percent sign stands for itself, but for a plus sign.
pub url_decode-plain :
    (c : ℕ) (s : Str) → c == 37 ≡ false → url_decode (c ∷ s) ≡ add (unplus c) (url_decode s)
unfolding url_decode
url_decode-plain c [] e = rw e refl
url_decode-plain c (a ∷ []) e = rw (e, url_decode) refl
url_decode-plain c (a ∷ b ∷ s) e = rw (e, url_decode) refl
