-- ===== src/Handler/Strings/Uid.antt =====
-- `create_new_uid` of src/request_handler.cpp.
use ogmp_server.Base.{
  ℕ, zero, suc, ◌%◌, ◌<◌, ◌≡◌, refl, ap, sym, ◌∙◌, [], ◌∷◌, none, some, All, arith, length,
  get_elem?, get_elem?-total,
}
use ogmp_server.Text.{Str, codes}

abbrev pub charset : Str
charset = codes "0123456789ABCDEFGHIJKLMNOPQRSTUVWXYZabcdefghijklmnopqrstuvwxyz"

-- `charset[i]`; the array ends in a NUL.
unfoldable pub charset_at : ℕ → ℕ
charset_at i = elim (get_elem? charset i) [ none ↦ 0 | some c ↦ c ]

-- What `generate_n` writes from the call `i` of `rand` on; `rand i` is what that call returns.
unfoldable pub uid_from : (ℕ → ℕ) → ℕ → ℕ → Str
uid_from rand i zero = []
uid_from rand i (suc n) = charset_at (rand i % 62) ∷ uid_from rand (suc i) n

unfoldable pub create_new_uid : (ℕ → ℕ) → ℕ → Str
create_new_uid rand n = uid_from rand 0 n

abbrev pub InCharset : ℕ → Type 0
InCharset c = (i : ℕ) × (i < 62) × (get_elem? charset i ≡ some c)

charset_at-get : (i c : ℕ) → get_elem? charset i ≡ some c → charset_at i ≡ c
unfolding charset_at
charset_at-get i c e = rw (e, charset_at) refl

charset_at-InCharset : (n : ℕ) → InCharset (charset_at (n % 62))
charset_at-InCharset n =
    let (c, e) = get_elem?-total charset (n % 62) (omega arith) in
    (n % 62, omega arith, e ∙ ap some (sym (charset_at-get (n % 62) c e)))

uid_from_lem :
    (rand : ℕ → ℕ) (i n : ℕ) → (length (uid_from rand i n) ≡ n) × All InCharset (uid_from rand i n)
unfolding uid_from
uid_from_lem rand i zero = (refl, tt)
uid_from_lem rand i (suc n) =
    let (l, all) = uid_from_lem rand (suc i) n in (ap suc l, (charset_at-InCharset (rand i), all))

-- Whatever `rand` returns, a new identifier has the length that was asked for, and each of its bytes
-- is one of the 62 digits and letters.
pub create_new_uid_lem :
    (rand : ℕ → ℕ) (n : ℕ)
    → (length (create_new_uid rand n) ≡ n) × All InCharset (create_new_uid rand n)
unfolding create_new_uid
create_new_uid_lem rand n = uid_from_lem rand 0 n
