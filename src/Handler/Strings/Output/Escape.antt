-- ===== src/Handler/Strings/Output/Escape.antt =====
-- How `encode_output` of src/request_handler.cpp writes a single char of a value.
use ogmp_server.Base.{
  ℕ, ◌≡◌, ◌≢◌, refl, sym, ap, ◌∙◌, inl, inr, ◌⊎◌, false, [], ◌∷◌, ◌++◌, append_assoc, Bool-cases,
  some, pos, arith, ◌==◌, ==_iff,
}
use ogmp_server.Text.{Str, codes}
use ogmp_server.Handler.Strings.Url.{unplus, read_hex, hex_digit, to_char}
use ogmp_server.Handler.Strings.Output.{substitute}

substitute-append :
    (c : ℕ) (t x y : Str) → substitute c t (x ++ y) ≡ substitute c t x ++ substitute c t y
unfolding substitute
substitute-append c t [] y = refl
substitute-append c t (a ∷ x) y = elim (Bool-cases (a == c)) [
  | inl e ↦ rw e (
      ap (λ r. t ++ r) (substitute-append c t x y)
      ∙ sym (append_assoc t (substitute c t x) (substitute c t y)))
  | inr e ↦ rw e (ap (λ r. a ∷ r) (substitute-append c t x y))
]

-- The substitutions of `encode_value`, one behind the other.
unfoldable pub substitute_all : Str → Str
substitute_all s = substitute 92 (codes "%5c") (
    substitute 61 (codes "%3d") (
      substitute 39 (codes "%27") (
        substitute 38 (codes "%26") (
          substitute 35 (codes "%23")
            (substitute 34 (codes "%22") (substitute 37 (codes "%25") s))))))

pub substitute_all-append :
    (x y : Str) → substitute_all (x ++ y) ≡ substitute_all x ++ substitute_all y
unfolding substitute_all
substitute_all-append x y = simp (substitute-append) refl

-- A percent sign and two digits that `url_decode` reads as the char.
abbrev pub IsEscape : ℕ → Str → Type 0
IsEscape a e =
    (h : ℕ) × (l : ℕ) × (e ≡ 37 ∷ h ∷ l ∷ [])
    × (read_hex h l ≡ some (pos a))
    × (to_char (pos a) ≡ unplus a)
    × (h ≢ 38)
    × (l ≢ 38)

escape :
    (a b : ℕ) → a ≡ b → IsEscape b (substitute_all (b ∷ [])) → IsEscape a (substitute_all (a ∷ []))
escape a b e h = rw e h

-- Each char of a value stays, or it is escaped.
pub IsEscape-cases :
    (a : ℕ)
    → ((substitute_all (a ∷ []) ≡ a ∷ []) × (a == 37 ≡ false) × (a ≢ 38))
      ⊎ IsEscape a (substitute_all (a ∷ []))
unfolding substitute_all substitute read_hex hex_digit to_char unplus
IsEscape-cases a = elim (Bool-cases (a == 37)) [
  | inl e ↦
      inr (escape a 37 ((==_iff a 37).0 e) (50, 53, refl, refl, refl, omega arith, omega arith))
  | inr e1 ↦ elim (Bool-cases (a == 34)) [
    | inl e ↦
        inr (escape a 34 ((==_iff a 34).0 e) (50, 50, refl, refl, refl, omega arith, omega arith))
    | inr e2 ↦ elim (Bool-cases (a == 35)) [
      | inl e ↦
          inr (escape a 35 ((==_iff a 35).0 e) (50, 51, refl, refl, refl, omega arith, omega arith))
      | inr e3 ↦ elim (Bool-cases (a == 38)) [
        | inl e ↦
            inr
              (escape a 38 ((==_iff a 38).0 e) (50, 54, refl, refl, refl, omega arith, omega arith))
        | inr e4 ↦ elim (Bool-cases (a == 39)) [
          | inl e ↦
              inr (
                escape a 39 ((==_iff a 39).0 e)
                  (50, 55, refl, refl, refl, omega arith, omega arith))
          | inr e5 ↦ elim (Bool-cases (a == 61)) [
            | inl e ↦ inr (
                escape a 61 ((==_iff a 61).0 e)
                  (51, 100, refl, refl, refl, omega arith, omega arith))
            | inr e6 ↦ elim (Bool-cases (a == 92)) [
              | inl e ↦ inr (
                  escape a 92 ((==_iff a 92).0 e)
                    (53, 99, refl, refl, refl, omega arith, omega arith))
              | inr e7 ↦ inl (rw (e1, e2, e3, e4, e5, e6, e7) refl, e1, ground (arith, ==_iff a 38))
            ]
          ]
        ]
      ]
    ]
  ]
]
