-- ===== src/Handler/Strings/Output/RoundTrip.antt =====
-- What `url_decode` of src/request_handler.cpp makes of a value that `encode_output` has written.
use ogmp_server.Base.{ℕ, ◌≡◌, ◌≢◌, refl, ap, ◌∙◌, inl, inr, true, [], ◌∷◌, ◌++◌, All, map, arith}
use ogmp_server.Text.{Str}
use ogmp_server.Handler.Strings.Url.{add, unplus, url_decode, url_decode-plain}
use ogmp_server.Handler.Strings.Output.{substitute, Replaces, encode_value}
use ogmp_server.Handler.Strings.Output.Escape.{
  substitute_all, substitute_all-append, IsEscape-cases,
}

url_decode-escape :
    (a : ℕ) (s : Str) → url_decode (substitute_all (a ∷ []) ++ s) ≡ add (unplus a) (url_decode s)
unfolding url_decode
url_decode-escape a s = elim (IsEscape-cases a) [
  | inl (e, plain, _) ↦ rw e (url_decode-plain a s plain)
  | inr (h, l, e, value, char, _, _) ↦ rw e (rw (value, char, url_decode) refl)
]

-- The chars one by one, as `url_decode` reads them.
url_decode-substitute_all : (s : Str) → url_decode (substitute_all s) ≡ (true, map unplus s)
unfolding add substitute_all substitute
url_decode-substitute_all [] = unfold url_decode in refl
url_decode-substitute_all (a ∷ s) =
    ap url_decode (substitute_all-append (a ∷ []) s)
    ∙ url_decode-escape a (substitute_all s)
    ∙ ap (add (unplus a)) (url_decode-substitute_all s)

module _ (replace_all : Str → Str → Str → Str) (replaces : Replaces replace_all) where
  encode_value-substitute_all : (s : Str) → encode_value replace_all s ≡ substitute_all s
  unfolding encode_value substitute_all
  encode_value-substitute_all s = simp replaces refl

  -- A value that has been encoded is decoded without a fault, and comes back as it was, but with a
  -- blank in the place of each plus sign, provided that `replace_all` replaces every occurrence of a
  -- char.
  pub url_decode-encode_value :
      (s : Str) → url_decode (encode_value replace_all s) ≡ (true, map unplus s)
  url_decode-encode_value s =
      ap url_decode (encode_value-substitute_all s) ∙ url_decode-substitute_all s

  -- No `&` is left in a value.
  pub encode_value-apart : (s : Str) → All (λ c. c ≢ 38) (encode_value replace_all s)
  encode_value-apart s = rw (encode_value-substitute_all s) (apart s)
    where
      apart_append :
          (x y : Str) → All (λ c. c ≢ 38) x → All (λ c. c ≢ 38) y → All (λ c. c ≢ 38) (x ++ y)
      apart_append [] y h k = k
      apart_append (a ∷ x) y h k = (h.0, apart_append x y h.1 k)

      single : (a : ℕ) → All (λ c. c ≢ 38) (substitute_all (a ∷ []))
      single a = elim (IsEscape-cases a) [
        | inl (e, _, n) ↦ rw e (n, tt)
        | inr (h, l, e, _, _, m, n) ↦ rw e (omega arith, (m, (n, tt)))
      ]

      apart : (s : Str) → All (λ c. c ≢ 38) (substitute_all s)
      apart [] = unfold substitute_all substitute in tt
      apart (a ∷ s) =
          rw (substitute_all-append (a ∷ []) s)
            (apart_append (substitute_all (a ∷ [])) (substitute_all s) (single a) (apart s))
