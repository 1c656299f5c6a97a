-- ===== src/Handler/Strings/Output/Entries.antt =====
-- The entries that `encode_output` of src/request_handler.cpp writes, taken apart again by
-- `seperate_string`.
use mathlib.Core.Option
use ogmp_server.Base.{
  ℕ, zero, suc, ◌<◌, ◌≡◌, ◌≢◌, refl, ap, ◌∙◌, List, [], ◌∷◌, ◌++◌, append-nil, All, map, some, none,
  arith, length, length-append, drop-add, take-length-append, drop-length-append, ==_iff,
}
use ogmp_server.Text.{Str, codes}
use ogmp_server.Handler.Strings.Separate.{starts_with, find, seperate, seperate_string}
use ogmp_server.Handler.Strings.Output.{Replaces, entry, encode_more, encode_output}
use ogmp_server.Handler.Strings.Output.RoundTrip.{encode_value-apart}

abbrev pub IsApart : Str → Type 0
IsApart s = All (λ c. c ≢ 38) s

append-IsApart : (x y : Str) → IsApart x → IsApart y → IsApart (x ++ y)
append-IsApart [] y h k = k
append-IsApart (a ∷ x) y h k = (h.0, append-IsApart x y h.1 k)

find-apart : (p : Str) → IsApart p → find (38 ∷ []) p ≡ none
unfolding find starts_with
find-apart [] h = refl
find-apart (a ∷ p) h = ground (arith, ==_iff 38 a, find-apart p h.1, h.0)

find-at : (p r : Str) → IsApart p → find (38 ∷ []) (p ++ 38 ∷ r) ≡ some (length p)
unfolding find starts_with
find-at [] r h = refl
find-at (a ∷ p) r h = ground (arith, ==_iff 38 a, find-at p r h.1, h.0)

-- A round takes the token in front of the first separator.
seperate-token :
    (rounds : ℕ) (p r : Str)
    → IsApart p
    → seperate (suc rounds) (p ++ 38 ∷ r) (38 ∷ [])
      ≡ Option.map (λ tokens. p ∷ tokens) (seperate rounds r (38 ∷ []))
unfolding seperate
seperate-token rounds p r h =
    rw
      (
        find-at p r h,
        seperate,
        take-length-append p (38 ∷ r),
        drop-add (length p) 1 (p ++ 38 ∷ r),
        drop-length-append p (38 ∷ r),
      )
      refl

seperate-last :
    (rounds : ℕ) (p : Str) → IsApart p → seperate (suc rounds) p (38 ∷ []) ≡ some (p ∷ [])
unfolding seperate
seperate-last rounds p h = rw (find-apart p h, seperate) refl

module _ (replace_all : Str → Str → Str → Str) (replaces : Replaces replace_all) where
  entry-IsApart : (e : Str × Str) → IsApart (e.0) → IsApart (entry replace_all e)
  unfolding entry
  entry-IsApart (key, value) h =
      append-IsApart key _ h (omega arith, encode_value-apart replace_all replaces value)

  seperate-entries :
      (rounds : ℕ) (e : Str × Str) (es : List (Str × Str))
      → All (λ f. IsApart f.0) (e ∷ es)
      → length es < rounds
      → seperate rounds (entry replace_all e ++ encode_more replace_all es) (38 ∷ [])
        ≡ some (map (entry replace_all) (e ∷ es))
  unfolding encode_more
  seperate-entries zero e es h l = absurd (omega (arith, l))
  seperate-entries (suc rounds) e [] h l =
      ap (λ s. seperate (suc rounds) s (38 ∷ [])) (append-nil (entry replace_all e))
      ∙ seperate-last rounds (entry replace_all e) (entry-IsApart e h.0)
  seperate-entries (suc rounds) e (f ∷ es) h l =
      seperate-token rounds (entry replace_all e) _ (entry-IsApart e h.0)
      ∙ ap (Option.map (λ tokens. entry replace_all e ∷ tokens))
          (seperate-entries rounds f es h.1 (omega (arith, l)))

  more-length : (es : List (Str × Str)) → length es < suc (length (encode_more replace_all es))
  unfolding encode_more
  more-length [] = omega arith
  more-length (e ∷ es) =
      omega
        (arith, more-length es, length-append (entry replace_all e) (encode_more replace_all es))

  -- The output for a map with entries falls at its `&` signs into the entries, in their order, each
  -- with its key, an `=` and its encoded value, provided that no key has an `&` sign and that
  -- `replace_all` replaces every occurrence of a char.
  pub seperate_string-encode_output :
      (e : Str × Str) (es : List (Str × Str))
      → All (λ f. IsApart f.0) (e ∷ es)
      → seperate_string (encode_output replace_all (e ∷ es)) (codes "&")
        ≡ some (map (entry replace_all) (e ∷ es))
  unfolding seperate_string encode_output
  seperate_string-encode_output e es h = seperate-entries _ e es h (
      omega
        (arith, more-length es, length-append (entry replace_all e) (encode_more replace_all es)))
