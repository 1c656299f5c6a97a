-- ===== src/Handler/Strings/Output.antt =====
-- `encode_output` of src/request_handler.cpp.
pub mod Escape
pub mod RoundTrip
pub mod Entries
use ogmp_server.Base.{
  ℕ, ◌+◌, ◌≡◌, ◌≢◌, refl, sym, ap, ◌∙◌, inl, inr, ◌⊎◌, Bool, true, false, not, ◌&&◌, ◌||◌, List, [],
  ◌∷◌, ◌++◌, append_assoc, Bool-cases, All, map, arith, ◌==◌, ==_iff, if◌then◌else◌,
}
use ogmp_server.Text.{Str, codes}
use ogmp_server.StringMap.{StringMap}
use ogmp_server.Handler.Strings.Url.{
  Decoded, add, unplus, url_decode, url_decode-plain, read_hex, hex_digit, to_char,
}

-- Every `c` of a text with a string in its place.
unfoldable pub substitute : ℕ → Str → Str → Str
substitute c t [] = []
substitute c t (a ∷ s) = let rest = substitute c t s in if a == c then t ++ rest else a ∷ rest

-- `boost::replace_all` is not part of the source. What it documents, of a search for one char: it puts
-- the format in the place of every occurrence.
abbrev pub Replaces : (Str → Str → Str → Str) → Type 0
Replaces replace_all = (c : ℕ) (t s : Str) → replace_all s (c ∷ []) t ≡ substitute c t s

module _ (replace_all : Str → Str → Str → Str) where
  -- The value as the source encodes it, the percent signs first.
  unfoldable pub encode_value : Str → Str
  encode_value value =
      let v1 = replace_all value (codes "%") (codes "%25") in
      let v2 = replace_all v1 (codes "\"") (codes "%22") in
      let v3 = replace_all v2 (codes "#") (codes "%23") in
      let v4 = replace_all v3 (codes "&") (codes "%26") in
      let v5 = replace_all v4 (codes "'") (codes "%27") in
      let v6 = replace_all v5 (codes "=") (codes "%3d") in replace_all v6 (codes "\\") (codes "%5c")

  unfoldable pub entry : Str × Str → Str
  entry (key, value) = key ++ (codes "=" ++ encode_value value)

  -- The entries behind the first one.
  unfoldable pub encode_more : List (Str × Str) → Str
  encode_more [] = []
  encode_more (e ∷ es) = codes "&" ++ (entry e ++ encode_more es)

  -- `encode_output` of a map.
  unfoldable pub encode_output : StringMap Str → Str
  encode_output [] = []
  encode_output (e ∷ es) = entry e ++ encode_more es

  unfoldable pub encode_more_maps : List (StringMap Str) → Str
  encode_more_maps [] = []
  encode_more_maps (m ∷ ms) = codes "#" ++ (encode_output m ++ encode_more_maps ms)

  -- `encode_output` of several maps.
  unfoldable pub encode_outputs : List (StringMap Str) → Str
  encode_outputs [] = []
  encode_outputs (m ∷ ms) = encode_output m ++ encode_more_maps ms
