-- ===== src/Examples/Strings.antt =====
-- The string helpers, the settings and the file types on a few texts.
use ogmp_server.Base.{
  ◌*◌, ◌+◌, ◌≡◌, refl, true, false, [], ◌∷◌, none, some, All, map, pos, arith, length,
}
use ogmp_server.Text.{Str, codes, str_eq, c_str}
use ogmp_server.MimeTypes.{extension_to_type, first_match}
use ogmp_server.Config.Reading.{Tree, read_config, read_map_list}
use ogmp_server.Handler.Strings.Separate.{
  starts_with, find, seperate, seperate_string, IsSeperated, seperate_string_lem, seperate-empty,
}
use ogmp_server.Handler.Strings.Uid.{InCharset, create_new_uid, create_new_uid_lem}
use ogmp_server.Handler.Strings.Url.{unplus, url_decode, read_hex, hex_digit, add}
use ogmp_server.Handler.Strings.Output.{substitute, Replaces, encode_value, entry, encode_output}
use ogmp_server.Handler.Strings.Output.RoundTrip.{url_decode-encode_value}
use ogmp_server.Handler.Strings.Output.Entries.{seperate_string-encode_output}

seperate_string_lem_example :
    IsSeperated (codes ", ") (codes "a, b, , c") (seperate_string (codes "a, b, , c") (codes ", "))
seperate_string_lem_example = seperate_string_lem (codes "a, b, , c") (codes ", ") (λ e. cc)

four_tokens :
    seperate_string (codes "a, b, , c") (codes ", ")
    ≡ some (codes "a" ∷ codes "b" ∷ [] ∷ codes "c" ∷ [])
unfolding seperate_string seperate find starts_with
four_tokens = refl

no_round_is_enough : seperate 1000 (codes "abc") [] ≡ none
no_round_is_enough = seperate-empty 1000 (codes "abc")

new_uid :
    (length (create_new_uid (λ i. 1103515245 * i + 12345) 32) ≡ 32)
    × All InCharset (create_new_uid (λ i. 1103515245 * i + 12345) 32)
new_uid = create_new_uid_lem (λ i. 1103515245 * i + 12345) 32

-- A `replace_all` for a search of one char.
abbrev replace_all : Str → Str → Str → Str
replace_all s (c ∷ []) t = substitute c t s
replace_all s _ t = s

abbrev replaces : Replaces replace_all
replaces c t s = refl

url_decode-encode_value_example :
    url_decode (encode_value replace_all (codes "100% = 1+1 & \"x\""))
    ≡ (true, map unplus (codes "100% = 1+1 & \"x\""))
url_decode-encode_value_example =
    url_decode-encode_value replace_all replaces (codes "100% = 1+1 & \"x\"")

-- A plus sign is not kept.
plus_is_lost : map unplus (codes "1+1") ≡ codes "1 1"
unfolding unplus
plus_is_lost = refl

seperate_string-encode_output_example :
    seperate_string
      (encode_output replace_all ((codes "a", codes "x&y") ∷ (codes "b", codes "z") ∷ []))
      (codes "&")
    ≡ some (map (entry replace_all) ((codes "a", codes "x&y") ∷ (codes "b", codes "z") ∷ []))
seperate_string-encode_output_example =
    seperate_string-encode_output replace_all replaces (codes "a", codes "x&y")
      ((codes "b", codes "z") ∷ []) ((omega arith, tt), ((omega arith, tt), tt))

-- What is read of two chars behind a percent sign.
hex_41 : read_hex 52 49 ≡ some (pos 65)
unfolding read_hex hex_digit
hex_41 = refl

hex_0x : read_hex 48 120 ≡ none
unfolding read_hex hex_digit
hex_0x = refl

decode_bad : url_decode (codes "a%4") ≡ (false, codes "a")
unfolding url_decode add unplus
decode_bad = refl

-- Another extension than those of the table is plain text; the comparison minds the case.
type_of_upper_case : extension_to_type (codes "PNG") ≡ codes "text/plain"
unfolding extension_to_type first_match str_eq
type_of_upper_case = refl

type_of_png : extension_to_type (codes "png") ≡ codes "image/png"
unfolding extension_to_type first_match str_eq
type_of_png = refl

abbrev tree : Tree
tree = record {
  float_at = λ s. some 10;
  double_at = λ s. some 0x4014_0000_0000_0000;
  string_at = λ s. some s;
  bool_at = λ s. some true;
  child_at = λ s. some ((codes "A", codes "a.xml") ∷ []);
}

reads_maps : read_map_list ((codes "A", codes "a.xml") ∷ []) ≡ (codes "A", codes "a.xml") ∷ []
unfolding read_map_list c_str
reads_maps = refl

-- A file without a section on the maps is refused.
without_maps : read_config (record tree { child_at = λ s. none }) ≡ none
unfolding read_config
without_maps = refl
