-- ===== src/Examples/Bytes.antt =====
-- Messages and requests, byte by byte.
use ogmp_server.Base.{false, ◌≡◌, refl, ◌++◌, [], ◌∷◌, ok, some, arith, length}
use ogmp_server.Text.{codes, str_eq, c_str}
use ogmp_server.Reply.{add_string, add_float}
use ogmp_server.Reply.Framing.{unframe_all, frames, unframe_all-frames}
use ogmp_server.Input.{get_string, get_float}
use ogmp_server.Input.RoundTrip.{get_string-add_string, get_float-add_float, swap_bytes}
use ogmp_server.Parser.Consume.{
  Request, Parser, header_name, expecting_newline_3, new_parser, good, feed, consume, is_empty,
}
use ogmp_server.Parser.Chars.{atoi, is_token, is_char, is_ctl, is_tspecial}
use ogmp_server.Parser.RoundTrip.{blank, print_request, IsRequest, feed-print_request}
use ogmp_server.Parser.Body.{feed-content, reading, with_content}
use ogmp_server.Parser.Invariant.{HasBack, consume-HasBack}

get_string-add_string_example :
    get_string (add_string (codes "bob") (7 ∷ []) ++ 9 ∷ []) 1 ≡ ok (codes "bob", 5)
unfolding add_string c_str
get_string-add_string_example =
    get_string-add_string (codes "bob") (7 ∷ []) (9 ∷ [])
      (omega arith, (omega arith, (omega arith, tt))) (omega arith)

get_float-add_float_example :
    get_float (add_float 0x3f80_0000 (7 ∷ []) ++ 9 ∷ []) 1
    ≡ ok (swap_bytes 0x3f80_0000, length (add_float 0x3f80_0000 (7 ∷ [])))
get_float-add_float_example = get_float-add_float 0x3f80_0000 (7 ∷ []) (9 ∷ [])

-- 1.0f comes back as the denormal 4.6e-41.
swap_bytes_one : swap_bytes 0x3f80_0000 ≡ 0x0000_803f
unfolding swap_bytes
swap_bytes_one = refl

unframe_all-frames_example :
    unframe_all 2 (frames ((1 ∷ 2 ∷ []) ∷ [] ∷ [])) ≡ some ((1 ∷ 2 ∷ []) ∷ [] ∷ [])
unframe_all-frames_example =
    unframe_all-frames ((1 ∷ 2 ∷ []) ∷ [] ∷ []) (omega arith, (omega arith, tt))

abbrev empty_request : Request
empty_request = record {
  method = codes "POST";
  uri = codes "/";
  http_version_major = 1;
  http_version_minor = 1;
  headers = [];
  json = false;
  content = [];
}

abbrev named_request : Request
named_request = record empty_request { headers = record { name = codes "Ho"; value = [] } ∷ [] }

-- The header says that the content has three chars.
abbrev lengthy_request : Request
lengthy_request = record empty_request {
  headers =
      record { name = codes "Ho"; value = [] }
      ∷ record { name = codes "Content-Length"; value = codes "3" }
      ∷ [];
}

abbrev behind_headers : Parser
behind_headers = record new_parser { state = expecting_newline_3 }

feed-content_example :
    feed behind_headers lengthy_request (10 ∷ codes "abcd")
    ≡ (good, reading 2 2, with_content (codes "abc") lengthy_request, codes "d")
unfolding str_eq atoi new_parser
feed-content_example =
    feed-content behind_headers lengthy_request (record { name = codes "Ho"; value = [] } ∷ [])
      (record { name = codes "Content-Length"; value = codes "3" }) [] (codes "ab") b'c' (codes "d")
      refl refl refl refl (refl, tt) refl refl (omega arith) (omega arith)

consume-HasBack_example :
    let o = consume (record new_parser { state = header_name }) named_request b's' in
    HasBack o.1 o.2
unfolding is_empty
consume-HasBack_example =
    consume-HasBack (record new_parser { state = header_name }) named_request b's' (λ _. refl)

abbrev get_request : Request
get_request = record {
  method = codes "GET";
  uri = codes "/x";
  http_version_major = 1;
  http_version_minor = 0;
  headers = record { name = codes "Ab"; value = codes "h i" } ∷ [];
  json = false;
  content = [];
}

get_request-IsRequest : IsRequest get_request
unfolding is_token is_char is_ctl is_tspecial str_eq
get_request-IsRequest = record {
  method = (omega arith, (refl, (refl, (refl, tt))));
  no_post = refl;
  uri = (refl, (refl, tt));
  major = omega arith;
  minor = omega arith;
  headers = (((omega arith, (refl, (refl, tt))), (refl, (refl, (refl, tt)))), tt);
  json = refl;
  content = refl;
}

feed-print_request_example :
    feed new_parser blank (print_request get_request (codes "rest"))
    ≡ (good, record new_parser { state = expecting_newline_3 }, get_request, codes "rest")
feed-print_request_example = feed-print_request get_request (codes "rest") get_request-IsRequest

get_request_text :
    print_request get_request []
    ≡ codes "GET /x HTTP/1.0" ++ (13 ∷ 10 ∷ codes "Ab: h i" ++ (13 ∷ 10 ∷ 13 ∷ 10 ∷ []))
get_request_text = refl
