-- ===== src/Parser/Invariant.antt =====
-- When `consume` of src/request_parser.cpp may take `headers.back()`: what its states need.
use ogmp_server.Base.{arith, ℤ, ℕ, ◌≡◌, refl, List, [], ◌∷◌, ◌++◌, Bool, true, false}
use ogmp_server.Parser.Consume.{
  Parser, Request, method_start, method, uri, http_version_h, http_version_t_1, http_version_t_2,
  http_version_p, http_version_slash, http_version_major_start, http_version_major,
  http_version_minor_start, http_version_minor, expecting_newline_1, expecting_newline_3,
  read_content, State, header_lws, header_name, space_before_header_value, header_value,
  expecting_newline_2, consume_in, consume, is_empty, push_name, push_value, push_header,
  modify_back, finish_headers, consume_content, header_line_start, Header,
}

-- The states that are entered after a header has begun.
unfoldable pub has_header : State → Bool
has_header header_lws = true
has_header header_name = true
has_header space_before_header_value = true
has_header header_value = true
has_header expecting_newline_2 = true
has_header _ = false

-- In those states the vector of headers has a last one.
abbrev pub HasBack : Parser → Request → Type 0
HasBack p r = has_header p.state ≡ true → is_empty r.headers ≡ false

modify_back-is_empty :
    (f : Header → Header) (hs : List Header)
    → is_empty hs ≡ false
    → is_empty (modify_back f hs) ≡ false
unfolding is_empty modify_back
modify_back-is_empty f [] h = h
modify_back-is_empty f (i ∷ []) h = refl
modify_back-is_empty f (i ∷ j ∷ hs) h = refl

push_value-is_empty :
    (c : ℕ) (r : Request) → is_empty r.headers ≡ false → is_empty ((push_value c r).headers) ≡ false
unfolding push_value
push_value-is_empty c r h = modify_back-is_empty _ r.headers h

push_name-is_empty :
    (c : ℕ) (r : Request) → is_empty r.headers ≡ false → is_empty ((push_name c r).headers) ≡ false
unfolding push_name
push_name-is_empty c r h = modify_back-is_empty _ r.headers h

snoc-is_empty : (h : Header) (hs : List Header) → is_empty (hs ++ h ∷ []) ≡ false
unfolding is_empty
snoc-is_empty h [] = refl
snoc-is_empty h (i ∷ hs) = refl

push_header-is_empty : (c : ℕ) (r : Request) → is_empty ((push_header c r).headers) ≡ false
unfolding push_header
push_header-is_empty c r = snoc-is_empty _ r.headers

consume_in-HasBack :
    (z : State) (n : ℤ) (k : ℕ) (r : Request) (c : ℕ)
    → (has_header z ≡ true → is_empty r.headers ≡ false)
    → let o = consume_in z (record { state = z; post_size = n; post_char_counter = k }) r c in
      HasBack o.1 o.2
unfolding consume_in has_header finish_headers consume_content
consume_in-HasBack method_start n k r c h = ground arith
consume_in-HasBack method n k r c h = ground arith
consume_in-HasBack uri n k r c h = ground arith
consume_in-HasBack http_version_h n k r c h = ground arith
consume_in-HasBack http_version_t_1 n k r c h = ground arith
consume_in-HasBack http_version_t_2 n k r c h = ground arith
consume_in-HasBack http_version_p n k r c h = ground arith
consume_in-HasBack http_version_slash n k r c h = ground arith
consume_in-HasBack http_version_major_start n k r c h = ground arith
consume_in-HasBack http_version_major n k r c h = ground arith
consume_in-HasBack http_version_minor_start n k r c h = ground arith
consume_in-HasBack http_version_minor n k r c h = ground arith
consume_in-HasBack expecting_newline_1 n k r c h = ground arith
consume_in-HasBack header_line_start n k r c h = let e = push_header-is_empty c r in ground arith
consume_in-HasBack header_lws n k r c h = let e = push_value-is_empty c r (h refl) in ground arith
consume_in-HasBack header_name n k r c h = let e = push_name-is_empty c r (h refl) in ground arith
consume_in-HasBack space_before_header_value n k r c h = ground arith
consume_in-HasBack header_value n k r c h = let e = push_value-is_empty c r (h refl) in ground arith
consume_in-HasBack expecting_newline_2 n k r c h = ground arith
consume_in-HasBack expecting_newline_3 n k r c h = ground arith
consume_in-HasBack read_content n k r c h = ground arith

-- Whenever the parser is inside a header, there is a last header to add to: a char keeps it so, and
-- a char outside a header that leads into one leaves one.
pub consume-HasBack :
    (p : Parser) (r : Request) (c : ℕ)
    → HasBack p r
    → HasBack ((consume p r c).1) ((consume p r c).2)
unfolding consume
consume-HasBack p r c h = consume_in-HasBack p.state p.post_size p.post_char_counter r c h
