-- ===== src/Parser/RoundTrip.antt =====
-- A request as a client writes it, and `consume` of src/request_parser.cpp on it.
use ogmp_server.Base.{
  ℕ, ◌+◌, ◌<◌, ◌≡◌, ◌∙◌, ap, sym, List, [], ◌∷◌, ◌++◌, length, All, append_assoc, append-nil, arith,
  true, false, ◌==◌, ◌||◌,
}
use ogmp_server.Text.{Str, codes, str_eq}
use ogmp_server.Parser.Chars.{is_token, is_ctl}
use ogmp_server.Parser.Consume.{
  Header, Request, new_parser, good, consume_in, consume, feed, method_start, method, uri,
  http_version_major_start, http_version_minor_start, header_line_start, header_name, header_value,
  expecting_newline_3, push_header,
}
use ogmp_server.Parser.Body.{feed_more, feed_good}
use ogmp_server.Parser.Steps.{
  in_state, feed_string, feed-line_end, finish_headers-no_post, consume-method_start,
  consume-method, consume-uri, consume-header_name, consume-header_value, consume-header_line_start,
  consume-major, consume-minor,
}

-- The headers' lines, in front of `t`.
abbrev pub print_headers : List Header → List ℕ → List ℕ
print_headers [] t = t
print_headers (h ∷ hs) t = h.name ++ (b':' ∷ 32 ∷ (h.value ++ (13 ∷ 10 ∷ print_headers hs t)))

-- The version's numbers are digits.
abbrev pub print_request : Request → List ℕ → List ℕ
print_request r t =
    r.method
    ++ (32
        ∷ (r.uri
            ++ (32
                ∷ b'H'
                ∷ b'T'
                ∷ b'T'
                ∷ b'P'
                ∷ b'/'
                ∷ (48 + r.http_version_major)
                ∷ b'.'
                ∷ (48 + r.http_version_minor)
                ∷ 13
                ∷ 10
                ∷ print_headers r.headers (13 ∷ 10 ∷ t))))

abbrev pub IsToken : Str → Type 0
IsToken s = (0 < length s) × All (λ c. is_token c ≡ true) s

abbrev pub IsHeader : Header → Type 0
IsHeader h = IsToken h.name × All (λ c. is_ctl c ≡ false) h.value

-- A request without a content, whose parts can be told apart.
pub record IsRequest (r : Request) : Type 0 where
  pub method : IsToken r.method
  pub no_post : str_eq r.method (codes "POST") ≡ false
  pub uri : All (λ c. ((c == 32) || is_ctl c) ≡ false) r.uri
  pub major : r.http_version_major < 10
  pub minor : r.http_version_minor < 10
  pub headers : All IsHeader r.headers
  pub json : r.json ≡ false
  pub content : r.content ≡ []

abbrev pub blank : Request
blank = record {
  method = [];
  uri = [];
  http_version_major = 0;
  http_version_minor = 0;
  headers = [];
  json = false;
  content = [];
}

module _ (r : Request) where
  feed-header_name :
      (n t : Str)
      → IsToken n
      → feed (in_state header_line_start) r (n ++ b':' ∷ 32 ∷ t)
        ≡ feed
            (in_state header_value)
            (record r { headers = r.headers ++ record { name = n; value = [] } ∷ [] })
            t
  unfolding feed consume consume_in push_header
  feed-header_name [] t h = absurd (omega (arith, h.0))
  feed-header_name (c ∷ n) t h =
      feed_more (in_state header_line_start) r c (n ++ b':' ∷ 32 ∷ t)
        (consume-header_line_start r c h.1.0)
      ∙ feed_string (in_state header_name)
          (λ a. record r { headers = r.headers ++ record { name = a; value = [] } ∷ [] })
          (λ d. is_token d ≡ true) (λ a d. consume-header_name r r.headers [] a d) (c ∷ []) n
          (b':' ∷ 32 ∷ t) h.1.1

  -- One header's line.
  feed-header :
      (h : Header) (t : Str)
      → IsHeader h
      → feed (in_state header_line_start) r (h.name ++ (b':' ∷ 32 ∷ (h.value ++ (13 ∷ 10 ∷ t))))
        ≡ feed (in_state header_line_start) (record r { headers = r.headers ++ h ∷ [] }) t
  feed-header h t v =
      feed-header_name h.name (h.value ++ 13 ∷ 10 ∷ t) v.0
      ∙ feed_string (in_state header_value)
          (λ a. record r { headers = r.headers ++ record { name = h.name; value = a } ∷ [] })
          (λ d. is_ctl d ≡ false) (λ a d. consume-header_value r r.headers h.name a d) [] h.value
          (13 ∷ 10 ∷ t) v.1
      ∙ feed-line_end (record r { headers = r.headers ++ h ∷ [] }) t

feed-headers :
    (r : Request) (hs : List Header) (t : Str)
    → All IsHeader hs
    → feed (in_state header_line_start) r (print_headers hs t)
      ≡ feed (in_state header_line_start) (record r { headers = r.headers ++ hs }) t
feed-headers r [] t v =
    ap (λ l. feed (in_state header_line_start) (record r { headers = l }) t)
      (sym (append-nil r.headers))
feed-headers r (h ∷ hs) t v =
    feed-header r h (print_headers hs t) v.0
    ∙ feed-headers (record r { headers = r.headers ++ h ∷ [] }) hs t v.1
    ∙ ap (λ l. feed (in_state header_line_start) (record r { headers = l }) t)
        (append_assoc r.headers (h ∷ []) hs)

feed-method :
    (m t : Str)
    → IsToken m
    → feed new_parser blank (m ++ 32 ∷ t) ≡ feed (in_state uri) (record blank { method = m }) t
unfolding feed consume consume_in new_parser
feed-method [] t h = absurd (omega (arith, h.0))
feed-method (c ∷ m) t h =
    feed_more (in_state method_start) blank c (m ++ 32 ∷ t) (consume-method_start blank c h.1.0)
    ∙ feed_string (in_state method) (λ a. record blank { method = a }) (λ d. is_token d ≡ true)
        (λ a d. consume-method blank a d) (c ∷ []) m (32 ∷ t) h.1.1

feed-uri :
    (r : Request) (u t : Str)
    → All (λ c. ((c == 32) || is_ctl c) ≡ false) u
    → feed (in_state uri) (record r { uri = [] }) (u ++ 32 ∷ b'H' ∷ b'T' ∷ b'T' ∷ b'P' ∷ b'/' ∷ t)
      ≡ feed
          (in_state http_version_major_start)
          (record r { uri = u; http_version_major = 0; http_version_minor = 0 })
          t
unfolding feed consume consume_in
feed-uri r u t h =
    feed_string (in_state uri) (λ a. record r { uri = a }) (λ c. ((c == 32) || is_ctl c) ≡ false)
      (λ a c. consume-uri r a c) [] u _ h

feed-version :
    (r : Request) (a b : ℕ) (t : Str)
    → a < 10
    → b < 10
    → feed
        (in_state http_version_major_start)
        (record r { http_version_major = 0; http_version_minor = 0 })
        ((48 + a) ∷ b'.' ∷ (48 + b) ∷ 13 ∷ 10 ∷ t)
      ≡ feed
          (in_state header_line_start)
          (record r { http_version_major = a; http_version_minor = b })
          t
unfolding feed consume consume_in
feed-version r a b t ha hb =
    feed_more (in_state http_version_major_start)
      (record r { http_version_major = 0; http_version_minor = 0 }) (48 + a) _
      (consume-major (record r { http_version_minor = 0 }) a ha)
    ∙ feed_more (in_state http_version_minor_start)
        (record r { http_version_major = a; http_version_minor = 0 }) (48 + b) _
        (consume-minor (record r { http_version_major = a }) b hb)

feed-end :
    (r : Request) (t : Str)
    → str_eq r.method (codes "POST") ≡ false
    → feed (in_state header_line_start) r (13 ∷ 10 ∷ t) ≡ (good, in_state expecting_newline_3, r, t)
unfolding feed consume consume_in
feed-end r t h = feed_good (in_state expecting_newline_3) r 10 t (finish_headers-no_post _ r h)

-- A request without a content that a client prints as HTTP asks for is read back whole: fed to a
-- new parser with any bytes behind it, it ends `good` at its last byte, with its method, uri,
-- version and headers as they were, and the bytes behind it unread. The method and the headers'
-- names are tokens, the uri has neither spaces nor controls, the headers' values have no controls,
-- the version's numbers are digits, and the method is not POST.
pub feed-print_request :
    (r : Request) (t : List ℕ)
    → IsRequest r
    → feed new_parser blank (print_request r t) ≡ (good, in_state expecting_newline_3, r, t)
feed-print_request r t v =
    feed-method r.method _ v.method
    ∙ feed-uri (record blank { method = r.method }) r.uri _ v.uri
    ∙ feed-version (record blank { method = r.method; uri = r.uri }) r.http_version_major
        r.http_version_minor _ v.major v.minor
    ∙ feed-headers (record r { headers = []; json = false; content = [] }) r.headers _ v.headers
    ∙ feed-end (record r { json = false; content = [] }) t v.no_post
    ∙ ap (λ u. (good, in_state expecting_newline_3, u, t))
        (λ i. record r { json = sym v.json i; content = sym v.content i })
