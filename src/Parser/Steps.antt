-- ===== src/Parser/Steps.antt =====
-- What `consume` of src/request_parser.cpp does on a char that is in its place.
use ogmp_server.Base.{
  ℕ, ◌+◌, ◌-◌, ◌*◌, ◌<◌, ◌≡◌, refl, ◌∙◌, ap, sym, List, [], ◌∷◌, ◌++◌, length, All, append_assoc,
  append-nil, arith, true, false, ◌==◌, ==_iff, ◌||◌, Bool, ◌&&◌,
}
use ogmp_server.Text.{Str, codes, str_eq}
use ogmp_server.Parser.Chars.{is_token, is_ctl, is_digit, is_char, is_tspecial}
use ogmp_server.Parser.Consume.{
  Header, Parser, Request, State, new_parser, good, indeterminate, consume_in, consume, feed,
  method_start, method, uri, http_version_major_start, http_version_major, http_version_minor_start,
  http_version_minor, header_line_start, header_name, header_value, push_name, push_value,
  push_header, modify_back, finish_headers,
}
use ogmp_server.Parser.Body.{feed_more}

-- The headers' lines, in front of `t`.
abbrev pub print_headers : List Header → List ℕ → List ℕ
print_headers [] t = t
print_headers (h ∷ hs) t = h.name ++ (b':' ∷ 32 ∷ (h.value ++ (13 ∷ 10 ∷ print_headers hs t)))

-- The version's numbers are digits.
abbrev pub print_request : Request → List ℕ → List ℕ
print_request r t =
    r.method
    ++ (32
        ∷ (r.uri
            ++ (32
                ∷ b'H'
                ∷ b'T'
                ∷ b'T'
                ∷ b'P'
                ∷ b'/'
                ∷ (48 + r.http_version_major)
                ∷ b'.'
                ∷ (48 + r.http_version_minor)
                ∷ 13
                ∷ 10
                ∷ print_headers r.headers (13 ∷ 10 ∷ t))))

abbrev pub IsToken : Str → Type 0
IsToken s = (0 < length s) × All (λ c. is_token c ≡ true) s

abbrev pub IsHeader : Header → Type 0
IsHeader h = IsToken h.name × All (λ c. is_ctl c ≡ false) h.value

-- A request without a content, whose parts can be told apart.
pub record IsRequest (r : Request) : Type 0 where
  pub method : IsToken r.method
  pub no_post : str_eq r.method (codes "POST") ≡ false
  pub uri : All (λ c. ((c == 32) || is_ctl c) ≡ false) r.uri
  pub major : r.http_version_major < 10
  pub minor : r.http_version_minor < 10
  pub headers : All IsHeader r.headers
  pub json : r.json ≡ false
  pub content : r.content ≡ []

abbrev pub blank : Request
blank = record {
  method = [];
  uri = [];
  http_version_major = 0;
  http_version_minor = 0;
  headers = [];
  json = false;
  content = [];
}

abbrev pub in_state : State → Parser
in_state z = record new_parser { state = z }

-- A state that takes the chars of a string, where `g` is the request with the chars so far.
pub feed_string :
    (p : Parser) (g : Str → Request) (P : ℕ → Type 0)
    → ((acc : Str) (c : ℕ) → P c → consume p (g acc) c ≡ (indeterminate, p, g (acc ++ c ∷ [])))
    → (acc s t : Str) → All P s
    → feed p (g acc) (s ++ t) ≡ feed p (g (acc ++ s)) t
feed_string p g P step acc [] t h = ap (λ u. feed p (g u) t) (sym (append-nil acc))
feed_string p g P step acc (c ∷ s) t h =
    feed_more p (g acc) c (s ++ t) (step acc c h.0)
    ∙ feed_string p g P step (acc ++ c ∷ []) s t h.1
    ∙ ap (λ u. feed p (g u) t) (append_assoc acc (c ∷ []) s)

token-ne : (c d : ℕ) → is_token c ≡ true → is_token d ≡ false → (c == d) ≡ false
token-ne c d h k = ground (arith, ==_iff c d, λ (e : c ≡ d). ap is_token e)

ctl-ne : (c d : ℕ) → is_ctl c ≡ false → is_ctl d ≡ true → (c == d) ≡ false
ctl-ne c d h k = ground (arith, ==_iff c d, λ (e : c ≡ d). ap is_ctl e)

space : is_token 32 ≡ false
unfolding is_token is_char is_ctl is_tspecial
space = refl

tab : is_token 9 ≡ false
unfolding is_token is_char is_ctl is_tspecial
tab = refl

newline : is_token 13 ≡ false
unfolding is_token is_char is_ctl is_tspecial
newline = refl

colon : is_token 58 ≡ false
unfolding is_token is_char is_ctl is_tspecial
colon = refl

and_false : (b : Bool) → (b && false) ≡ false
and_false true = refl
and_false false = refl

digit : (a : ℕ) → a < 10 → is_digit (48 + a) ≡ true
unfolding is_digit
digit a h = ground arith

pub digit-value : (a : ℕ) → 0 * 10 + (48 + a - 48) ≡ a
digit-value a = omega arith

pub modify_back-snoc :
    (f : Header → Header) (hs : List Header) (h : Header)
    → modify_back f (hs ++ h ∷ []) ≡ hs ++ f h ∷ []
unfolding modify_back
modify_back-snoc f [] h = refl
modify_back-snoc f (i ∷ []) h = refl
modify_back-snoc f (i ∷ j ∷ hs) h = ap (◌∷◌ i) (modify_back-snoc f (j ∷ hs) h)

pub feed-line_end :
    (r : Request) (t : Str)
    → feed (in_state header_value) r (13 ∷ 10 ∷ t) ≡ feed (in_state header_line_start) r t
unfolding feed consume consume_in
feed-line_end r t = refl

pub finish_headers-no_post :
    (p : Parser) (r : Request)
    → str_eq r.method (codes "POST") ≡ false
    → finish_headers p r ≡ (good, p, r)
unfolding finish_headers
finish_headers-no_post p r h = rw h refl

module _ (r : Request) where
  pub consume-method_start :
      (c : ℕ)
      → is_token c ≡ true
      → consume (in_state method_start) (record r { method = [] }) c
        ≡ (indeterminate, in_state method, record r { method = c ∷ [] })
  unfolding consume consume_in
  consume-method_start c h = rw h refl

  pub consume-method :
      (acc : Str) (c : ℕ)
      → is_token c ≡ true
      → consume (in_state method) (record r { method = acc }) c
        ≡ (indeterminate, in_state method, record r { method = acc ++ c ∷ [] })
  unfolding consume consume_in
  consume-method acc c h = rw (token-ne c 32 h space, h) refl

  pub consume-uri :
      (acc : Str) (c : ℕ)
      → ((c == 32) || is_ctl c) ≡ false
      → consume (in_state uri) (record r { uri = acc }) c
        ≡ (indeterminate, in_state uri, record r { uri = acc ++ c ∷ [] })
  unfolding consume consume_in
  consume-uri acc c h = ground arith

  pub consume-header_name :
      (hs : List Header) (v acc : Str) (c : ℕ)
      → is_token c ≡ true
      → consume
          (in_state header_name)
          (record r { headers = hs ++ record { name = acc; value = v } ∷ [] })
          c
        ≡ (
          indeterminate,
          in_state header_name,
          record r { headers = hs ++ record { name = acc ++ c ∷ []; value = v } ∷ [] },
        )
  unfolding consume consume_in push_name
  consume-header_name hs v acc c h = rw (token-ne c 58 h colon, h, modify_back-snoc) refl

  pub consume-header_value :
      (hs : List Header) (n acc : Str) (c : ℕ)
      → is_ctl c ≡ false
      → consume
          (in_state header_value)
          (record r { headers = hs ++ record { name = n; value = acc } ∷ [] })
          c
        ≡ (
          indeterminate,
          in_state header_value,
          record r { headers = hs ++ record { name = n; value = acc ++ c ∷ [] } ∷ [] },
        )
  unfolding consume consume_in push_value
  consume-header_value hs n acc c h = rw (ctl-ne c 13 h return, h, modify_back-snoc) refl
    where
      return : is_ctl 13 ≡ true
      return = unfold is_ctl in refl

  pub consume-header_line_start :
      (c : ℕ)
      → is_token c ≡ true
      → consume (in_state header_line_start) r c
        ≡ (indeterminate, in_state header_name, push_header c r)
  unfolding consume consume_in
  consume-header_line_start c h =
      rw (token-ne c 13 h newline, token-ne c 32 h space, token-ne c 9 h tab, h, and_false) refl

  pub consume-major :
      (a : ℕ)
      → a < 10
      → consume (in_state http_version_major_start) (record r { http_version_major = 0 }) (48 + a)
        ≡ (indeterminate, in_state http_version_major, record r { http_version_major = a })
  unfolding consume consume_in
  consume-major a h = rw (digit a h, digit-value a) refl

  pub consume-minor :
      (a : ℕ)
      → a < 10
      → consume (in_state http_version_minor_start) (record r { http_version_minor = 0 }) (48 + a)
        ≡ (indeterminate, in_state http_version_minor, record r { http_version_minor = a })
  unfolding consume consume_in
  consume-minor a h = rw (digit a h, digit-value a) refl
