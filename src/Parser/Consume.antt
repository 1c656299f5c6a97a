-- ===== src/Parser/Consume.antt =====
-- `request_parser::consume` and `reset` of src/request_parser.cpp. The version numbers are those
-- that the digits stand for; an `int` overflows, undefined, on a version of more than nine digits.
use ogmp_server.Base.{
  ℕ, zero, suc, ◌+◌, ◌-◌, ◌*◌, Bool, true, false, ◌&&◌, ◌||◌, not, List, [], ◌∷◌, ◌++◌, ℤ, pos,
  negsuc, ltb, leb, ◌==◌, if◌then◌else◌,
}
use ogmp_server.Text.{Str, codes, str_eq}
use ogmp_server.Parser.Chars.{is_ctl, is_token, is_digit, atoi}

pub record Header : Type 0 where
  pub name : Str
  pub value : Str

pub record Request : Type 0 where
  pub method : Str
  pub uri : Str
  pub http_version_major : ℕ
  pub http_version_minor : ℕ
  pub headers : List Header
  pub json : Bool
  pub content : Str

pub data ResultType : Type 0 where
  good bad indeterminate : ResultType

pub data State : Type 0 where
  method_start method uri http_version_h http_version_t_1 http_version_t_2 : State
  http_version_p http_version_slash http_version_major_start http_version_major : State
  http_version_minor_start http_version_minor expecting_newline_1 header_line_start : State
  header_lws header_name space_before_header_value header_value expecting_newline_2 : State
  expecting_newline_3 read_content : State

pub record Parser : Type 0 where
  pub state : State
  pub post_size : ℤ
  pub post_char_counter : ℕ

-- `request_parser::request_parser()`.
unfoldable pub new_parser : Parser
new_parser = record { state = method_start; post_size = pos 0; post_char_counter = 0 }

unfoldable pub reset : Parser → Parser
reset p = record p { state = method_start }

-- What a call of `consume` returns and leaves.
abbrev pub Outcome : Type 0
Outcome = ResultType × Parser × Request

-- `state_ = t; return indeterminate;`
abbrev to_state : State → Parser → Request → Outcome
to_state t p r = (indeterminate, record p { state = t }, r)

abbrev stay : Parser → Request → Outcome
stay p r = (indeterminate, p, r)

abbrev refuse : Parser → Request → Outcome
refuse p r = (bad, p, r)

-- A state that takes one char only.
abbrev expect : ℕ → State → Parser → Request → ℕ → Outcome
expect d t p r c = if c == d then to_state t p r else refuse p r

-- `headers.back()`, changed; of an empty vector it is undefined.
unfoldable pub modify_back : (Header → Header) → List Header → List Header
modify_back f [] = []
modify_back f (h ∷ []) = f h ∷ []
modify_back f (h ∷ i ∷ hs) = h ∷ modify_back f (i ∷ hs)

unfoldable pub push_name : ℕ → Request → Request
push_name c r = record r {
  headers = modify_back (λ h. record h { name = h.name ++ c ∷ [] }) r.headers;
}

unfoldable pub push_value : ℕ → Request → Request
push_value c r = record r {
  headers = modify_back (λ h. record h { value = h.value ++ c ∷ [] }) r.headers;
}

-- `req.headers.push_back(header())` and the first char of its name.
unfoldable pub push_header : ℕ → Request → Request
push_header c r = record r { headers = r.headers ++ record { name = c ∷ []; value = [] } ∷ [] }

unfoldable pub is_empty : List Header → Bool
is_empty [] = true
is_empty (h ∷ hs) = false

unfoldable pub pred_int : ℤ → ℤ
pred_int (pos zero) = negsuc 0
pred_int (pos (suc n)) = pos n
pred_int (negsuc n) = negsuc (suc n)

-- The loop that looks for the length of the content; without the header the size stays.
unfoldable pub find_length : List Header → ℤ → ℤ
unfolding pred_int
find_length [] size = size
find_length (h ∷ hs) size =
    let rest = find_length hs size in
    if str_eq h.name (codes "Content-Length") then pred_int (atoi h.value) else rest

-- `(post_size_ <= 0) || (post_size_ > 10240)`.
unfoldable pub is_unreasonable : ℤ → Bool
is_unreasonable (pos n) = n == 0 || ltb 10240 n
is_unreasonable (negsuc n) = true

-- The end of the headers.
unfoldable pub finish_headers : Parser → Request → Outcome
finish_headers p r =
    if str_eq r.method (codes "POST")
    then (let p' = record p {
      state = read_content;
      post_size = find_length r.headers p.post_size;
    } in
        if is_unreasonable p'.post_size then refuse p' r else stay p' r)
    else (good, p, r)

-- `post_char_counter_ <= post_size_` and `==`.
unfoldable pub counter_le : ℕ → ℤ → Bool
counter_le n (pos m) = leb n m
counter_le n (negsuc m) = false

unfoldable pub counter_eq : ℕ → ℤ → Bool
counter_eq n (pos m) = n == m
counter_eq n (negsuc m) = false

unfoldable pub consume_content : Parser → Request → ℕ → Outcome
consume_content p r c =
    if counter_le p.post_char_counter p.post_size
    then (let r' = record r { content = r.content ++ c ∷ [] } in
        if counter_eq p.post_char_counter p.post_size
        then (good, p, r')
        else stay (record p { post_char_counter = p.post_char_counter + 1 }) r')
    else refuse p r

-- One more digit of a version number.
abbrev add_digit : ℕ → ℕ → ℕ
add_digit n c = n * 10 + (c - b'0')

-- The `switch` over the state.
unfoldable pub consume_in : State → Parser → Request → ℕ → Outcome
consume_in method_start p r c =
    if is_token c then to_state method p (record r { method = r.method ++ c ∷ [] }) else refuse p r
consume_in method p r c =
    if c == 32
    then to_state uri p r
    else if is_token c
    then stay p (record r { method = r.method ++ c ∷ [] })
    else refuse p r
consume_in uri p r c =
    if c == 32
    then to_state http_version_h p r
    else if is_ctl c
    then refuse p r
    else stay p (record r { uri = r.uri ++ c ∷ [] })
consume_in http_version_h p r c = expect b'H' http_version_t_1 p r c
consume_in http_version_t_1 p r c = expect b'T' http_version_t_2 p r c
consume_in http_version_t_2 p r c = expect b'T' http_version_p p r c
consume_in http_version_p p r c = expect b'P' http_version_slash p r c
consume_in http_version_slash p r c =
    if c == b'/'
    then to_state http_version_major_start p
        (record r { http_version_major = 0; http_version_minor = 0 })
    else refuse p r
consume_in http_version_major_start p r c =
    if is_digit c
    then to_state http_version_major p
        (record r { http_version_major = add_digit r.http_version_major c })
    else refuse p r
consume_in http_version_major p r c =
    if c == b'.'
    then to_state http_version_minor_start p r
    else if is_digit c
    then stay p (record r { http_version_major = add_digit r.http_version_major c })
    else refuse p r
consume_in http_version_minor_start p r c =
    if is_digit c
    then to_state http_version_minor p
        (record r { http_version_minor = add_digit r.http_version_minor c })
    else refuse p r
consume_in http_version_minor p r c =
    if c == 13
    then to_state expecting_newline_1 p r
    else if is_digit c
    then stay p (record r { http_version_minor = add_digit r.http_version_minor c })
    else refuse p r
consume_in expecting_newline_1 p r c = expect 10 header_line_start p r c
consume_in header_line_start p r c =
    if c == 13
    then to_state expecting_newline_3 p r
    else if not (is_empty r.headers) && (c == 32 || c == 9)
    then to_state header_lws p r
    else if is_token c
    then to_state header_name p (push_header c r)
    else refuse p r
consume_in header_lws p r c =
    if c == 13
    then to_state expecting_newline_2 p r
    else if c == 32 || c == 9
    then stay p r
    else if is_ctl c
    then refuse p r
    else to_state header_value p (push_value c r)
consume_in header_name p r c =
    if c == b':'
    then to_state space_before_header_value p r
    else if is_token c
    then stay p (push_name c r)
    else refuse p r
consume_in space_before_header_value p r c = expect 32 header_value p r c
consume_in header_value p r c =
    if c == 13
    then to_state expecting_newline_2 p r
    else if is_ctl c
    then refuse p r
    else stay p (push_value c r)
consume_in expecting_newline_2 p r c = expect 10 header_line_start p r c
consume_in expecting_newline_3 p r c = if c == 10 then finish_headers p r else refuse p r
consume_in read_content p r c = consume_content p r c

unfoldable pub consume : Parser → Request → ℕ → Outcome
consume p r c = consume_in p.state p r c

-- Chars until one ends the request, with those that are left.
unfoldable pub feed : Parser → Request → List ℕ → ResultType × Parser × Request × List ℕ
feed p r [] = (indeterminate, p, r, [])
feed p r (c ∷ s) =
    let (t, q, w) = consume p r c in
    elim t [ good ↦ (good, q, w, s) | bad ↦ (bad, q, w, s) | indeterminate ↦ feed q w s ]
