-- ===== src/Parser/Body.antt =====
-- The content of a POST request: how many chars `consume` of src/request_parser.cpp takes for it.
use ogmp_server.Base.{
  ℕ, ◌+◌, ◌<◌, ◌≡◌, refl, ◌∙◌, ap, List, [], ◌∷◌, ◌++◌, pos, length, append_assoc, arith, leb, true,
  false, ◌==◌, ==-refl, ℤ, ◌≤◌, suc, All, length-append,
}
use ogmp_server.Text.{codes, str_eq}
use ogmp_server.Parser.Chars.{atoi}
use ogmp_server.Parser.Consume.{
  Parser, Request, good, indeterminate, read_content, consume_in, consume_content, counter_le,
  counter_eq, consume, feed, State, Outcome, ResultType, bad, expecting_newline_3, finish_headers,
  find_length, pred_int, is_unreasonable, Header,
}

-- The parser inside a content: its length less one, and the chars before the next one.
abbrev pub reading : ℕ → ℕ → Parser
reading n k = record { state = read_content; post_size = pos n; post_char_counter = k }

-- The request with further chars of its content.
abbrev pub with_content : List ℕ → Request → Request
with_content s r = record r { content = r.content ++ s }

leb_refl : (k : ℕ) → leb k k ≡ true
leb_refl k = ground arith

lt→leb : (k n : ℕ) → k < n → leb k n ≡ true
lt→leb k n lt = ground arith

lt→ne : (k n : ℕ) → k < n → (k == n) ≡ false
lt→ne k n lt = ground arith

consume-reading_last :
    (k : ℕ) (r : Request) (c : ℕ)
    → consume (reading k k) r c ≡ (good, reading k k, with_content (c ∷ []) r)
unfolding consume consume_in consume_content counter_le counter_eq
consume-reading_last k r c = rw (leb_refl k, ==-refl k) refl

consume-reading_more :
    (n k : ℕ) (r : Request) (c : ℕ)
    → k < n
    → consume (reading n k) r c ≡ (indeterminate, reading n (k + 1), with_content (c ∷ []) r)
unfolding consume consume_in consume_content counter_le counter_eq
consume-reading_more n k r c lt = rw (lt→leb k n lt, lt→ne k n lt) refl

-- What `feed` makes of one outcome.
abbrev after_step : List ℕ → Outcome → ResultType × Parser × Request × List ℕ
after_step t o = elim o.0 [
  | good ↦ (good, o.1, o.2, t)
  | bad ↦ (bad, o.1, o.2, t)
  | indeterminate ↦ feed o.1 o.2 t
]

pub feed_good :
    (p : Parser) (r : Request) (c : ℕ) (t : List ℕ) {q : Parser} {w : Request}
    → consume p r c ≡ (good, q, w)
    → feed p r (c ∷ t) ≡ (good, q, w, t)
unfolding feed
feed_good p r c t e = ap (after_step t) e

pub feed_more :
    (p : Parser) (r : Request) (c : ℕ) (t : List ℕ) {q : Parser} {w : Request}
    → consume p r c ≡ (indeterminate, q, w)
    → feed p r (c ∷ t) ≡ feed q w t
unfolding feed
feed_more p r c t e = ap (after_step t) e

plus_zero : (k n : ℕ) → k + 0 ≡ n → k ≡ n
plus_zero k n e = omega arith

feed-reading :
    (n k : ℕ) (r : Request) (s : List ℕ) (c : ℕ) (t : List ℕ)
    → k + length s ≡ n
    → feed (reading n k) r (s ++ c ∷ t) ≡ (good, reading n n, with_content (s ++ c ∷ []) r, t)
feed-reading n k r [] c t e =
    rw (plus_zero k n e) (feed_good (reading n n) r c t (consume-reading_last n r c))
feed-reading n k r (d ∷ s) c t e =
    feed_more (reading n k) r d (s ++ c ∷ t) (consume-reading_more n k r d (omega arith))
    ∙ feed-reading n (k + 1) (with_content (d ∷ []) r) s c t (omega arith)
    ∙ ap (λ u. (good, reading n n, record r { content = u }, t))
        (append_assoc r.content (d ∷ []) (s ++ c ∷ []))

abbrev pub content_length : List ℕ
content_length = codes "Content-Length"

find_length_first :
    (before after : List Header) (h : Header) (n : ℕ) (size : ℤ)
    → All (λ (g : Header). str_eq g.name content_length ≡ false) before
    → str_eq h.name content_length ≡ true
    → atoi h.value ≡ pos (suc n)
    → find_length (before ++ h ∷ after) size ≡ pos n
unfolding find_length pred_int
find_length_first [] after h n size none_before named length_of = rw (named, length_of) refl
find_length_first (g ∷ gs) after h n size none_before named length_of =
    rw none_before.0 (find_length_first gs after h n size none_before.1 named length_of)

is_reasonable : (n : ℕ) → 0 < n → n ≤ 10240 → is_unreasonable (pos n) ≡ false
unfolding is_unreasonable
is_reasonable n low high = ground arith

-- The newline behind the headers of a POST request.
headers_end :
    (r : Request) (n : ℕ) (size : ℤ)
    → str_eq r.method (codes "POST") ≡ true
    → find_length r.headers size ≡ pos n
    → 0 < n
    → n ≤ 10240
    → consume (record { state = expecting_newline_3; post_size = size; post_char_counter = 0 }) r 10
      ≡ (indeterminate, reading n 0, r)
unfolding consume consume_in finish_headers
headers_end r n size post found low high = rw (post, found, is_reasonable n low high) refl

-- The content of a POST request is read to the length that its first Content-Length header gives and
-- no further. At the newline that ends the headers, when that header gives the length of `s` and
-- one more, at least 2 and at most 10241, the parser goes on to be `good` at the char `c` after
-- `s`, leaves `t` unread, and has appended exactly `s` and `c` to the content.
pub feed-content :
    (p : Parser) (r : Request) (before : List Header) (h : Header) (after : List Header)
    (s : List ℕ) (c : ℕ) (t : List ℕ)
    → p.state ≡ expecting_newline_3
    → p.post_char_counter ≡ 0
    → str_eq r.method (codes "POST") ≡ true
    → r.headers ≡ before ++ h ∷ after
    → All (λ (g : Header). str_eq g.name content_length ≡ false) before
    → str_eq h.name content_length ≡ true
    → atoi h.value ≡ pos (length (s ++ c ∷ []))
    → 0 < length s
    → length s ≤ 10240
    → feed p r (10 ∷ s ++ c ∷ t)
      ≡ (good, reading (length s) (length s), with_content (s ++ c ∷ []) r, t)
feed-content p r before h after s c t st k post hs none_before named length_of low high =
    at p.state p.post_char_counter st k
  where
    found : find_length r.headers p.post_size ≡ pos (length s)
    found =
        ap (λ x. find_length x p.post_size) hs
        ∙ find_length_first before after h (length s) p.post_size none_before named
            (length_of ∙ ap pos (length-append s (c ∷ []) ∙ (omega arith)))

    at :
        (z : State) (k : ℕ)
        → z ≡ expecting_newline_3
        → k ≡ 0
        → feed
            (record { state = z; post_size = p.post_size; post_char_counter = k })
            r
            (10 ∷ s ++ c ∷ t)
          ≡ (good, reading (length s) (length s), with_content (s ++ c ∷ []) r, t)
    at z k ez ek =
        rw (ez, ek)
          (feed_more _ r 10 (s ++ c ∷ t) (headers_end r (length s) p.post_size post found low high)
            ∙ feed-reading (length s) 0 r s c t (omega arith))
