-- ===== src/Reply/Framing.antt =====
-- The stream that `do_write` of src/connection.cpp sends, cut into messages again by the size that
-- `add_size_byte` puts in front of each.
use ogmp_server.Base.{
  ℕ, zero, suc, ◌+◌, ◌*◌, ◌^◌, ◌<◌, ◌≡◌, refl, List, [], ◌∷◌, ◌++◌, Option, none, some, arith,
  length, take, drop, take-length-append, drop-length-append, All, ltb, if◌then◌else◌,
  length-append, false, ◌/◌, ◌%◌,
}
use ogmp_server.Reply.{Reply, add_size_byte}

-- The number that four bytes stand for, highest first.
size_of : ℕ → ℕ → ℕ → ℕ → ℕ
size_of a b c d = a * 2 ^ 24 + b * 2 ^ 16 + c * 2 ^ 8 + d

-- The first `size` bytes, and the rest.
cut : ℕ → List ℕ → Option (Reply × List ℕ)
cut size s = if ltb (length s) size then none else some (take size s, drop size s)

-- What a client reads: four bytes of size, highest first, then that many bytes.
unframe : List ℕ → Option (Reply × List ℕ)
unframe (a ∷ b ∷ c ∷ d ∷ rest) = cut (size_of a b c d) rest
unframe _ = none

-- So many messages, and nothing behind them; `none` for a stream that ends inside a message.
pub unframe_all : ℕ → List ℕ → Option (List Reply)
unframe_all zero [] = some []
unframe_all zero (a ∷ s) = none
unframe_all (suc n) s = elim (unframe s) [
  | none ↦ none
  | some (r, rest) ↦ elim (unframe_all n rest) [ none ↦ none | some rs ↦ some (r ∷ rs) ]
]

-- The frames of a connection's replies, one behind the other.
unfoldable pub frames : List Reply → List ℕ
frames [] = []
frames (r ∷ rs) = add_size_byte r ++ frames rs

cut-append : (r rest : List ℕ) → cut (length r) (r ++ rest) ≡ some (r, rest)
unfolding cut
cut-append r rest = rw (not_short, take-length-append r rest, drop-length-append r rest)
  where
    not_short : ltb (length (r ++ rest)) (length r) ≡ false
    not_short = ground (arith, length-append {0} r rest)

size_of-bytes :
    (n : ℕ)
    → n < 2 ^ 32
    → size_of (n / 2 ^ 24 % 256) (n / 2 ^ 16 % 256) (n / 2 ^ 8 % 256) (n % 256) ≡ n
unfolding size_of
size_of-bytes n h = omega arith

unframe-add_size_byte :
    (r : Reply) (rest : List ℕ)
    → length r < 2 ^ 32
    → unframe (add_size_byte r ++ rest) ≡ some (r, rest)
unfolding unframe add_size_byte
unframe-add_size_byte r rest h = rw (size_of-bytes (length r) h) (cut-append r rest)

-- A client that cuts the stream by the sizes gets the replies as they were queued, provided that
-- each is shorter than 2 ^ 32 bytes.
pub unframe_all-frames :
    (rs : List Reply)
    → All (λ r. length r < 2 ^ 32) rs
    → unframe_all (length rs) (frames rs) ≡ some rs
unfolding unframe_all frames
unframe_all-frames [] h = refl
unframe_all-frames (r ∷ rs) h =
    ground (arith, unframe-add_size_byte r (frames rs) h.0, unframe_all-frames rs h.1)
