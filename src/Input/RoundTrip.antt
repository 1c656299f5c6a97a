-- ===== src/Input/RoundTrip.antt =====
-- What the readers give on the bytes that `add_to_buffers` of src/reply.cpp writes. A peer that
-- encodes as the server does is read back, but for floats, whose four bytes come out reversed.
use ogmp_server.Base.{
  ℕ, zero, suc, ◌+◌, ◌*◌, ◌/◌, ◌%◌, ◌^◌, ◌<◌, ◌≡◌, List, [], ◌∷◌, ◌++◌, of_char, arith, length,
  drop, drop-length-append, ok, All, append_assoc, length-append, ◌==◌,
}
use ogmp_server.Text.{Str, c_str_lem}
use ogmp_server.Reply.{Reply, add_string, add_float, float_bytes}
use ogmp_server.Input.{get_char, get_chars, get_string, get_float, get_bool, get_int, rounds}

-- One char off the rest of the buffer.
pub get_char-drop :
    (data_ : List ℕ) (i b : ℕ) (t : List ℕ)
    → drop i data_ ≡ b ∷ t
    → (get_char data_ i ≡ ok (b, i + 1)) × (drop (i + 1) data_ ≡ t)
unfolding get_char
get_char-drop [] zero b t h = cc
get_char-drop [] (suc i) b t h = cc
get_char-drop (x ∷ xs) zero b t h = ground arith
get_char-drop (x ∷ xs) (suc i) b t h = ground (arith, get_char-drop xs i b t)

get_chars-drop :
    (data_ : List ℕ) (i : ℕ) (s t : List ℕ)
    → drop i data_ ≡ s ++ t
    → (get_chars (length s) data_ i ≡ ok (s, i + length s)) × (drop (i + length s) data_ ≡ t)
unfolding get_chars
get_chars-drop data_ i [] t h = ground arith
get_chars-drop data_ i (c ∷ s) t h =
    ground (arith, get_char-drop data_ i c (s ++ t), get_chars-drop data_ (i + 1) s t)

rounds-length : (n : ℕ) → n < 128 → rounds (of_char (n % 256)) ≡ n
rounds-length n h = ground arith

-- The bytes that `add_to_buffers` adds for a string.
pub get_string-drop :
    (data_ : List ℕ) (i : ℕ) (s t : List ℕ)
    → length s < 128
    → drop i data_ ≡ length s % 256 ∷ s ++ t
    → (get_string data_ i ≡ ok (s, i + 1 + length s)) × (drop (i + 1 + length s) data_ ≡ t)
unfolding get_string
get_string-drop data_ i s t short h = ground (
  arith,
  get_char-drop data_ i (length s % 256) (s ++ t),
  rounds-length (length s),
  get_chars-drop data_ (i + 1) s t,
)

-- A string that the server adds to a message is read back whole, and the index stops behind it,
-- provided that it holds no NUL and is at most 127 bytes long.
pub get_string-add_string :
    (s : Str) (r : Reply) (rest : List ℕ)
    → All (λ c. 0 < c) s
    → length s < 128
    → get_string (add_string s r ++ rest) (length r) ≡ ok (s, length (add_string s r))
unfolding add_string
get_string-add_string s r rest nuls short = ground (
  arith,
  c_str_lem s nuls,
  append_assoc r (length s % 256 ∷ s) rest,
  drop-length-append r (length s % 256 ∷ s ++ rest),
  length-append r (length s % 256 ∷ s),
  get_string-drop (r ++ (length s % 256 ∷ s ++ rest)) (length r) s rest,
)

-- The four bytes of a float, highest first.
pub get_float-drop :
    (data_ : List ℕ) (i b3 b2 b1 b0 : ℕ) (t : List ℕ)
    → drop i data_ ≡ b3 ∷ b2 ∷ b1 ∷ b0 ∷ t
    → (get_float data_ i ≡ ok (b0 + b1 * 2 ^ 8 + b2 * 2 ^ 16 + b3 * 2 ^ 24, i + 4))
      × (drop (i + 4) data_ ≡ t)
unfolding get_float
get_float-drop data_ i b3 b2 b1 b0 t h = ground (
  arith,
  get_char-drop data_ i b3 (b2 ∷ b1 ∷ b0 ∷ t),
  get_char-drop data_ (i + 1) b2 (b1 ∷ b0 ∷ t),
  get_char-drop data_ (i + 1 + 1) b1 (b0 ∷ t),
  get_char-drop data_ (i + 1 + 1 + 1) b0 t,
)

-- The float with its four bytes in the other order.
unfoldable pub swap_bytes : ℕ → ℕ
swap_bytes f =
    f / 2 ^ 24 % 256 + f / 2 ^ 16 % 256 * 2 ^ 8 + f / 2 ^ 8 % 256 * 2 ^ 16 + f % 256 * 2 ^ 24

-- A float that the server adds to a message comes back with its bytes in the other order, so that
-- a float passes unchanged only where the peer turns it round.
pub get_float-add_float :
    (f : ℕ) (r : Reply) (rest : List ℕ)
    → get_float (add_float f r ++ rest) (length r) ≡ ok (swap_bytes f, length (add_float f r))
unfolding add_float swap_bytes
get_float-add_float f r rest =
    let bytes : List ℕ = float_bytes f in
    ground (
      arith,
      append_assoc r bytes rest,
      drop-length-append r (bytes ++ rest),
      length-append r bytes,
      get_float-drop (r ++ (bytes ++ rest)) (length r) (f % 256) (f / 2 ^ 8 % 256)
          (f / 2 ^ 16 % 256) (f / 2 ^ 24 % 256) rest,
    )

pub swap_bytes-swap_bytes : (f : ℕ) → f < 2 ^ 32 → swap_bytes (swap_bytes f) ≡ f
unfolding swap_bytes
swap_bytes-swap_bytes f h = omega arith

pub get_int-drop :
    (data_ : List ℕ) (i b : ℕ) (t : List ℕ)
    → drop i data_ ≡ b ∷ t
    → (get_int data_ i ≡ ok (of_char b, i + 1)) × (drop (i + 1) data_ ≡ t)
unfolding get_int
get_int-drop data_ i b t h = ground (arith, get_char-drop data_ i b t)

pub get_bool-drop :
    (data_ : List ℕ) (i b : ℕ) (t : List ℕ)
    → drop i data_ ≡ b ∷ t
    → (get_bool data_ i ≡ ok (b == 1, i + 1)) × (drop (i + 1) data_ ≡ t)
unfolding get_bool
get_bool-drop data_ i b t h = ground (arith, get_char-drop data_ i b t)
