-- ===== src/Input.antt =====
-- `GetString`, `GetFloat`, `GetBool` and `GetInt` of src/request_handler.cpp: reading a message
-- from the connection's receive buffer, `std::array<char, 8192>`, at `data_index`. A read past the
-- end of the array is a fault. The buffer is not cleared between messages, so what stands behind
-- the bytes of the last read is any data.
pub mod Bounds
pub mod RoundTrip
use ogmp_server.Base.{
  ℕ, zero, suc, ◌+◌, ◌*◌, ◌^◌, Bool, List, [], ◌∷◌, Option, none, some, ℤ, pos, negsuc, of_char,
  get_elem?, Result, ok, err, out_of_bounds, ◌==◌,
}
use ogmp_server.Text.{Str}

-- An action on the buffer and the index gives a value and moves the index, or faults.
abbrev pub Read : Type 0 → Type 0
Read A = List ℕ → ℕ → Result (A × ℕ)

infixl 5 ◌>>=◌
abbrev pub ◌>>=◌ : {A B : Type 0} → Read A → (A → Read B) → Read B
◌>>=◌ m f data_ i = elim (m data_ i) [ err e ↦ err e | ok (a, j) ↦ f a data_ j ]

abbrev pub pure : {A : Type 0} → A → Read A
pure a data_ i = ok (a, i)

-- `data[data_index]`, and the index goes on.
unfoldable pub get_char : Read ℕ
get_char data_ i = elim (get_elem? data_ i) [ none ↦ err out_of_bounds | some b ↦ ok (b, i + 1) ]

-- The rounds of `for (int i = 0; i < size; i++)`.
abbrev pub rounds : ℤ → ℕ
rounds (pos n) = n
rounds (negsuc n) = 0

unfoldable pub get_chars : ℕ → Read Str
get_chars zero = pure []
get_chars (suc n) = do c ← get_char; rest ← get_chars n; pure (c ∷ rest)

unfoldable pub get_string : Read Str
get_string = do size ← get_char; get_chars (rounds (of_char size))

-- The first byte read is the highest of the float.
unfoldable pub get_float : Read ℕ
get_float = do
  b3 ← get_char
  b2 ← get_char
  b1 ← get_char
  b0 ← get_char
  pure (b0 + b1 * 2 ^ 8 + b2 * 2 ^ 16 + b3 * 2 ^ 24)

unfoldable pub get_bool : Read Bool
get_bool = do c ← get_char; pure (c == 1)

unfoldable pub get_int : Read ℤ
get_int = do c ← get_char; pure (of_char c)
