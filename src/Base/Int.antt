-- ===== src/Base/Int.antt =====
-- The C++ `int`, under the library's name and constructors, and its exchange with the signed `char`
-- of the platforms that the server is built for (x86: two's complement, eight bits). A char is
-- kept as its byte, a number below 256.
use Prim.Native.Nat.{ℕ, ◌-◌, ◌%◌, ◌<◌}
use mathlib.Core.Path.{◌≡◌}
use mathlib.Core.Logic.{◌↔◌}
use mathlib.Core.Bool.{Bool, true, false}
use native.Mathlib.Omega.{arith}
use ogmp_server.Base.Tests.{ltb, ◌==◌, if◌then◌else◌}

-- `negsuc n` is -(n + 1).
pub data ℤ : Type 0 where
  pos : ℕ → ℤ
  negsuc : ℕ → ℤ

abbrev pub int_eq : ℤ → ℤ → Bool
int_eq (pos a) (pos b) = a == b
int_eq (negsuc a) (negsuc b) = a == b
int_eq _ _ = false

pub int_eq_iff : (a b : ℤ) → (int_eq a b ≡ true) ↔ (a ≡ b)
int_eq_iff a b = ground arith

-- `(int)c` of a signed char.
abbrev pub of_char : ℕ → ℤ
of_char b = if ltb b 128 then pos b else negsuc (255 - b)

-- The char that `push_back(n)` of an int stores.
abbrev pub to_char : ℤ → ℕ
to_char (pos n) = n % 256
to_char (negsuc n) = 255 - n % 256

pub to_char-of_char : (b : ℕ) → b < 256 → to_char (of_char b) ≡ b
to_char-of_char b h = ground arith
