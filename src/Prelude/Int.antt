-- ===== src/Prelude/Int.antt =====
-- Signed integers over the native numbers, and the conversions between the machine's integer types:
-- `int` to `unsigned short` (the port numbers) and `ssize_t` to `int` (the return codes of libssh2).
use Prim.Native.Nat.{ℕ, ◌-◌, ◌%◌, ◌^◌, ◌<◌}
use mathlib.Core.Path.{◌≡◌}
use mathlib.Core.Bool.{Bool, true, false}
use native.Mathlib.Omega.{arith}
use book_filer_module_ssh.Prelude.Tests.{ltb, ◌==◌, if◌then◌else◌}

-- `negsuc n` is -(n + 1).
pub data ℤ : Type 0 where
  pos : ℕ → ℤ
  negsuc : ℕ → ℤ

abbrev pub is_negative : ℤ → Bool
is_negative (pos n) = false
is_negative (negsuc n) = true

abbrev pub is_positive : ℤ → Bool
is_positive (pos n) = ltb 0 n
is_positive (negsuc n) = false

-- The test `if (rc)`.
abbrev pub is_nonzero : ℤ → Bool
is_nonzero (pos n) = ltb 0 n
is_nonzero (negsuc n) = true

-- The magnitude of an integer that is not negative.
abbrev pub magnitude : ℤ → ℕ
magnitude (pos n) = n
magnitude (negsuc n) = 0

abbrev pub eq_int : ℤ → ℤ → Bool
eq_int (pos m) (pos n) = m == n
eq_int (negsuc m) (negsuc n) = m == n
eq_int (pos m) (negsuc n) = false
eq_int (negsuc m) (pos n) = false

-- The representative of an integer modulo 2 ^ w.
unfoldable pub modulo : ℕ → ℤ → ℕ
modulo w (pos n) = n % 2 ^ w
modulo w (negsuc n) = 2 ^ w - 1 - n % 2 ^ w

-- static_cast<unsigned short>.
abbrev pub to_u16 : ℤ → ℕ
to_u16 = modulo 16

-- The conversion of a wider integer to `int`, 32 bits in two's complement.
unfoldable pub to_int : ℤ → ℤ
unfolding modulo
to_int i = let w = modulo 32 i in if ltb w (2 ^ 31) then pos w else negsuc (2 ^ 32 - 1 - w)

-- The conversion changes nothing in the range of `int`.
pub to_int-pos : (n : ℕ) → n < 2 ^ 31 → to_int (pos n) ≡ pos n
unfolding to_int
to_int-pos n h = ground arith

pub to_int-negsuc : (n : ℕ) → n < 2 ^ 31 → to_int (negsuc n) ≡ negsuc n
unfolding to_int
to_int-negsuc n h = ground arith

-- So a port number survives the cast exactly when it is one.
pub to_u16-pos : (n : ℕ) → n < 2 ^ 16 → to_u16 (pos n) ≡ n
unfolding modulo
to_u16-pos n h = omega arith

pub to_u16-lt : (i : ℤ) → to_u16 i < 2 ^ 16
unfolding modulo
to_u16-lt (pos n) = omega arith
to_u16-lt (negsuc n) = omega arith
