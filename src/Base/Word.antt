-- ===== src/Base/Word.antt =====
-- Go's fixed-width integers as bit patterns: an `int` or `int64` is its two's complement, a number
-- below 2 ^ 64, and an `int32` one below 2 ^ 32. Every operation keeps its wrap-around.
use Prim.Native.Nat.{ℕ, ◌+◌, ◌-◌, ◌*◌, ◌%◌, ◌<◌}
use mathlib.Core.Path.{◌≡◌}
use mathlib.Core.Bool.{Bool}
use native.Mathlib.Omega.{arith}
use mcp_moqt_transport.Base.Tests.{ltb, leb}

abbrev pub two_64 : ℕ
two_64 = 18446744073709551616

abbrev pub two_63 : ℕ
two_63 = 9223372036854775808

abbrev pub two_32 : ℕ
two_32 = 4294967296

abbrev pub two_31 : ℕ
two_31 = 2147483648

abbrev pub add_64 : ℕ → ℕ → ℕ
add_64 a b = (a + b) % two_64

abbrev pub sub_64 : ℕ → ℕ → ℕ
sub_64 a b = (a + two_64 - b) % two_64

abbrev pub mul_64 : ℕ → ℕ → ℕ
mul_64 a b = a * b % two_64

-- x++ and x-- on an int64.
abbrev pub inc_64 : ℕ → ℕ
inc_64 a = (a + 1) % two_64

abbrev pub dec_64 : ℕ → ℕ
dec_64 a = (a + two_64 - 1) % two_64

-- The bit pattern of -1.
abbrev pub minus_one : ℕ
minus_one = 18446744073709551615

-- Signed comparison flips the sign bit.
abbrev pub lt_64 : ℕ → ℕ → Bool
lt_64 a b = ltb ((a + two_63) % two_64) ((b + two_63) % two_64)

abbrev pub le_64 : ℕ → ℕ → Bool
le_64 a b = leb ((a + two_63) % two_64) ((b + two_63) % two_64)

abbrev pub inc_32 : ℕ → ℕ
inc_32 a = (a + 1) % two_32

abbrev pub le_32 : ℕ → ℕ → Bool
le_32 a b = leb ((a + two_31) % two_32) ((b + two_31) % two_32)

-- The conversion int32(n) of an int keeps the low 32 bits.
abbrev pub to_32 : ℕ → ℕ
to_32 n = n % two_32

-- On patterns of non-negative numbers the signed order is the order of the numbers.
pub lt_64_nonneg : (a b : ℕ) → a < two_63 → b < two_63 → lt_64 a b ≡ ltb a b
lt_64_nonneg a b h k = ground arith

pub le_64_nonneg : (a b : ℕ) → a < two_63 → b < two_63 → le_64 a b ≡ leb a b
le_64_nonneg a b h k = ground arith
