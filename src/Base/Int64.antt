-- ===== src/Base/Int64.antt =====
-- Go's `int64` as its two's complement bit pattern, a number below 2 ^ 64: `add64` and `sub64` wrap
-- around, and the orders read the sign bit. A pattern below 2 ^ 63 stands for itself.
use Prim.Native.Nat.{ℕ, ◌+◌, ◌-◌, ◌%◌, ◌^◌, ◌≤◌, ◌<◌}
use mathlib.Core.Path.{◌≡◌}
use mathlib.Core.Bool.{Bool}
use native.Mathlib.Omega.{arith}
use varc.Base.Tests.{ltb, leb, if◌then◌else◌}

abbrev pub int64_mod : ℕ
int64_mod = 2 ^ 64

abbrev pub int64_half : ℕ
int64_half = 2 ^ 63

-- The pattern of -1.
abbrev pub minus_one : ℕ
minus_one = int64_mod - 1

unfoldable pub add64 : ℕ → ℕ → ℕ
add64 a b = (a + b) % int64_mod

unfoldable pub sub64 : ℕ → ℕ → ℕ
sub64 a b = (a + int64_mod - b) % int64_mod

unfoldable pub lt64 : ℕ → ℕ → Bool
lt64 a b = ltb ((a + int64_half) % int64_mod) ((b + int64_half) % int64_mod)

unfoldable pub le64 : ℕ → ℕ → Bool
le64 a b = leb ((a + int64_half) % int64_mod) ((b + int64_half) % int64_mod)

-- Go's built-in `min` and `max` at int64.
abbrev pub min64 : ℕ → ℕ → ℕ
min64 a b = if lt64 b a then b else a

abbrev pub max64 : ℕ → ℕ → ℕ
max64 a b = if lt64 a b then b else a

-- While the true result stays below 2 ^ 63, the operations are those of the numbers.
pub add64_small : (a b : ℕ) → a + b < int64_half → add64 a b ≡ a + b
unfolding add64
add64_small a b h = omega arith

pub sub64_small : (a b : ℕ) → b ≤ a → a < int64_half → sub64 a b ≡ a - b
unfolding sub64
sub64_small a b le h = omega arith

pub lt64_small : (a b : ℕ) → a < int64_half → b < int64_half → lt64 a b ≡ ltb a b
unfolding lt64
lt64_small a b h k = ground arith

pub le64_small : (a b : ℕ) → a < int64_half → b < int64_half → le64 a b ≡ leb a b
unfolding le64
le64_small a b h k = ground arith
