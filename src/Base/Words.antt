-- ===== src/Base/Words.antt =====
-- 32-bit unsigned arithmetic (`size_t`, `unsigned int`, `uintptr_t`).
use Prim.Native.Nat.{ℕ, ◌+◌, ◌-◌, ◌%◌, ◌^◌}
use mathlib.Core.Bool.{Bool}
use racoon.Base.Tests.{leb}

abbrev pub u32 : ℕ → ℕ
u32 n = n % 2 ^ 32

abbrev pub add32 : ℕ → ℕ → ℕ
add32 a b = (a + b) % 2 ^ 32

-- `b` below `2 ^ 32`
abbrev pub sub32 : ℕ → ℕ → ℕ
sub32 a b = (a + 2 ^ 32 - b) % 2 ^ 32

-- `uint64_t` subtraction
abbrev pub sub64 : ℕ → ℕ → ℕ
sub64 a b = (a + 2 ^ 64 - b) % 2 ^ 64

abbrev pub add64 : ℕ → ℕ → ℕ
add64 a b = (a + b) % 2 ^ 64

-- An int of 32 bits as a word: -1, and the test of `< 0`.
abbrev pub minus_one : ℕ
minus_one = 4294967295

abbrev pub is_negative : ℕ → Bool
is_negative w = leb (2 ^ 31) w
