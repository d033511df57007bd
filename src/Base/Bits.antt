-- ===== src/Base/Bits.antt =====
-- Bits of an unsigned word: what `bt`, `bts` and `btr` read and write.
use Prim.Native.Nat.{ℕ, zero, suc, ◌+◌, ◌*◌, ◌/◌, ◌%◌, ◌^◌, ◌-◌, ◌<◌}
use mathlib.Core.Path.{◌≡◌, refl}
use mathlib.Core.Bool.{Bool, true, false}
use native.Mathlib.Omega.{arith}
use racoon.Base.Tests.{◌==◌, if◌then◌else◌}

-- bit `k` of `w`, that is `(w & (1 << k)) != 0`
unfoldable pub test_bit : ℕ → ℕ → Bool
test_bit w zero = w % 2 == 1
test_bit w (suc k) = test_bit (w / 2) k

unfoldable pub set_bit : ℕ → ℕ → ℕ
set_bit w zero = 2 * (w / 2) + 1
set_bit w (suc k) = 2 * set_bit (w / 2) k + w % 2

unfoldable pub clear_bit : ℕ → ℕ → ℕ
clear_bit w zero = 2 * (w / 2)
clear_bit w (suc k) = 2 * clear_bit (w / 2) k + w % 2

half_of_shift : (x w : ℕ) → (2 * x + w % 2) / 2 ≡ x
half_of_shift x w = omega arith

pub test_bit-set_bit :
    (w k j : ℕ) → test_bit (set_bit w k) j ≡ (if k == j then true else test_bit w j)
unfolding test_bit set_bit
test_bit-set_bit w zero zero = ground arith
test_bit-set_bit w zero (suc j) =
    let e : (2 * (w / 2) + 1) / 2 ≡ w / 2 = omega arith in rw e (ground arith)
test_bit-set_bit w (suc k) zero = ground arith
test_bit-set_bit w (suc k) (suc j) =
    rw (half_of_shift (set_bit (w / 2) k) w, test_bit-set_bit (w / 2) k j) (ground arith)

pub test_bit-clear_bit :
    (w k j : ℕ) → test_bit (clear_bit w k) j ≡ (if k == j then false else test_bit w j)
unfolding test_bit clear_bit
test_bit-clear_bit w zero zero = ground arith
test_bit-clear_bit w zero (suc j) =
    let e : 2 * (w / 2) / 2 ≡ w / 2 = omega arith in rw e (ground arith)
test_bit-clear_bit w (suc k) zero = ground arith
test_bit-clear_bit w (suc k) (suc j) =
    rw (half_of_shift (clear_bit (w / 2) k) w, test_bit-clear_bit (w / 2) k j) (ground arith)

-- The word of `n` ones.
ones : ℕ → ℕ
ones zero = 0
ones (suc n) = 2 * ones n + 1

test_bit-ones : (n k : ℕ) → k < n → test_bit (ones n) k ≡ true
unfolding test_bit ones
test_bit-ones zero k h = absurd (omega arith)
test_bit-ones (suc n) zero h = ground arith
test_bit-ones (suc n) (suc k) h =
    let e : (2 * ones n + 1) / 2 ≡ ones n = omega arith in rw (e, test_bit-ones n k (omega arith))

-- Every bit of `(unsigned int)-1` is set.
pub test_bit_full : (k : ℕ) → k < 32 → test_bit (2 ^ 32 - 1) k ≡ true
unfolding ones
test_bit_full k h = let e : ones 32 ≡ 2 ^ 32 - 1 = refl in rw e at (test_bit-ones 32 k h)
