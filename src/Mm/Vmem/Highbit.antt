-- ===== src/Mm/Vmem/Highbit.antt =====
-- `highbit` finds the highest bit of a word.
use racoon.Base.{ℕ, zero, suc, ◌*◌, ◌/◌, ◌^◌, ◌≤◌, ◌<◌, ◌≡◌, arith, ◌==◌, Bool-cases, inl, inr, ok}
use racoon.Mm.Vmem.{bit_scan, highbit}

pow_suc : (n : ℕ) → 2 ^ suc n ≡ 2 * 2 ^ n
pow_suc n = omega arith

bit_scan_bounds :
    (k value : ℕ)
    → 0 < value
    → value < 2 ^ k
    → (2 ^ bit_scan k value ≤ value) × (value < 2 ^ suc (bit_scan k value))
unfolding bit_scan
bit_scan_bounds zero value some_bit h = absurd (omega (arith, h))
bit_scan_bounds (suc k) value some_bit h = elim (Bool-cases (value / 2 == 0)) [
  | inl last ↦ rw last (omega (arith, some_bit), ground (arith, last))
  | inr more ↦
      let (low, high) =
        bit_scan_bounds k (value / 2) (ground (arith, more)) (omega (arith, h, pow_suc k)) in
      rw more (
        omega (arith, low, pow_suc (bit_scan k (value / 2))),
        omega (arith, high, pow_suc (suc (bit_scan k (value / 2)))),
      )
]

-- As its comment says: 2^(i+1) > value >= 2^i, for a word that is not 0.
pub highbit_lem :
    (value : ℕ)
    → 0 < value
    → value < 2 ^ 32
    → (i : ℕ) × (highbit value ≡ ok i) × (2 ^ i ≤ value) × (value < 2 ^ suc i)
unfolding highbit
highbit_lem value some_bit h =
    let (low, high) = bit_scan_bounds 32 value some_bit h in
    (bit_scan 32 value, ground (arith, some_bit), low, high)
