-- ===== src/Ds/Rwlock/Counts.antt =====
-- How many of the first threads are at a place that satisfies a test.
use racoon.Base.{
  ℕ, zero, suc, ◌+◌, ◌≤◌, ◌<◌, ◌≡◌, ◌≢◌, refl, Bool, true, arith, if◌then◌else◌, update, ℕ_discrete,
}
use racoon.Ds.Rwlock.{Pc}

unfoldable pub count : (Pc → Bool) → ℕ → (ℕ → Pc) → ℕ
count test zero pc = 0
count test (suc n) pc = count test n pc + (if test (pc n) then 1 else 0)

module _ (test : Pc → Bool) (pc : ℕ → Pc) (i : ℕ) (p : Pc) where
  count-update_above : (n : ℕ) → n ≤ i → count test n (update pc i p) ≡ count test n pc
  unfolding count
  count-update_above zero h = refl
  count-update_above (suc n) h = ground (arith, count-update_above n (omega arith))

  -- One thread moves.
  pub count-update :
      (n : ℕ)
      → i < n
      → count test n (update pc i p) + (if test (pc i) then 1 else 0)
        ≡ count test n pc + (if test p then 1 else 0)
  unfolding count
  count-update zero h = absurd (omega arith)
  count-update (suc n) h = elim (ℕ_discrete i n) [
    | yes e ↦ ground (arith, count-update_above n (omega arith), e)
    | no ne ↦ ground (arith, count-update n (omega arith))
  ]

pub count_some :
    (test : Pc → Bool) (pc : ℕ → Pc) (n i : ℕ) → i < n → test (pc i) ≡ true → 1 ≤ count test n pc
unfolding count
count_some test pc zero i h e = absurd (omega arith)
count_some test pc (suc n) i h e = elim (ℕ_discrete i n) [
  | yes same ↦ ground (arith, e, same)
  | no other ↦ ground (arith, count_some test pc n i (omega arith) e)
]

pub count_two :
    (test : Pc → Bool) (pc : ℕ → Pc) (n i j : ℕ)
    → i < n
    → j < n
    → i ≢ j
    → test (pc i) ≡ true
    → test (pc j) ≡ true
    → 2 ≤ count test n pc
unfolding count
count_two test pc zero i j hi hj ne ei ej = absurd (omega arith)
count_two test pc (suc n) i j hi hj ne ei ej = elim (ℕ_discrete i n) [
  | yes same ↦ ground (arith, count_some test pc n j (omega arith) ej, same)
  | no other ↦ elim (ℕ_discrete j n) [
    | yes same ↦ ground (arith, count_some test pc n i (omega arith) ei, same)
    | no another ↦ ground (arith, count_two test pc n i j (omega arith) (omega arith) ne ei ej)
  ]
]
