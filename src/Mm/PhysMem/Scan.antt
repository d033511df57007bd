-- ===== src/Mm/PhysMem/Scan.antt =====
-- The search of `memory_multiple_alloc` for a run of clear pages: it ends, what it finds is clear
-- and inside the area, and for one page it misses nothing.
use racoon.Base.{
  ℕ, zero, suc, ◌+◌, ◌%◌, ◌^◌, ◌≤◌, ◌<◌, ◌≡◌, ◌≢◌, ap, true, false, Option, none, some, arith,
  Bool-cases, Option-cases, inl, inr, add32, ℕ_discrete,
}
use native.Mathlib.Nat.{mod-lt}
use racoon.Mm.PhysMem.{
  PhysMem, is_set, scan, fits, next_index, probe, found, out_of_fuel, search_pages,
}
use racoon.Mm.PhysMem.Invariant.{IsValid, AllClear}

pub scan-none :
    (b : ℕ → ℕ) (block k j : ℕ)
    → scan b block k j ≡ none
    → (i : ℕ) → j ≤ i
    → i < j + k
    → is_set b (block + i) ≡ false
unfolding scan
scan-none b block zero j e i l h = absurd (omega arith)
scan-none b block (suc k) j e i l h = elim (Bool-cases (is_set b (block + j))) [
  | inl taken ↦ ground arith
  | inr free ↦ elim (ℕ_discrete j i) [
    | yes same ↦ ground arith
    | no other ↦ scan-none b block k (j + 1) (ground arith) i (omega arith) (omega arith)
  ]
]

pub scan-some :
    (b : ℕ → ℕ) (block k j i : ℕ)
    → scan b block k j ≡ some i
    → (j ≤ i) × (i < j + k) × (is_set b (block + i) ≡ true)
unfolding scan
scan-some b block zero j i e = absurd (ground arith)
scan-some b block (suc k) j i e = ground (arith, scan-some b block k (j + 1) i)

-- A run of `n` clear pages inside the area.
pub record Fits (s : PhysMem) (n block : ℕ) : Type 0 where
  pub inside : block + n ≤ s.memory_pages
  pub clear : AllClear s block n

module _ (s : PhysMem) (n : ℕ) (v : IsValid s) (pos : 0 < n) (few : n < 2 ^ 20) where
  abbrev pub block_at : ℕ → ℕ
  block_at i = add32 i s.last_page % s.memory_pages

  -- No 32-bit sum of the loop wraps.
  pub block_bounds :
      (i : ℕ)
      → i < s.memory_pages
      → (block_at i < s.memory_pages)
        × (add32 (block_at i) n ≡ block_at i + n)
        × (block_at i ≡ (i + s.last_page) % s.memory_pages)
  block_bounds i h =
      let sum : add32 i s.last_page ≡ i + s.last_page = omega arith in
      let below : block_at i < s.memory_pages = mod-lt _ (omega arith) in
      (below, omega arith, ap (λ t. t % s.memory_pages) sum)

  abbrev pub scan_at : ℕ → Option ℕ
  scan_at i = scan s.memory_bitmap (block_at i) n 0

  pub probe-Fits : (i b : ℕ) → i < s.memory_pages → probe s n i ≡ fits b → Fits s n b
  unfolding probe
  probe-Fits i b h e = elim (Option-cases (scan_at i)) [
    | inl clear ↦
        let here : (block_at i ≡ b) × (b + n ≤ s.memory_pages) = ground (arith, block_bounds i h) in
        record {
          inside = here.1;
          clear = λ j lt.
              rw (← here.0)
                (scan-none s.memory_bitmap (block_at i) n 0 clear j (omega arith) (omega arith));
        }
    | inr (j, taken) ↦ absurd (ground arith)
  ]

  probe-lt : (i i' : ℕ) → i < s.memory_pages → probe s n i ≡ next_index i' → i < i'
  unfolding probe
  probe-lt i i' h e = elim (Option-cases (scan_at i)) [
    | inl clear ↦ ground (arith, block_bounds i h)
    | inr (j, taken) ↦
        ground (arith, block_bounds i h, scan-some s.memory_bitmap (block_at i) n 0 j taken)
  ]

  pub search_pages-Fits : (fuel i b : ℕ) → search_pages fuel s n i ≡ found b → Fits s n b
  unfolding search_pages
  search_pages-Fits zero i b e = absurd (ground arith)
  search_pages-Fits (suc fuel) i b e = grind (arith, probe-Fits i b, search_pages-Fits fuel)

  pub search_pages_ends :
      (fuel i : ℕ) → 0 < fuel → s.memory_pages < fuel + i → search_pages fuel s n i ≢ out_of_fuel
  unfolding search_pages
  search_pages_ends zero i p h = absurd (omega arith)
  search_pages_ends (suc fuel) i p h = grind (arith, probe-lt i, search_pages_ends fuel)
