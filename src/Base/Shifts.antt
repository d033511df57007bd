-- ===== src/Base/Shifts.antt =====
-- The loops by which the kernel searches an array, closes a gap in it and opens one, and what they
-- do to the list of its first entries.
use Prim.Native.Nat.{ℕ, zero, suc, ◌+◌, ◌-◌, ◌<◌, ◌≤◌}
use mathlib.Core.Path.{◌≡◌, ap, ap₂, ◌∙◌}
use mathlib.Core.Logic.{inl, inr}
use native.Mathlib.Nat.{add-zero}
use mathlib.Core.Bool.{Bool, true, false, ◌&&◌}
use mathlib.Core.List.{◌∷◌, ◌++◌}
use native.Mathlib.Omega.{arith}
use racoon.Base.Tests.{◌==◌, ltb, leb, if◌then◌else◌, Bool-cases}
use racoon.Base.Arrays.{update, tabulate, tabulate_ext, tabulate-head, tabulate-add}

-- `for ( ; i < n; i++ ) if ( test(i) ) break;` with `k` rounds left: the last value of `i`.
unfoldable pub first_index : (ℕ → Bool) → ℕ → ℕ → ℕ
first_index test zero i = i
first_index test (suc k) i = let rest = first_index test k (i + 1) in if test i then i else rest

pub first_index_bounds :
    (test : ℕ → Bool) (k i : ℕ) → (i ≤ first_index test k i) × (first_index test k i ≤ i + k)
unfolding first_index
first_index_bounds test zero i = omega arith
first_index_bounds test (suc k) i = ground (arith, first_index_bounds test k (i + 1))

pub first_index_before :
    (test : ℕ → Bool) (k i j : ℕ) → i ≤ j → j < first_index test k i → test j ≡ false
unfolding first_index
first_index_before test zero i j l h = absurd (omega arith)
first_index_before test (suc k) i j l h = elim (Bool-cases (i == j)) [
  | inl same ↦ ground arith
  | inr other ↦ ground (arith, first_index_before test k (i + 1) j)
]

pub first_index_at :
    (test : ℕ → Bool) (k i : ℕ) → first_index test k i < i + k → test (first_index test k i) ≡ true
unfolding first_index
first_index_at test zero i h = absurd (omega arith)
first_index_at test (suc k) i h = ground (arith, first_index_at test k (i + 1))

-- The first index that satisfies the test is found.
pub first_index_is :
    (test : ℕ → Bool) (n p : ℕ)
    → p < n
    → test p ≡ true
    → ((i : ℕ) → i < p → test i ≡ false)
    → first_index test n 0 ≡ p
first_index_is test n p h yes_p before =
    let f = first_index test n 0 in
    ground (
      arith,
      first_index_bounds test n 0,
      first_index_before test n 0 p,
      first_index_at test n 0,
      before f,
    )

-- Equal tests find the same.
pub first_index_ext :
    (t u : ℕ → Bool) (n : ℕ) → ((i : ℕ) → i < n → t i ≡ u i) → first_index t n 0 ≡ first_index u n 0
first_index_ext t u n same =
    let f = first_index t n 0 in
    let g = first_index u n 0 in
    ground (
      arith,
      first_index_bounds t n 0,
      first_index_bounds u n 0,
      first_index_before t n 0 g,
      first_index_before u n 0 f,
      first_index_at t n 0,
      first_index_at u n 0,
      same f,
      same g,
    )

-- None satisfies it.
pub first_index_none :
    (test : ℕ → Bool) (n : ℕ) → ((i : ℕ) → i < n → test i ≡ false) → first_index test n 0 ≡ n
first_index_none test n none_ok =
    let f = first_index test n 0 in
    ground (arith, first_index_bounds test n 0, first_index_at test n 0, none_ok f)

module _ {A : Type 0} where
  -- `for ( ; i < n; i++ ) a[i] = a[i+c];` with `k` rounds left.
  unfoldable pub shift_down : ℕ → ℕ → ℕ → (ℕ → A) → ℕ → A
  shift_down c zero i a = a
  shift_down c (suc k) i a = shift_down c k (i + 1) (update a i (a (i + c)))

  -- `for ( i = pos + k; i > pos; i-- ) a[i] = a[i-1];`
  unfoldable pub shift_up : ℕ → ℕ → (ℕ → A) → ℕ → A
  shift_up zero pos a = a
  shift_up (suc k) pos a = shift_up k pos (update a (pos + suc k) (a (pos + k)))

  pub shift_down_lem :
      (c k i : ℕ) (a : ℕ → A) (j : ℕ)
      → shift_down c k i a j ≡ (if leb i j && ltb j (i + k) then a (j + c) else a j)
  unfolding shift_down
  shift_down_lem c zero i a j = ground arith
  shift_down_lem c (suc k) i a j =
      ground (arith, shift_down_lem c k (i + 1) (update a i (a (i + c))) j)

  pub shift_up_lem :
      (k pos : ℕ) (a : ℕ → A) (j : ℕ)
      → shift_up k pos a j ≡ (if ltb pos j && leb j (pos + k) then a (j - 1) else a j)
  unfolding shift_up
  shift_up_lem zero pos a j = ground arith
  shift_up_lem (suc k) pos a j =
      ground (arith, shift_up_lem k pos (update a (pos + suc k) (a (pos + k))) j)

  -- An array of `p + 1 + m` entries: those before index `p`, that entry, those behind it.
  pub tabulate_split :
      (p m : ℕ) (a : ℕ → A)
      → tabulate (p + suc m) a ≡ tabulate p a ++ (a p ∷ tabulate m (λ i. a (p + suc i)))
  tabulate_split p m a =
      tabulate-add p (suc m) a
      ∙ ap (λ xs. tabulate p a ++ xs)
          (tabulate-head m (λ i. a (p + i))
            ∙ ap (λ j. a j ∷ tabulate m (λ i. a (p + suc i))) (add-zero p))

  -- Closing the gap at `p` drops that entry.
  pub tabulate-shift_down :
      (p m : ℕ) (a : ℕ → A)
      → tabulate (p + m) (shift_down 1 m p a) ≡ tabulate p a ++ tabulate m (λ i. a (p + suc i))
  tabulate-shift_down p m a =
      tabulate-add p m (shift_down 1 m p a)
      ∙ ap₂ ◌++◌ (tabulate_ext p _ _ (λ i lt. ground (arith, shift_down_lem 1 m p a i))) (
          tabulate_ext m _ _ (λ i lt.
            let e : p + i + 1 ≡ p + suc i = omega arith in
            ground (arith, shift_down_lem 1 m p a (p + i), ap a e)))

  -- Opening a gap at `p` and writing there puts an entry in.
  pub tabulate-shift_up :
      (p m : ℕ) (a : ℕ → A) (x : A)
      → tabulate (p + suc m) (update (shift_up m p a) p x)
        ≡ tabulate p a ++ (x ∷ tabulate m (λ i. a (p + i)))
  tabulate-shift_up p m a x =
      tabulate_split p m (update (shift_up m p a) p x)
      ∙ ap₂ ◌++◌ (tabulate_ext p _ _ (λ i lt. ground (arith, shift_up_lem m p a i))) (
          ap₂ ◌∷◌ (ground arith) (
            tabulate_ext m _ _ (λ i lt.
              let e : p + suc i - 1 ≡ p + i = omega arith in
              ground (arith, shift_up_lem m p a (p + suc i), ap a e))))
