-- ===== src/Base/Arrays.antt =====
-- C arrays of fixed place as functions of the index, and the list of their first `n` entries.
use Prim.Native.Nat.{ℕ, zero, suc, ◌+◌, ◌<◌}
use mathlib.Core.Path.{◌≡◌, refl, ap, ap₂}
use native.Mathlib.Nat.{add-zero, add-suc}
use mathlib.Core.List.{append-nil, List, [], ◌∷◌, ◌++◌, append_assoc}
use native.Mathlib.Omega.{arith}
use racoon.Base.Tests.{◌==◌, if◌then◌else◌}
use racoon.Base.Lists.{length, length-append}

module _ {ℓ} {A : Type ℓ} where
  -- `a[i] = v`
  abbrev pub update : (ℕ → A) → ℕ → A → ℕ → A
  update a i v j = if i == j then v else a j

  -- `a[0], …, a[n-1]`
  unfoldable pub tabulate : ℕ → (ℕ → A) → List A
  tabulate zero f = []
  tabulate (suc n) f = tabulate n f ++ (f n ∷ [])

  pub tabulate-zero : (f : ℕ → A) → tabulate 0 f ≡ []
  unfolding tabulate
  tabulate-zero f = refl

  pub tabulate-suc : (n : ℕ) (f : ℕ → A) → tabulate (suc n) f ≡ tabulate n f ++ (f n ∷ [])
  unfolding tabulate
  tabulate-suc n f = refl

  pub tabulate_ext :
      (n : ℕ) (f g : ℕ → A) → ((i : ℕ) → i < n → f i ≡ g i) → tabulate n f ≡ tabulate n g
  unfolding tabulate
  tabulate_ext zero f g h = refl
  tabulate_ext (suc n) f g h =
      ap₂ (λ xs x. xs ++ (x ∷ [])) (tabulate_ext n f g (λ i lt. h i (omega arith)))
        (h n (omega arith))

  pub tabulate-head : (n : ℕ) (f : ℕ → A) → tabulate (suc n) f ≡ f 0 ∷ tabulate n (λ i. f (suc i))
  unfolding tabulate
  tabulate-head zero f = refl
  tabulate-head (suc n) f = ap (λ xs. xs ++ (f (suc n) ∷ [])) (tabulate-head n f)

  pub tabulate-add :
      (m n : ℕ) (f : ℕ → A) → tabulate (m + n) f ≡ tabulate m f ++ tabulate n (λ i. f (m + i))
  unfolding tabulate
  tabulate-add m zero f = rw (add-zero, append-nil)
  tabulate-add m (suc n) f = rw (add-suc, tabulate-suc (m + n) f, tabulate-add m n f, append_assoc)

  pub length-tabulate : (n : ℕ) (f : ℕ → A) → length (tabulate n f) ≡ n
  unfolding tabulate
  length-tabulate zero f = refl
  length-tabulate (suc n) f =
      omega (arith, length-append (tabulate n f) (f n ∷ []), length-tabulate n f)
