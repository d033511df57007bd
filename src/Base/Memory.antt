-- ===== src/Base/Memory.antt =====
-- Reads and writes of C objects: outside the object they fault.
use Prim.Native.Nat.{ℕ, ◌<◌, ◌≤◌}
use mathlib.Core.Path.{◌≡◌}
use mathlib.Core.List.{List}
use native.Mathlib.Omega.{arith}
use racoon.Base.Tests.{ltb, if◌then◌else◌}
use racoon.Base.Lists.{length, get_elem?, get_or, set, get_elem?-eq-get_or}
use racoon.Base.Outcomes.{Outcome, ok, fault, access}

-- The result of a C function that returns 0 or -1.
pub data Status : Type 0 where
  success failure : Status

module _ {ℓ} {A : Type ℓ} where
  unfoldable pub load : List A → ℕ → Outcome A
  load xs i = access (get_elem? xs i)

  unfoldable pub store : List A → ℕ → A → Outcome (List A)
  store xs i v = if ltb i (length xs) then ok (set xs i v) else fault

  pub load-ok : (xs : List A) (i : ℕ) (d : A) → i < length xs → load xs i ≡ ok (get_or xs i d)
  unfolding load
  load-ok xs i d h = rw (get_elem?-eq-get_or xs i d h)

  pub store-ok : (xs : List A) (i : ℕ) (v : A) → i < length xs → store xs i v ≡ ok (set xs i v)
  unfolding store
  store-ok xs i v h = ground arith

  pub store-fault : (xs : List A) (i : ℕ) (v : A) → length xs ≤ i → store xs i v ≡ fault
  unfolding store
  store-fault xs i v h = ground arith
