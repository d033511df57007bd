-- ===== src/Base/Outcomes.antt =====
-- How a call of a C function ends: it returns, it stops the machine at a failed `assert`
-- (kernel/debug/assert.h), or it touches memory outside its object or divides by zero.
use mathlib.Core.Path.{◌≡◌, refl, subst}
use mathlib.Core.Bool.{Bool, true, false}
use mathlib.Core.Option.{Option, none, some}
use racoon.Base.Tests.{if◌then◌else◌}

pub data Outcome {ℓ} (A : Type ℓ) : Type ℓ where
  ok : A → Outcome A
  halt : Outcome A
  fault : Outcome A

infixl 5 ◌>>=◌ ◌>>◌
abbrev pub ◌>>=◌ {ℓ κ} : {A : Type ℓ} {B : Type κ} → Outcome A → (A → Outcome B) → Outcome B
ok a >>= f = f a
halt >>= f = halt
fault >>= f = fault

abbrev pub ◌>>◌ {ℓ} : {B : Type ℓ} → Outcome (Unit {0}) → Outcome B → Outcome B
m >> k = m >>= λ _. k

-- `assert( b )`
abbrev pub assert : Bool → Outcome (Unit {0})
assert true = ok tt
assert false = halt

-- A read through a C pointer or index: `none` is an access outside the object.
abbrev pub access {ℓ} : {A : Type ℓ} → Option A → Outcome A
access none = fault
access (some a) = ok a

-- `P` holds of the result, if there is one.
abbrev pub Post {ℓ κ} : {A : Type ℓ} → (A → Type κ) → Outcome A → Type κ
Post P (ok a) = P a
Post P halt = Unit
Post P fault = Unit

pub Post-bind {ℓ κ ι} :
    {A : Type ℓ} {B : Type κ} (Q : A → Type ι) (P : B → Type ι) (m : Outcome A) (f : A → Outcome B)
    → Post Q m
    → ((a : A) → Q a → Post P (f a))
    → Post P (m >>= f)
Post-bind Q P (ok a) f h k = k a h
Post-bind Q P halt f h k = tt
Post-bind Q P fault f h k = tt

-- The same where nothing is known of the first result.
pub Post-after {ℓ κ ι} :
    {A : Type ℓ} {B : Type κ} (P : B → Type ι) (m : Outcome A) (f : A → Outcome B)
    → ((a : A) → Post P (f a))
    → Post P (m >>= f)
Post-after P (ok a) f k = k a
Post-after P halt f k = tt
Post-after P fault f k = tt

pub Post-assert {ℓ κ} :
    {B : Type ℓ} (P : B → Type κ) (b : Bool) (m : Outcome B)
    → (b ≡ true → Post P m)
    → Post P (assert b >> m)
Post-assert P true m k = k refl
Post-assert P false m k = tt

pub Post-access {ℓ κ} :
    {A : Type ℓ} {B : Type ℓ} (P : B → Type κ) (o : Option A) (f : A → Outcome B)
    → ((a : A) → o ≡ some a → Post P (f a))
    → Post P (access o >>= f)
Post-access P none f k = tt
Post-access P (some a) f k = k a refl

pub Post-if {ℓ κ} :
    {A : Type ℓ} (P : A → Type κ) (b : Bool) (x y : Outcome A)
    → (b ≡ true → Post P x)
    → (b ≡ false → Post P y)
    → Post P (if b then x else y)
Post-if P true x y h k = h refl
Post-if P false x y h k = k refl

pub Post_ok {ℓ κ} :
    {A : Type ℓ} (P : A → Type κ) (m : Outcome A) (a : A) → m ≡ ok a → Post P m → P a
Post_ok P m a e h = subst (Post P) e h
