-- ===== src/Ds/Family/Adopt.antt =====
-- `family_adopt` gives the children of one object to another.
use racoon.Base.{
  ℕ, suc, ◌≡◌, ◌≢◌, refl, ap, sym, ◌∙◌, subst, arith, Bool, false, ◌==◌, ◌||◌, if◌then◌else◌, List,
  [], ◌∷◌, length, some,
}
use racoon.Ds.Family.{Memory, set_child, adopt_child, adopt_from, family_adopt}

abbrev pub has : ℕ → List ℕ → Bool
has a [] = false
has a (x ∷ xs) = (x == a) || has a xs

-- From `p` on the siblings are the objects `xs`, all different.
abbrev pub IsChain : Memory → ℕ → List ℕ → Type 0
IsChain s p [] = p ≡ 0
IsChain s p (x ∷ xs) = (p ≡ x) × (x ≢ 0) × (has x xs ≡ false) × IsChain s (s x).sibling_next xs

abbrev pub AllParents : Memory → ℕ → List ℕ → Type 0
AllParents s p [] = Unit {0}
AllParents s p (x ∷ xs) = ((s x).parent ≡ p) × AllParents s p xs

-- No object of one list is in the other.
abbrev pub AreApart : List ℕ → List ℕ → Type 0
AreApart [] ys = Unit {0}
AreApart (x ∷ xs) ys = (has x ys ≡ false) × AreApart xs ys

abbrev pub rev_onto : List ℕ → List ℕ → List ℕ
rev_onto [] ys = ys
rev_onto (x ∷ xs) ys = rev_onto xs (x ∷ ys)

-- What one round leaves as it is, and what it changes.
adopt_child_next :
    (s : Memory) (step tmp x : ℕ)
    → step ≢ tmp
    → (adopt_child step tmp s x).sibling_next
      ≡ (if tmp == x then (s step).child else (s x).sibling_next)
unfolding adopt_child
adopt_child_next s step tmp x apart = ground (arith, apart)

adopt_child_parent :
    (s : Memory) (step tmp x : ℕ)
    → step ≢ tmp
    → (adopt_child step tmp s x).parent ≡ (if tmp == x then step else (s x).parent)
unfolding adopt_child
adopt_child_parent s step tmp x apart = ground (arith, apart)

adopt_child_child :
    (s : Memory) (step tmp x : ℕ)
    → step ≢ tmp
    → (adopt_child step tmp s x).child ≡ (if step == x then tmp else (s x).child)
unfolding adopt_child
adopt_child_child s step tmp x apart = ground (arith, apart)

-- A chain without `tmp` stays one.
frame :
    (s : Memory) (step tmp p : ℕ) (ys : List ℕ)
    → step ≢ tmp
    → has tmp ys ≡ false
    → IsChain s p ys
    → IsChain (adopt_child step tmp s) p ys
frame s step tmp p [] apart out h = h
frame s step tmp p (y ∷ ys) apart out (at_y, some_y, once, rest) = (
  at_y,
  some_y,
  once,
  subst (λ (q : ℕ). IsChain (adopt_child step tmp s) q ys)
      (sym (adopt_child_next s step tmp y apart ∙ ground (arith, out)))
      (frame s step tmp (s y).sibling_next ys apart (ground (arith, out)) rest),
)

AreApart-cons : (x : ℕ) (xs ys : List ℕ) → has x xs ≡ false → AreApart xs ys → AreApart xs (x ∷ ys)
AreApart-cons x [] ys out h = tt
AreApart-cons x (z ∷ xs) ys out (first, rest) =
    (ground (arith, out, first), AreApart-cons x xs ys (ground (arith, out)) rest)

-- What the loop gives: the children in front of those that were there, in reverse order.
record IsAdopted (s : Memory) (step : ℕ) (xs ys : List ℕ) (s' : Memory) : Type 0 where
  chain : IsChain s' (s' step).child (rev_onto xs ys)
  parents : AllParents s' step xs
  same_parent : (z : ℕ) → has z xs ≡ false → (s' z).parent ≡ (s z).parent

adopt_step :
    (fuel step x : ℕ) (s : Memory)
    → x ≢ 0
    → adopt_from (suc fuel) step x s
      ≡ adopt_from fuel step (s x).sibling_next (adopt_child step x s)
unfolding adopt_from
adopt_step fuel step x s some_x = ground (arith, some_x)

adopt_end : (step : ℕ) (s : Memory) → adopt_from 1 step 0 s ≡ some s
unfolding adopt_from
adopt_end step s = refl

adopt_chain :
    (xs : List ℕ) (s : Memory) (step tmp : ℕ) (ys : List ℕ)
    → IsChain s tmp xs
    → IsChain s (s step).child ys
    → AreApart xs ys
    → has step xs ≡ false
    → (s' : Memory) × (adopt_from (suc (length xs)) step tmp s ≡ some s')
      × IsAdopted s step xs ys s'
adopt_chain [] s step tmp ys at_end chain apart out = (
  s,
  ap (λ (t : ℕ). adopt_from 1 step t s) at_end ∙ adopt_end step s,
  record { chain = chain; parents = tt; same_parent = λ z h. refl },
)
adopt_chain (x ∷ xs) s step tmp ys (at_x, some_x, once, rest) chain (first, apart) out =
    let other : step ≢ x = ground (arith, out) in
    let s1 : Memory = adopt_child step x s in
    let child : (s1 step).child ≡ x = adopt_child_child s step x step other ∙ ground arith in
    let next : (s1 x).sibling_next ≡ (s step).child =
      adopt_child_next s step x x other ∙ ground arith in
    let (s', ends, a) =
      adopt_chain xs s1 step (s x).sibling_next (x ∷ ys)
        (frame s step x (s x).sibling_next xs other once rest)
        (
          child,
          some_x,
          first,
          subst (λ (q : ℕ). IsChain s1 q ys) (sym next)
              (frame s step x (s step).child ys other first chain),
        )
        (AreApart-cons x xs ys once apart) (ground (arith, out)) in
    (
      s',
      ap (λ (t : ℕ). adopt_from (suc (suc (length xs))) step t s) at_x
          ∙ (adopt_step (suc (length xs)) step x s some_x ∙ ends),
      record {
        chain = a.chain;
        parents = (
          a.same_parent x once ∙ (adopt_child_parent s step x x other ∙ ground arith),
          a.parents,
        );
        same_parent = λ z h.
            a.same_parent z (ground (arith, h))
            ∙ (adopt_child_parent s step x z other ∙ ground (arith, h));
      },
    )

-- A chain depends on the pointers to the next sibling alone.
IsChain-same :
    (s t : Memory) (p : ℕ) (xs : List ℕ)
    → ((z : ℕ) → (t z).sibling_next ≡ (s z).sibling_next)
    → IsChain s p xs
    → IsChain t p xs
IsChain-same s t p [] same h = h
IsChain-same s t p (x ∷ xs) same (at_x, some_x, once, rest) = (
  at_x,
  some_x,
  once,
  subst (λ (q : ℕ). IsChain t q xs) (sym (same x))
      (IsChain-same s t (s x).sibling_next xs same rest),
)

AllParents-same :
    (s t : Memory) (p : ℕ) (xs : List ℕ)
    → ((z : ℕ) → (t z).parent ≡ (s z).parent)
    → AllParents s p xs
    → AllParents t p xs
AllParents-same s t p [] same h = tt
AllParents-same s t p (x ∷ xs) same (first, rest) =
    (same x ∙ first, AllParents-same s t p xs same rest)

forget_next : (s : Memory) (dead z : ℕ) → (set_child dead 0 s z).sibling_next ≡ (s z).sibling_next
forget_next s dead z = ground arith

forget_parent : (s : Memory) (dead z : ℕ) → (set_child dead 0 s z).parent ≡ (s z).parent
forget_parent s dead z = ground arith

forget_child :
    (s : Memory) (dead step : ℕ) → step ≢ dead → (set_child dead 0 s step).child ≡ (s step).child
forget_child s dead step apart = ground (arith, apart)

-- With one round more than there are children, `family_adopt` ends: the children of `dead` are all in
-- front of those of `step`, in reverse order, their parent is `step`, and `dead` has none; where the
-- children of the two are different objects, and `step` is neither `dead` nor a child of it.
pub family_adopt_lem :
    (s : Memory) (step dead : ℕ) (xs ys : List ℕ)
    → IsChain s (s dead).child xs
    → IsChain s (s step).child ys
    → AreApart xs ys
    → has step xs ≡ false
    → step ≢ dead
    → (s' : Memory) × (family_adopt (suc (length xs)) step dead s ≡ some s')
      × ((s' dead).child ≡ 0)
      × IsChain s' (s' step).child (rev_onto xs ys)
      × AllParents s' step xs
unfolding family_adopt
family_adopt_lem s step dead xs ys children others apart out different =
    let (t, ends, a) = adopt_chain xs s step (s dead).child ys children others apart out in
    (
      set_child dead 0 t,
      rw (ends, family_adopt) refl,
      ground arith,
      subst (λ (q : ℕ). IsChain (set_child dead 0 t) q (rev_onto xs ys))
          (sym (forget_child t dead step different))
          (IsChain-same t (set_child dead 0 t) (t step).child (rev_onto xs ys) (forget_next t dead)
            a.chain),
      AllParents-same t (set_child dead 0 t) step xs (forget_parent t dead) a.parents,
    )
