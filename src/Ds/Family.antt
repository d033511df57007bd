-- ===== src/Ds/Family.antt =====
-- kernel/ds/family.h: trees of objects, through a structure in each object. The memory is a function of
-- the address of such a structure; NULL is 0.
pub mod Adopt
mod Tests
use racoon.Base.{ℕ, zero, suc, ◌==◌, if◌then◌else◌, update, Option, none, some}

-- `struct ds_family_tree`
pub record Family : Type 0 where
  pub object : ℕ
  pub parent : ℕ
  pub child : ℕ
  pub sibling_prev : ℕ
  pub sibling_next : ℕ

abbrev pub Memory : Type 0
Memory = ℕ → Family

abbrev pub set_parent : ℕ → ℕ → Memory → Memory
set_parent fam p s = update s fam (record (s fam) { parent = p })

abbrev pub set_child : ℕ → ℕ → Memory → Memory
set_child fam p s = update s fam (record (s fam) { child = p })

abbrev pub set_sibling_prev : ℕ → ℕ → Memory → Memory
set_sibling_prev fam p s = update s fam (record (s fam) { sibling_prev = p })

abbrev pub set_sibling_next : ℕ → ℕ → Memory → Memory
set_sibling_next fam p s = update s fam (record (s fam) { sibling_next = p })

-- A write through a pointer that may be NULL.
abbrev pub unless_null : ℕ → (Memory → Memory) → Memory → Memory
unless_null p write s = if p == 0 then s else write s

pub family_init : (fam object : ℕ) → Memory → Memory
family_init fam object s =
    update s fam
      (record { object = object; parent = 0; child = 0; sibling_prev = 0; sibling_next = 0 })

-- `NEXT_SIBLING`, `PREV_SIBLING`, `PARENT` and `CHILD`: the object behind one of the pointers.
pub relative : ℕ → Memory → ℕ
relative p s = if p == 0 then 0 else (s p).object

pub family_remove : ℕ → Memory → Memory
family_remove fam s =
    let s1 =
      unless_null (s fam).parent
        (λ t.
          if (t (t fam).parent).child == fam
          then set_child (t fam).parent (t fam).sibling_next t
          else t)
        s in
    let s2 =
      unless_null (s1 fam).sibling_prev
        (set_sibling_next (s1 fam).sibling_prev (s1 fam).sibling_next) s1 in
    let s3 =
      unless_null (s2 fam).sibling_next
        (set_sibling_prev (s2 fam).sibling_next (s2 fam).sibling_prev) s2 in
    set_sibling_prev fam 0 (set_sibling_next fam 0 (set_parent fam 0 s3))

pub family_add_child : (parent fam : ℕ) → Memory → Memory
family_add_child parent fam s =
    let s1 =
      unless_null (s parent).child
        (λ t. set_sibling_next fam (t parent).child (set_sibling_prev (t parent).child fam t)) s in
    set_parent fam parent (set_child parent fam s1)

pub family_add_sibling : (bro fam : ℕ) → Memory → Memory
family_add_sibling bro fam s =
    let s1 = unless_null (s bro).sibling_next (set_sibling_prev (s bro).sibling_next fam) s in
    let s2 = set_sibling_next fam (s1 bro).sibling_next s1 in
    let s3 = set_sibling_next bro fam (set_sibling_prev fam bro s2) in
    set_parent fam (s3 bro).parent s3

-- What the loop of `family_adopt` does to the child `tmp`.
pub adopt_child : (step tmp : ℕ) → Memory → Memory
adopt_child step tmp s =
    let s1 = set_sibling_prev tmp 0 (set_parent tmp step s) in
    let s2 = set_sibling_next tmp (s1 step).child s1 in
    let s3 = unless_null (s2 step).child (set_sibling_prev (s2 step).child tmp) s2 in
    set_child step tmp s3

-- The loop in `fuel` rounds; `none` means that they do not suffice.
pub adopt_from : (fuel : ℕ) → (step tmp : ℕ) → Memory → Option Memory
unfolding adopt_child
adopt_from zero step tmp s = none
adopt_from (suc fuel) step tmp s =
    let rest = adopt_from fuel step (s tmp).sibling_next (adopt_child step tmp s) in
    if tmp == 0 then some s else rest

pub family_adopt : (fuel : ℕ) → (step dead : ℕ) → Memory → Option Memory
unfolding adopt_from
family_adopt fuel step dead s = elim (adopt_from fuel step (s dead).child s) [
  | none ↦ none
  | some s' ↦ some (set_child dead 0 s')
]
