-- ===== src/Ds/Family/Tests.antt =====
-- A small family: 1 with the child 2, and 3 with the children 4 and 5.
use racoon.Base.{ℕ, ◌≡◌, refl, arith, [], ◌∷◌, some, ◌==◌, if◌then◌else◌}
use racoon.Ds.Family.{Family, Memory, family_adopt, family_remove, family_add_child}
use racoon.Ds.Family.Adopt.{IsChain, AllParents, family_adopt_lem}

abbrev member : (object parent child sibling_prev sibling_next : ℕ) → Family
member object parent child sibling_prev sibling_next = record {
  object = object;
  parent = parent;
  child = child;
  sibling_prev = sibling_prev;
  sibling_next = sibling_next;
}

abbrev people : Memory
people x =
    if x == 1
    then member 11 0 2 0 3
    else if x == 2
    then member 12 1 0 0 0
    else if x == 3
    then member 13 0 4 1 0
    else if x == 4
    then member 14 3 0 0 5
    else if x == 5
    then member 15 3 0 4 0
    else member 0 0 0 0 0

remove_first_child : (family_remove 4 people 3).child ≡ 5
unfolding family_remove
remove_first_child = refl

add_first_child : (family_add_child 1 6 people 2).sibling_prev ≡ 6
unfolding family_add_child
add_first_child = refl

family_adopt_example :
    (s' : Memory) × (family_adopt 3 1 3 people ≡ some s')
    × ((s' 3).child ≡ 0)
    × IsChain s' (s' 1).child (5 ∷ 4 ∷ 2 ∷ [])
    × AllParents s' 1 (4 ∷ 5 ∷ [])
family_adopt_example =
    family_adopt_lem people 1 3 (4 ∷ 5 ∷ []) (2 ∷ [])
      (refl, omega arith, refl, (refl, omega arith, refl, refl)) (refl, omega arith, refl, refl)
      (refl, (refl, tt)) refl (omega arith)
