-- ===== src/Mm/ObjectCache/Slabs/Stacks.antt =====
-- The slabs of a cache as stacks of free objects: taking one, and the search for a slab that has one.
use mathlib.Core.Logic.Or
use mathlib.Core.List.{
  Mem, Mem-prop, mem-cons, mem-cons_self, mem-cons_of_mem, Perm, append_assoc, perm_append_comm,
}
use mathlib.Core.List.Perm
use racoon.Base.{
  ℕ, zero, suc, ◌+◌, ◌*◌, ◌^◌, ◌≤◌, ◌<◌, ◌≡◌, ◌≢◌, refl, ap, sym, subst, lt→ltb, ◌∙◌, arith, Bool,
  false, ◌==◌, ◌||◌, List, [], ◌∷◌, ◌++◌, some, map, ℕ_discrete, subst₂, ok, length, get_or,
  load-ok, add32,
}
use racoon.Mm.ObjectCache.{Slab, Cache, object_address, get_object_ptr}
use racoon.Mm.ObjectCache.Slabs.{take_object, search_slab}

abbrev pub drop : ℕ → List ℕ → List ℕ
drop zero xs = xs
drop (suc n) [] = []
drop (suc n) (x ∷ xs) = drop n xs

abbrev has : ℕ → List ℕ → Bool
has i [] = false
has i (x ∷ xs) = (x == i) || has i xs

-- Different indices of objects.
abbrev pub Indices : ℕ → List ℕ → Type 0
Indices objects [] = Unit {0}
Indices objects (i ∷ is) = (i < objects) × (has i is ≡ false) × Indices objects is

-- The objects of a slab that are not in use, as the address of the slab and an index.
abbrev pub free_part : Slab → List (ℕ × ℕ)
free_part slab = map (λ i. (slab.at, i)) (drop slab.position slab.ctl)

abbrev pub free_objects : List Slab → List (ℕ × ℕ)
free_objects [] = []
free_objects (slab ∷ slabs) = free_part slab ++ free_objects slabs

-- A stack of all objects, with a position in it behind which no object is twice.
abbrev pub IsStack : ℕ → Slab → Type 0
IsStack objects slab =
    (length slab.ctl ≡ objects)
    × (slab.position ≤ objects)
    × Indices objects (drop slab.position slab.ctl)

abbrev pub AreStacks : ℕ → List Slab → Type 0
AreStacks objects [] = Unit {0}
AreStacks objects (slab ∷ slabs) = IsStack objects slab × AreStacks objects slabs

abbrev pub positions : List Slab → ℕ
positions [] = 0
positions (slab ∷ slabs) = slab.position + positions slabs

-- The slabs are stacks, and the counters are right.
pub record IsValid (cp : Cache) : Type 0 where
  pub some_objects : 0 < cp.objects
  pub total : cp.total_objects ≡ length cp.slabs * cp.objects
  pub used : cp.used_objects ≡ positions cp.slabs
  pub stacks : AreStacks cp.objects cp.slabs
  pub few : length cp.slabs * cp.objects < 2 ^ 32

drop_get : (n : ℕ) (xs : List ℕ) → n < length xs → drop n xs ≡ get_or xs n 0 ∷ drop (suc n) xs
drop_get zero [] h = absurd (omega arith)
drop_get zero (x ∷ xs) h = refl
drop_get (suc n) [] h = absurd (omega arith)
drop_get (suc n) (x ∷ xs) h = drop_get n xs (omega arith)

pub positions-le :
    (objects : ℕ) (slabs : List Slab)
    → AreStacks objects slabs
    → positions slabs ≤ length slabs * objects
positions-le objects [] h = omega arith
positions-le objects (slab ∷ slabs) h = grind (arith, positions-le objects slabs h.1, h.0)

-- A slab with a free object, whose stack is no longer than the address space.
module _ (objects : ℕ) (slab : Slab) (stack : IsStack objects slab) (free : slab.position < objects)
    (bound : objects < 2 ^ 32) where
  pub top : ℕ
  top = get_or slab.ctl slab.position 0

  pub after : Slab
  after = record slab { position = add32 slab.position 1 }

  split : drop slab.position slab.ctl ≡ top ∷ drop (suc slab.position) slab.ctl
  unfolding top
  split = drop_get slab.position slab.ctl (omega (arith, stack.0, free))

  position-after : after.position ≡ suc slab.position
  unfolding after
  position-after = omega (arith, free, bound)

  indices : Indices objects (top ∷ drop (suc slab.position) slab.ctl)
  indices = subst (Indices objects) split stack.2

  pub top_index : get_or slab.ctl slab.position 0 < objects
  unfolding top
  top_index = indices.0

  after-IsStack : IsStack objects after
  unfolding after
  after-IsStack = (stack.0, omega (arith, position-after, free), rw position-after indices.2)

  free_part-after : free_part slab ≡ (slab.at, top) ∷ free_part after
  unfolding after
  free_part-after = rw (position-after, split) refl

pub mem_head : (slab : Slab) (slabs : List Slab) → Mem slab (slab ∷ slabs)
mem_head slab slabs = mem-cons_self

pub mem_tail : (found slab : Slab) (slabs : List Slab) → Mem found slabs → Mem found (slab ∷ slabs)
mem_tail found slab slabs h = mem-cons_of_mem slab h

pub mem_either :
    (s slab : Slab) (slabs : List Slab) {goal : List Slab}
    → Mem s (slab ∷ slabs)
    → (s ≡ slab → Mem s goal)
    → (Mem s slabs → Mem s goal)
    → Mem s goal
mem_either s slab slabs h left right = Or.elim Mem-prop (mem-cons.0 h) left right

-- What an allocation from the slabs `slabs` gives: an object that was free in a slab of the new
-- state, and a valid cache in which the others are free.
pub record Served (cp : Cache) (slabs : List Slab) (obj : ℕ) (cp' : Cache) : Type 0 where
  pub slab : Slab
  pub index : ℕ
  pub from_slabs : Mem slab slabs
  pub address : obj ≡ object_address cp slab index
  pub valid : IsValid cp'
  pub others : Perm (free_objects slabs) ((slab.at, index) ∷ free_objects cp'.slabs)

pub suc_mul : (k n : ℕ) → suc k * n ≡ n + k * n
suc_mul k n = grind arith

pub bound_of : (n k : ℕ) → suc k * n < 2 ^ 32 → n < 2 ^ 32
bound_of n k h = grind arith

pub take_object-Served :
    (cp : Cache) (slab : Slab) (slabs : List Slab)
    → IsValid cp
    → cp.slabs ≡ slab ∷ slabs
    → slab.position ≢ cp.objects
    → (obj : ℕ) × (cp' : Cache) × (take_object cp (slab ∷ slabs) ≡ ok (obj, cp'))
      × Served cp (slab ∷ slabs) obj cp'
unfolding take_object get_object_ptr top after
take_object-Served cp slab slabs valid same open_slab =
    let all : AreStacks cp.objects (slab ∷ slabs) =
      subst (AreStacks cp.objects) same valid.stacks in
    let stack : IsStack cp.objects slab = all.0 in
    let free : slab.position < cp.objects = ground (arith, stack.1, open_slab) in
    let few : suc (length slabs) * cp.objects < 2 ^ 32 =
      subst (λ (l : List Slab). length l * cp.objects < 2 ^ 32) same valid.few in
    let bound : cp.objects < 2 ^ 32 = bound_of cp.objects (length slabs) few in
    let i : ℕ = get_or slab.ctl slab.position 0 in
    let word : add32 slab.position 1 ≡ suc slab.position =
      position-after cp.objects slab stack free bound in
    let count : cp.used_objects ≡ slab.position + positions slabs =
      valid.used ∙ ap positions same in
    let expand : suc (length slabs) * cp.objects ≡ cp.objects + length slabs * cp.objects =
      suc_mul (length slabs) cp.objects in
    let small : i < cp.objects = top_index cp.objects slab stack free bound in
    (
      object_address cp slab i,
      record cp {
        used_objects = add32 cp.used_objects 1;
        slabs = after cp.objects slab stack free bound ∷ slabs;
      },
      rw
          (
            load-ok slab.ctl slab.position 0 (omega (arith, stack.0, free)),
            lt→ltb i cp.objects small,
          )
          refl,
      record {
        slab = slab;
        index = i;
        from_slabs = mem_head slab slabs;
        address = refl;
        valid = record {
          some_objects = valid.some_objects;
          total = valid.total ∙ ap (λ (l : List Slab). length l * cp.objects) same;
          used =
              ground (arith, word, count, expand, positions-le cp.objects slabs all.1, free, few);
          stacks = (after-IsStack cp.objects slab stack free bound, all.1);
          few = few;
        };
        others = rw (free_part-after cp.objects slab stack free bound) (Perm.refl _);
      },
    )

-- The slab that the search finds, and the others.
pub record Found (objects : ℕ) (slabs : List Slab) (found : Slab) (others : List Slab)
    : Type 0 where
  pub search : search_slab objects slabs ≡ some (found, others)
  pub from_slabs : Mem found slabs
  pub others_from : (s : Slab) → Mem s others → Mem s slabs
  pub open_slab : found.position ≢ objects
  pub stacks : AreStacks objects (found ∷ others)
  pub count : positions (found ∷ others) ≡ positions slabs
  pub size : suc (length others) ≡ length slabs
  pub same_objects : Perm (free_objects slabs) (free_part found ++ free_objects others)

pub perm_exchange {ℓ} :
    {A : Type ℓ} (xs ys zs : List A) → Perm (xs ++ (ys ++ zs)) (ys ++ (xs ++ zs))
perm_exchange xs ys zs =
    subst₂ Perm (append_assoc xs ys zs) (append_assoc ys xs zs)
      (Perm.append_right zs (perm_append_comm xs ys))

Found-cons :
    (objects : ℕ) (slab : Slab) (slabs : List Slab) (found : Slab) (others : List Slab)
    → slab.position ≡ objects
    → IsStack objects slab
    → Found objects slabs found others
    → Found objects (slab ∷ slabs) found (slab ∷ others)
unfolding search_slab
Found-cons objects slab slabs found others full stack f = record {
  search = ground (arith, f.search, full);
  from_slabs = mem_tail found slab slabs f.from_slabs;
  others_from = λ s h.
      mem_either s slab others h
        (λ e. subst (λ (x : Slab). Mem x (slab ∷ slabs)) (sym e) (mem_head slab slabs))
        (λ rest. mem_tail s slab slabs (f.others_from s rest));
  open_slab = f.open_slab;
  stacks = (f.stacks.0, (stack, f.stacks.1));
  count = omega (arith, f.count);
  size = omega (arith, f.size);
  same_objects =
      Perm.trans (Perm.append_left (free_part slab) f.same_objects)
        (perm_exchange (free_part slab) (free_part found) (free_objects others));
}

-- Where fewer objects are in use than there are, the search finds a slab.
pub search_slab-Found :
    (objects : ℕ) (slabs : List Slab)
    → AreStacks objects slabs
    → positions slabs < length slabs * objects
    → (found : Slab) × (others : List Slab) × Found objects slabs found others
unfolding search_slab
search_slab-Found objects [] stacks some_free = absurd (omega arith)
search_slab-Found objects (slab ∷ slabs) stacks some_free =
    elim (ℕ_discrete slab.position objects) [
      | yes full ↦
          let (found, others, f) =
            search_slab-Found objects slabs stacks.1
              (omega (arith, suc_mul (length slabs) objects, full, some_free)) in
          (found, slab ∷ others, Found-cons objects slab slabs found others full stacks.0 f)
      | no open_slab ↦ (
        slab,
        slabs,
        record {
          search = ground (arith, open_slab);
          from_slabs = mem_head slab slabs;
          others_from = λ s h. mem_tail s slab slabs h;
          open_slab = open_slab;
          stacks = stacks;
          count = refl;
          size = refl;
          same_objects = Perm.refl _;
        },
      )
    ]
