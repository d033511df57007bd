-- ===== src/Mm/ObjectCache/Slabs/Alloc.antt =====
-- `kmem_cache_alloc`: which object it returns, and that it ends.
use mathlib.Core.List.{Mem, Perm}
use mathlib.Core.List.Perm
use racoon.Base.{
  ℕ, suc, ◌+◌, ◌*◌, ◌^◌, ◌<◌, ◌≡◌, ◌≢◌, refl, ap, sym, ◌∙◌, arith, subst, true, false, not, ◌==◌,
  List, [], ◌∷◌, some, ℕ_discrete, ok, length,
}
use racoon.Mm.ObjectCache.{Slab, Cache, Machine}
use racoon.Mm.ObjectCache.Slabs.{
  has_available, take_object, search_slab, move_to_front, kmem_cache_alloc, Allocated,
}
use racoon.Mm.ObjectCache.Slabs.Stacks.{
  AreStacks, mem_head, mem_tail, mem_either, positions, suc_mul, perm_exchange, free_objects,
  free_part, IsValid, Served, take_object-Served, Found, search_slab-Found,
}

-- An allocation that succeeds with an object of the cache.
abbrev Succeeds : Cache → Machine → List Slab → Allocated → Type 0
Succeeds cp m slabs result =
    (obj : ℕ) × (cp' : Cache) × (result ≡ ok (obj, cp', m)) × Served cp slabs obj cp'

pub alloc_available :
    (depth : ℕ) (cp cp' : Cache) (kmflag obj : ℕ) (m : Machine)
    → has_available cp.objects cp.slabs ≡ true
    → take_object cp cp.slabs ≡ ok (obj, cp')
    → kmem_cache_alloc (suc depth) cp kmflag m ≡ ok (obj, cp', m)
unfolding kmem_cache_alloc
alloc_available depth cp cp' kmflag obj m some_free took = rw (some_free, took) refl

alloc_search :
    (depth : ℕ) (cp cp' : Cache) (kmflag : ℕ) (m : Machine)
    → has_available cp.objects cp.slabs ≡ false
    → (cp.total_objects == cp.used_objects) ≡ false
    → move_to_front cp cp.slabs ≡ ok cp'
    → kmem_cache_alloc (suc depth) cp kmflag m ≡ kmem_cache_alloc depth cp' kmflag m
unfolding kmem_cache_alloc
alloc_search depth cp cp' kmflag m full more front = rw (full, more, front) refl

pub available-cons :
    (objects : ℕ) (slab : Slab) (slabs : List Slab)
    → has_available objects (slab ∷ slabs) ≡ not (slab.position == objects)
unfolding has_available
available-cons objects slab slabs = refl

alloc_first :
    (depth : ℕ) (cp : Cache) (kmflag : ℕ) (m : Machine) (slab : Slab) (slabs : List Slab)
    → IsValid cp
    → cp.slabs ≡ slab ∷ slabs
    → slab.position ≢ cp.objects
    → Succeeds cp m (slab ∷ slabs) (kmem_cache_alloc (suc depth) cp kmflag m)
alloc_first depth cp kmflag m slab slabs valid same open_slab =
    let (obj, cp', took, served) = take_object-Served cp slab slabs valid same open_slab in
    (
      obj,
      cp',
      alloc_available depth cp cp' kmflag obj m
          (ap (has_available cp.objects) same
            ∙ (available-cons cp.objects slab slabs ∙ ground (arith, open_slab)))
          (ap (take_object cp) same ∙ took),
      served,
    )

abbrev moved : Cache → Slab → Slab → List Slab → Cache
moved cp found first others = record cp { slabs = found ∷ first ∷ others }

moved-IsValid :
    (cp : Cache) (first : Slab) (slabs : List Slab) (found : Slab) (others : List Slab)
    → IsValid cp
    → cp.slabs ≡ first ∷ slabs
    → Found cp.objects slabs found others
    → IsValid (moved cp found first others)
moved-IsValid cp first slabs found others valid same f =
    let all : AreStacks cp.objects (first ∷ slabs) =
      subst (AreStacks cp.objects) same valid.stacks in
    let size : length cp.slabs ≡ suc (suc (length others)) =
      ap length same ∙ omega (arith, f.size) in
    record {
      some_objects = valid.some_objects;
      total = valid.total ∙ ap (λ k. k * cp.objects) size;
      used = valid.used ∙ (ap positions same ∙ omega (arith, f.count));
      stacks = (f.stacks.0, (all.0, f.stacks.1));
      few = subst (λ k. k * cp.objects < 2 ^ 32) size valid.few;
    }

move_to_front-moved :
    (cp : Cache) (first : Slab) (slabs : List Slab) (found : Slab) (others : List Slab)
    → search_slab cp.objects slabs ≡ some (found, others)
    → move_to_front cp (first ∷ slabs) ≡ ok (moved cp found first others)
unfolding move_to_front
move_to_front-moved cp first slabs found others e = rw (e, move_to_front) refl

mem_moved :
    {objects : ℕ} (first slab found : Slab) (others slabs : List Slab)
    → Found objects slabs found others
    → Mem slab (found ∷ first ∷ others)
    → Mem slab (first ∷ slabs)
mem_moved first slab found others slabs f h =
    mem_either slab found (first ∷ others) h
      (λ e.
        subst (λ (x : Slab). Mem x (first ∷ slabs)) (sym e)
          (mem_tail found first slabs f.from_slabs))
      (λ rest.
        mem_either slab first others rest
          (λ e. subst (λ (x : Slab). Mem x (first ∷ slabs)) (sym e) (mem_head first slabs))
          (λ deep. mem_tail slab first slabs (f.others_from slab deep)))

module _ (cp : Cache) (kmflag : ℕ) (m : Machine) (first : Slab) (slabs : List Slab)
    (valid : IsValid cp) (same : cp.slabs ≡ first ∷ slabs) (full : first.position ≡ cp.objects)
    (some_free : cp.used_objects < cp.total_objects) where
  alloc-Found :
      (found : Slab) (others : List Slab)
      → Found cp.objects slabs found others
      → Succeeds cp m cp.slabs (kmem_cache_alloc 2 cp kmflag m)
  alloc-Found found others f =
      let front : move_to_front cp cp.slabs ≡ ok (moved cp found first others) =
        ap (move_to_front cp) same ∙ move_to_front-moved cp first slabs found others f.search in
      let unavailable : has_available cp.objects cp.slabs ≡ false =
        ap (has_available cp.objects) same
        ∙ (available-cons cp.objects first slabs ∙ ground (arith, full)) in
      let (obj, cp', e, served) =
        alloc_first 0 (moved cp found first others) kmflag m found (first ∷ others)
          (moved-IsValid cp first slabs found others valid same f) refl f.open_slab in
      let order : Perm (free_objects (first ∷ slabs)) (free_objects (found ∷ first ∷ others)) =
        Perm.trans (Perm.append_left (free_part first) f.same_objects)
          (perm_exchange (free_part first) (free_part found) (free_objects others)) in
      (
        obj,
        cp',
        alloc_search 1 cp (moved cp found first others) kmflag m unavailable
              (ground (arith, some_free)) front
            ∙ e,
        record {
          slab = served.slab;
          index = served.index;
          from_slabs =
              subst (Mem served.slab) (sym same)
                (mem_moved first served.slab found others slabs f served.from_slabs);
          address = served.address;
          valid = served.valid;
          others =
              subst
                (λ (l : List Slab).
                  Perm (free_objects l) ((served.slab.at, served.index) ∷ free_objects cp'.slabs))
                (sym same) (Perm.trans order served.others);
        },
      )

  -- The first slab is full, so the search goes on behind it.
  alloc_behind : Succeeds cp m cp.slabs (kmem_cache_alloc 2 cp kmflag m)
  alloc_behind =
      let all : AreStacks cp.objects (first ∷ slabs) =
        subst (AreStacks cp.objects) same valid.stacks in
      let used : cp.used_objects ≡ cp.objects + positions slabs =
        valid.used ∙ (ap positions same ∙ omega (arith, full)) in
      let total : cp.total_objects ≡ suc (length slabs) * cp.objects =
        valid.total ∙ ap (λ (l : List Slab). length l * cp.objects) same in
      let (found, others, f) =
        search_slab-Found cp.objects slabs all.1
          (omega (arith, used, total, some_free, suc_mul (length slabs) cp.objects)) in
      alloc-Found found others f

alloc_served :
    (cp : Cache) (kmflag : ℕ) (m : Machine) (slabs : List Slab)
    → IsValid cp
    → cp.slabs ≡ slabs
    → cp.used_objects < cp.total_objects
    → Succeeds cp m cp.slabs (kmem_cache_alloc 2 cp kmflag m)
alloc_served cp kmflag m [] valid same some_free =
    let total : cp.total_objects ≡ 0 =
      valid.total ∙ (ap (λ (l : List Slab). length l * cp.objects) same ∙ omega arith) in
    absurd (omega (arith, total, some_free))
alloc_served cp kmflag m (first ∷ slabs) valid same some_free =
    elim (ℕ_discrete first.position cp.objects) [
      | yes full ↦ alloc_behind cp kmflag m first slabs valid same full some_free
      | no open_slab ↦
          subst (λ (l : List Slab). Succeeds cp m l (kmem_cache_alloc 2 cp kmflag m)) (sym same)
            (alloc_first 1 cp kmflag m first slabs valid same open_slab)
    ]

-- In a valid cache in which fewer objects are in use than there are, one call of itself is enough for
-- `kmem_cache_alloc`. It allocates no memory and returns the address of an object of a slab that was
-- free; what it leaves is a valid cache in which all other objects that were free are free, and no
-- others.
pub kmem_cache_alloc-Served :
    (cp : Cache) (kmflag : ℕ) (m : Machine)
    → IsValid cp
    → cp.used_objects < cp.total_objects
    → (obj : ℕ) × (cp' : Cache) × (kmem_cache_alloc 2 cp kmflag m ≡ ok (obj, cp', m))
      × Served cp cp.slabs obj cp'
kmem_cache_alloc-Served cp kmflag m valid some_free =
    alloc_served cp kmflag m cp.slabs valid refl some_free
