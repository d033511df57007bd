-- ===== src/Mm/ObjectCache/Slabs.antt =====
-- The operations of kernel/mm/kmem_cache.c on slabs, and those of its interface.
pub mod Stacks
pub mod Alloc
pub mod Free
mod Tests
use racoon.Base.{
  ℕ, zero, suc, ◌+◌, ◌-◌, ◌*◌, ◌/◌, ◌%◌, ◌^◌, Bool, true, false, not, Option, none, some, ltb, leb,
  ◌==◌, ◌&&◌, if◌then◌else◌, List, [], ◌∷◌, ◌++◌, u32, add32, sub32, Outcome, ok, halt, fault,
  ◌>>=◌, ◌>>◌, assert, load, store, tabulate, update,
}
use racoon.Text.{Buffer}
use racoon.Mm.ObjectCache.{
  Slab, Cache, Call, constructed, destructed, reclaimed, Machine, called, kmalloc, kfree,
  red_zone_data, is_nogrow, is_red_zone, is_off_slab, is_ownership, get_object_ptr,
  get_object_index, get_object_slab, left_redzone, right_redzone, owner_ptr,
}

-- `sizeof( kmem_slab_t ) + cp->objects * sizeof( kmem_ctl_t )`
abbrev pub man_space : Cache → ℕ
man_space cp = u32 (20 + cp.objects * 4)

-- The offset of the first object of a slab whose objects lie at `ptr`.
abbrev pub aligned : (align ptr offset : ℕ) → ℕ
aligned align ptr offset =
    if ltb 1 align && not (add32 ptr offset % align == 0)
    then add32 offset (align - add32 ptr offset % align)
    else offset

abbrev pub first_offset : Cache → ℕ → ℕ
first_offset cp ptr =
    let zoned = if is_red_zone cp.cflags then 4 else 0 in
    aligned cp.align ptr (if is_ownership cp.cflags then zoned + 4 else zoned)

-- Position and stack are written by `kmem_init_slab`.
abbrev pub bare_slab : Cache → (at ptr : ℕ) → Slab
bare_slab cp at ptr = record {
  at = at;
  position = 0;
  offset = first_offset cp ptr;
  ptr = ptr;
  ctl = [];
}

pub kmem_new_slab : Cache → ℕ → Machine → Option Slab × Machine
unfolding kmalloc
kmem_new_slab cp kmflag m =
    let (at, m1) = kmalloc (man_space cp) m in
    let (ptr, m2) = kmalloc cp.int_slabobj_size m1 in
    let (both, m3) = kmalloc (add32 (man_space cp) cp.int_slabobj_size) m in
    if is_off_slab kmflag
    then (if at == 0
        then (none, m1)
        else if ptr == 0
        then (none, kfree at m2)
        else (some (bare_slab cp at ptr), m2))
    else if both == 0
    then (none, m3)
    else (some (bare_slab cp both (u32 (both + 20 + cp.objects * 4))), m3)

-- What the loop of `kmem_init_slab` does to one object.
abbrev pub init_object : Cache → (obj kmflag : ℕ) → Machine → Machine
init_object cp obj kmflag m =
    let built = if cp.constructor == 0 then m else called (constructed obj cp.token kmflag) m in
    let zoned =
      if is_red_zone cp.cflags
      then update (update built.words (left_redzone obj) red_zone_data) (right_redzone cp obj)
          red_zone_data
      else built.words in
    let owned = if is_ownership cp.cflags then update zoned (owner_ptr cp obj) cp.at else zoned in
    record built { words = owned }

-- The loop with `k` rounds left, from object `i` on.
pub init_objects : ℕ → (i : ℕ) → Cache → Slab → (kmflag : ℕ) → Machine → Outcome Machine
init_objects zero i cp slab kmflag m = ok m
init_objects (suc k) i cp slab kmflag m = do
  obj ← get_object_ptr cp slab i
  init_objects k (i + 1) cp slab kmflag (init_object cp obj kmflag m)

pub kmem_init_slab : Cache → Slab → ℕ → Machine → Outcome (Cache × Slab × Machine)
kmem_init_slab cp slab kmflag m = do
  m' ← init_objects cp.objects 0 cp slab kmflag m
  ok (
    record cp { total_objects = add32 cp.total_objects cp.objects },
    record slab { position = 0; ctl = tabulate cp.objects (λ i. i) },
    m',
  )

pub destruct_objects : ℕ → (i : ℕ) → Cache → Slab → Machine → Outcome Machine
destruct_objects zero i cp slab m = ok m
destruct_objects (suc k) i cp slab m = do
  obj ← get_object_ptr cp slab i
  destruct_objects k (i + 1) cp slab (called (destructed obj cp.token) m)

pub kmem_destroy_slab : Cache → Slab → Machine → Outcome (Cache × Machine)
kmem_destroy_slab cp slab m = do
  m' ← (if cp.destructor == 0 then ok m else destruct_objects cp.objects 0 cp slab m)
  ok (
    record cp { total_objects = sub32 cp.total_objects cp.objects },
    if is_off_slab cp.cflags then kfree slab.at (kfree slab.ptr m') else kfree slab.at m',
  )

-- The loop of `kmem_cache_destroy`.
pub destroy_slabs : List Slab → Cache → Machine → Outcome (Cache × Machine)
destroy_slabs [] cp m = ok (cp, m)
destroy_slabs (slab ∷ slabs) cp m = do
  (cp', m') ← kmem_destroy_slab cp slab m
  destroy_slabs slabs cp' m'

pub kmem_cache_destroy : Cache → Machine → Outcome Machine
kmem_cache_destroy cp m = do (cp', m') ← destroy_slabs cp.slabs cp m; ok (kfree cp.at m')

-- The flag says whether there is a new slab, which is then the first.
pub kmem_cache_grow : Cache → ℕ → Machine → Outcome (Bool × Cache × Machine)
kmem_cache_grow cp kmflag m =
    let (fresh, m') = kmem_new_slab cp kmflag m in
    elim fresh [
      | none ↦ ok (false, cp, m')
      | some bare ↦ do
        (cp', slab, m'') ← kmem_init_slab cp bare kmflag m'
        ok (true, record cp' { slabs = slab ∷ cp'.slabs }, m'')
    ]

-- Take the first available object: the first slab has one.
pub has_available : ℕ → List Slab → Bool
has_available objects [] = false
has_available objects (slab ∷ slabs) = not (slab.position == objects)

pub take_object : Cache → List Slab → Outcome (ℕ × Cache)
take_object cp [] = fault
take_object cp (slab ∷ slabs) = do
  index ← load slab.ctl slab.position
  obj ← get_object_ptr cp slab index
  ok (
    obj,
    record cp {
      used_objects = add32 cp.used_objects 1;
      slabs = record slab { position = add32 slab.position 1 } ∷ slabs;
    },
  )

-- The search behind the first slab for one with a free object: that slab, and the others.
pub search_slab : ℕ → List Slab → Option (Slab × List Slab)
search_slab objects [] = none
search_slab objects (slab ∷ slabs) =
    let rest = search_slab objects slabs in
    if not (slab.position == objects)
    then some (slab, slabs)
    else elim rest [ none ↦ none | some (found, others) ↦ some (found, slab ∷ others) ]

pub move_to_front : Cache → List Slab → Outcome Cache
unfolding search_slab
move_to_front cp [] = fault
move_to_front cp (first ∷ slabs) = elim (search_slab cp.objects slabs) [
  | none ↦ halt
  | some (found, others) ↦ ok (record cp { slabs = found ∷ first ∷ others })
]

abbrev pub Allocated : Type 0
Allocated = Outcome (ℕ × Cache × Machine)

-- Grow, if need be after a call of the hook that reclaims memory, and allocate again.
abbrev pub grow_again : (Cache → Machine → Allocated) → Cache → ℕ → Machine → Allocated
grow_again again cp kmflag m = do
  (grown, cp1, m1) ← kmem_cache_grow cp kmflag m
  if grown then again cp1 m1 else if cp.reclaim == 0 then ok (0, cp1, m1) else do
    (regrown, cp2, m2) ← kmem_cache_grow cp1 kmflag (called (reclaimed cp.token) m1)
    if regrown then again cp2 m2 else ok (0, cp2, m2)

-- With `depth` calls of itself left; without one the result is a fault.
pub kmem_cache_alloc : (depth : ℕ) → Cache → ℕ → Machine → Allocated
kmem_cache_alloc zero cp kmflag m = fault
kmem_cache_alloc (suc depth) cp kmflag m =
    let again = λ (cp' : Cache) (m' : Machine). kmem_cache_alloc depth cp' kmflag m' in
    if has_available cp.objects cp.slabs
    then (do (obj, cp') ← take_object cp cp.slabs; ok (obj, cp', m))
    else if cp.total_objects == cp.used_objects
    then (if is_nogrow cp.cflags then ok (0, cp, m) else grow_again again cp kmflag m)
    else (do cp' ← move_to_front cp cp.slabs; again cp' m)

-- The slab after a change, in its place.
pub set_slab : Slab → List Slab → List Slab
set_slab new [] = []
set_slab new (slab ∷ slabs) =
    let rest = set_slab new slabs in if slab.at == new.at then new ∷ slabs else slab ∷ rest

abbrev pub zones_hold : Cache → ℕ → Machine → Bool
zones_hold cp obj m =
    m.words (left_redzone obj) == red_zone_data && m.words (right_redzone cp obj) == red_zone_data

abbrev pub put_back : Cache → Slab → ℕ → Outcome Cache
put_back cp slab obj = do
  index ← get_object_index cp slab obj
  ctl ← store slab.ctl (sub32 slab.position 1) index
  ok (record cp {
    used_objects = sub32 cp.used_objects 1;
    slabs = set_slab (record slab { position = sub32 slab.position 1; ctl = ctl }) cp.slabs;
  })

pub kmem_cache_free : Cache → ℕ → Machine → Outcome Cache
kmem_cache_free cp obj m = if obj == 0 then ok cp else elim (get_object_slab cp obj cp.slabs) [
  | none ↦ ok cp
  | some slab ↦ do
    assert (if is_red_zone cp.cflags then zones_hold cp obj m else true)
    put_back cp slab obj
]

pub kmem_cache_size : Cache → ℕ
kmem_cache_size cp = cp.size

pub kmem_cache_name : Cache → Buffer
kmem_cache_name cp = cp.name

-- The loop of `kmem_cache_shrink`: the slabs that stay.
pub shrink_slabs : List Slab → Cache → Machine → Outcome (List Slab × Cache × Machine)
shrink_slabs [] cp m = ok ([], cp, m)
shrink_slabs (slab ∷ slabs) cp m = elim (slab.position == 0) [
  | true ↦ do (cp', m') ← kmem_destroy_slab cp slab m; shrink_slabs slabs cp' m'
  | false ↦ do (kept, cp', m') ← shrink_slabs slabs cp m; ok (slab ∷ kept, cp', m')
]

-- The first result is the number that the function returns.
pub kmem_cache_shrink : Cache → Machine → Outcome (ℕ × Cache × Machine)
kmem_cache_shrink cp m = do
  (kept, cp', m') ← shrink_slabs cp.slabs cp m
  ok (0, record cp' { slabs = kept }, m')

-- The cache, or NULL.
pub kmem_cache_contains : Cache → ℕ → Machine → Outcome ℕ
kmem_cache_contains cp obj m =
    if obj == 0
    then halt
    else if is_ownership cp.cflags
    then ok (if m.words (owner_ptr cp obj) == cp.at then cp.at else 0)
    else elim (get_object_slab cp obj cp.slabs) [ none ↦ ok 0 | some slab ↦ ok cp.at ]
