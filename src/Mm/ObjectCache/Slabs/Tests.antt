-- ===== src/Mm/ObjectCache/Slabs/Tests.antt =====
-- A small cache, and a slab of the size that the kernel uses.
use racoon.Base.{
  ℕ, zero, suc, ◌+◌, ◌*◌, ◌≤◌, ◌≡◌, refl, arith, List, [], ◌∷◌, ok, length, load, store, ap,
}
use racoon.Mm.ObjectCache.{
  Slab, Cache, Machine, object_address, get_object_ptr, get_object_slab, get_object_index,
}
use racoon.Mm.ObjectCache.Layout.{IsLaidOut, objects_bounds}
use racoon.Mm.ObjectCache.Slabs.{
  kmem_cache_alloc, kmem_cache_free, has_available, take_object, set_slab, move_to_front,
  search_slab,
}
use racoon.Mm.ObjectCache.Slabs.Stacks.{IsValid, Served}
use racoon.Mm.ObjectCache.Slabs.Alloc.{kmem_cache_alloc-Served}
use racoon.Mm.ObjectCache.Slabs.Free.{kmem_cache_free-kmem_cache_alloc}

abbrev machine : List ℕ → Machine
machine supply = record { words = λ p. 0; supply = supply; calls = [] }

-- Two slabs of two objects of 12 bytes; the first is full.
abbrev full_slab : Slab
full_slab = record { at = 100; position = 2; offset = 0; ptr = 128; ctl = 1 ∷ 0 ∷ [] }

abbrev half_slab : Slab
half_slab = record { at = 200; position = 1; offset = 0; ptr = 228; ctl = 0 ∷ 1 ∷ [] }

abbrev small : Cache
small = record {
  at = 64;
  name = λ j. 0;
  size = 12;
  align = 0;
  objects = 2;
  int_size = 12;
  int_slabobj_size = 24;
  constructor = 0;
  destructor = 0;
  reclaim = 0;
  token = 0;
  vmem = 0;
  cflags = 0;
  total_objects = 4;
  used_objects = 3;
  slabs = full_slab ∷ half_slab ∷ [];
}

abbrev small_moved : Cache
small_moved = record small {
  used_objects = 4;
  slabs = record half_slab { position = 2 } ∷ full_slab ∷ [];
}

small_alloc : kmem_cache_alloc 2 small 0 (machine []) ≡ ok (240, small_moved, machine [])
unfolding kmem_cache_alloc has_available move_to_front search_slab take_object get_object_ptr load
small_alloc = refl

-- Freed, the object lies on the stack again.
small_free :
    kmem_cache_free small_moved 240 (machine [])
    ≡ ok (record small { slabs = half_slab ∷ full_slab ∷ [] })
unfolding kmem_cache_free get_object_slab get_object_index store set_slab
small_free = refl

small-IsValid : IsValid small
small-IsValid = record {
  some_objects = omega arith;
  total = refl;
  used = refl;
  stacks = ((refl, omega arith, tt), ((refl, omega arith, (omega arith, refl, tt)), tt));
  few = omega arith;
}

kmem_cache_alloc-Served_example :
    (obj : ℕ) × (cp' : Cache) × (kmem_cache_alloc 2 small 0 (machine [])
      ≡ ok (obj, cp', machine []))
    × Served small small.slabs obj cp'
kmem_cache_alloc-Served_example =
    kmem_cache_alloc-Served small 0 (machine []) small-IsValid (omega arith)

-- A slab as the kernel lays it out, with the objects of 16 bytes aligned to 8 bytes, in which the last
-- object is free.
abbrev zeros : ℕ → List ℕ
zeros zero = []
zeros (suc n) = 0 ∷ zeros n

length-zeros : (n : ℕ) → length (zeros n) ≡ n
length-zeros zero = refl
length-zeros (suc n) = ap suc (length-zeros n)

abbrev last_slab : Slab
last_slab = record { at = 4096; position = 1023; offset = 4; ptr = 8212; ctl = zeros 1024 }

abbrev aligned_cache : Cache
aligned_cache = record small {
  size = 16;
  align = 8;
  objects = 1024;
  int_size = 16;
  int_slabobj_size = 16392;
  total_objects = 1024;
  used_objects = 1023;
  slabs = last_slab ∷ [];
}

aligned_cache-IsLaidOut : IsLaidOut aligned_cache last_slab
aligned_cache-IsLaidOut = record {
  objects = refl;
  int_size = refl;
  int_slabobj_size = refl;
  offset = refl;
  fits = omega arith;
}

aligned_cache-IsValid : IsValid aligned_cache
aligned_cache-IsValid = record {
  some_objects = omega arith;
  total = refl;
  used = refl;
  stacks = ((length-zeros 1024, omega arith, (omega arith, refl, tt)), tt);
  few = omega arith;
}

objects_bounds_example :
    (8212 + 0 + 0 ≤ object_address aligned_cache last_slab 0)
    × (object_address aligned_cache last_slab 0 + 16 + 2 * 0 + 0
        ≤ object_address aligned_cache last_slab 1023)
    × (object_address aligned_cache last_slab 1023 + 16 + 0 ≤ 8212 + 16392)
objects_bounds_example =
    objects_bounds aligned_cache last_slab 0 1023 aligned_cache-IsLaidOut (omega arith)
      (omega arith)

kmem_cache_free_example :
    (obj : ℕ) × (cp' : Cache) × (kmem_cache_alloc 1 aligned_cache 0 (machine [])
      ≡ ok (obj, cp', machine []))
    × (kmem_cache_free cp' obj (machine []) ≡ ok aligned_cache)
kmem_cache_free_example =
    kmem_cache_free-kmem_cache_alloc aligned_cache last_slab [] 0 (machine []) aligned_cache-IsValid
      refl (omega arith) aligned_cache-IsLaidOut (omega arith) (omega arith) refl
