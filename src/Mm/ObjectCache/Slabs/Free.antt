-- ===== src/Mm/ObjectCache/Slabs/Free.antt =====
-- `kmem_cache_free` behind `kmem_cache_alloc`.
use native.Mathlib.Nat.{mul-mod_left, mul-div_cancel}
use racoon.Base.{
  ℕ, zero, suc, ◌+◌, ◌*◌, ◌^◌, ◌<◌, ◌≡◌, ◌≢◌, refl, ap, ap₂, sym, ◌∙◌, arith, subst, true, false,
  ◌==◌, ◌&&◌, leb, ltb, if◌then◌else◌, List, [], ◌∷◌, some, ok, length, get_or, set, load-ok,
  lt→ltb, store-ok, add32, sub32,
}
use racoon.Mm.ObjectCache.{
  Slab, Cache, Machine, is_red_zone, object_address, get_object_ptr, get_object_slab,
  get_object_index,
}
use racoon.Mm.ObjectCache.Layout.{IsLaidOut, Sizes, Sizes-of, object_address_eq, zone_bytes-le}
use racoon.Mm.ObjectCache.Slabs.{
  has_available, kmem_cache_alloc, kmem_cache_free, take_object, set_slab, zones_hold, put_back,
}
use racoon.Mm.ObjectCache.Slabs.Alloc.{alloc_available, available-cons}
use racoon.Mm.ObjectCache.Slabs.Stacks.{
  IsValid, top_index, bound_of, IsStack, AreStacks, positions, positions-le, suc_mul,
}

set-get_or : (xs : List ℕ) (i : ℕ) → set xs i (get_or xs i 0) ≡ xs
set-get_or [] i = refl
set-get_or (x ∷ xs) zero = refl
set-get_or (x ∷ xs) (suc i) = ap (λ l. x ∷ l) (set-get_or xs i)

index_at :
    (cp : Cache) (slab : Slab) (obj i : ℕ)
    → 0 < cp.int_size
    → 0 < obj
    → sub32 (sub32 obj slab.ptr) slab.offset ≡ i * cp.int_size
    → get_object_index cp slab obj ≡ ok i
unfolding get_object_index
index_at cp slab obj i some_size present e =
    let no_size : (cp.int_size == 0) ≡ false = ground arith in
    let no_null : (obj == 0) ≡ false = ground arith in
    rw (no_size, no_null, e, mul-mod_left i cp.int_size, mul-div_cancel i some_size) refl

-- An object of a slab that is laid out in the address space.
module _ (cp : Cache) (slab : Slab) (i : ℕ) (sizes : Sizes cp slab i) (positive : 0 < cp.size) where
  address : object_address cp slab i ≡ slab.ptr + slab.offset + i * cp.int_size
  address = object_address_eq cp slab i sizes

  in_slab :
      (leb slab.ptr (object_address cp slab i)
        && ltb (object_address cp slab i) (add32 slab.ptr cp.int_slabobj_size))
      ≡ true
  in_slab = ground (
    arith,
    address,
    sizes.low,
    sizes.high,
    sizes.offset_low,
    sizes.offset_high,
    sizes.inside,
    sizes.space,
    zone_bytes-le cp.cflags,
  )

  get_object_slab-first :
      (slabs : List Slab) → get_object_slab cp (object_address cp slab i) (slab ∷ slabs) ≡ some slab
  unfolding get_object_slab
  get_object_slab-first slabs = rw in_slab refl

  distance : sub32 (sub32 (object_address cp slab i) slab.ptr) slab.offset ≡ i * cp.int_size
  distance = ground (
    arith,
    address,
    sizes.high,
    sizes.low,
    sizes.offset_high,
    sizes.inside,
    zone_bytes-le cp.cflags,
  )

  get_object_index-object :
      0 < slab.ptr → get_object_index cp slab (object_address cp slab i) ≡ ok i
  get_object_index-object present =
      index_at cp slab (object_address cp slab i) i (omega (arith, sizes.low))
        (omega (arith, address, present)) distance

set_slab-first :
    (new slab : Slab) (slabs : List Slab)
    → slab.at ≡ new.at
    → set_slab new (slab ∷ slabs) ≡ new ∷ slabs
unfolding set_slab
set_slab-first new slab slabs e = ground (arith, e)

-- The cache after an object has been taken from its first slab.
abbrev taken : Cache → Slab → List Slab → Cache
taken cp slab slabs = record cp {
  used_objects = add32 cp.used_objects 1;
  slabs = record slab { position = add32 slab.position 1 } ∷ slabs;
}

abbrev returned : Cache → Slab → List Slab → ℕ → Cache
returned cp slab slabs i = record cp {
  used_objects = sub32 cp.used_objects 1;
  slabs =
      record slab { position = sub32 slab.position 1; ctl = set slab.ctl (sub32 slab.position 1) i }
      ∷ slabs;
}

put_back-returned :
    (cp : Cache) (slab : Slab) (slabs : List Slab) (obj i : ℕ)
    → cp.slabs ≡ slab ∷ slabs
    → sub32 slab.position 1 < length slab.ctl
    → get_object_index cp slab obj ≡ ok i
    → put_back cp slab obj ≡ ok (returned cp slab slabs i)
put_back-returned cp slab slabs obj i same inside found =
    rw (found, store-ok slab.ctl (sub32 slab.position 1) i inside)
      (ap (λ (l : List Slab). ok (record cp { used_objects = sub32 cp.used_objects 1; slabs = l }))
        (ap
            (set_slab (record slab {
              position = sub32 slab.position 1;
              ctl = set slab.ctl (sub32 slab.position 1) i;
            }))
            same
          ∙ set_slab-first
              (record slab {
                position = sub32 slab.position 1;
                ctl = set slab.ctl (sub32 slab.position 1) i;
              })
              slab slabs refl))

word_back : (n : ℕ) → n + 1 < 2 ^ 32 → sub32 (add32 n 1) 1 ≡ n
word_back n h = omega (arith, h)

slab_back :
    (slab : Slab)
    → slab.position + 1 < 2 ^ 32
    → ◌≡◌ {A = Slab}
        (record slab {
          position = sub32 (add32 slab.position 1) 1;
          ctl = set slab.ctl (sub32 (add32 slab.position 1) 1) (get_or slab.ctl slab.position 0);
        })
        slab
slab_back slab low = rw (word_back slab.position low, set-get_or slab.ctl slab.position) refl

returned-taken :
    (cp : Cache) (slab : Slab) (slabs : List Slab)
    → cp.slabs ≡ slab ∷ slabs
    → cp.used_objects + 1 < 2 ^ 32
    → slab.position + 1 < 2 ^ 32
    → returned
        (taken cp slab slabs)
        (record slab { position = add32 slab.position 1 })
        slabs
        (get_or slab.ctl slab.position 0)
      ≡ cp
returned-taken cp slab slabs same used low =
    ap₂ (λ (u : ℕ) (l : List Slab). record cp { used_objects = u; slabs = l })
      (word_back cp.used_objects used)
      (ap (λ (s : Slab). s ∷ slabs) (slab_back slab low) ∙ sym same)

module _ (cp : Cache) (slab : Slab) (slabs : List Slab) (valid : IsValid cp)
    (same : cp.slabs ≡ slab ∷ slabs) (open_slab : slab.position ≢ cp.objects) where
  abbrev top_object : ℕ
  top_object = object_address cp slab (get_or slab.ctl slab.position 0)

  stack : IsStack cp.objects slab
  stack = (subst (AreStacks cp.objects) same valid.stacks).0

  few : suc (length slabs) * cp.objects < 2 ^ 32
  few = subst (λ (l : List Slab). length l * cp.objects < 2 ^ 32) same valid.few

  free : slab.position < cp.objects
  free = ground (arith, stack.1, open_slab)

  small : get_or slab.ctl slab.position 0 < cp.objects
  small = top_index cp.objects slab stack free (bound_of cp.objects (length slabs) few)

  take_object-taken : take_object cp (slab ∷ slabs) ≡ ok (top_object, taken cp slab slabs)
  unfolding take_object get_object_ptr
  take_object-taken =
      rw
        (
          load-ok slab.ctl slab.position 0 (omega (arith, stack.0, free)),
          lt→ltb (get_or slab.ctl slab.position 0) cp.objects small,
        )
        refl

  alloc-taken :
      (kmflag : ℕ) (m : Machine)
      → kmem_cache_alloc 1 cp kmflag m ≡ ok (top_object, taken cp slab slabs, m)
  alloc-taken kmflag m =
      alloc_available 0 cp (taken cp slab slabs) kmflag top_object m
        (ap (has_available cp.objects) same
          ∙ (available-cons cp.objects slab slabs ∙ ground (arith, open_slab)))
        (ap (take_object cp) same ∙ take_object-taken)

kmem_cache_free_steps :
    (cp r : Cache) (obj : ℕ) (m : Machine) (slab : Slab)
    → 0 < obj
    → get_object_slab cp obj cp.slabs ≡ some slab
    → (if is_red_zone cp.cflags then zones_hold cp obj m else true) ≡ true
    → put_back cp slab obj ≡ ok r
    → kmem_cache_free cp obj m ≡ ok r
unfolding kmem_cache_free
kmem_cache_free_steps cp r obj m slab present found zones back =
    let no_null : (obj == 0) ≡ false = ground arith in rw (no_null, found, zones) back

-- Freed at once, an object that came from the first slab leaves the cache as it was: the cache is
-- valid and its first slab, which has a free object, is laid out in the address space and not at
-- address 0; the size of the objects is not 0, and where the cache has red zones they are untouched.
pub kmem_cache_free-kmem_cache_alloc :
    (cp : Cache) (slab : Slab) (slabs : List Slab) (kmflag : ℕ) (m : Machine)
    → IsValid cp
    → cp.slabs ≡ slab ∷ slabs
    → slab.position ≢ cp.objects
    → IsLaidOut cp slab
    → 0 < cp.size
    → 0 < slab.ptr
    → (if is_red_zone cp.cflags
        then zones_hold cp (object_address cp slab (get_or slab.ctl slab.position 0)) m
        else true)
      ≡ true
    → (obj : ℕ) × (cp' : Cache) × (kmem_cache_alloc 1 cp kmflag m ≡ ok (obj, cp', m))
      × (kmem_cache_free cp' obj m ≡ ok cp)
kmem_cache_free-kmem_cache_alloc cp slab slabs kmflag m valid same open_slab laid positive present
      zones =
    (
      object_address cp slab i,
      taken cp slab slabs,
      alloc-taken cp slab slabs valid same open_slab kmflag m,
      freed,
    )
  where
    i : ℕ
    i = get_or slab.ctl slab.position 0

    inside : slab.position < cp.objects
    inside = free cp slab slabs valid same open_slab

    positions_fit : cp.used_objects + 1 < 2 ^ 32
    positions_fit = omega (
      arith,
      valid.used ∙ ap positions same,
      positions-le cp.objects slabs (subst (AreStacks cp.objects) same valid.stacks).1,
      few cp slab slabs valid same open_slab,
      suc_mul (length slabs) cp.objects,
      inside,
    )

    position_fits : slab.position + 1 < 2 ^ 32
    position_fits =
        omega (
          arith,
          inside,
          bound_of cp.objects (length slabs) (few cp slab slabs valid same open_slab),
        )

    cp' : Cache
    cp' = taken cp slab slabs

    slab' : Slab
    slab' = record slab { position = add32 slab.position 1 }

    laid' : IsLaidOut cp' slab'
    laid' = record {
      objects = laid.objects;
      int_size = laid.int_size;
      int_slabobj_size = laid.int_slabobj_size;
      offset = laid.offset;
      fits = laid.fits;
    }

    sizes : Sizes cp' slab' i
    sizes =
        Sizes-of cp' slab' i laid'
          (subst (λ n. i < n) laid.objects (small cp slab slabs valid same open_slab))

    length_ctl : length slab.ctl ≡ cp.objects
    length_ctl = (stack cp slab slabs valid same open_slab).0

    back : put_back cp' slab' (object_address cp' slab' i) ≡ ok (returned cp' slab' slabs i)
    back =
        put_back-returned cp' slab' slabs (object_address cp' slab' i) i refl
          (omega (arith, word_back slab.position position_fits, inside, length_ctl))
          (get_object_index-object cp' slab' i sizes positive present)

    freed : kmem_cache_free cp' (object_address cp' slab' i) m ≡ ok cp
    freed =
        kmem_cache_free_steps cp' cp (object_address cp' slab' i) m slab'
          (omega (arith, address cp' slab' i sizes positive, present))
          (get_object_slab-first cp' slab' i sizes positive slabs) zones
          (back
            ∙ ap (λ (c : Cache). ok c)
                (returned-taken cp slab slabs same positions_fit position_fits))
