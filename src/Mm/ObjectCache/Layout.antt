-- ===== src/Mm/ObjectCache/Layout.antt =====
-- Where the objects of a slab lie: `kmem_cache_create`, `kmem_new_slab` and `get_object_ptr`.
use native.Mathlib.Nat.{add-mod, zero-mod, mod-eq_of_lt, mod-lt}
use racoon.Base.{ℕ, zero, suc, ◌+◌, ◌-◌, ◌*◌, ◌%◌, ◌^◌, ◌≤◌, ◌<◌, ◌≡◌, ◌∙◌, arith, if◌then◌else◌}
use racoon.Mm.ObjectCache.{
  Slab, Cache, kmem_objects, is_red_zone, is_ownership, padded, internal_size, slab_space,
  object_address,
}
use racoon.Mm.ObjectCache.Slabs.{aligned, first_offset}

-- The bytes of the red zone on one side, and of the owner.
abbrev pub zone_bytes : ℕ → ℕ
zone_bytes cflags = if is_red_zone cflags then 4 else 0

abbrev pub owner_bytes : ℕ → ℕ
owner_bytes cflags = if is_ownership cflags then 4 else 0

-- A cache with the sizes that `kmem_cache_create` gives, and a slab at the offset of `kmem_new_slab`,
-- which end in the address space.
pub record IsLaidOut (cp : Cache) (slab : Slab) : Type 0 where
  pub objects : cp.objects ≡ kmem_objects
  pub int_size : cp.int_size ≡ internal_size cp.size cp.align cp.cflags
  pub int_slabobj_size : cp.int_slabobj_size ≡ slab_space cp.int_size cp.align cp.cflags
  pub offset : slab.offset ≡ first_offset cp slab.ptr
  pub fits : slab.ptr + (cp.size + cp.align + 12) * 1024 + cp.align + 4 < 2 ^ 32

-- Filling up to the next multiple.
mod_filled : (a s : ℕ) → 0 < a → (s + (a - s % a)) % a ≡ 0
mod_filled a s h = grind arith

mod_add : (a b m : ℕ) → 0 < m → a % m ≡ 0 → b % m ≡ 0 → (a + b) % m ≡ 0
mod_add a b m pos ha hb = add-mod a b m ∙ rw (ha, hb) (zero-mod m)

mod_mul : (i n m : ℕ) → 0 < m → n % m ≡ 0 → (i * n) % m ≡ 0
mod_mul zero n m pos h = grind arith
mod_mul (suc i) n m pos h =
    let e : suc i * n ≡ i * n + n = grind arith in
    rw e (mod_add (i * n) n m pos (mod_mul i n m pos h) h)

padded_bounds :
    (align size : ℕ)
    → size + align < 2 ^ 32
    → (size ≤ padded align size) × (padded align size ≤ size + align)
padded_bounds align size h = ground arith

-- A filled size is not cut, so its multiple stays.
word_mod_filled : (a s t : ℕ) → t + s % a ≡ s + a → 0 < a → s + a < 2 ^ 32 → (t % 2 ^ 32) % a ≡ 0
word_mod_filled a s t e pos h =
    let same : t ≡ s + (a - s % a) = omega (arith, mod-lt s pos) in
    let word : t % 2 ^ 32 ≡ t = mod-eq_of_lt (omega arith) in rw (word, same) (mod_filled a s pos)

padded_mod : (align size : ℕ) → size + align < 2 ^ 32 → 1 < align → padded align size % align ≡ 0
padded_mod align size h big =
    ground
      (arith, word_mod_filled align size (size + (align - size % align)), mod-lt size {m = align})

aligned_bounds :
    (align ptr offset : ℕ)
    → ptr + offset + align < 2 ^ 32
    → (offset ≤ aligned align ptr offset) × (aligned align ptr offset ≤ offset + (align - 1))
aligned_bounds align ptr offset h = ground arith

aligned_mod :
    (align ptr offset : ℕ)
    → ptr + offset + align < 2 ^ 32
    → 1 < align
    → (ptr + aligned align ptr offset) % align ≡ 0
aligned_mod align ptr offset h big = ground (
  arith,
  word_mod_filled align (ptr + offset) (ptr + (offset + (align - (ptr + offset) % align))),
  mod-lt (ptr + offset) {m = align},
)

mul_bound : (i n : ℕ) → i < 1024 → i * n + n ≤ 1024 * n
mul_bound i n h = grind arith

-- The bytes in front of the first object.
first_offset_bounds :
    (cp : Cache) (ptr : ℕ)
    → ptr + cp.align + 8 < 2 ^ 32
    → (zone_bytes cp.cflags + owner_bytes cp.cflags ≤ first_offset cp ptr)
      × (first_offset cp ptr ≤ zone_bytes cp.cflags + owner_bytes cp.cflags + (cp.align - 1))
first_offset_bounds cp ptr h =
    ground (arith, aligned_bounds cp.align ptr (zone_bytes cp.cflags + owner_bytes cp.cflags))

internal_size_bounds :
    (size align cflags : ℕ)
    → size + align + 12 < 2 ^ 32
    → (size + 2 * zone_bytes cflags + owner_bytes cflags ≤ internal_size size align cflags)
      × (internal_size size align cflags ≤ size + align + 12)
internal_size_bounds size align cflags h =
    ground (arith, padded_bounds align (size + 2 * zone_bytes cflags + owner_bytes cflags))

slab_space_eq :
    (int_size align cflags : ℕ)
    → int_size * 1024 + align + 4 < 2 ^ 32
    → slab_space int_size align cflags ≡ int_size * 1024 + align + zone_bytes cflags
slab_space_eq int_size align cflags h = ground arith

-- The sizes of a slab and of its object `i`, as numbers without wrap-around.
pub record Sizes (cp : Cache) (slab : Slab) (i : ℕ) : Type 0 where
  pub low : cp.size + 2 * zone_bytes cp.cflags + owner_bytes cp.cflags ≤ cp.int_size
  pub high : 1024 * cp.int_size + cp.align + 4 + slab.ptr < 2 ^ 32
  pub offset_low : zone_bytes cp.cflags + owner_bytes cp.cflags ≤ slab.offset
  pub offset_high : slab.offset ≤ zone_bytes cp.cflags + owner_bytes cp.cflags + (cp.align - 1)
  pub inside : i * cp.int_size + cp.int_size ≤ 1024 * cp.int_size
  pub space : cp.int_slabobj_size ≡ 1024 * cp.int_size + cp.align + zone_bytes cp.cflags

pub zone_bytes-le : (cflags : ℕ) → (zone_bytes cflags ≤ 4) × (owner_bytes cflags ≤ 4)
zone_bytes-le cflags = ground arith

pub Sizes-of :
    (cp : Cache) (slab : Slab) (i : ℕ) → IsLaidOut cp slab → i < kmem_objects → Sizes cp slab i
Sizes-of cp slab i laid h =
    let small : cp.size + cp.align + 12 < 2 ^ 32 = omega (arith, laid.fits) in
    let (int_low, int_high) = internal_size_bounds cp.size cp.align cp.cflags small in
    let (off_low, off_high) = first_offset_bounds cp slab.ptr (omega (arith, laid.fits)) in
    let size_high : cp.int_size ≤ cp.size + cp.align + 12 = rw laid.int_size int_high in
    record {
      low = rw laid.int_size int_low;
      high = omega (arith, laid.fits, size_high);
      offset_low = rw laid.offset off_low;
      offset_high = rw laid.offset off_high;
      inside = mul_bound i cp.int_size h;
      space =
          laid.int_slabobj_size
          ∙ (slab_space_eq cp.int_size cp.align cp.cflags (omega (arith, laid.fits, size_high))
              ∙ omega arith);
    }

-- An object does not wrap around the address space.
pub object_address_eq :
    (cp : Cache) (slab : Slab) (i : ℕ)
    → Sizes cp slab i
    → object_address cp slab i ≡ slab.ptr + slab.offset + i * cp.int_size
object_address_eq cp slab i sizes =
    mod-eq_of_lt (
      omega
        (arith, sizes.high, sizes.low, sizes.offset_high, sizes.inside, zone_bytes-le cp.cflags))

first_offset_mod :
    (cp : Cache) (ptr : ℕ)
    → ptr + cp.align + 8 < 2 ^ 32
    → 1 < cp.align
    → (ptr + first_offset cp ptr) % cp.align ≡ 0
first_offset_mod cp ptr h big =
    ground (arith, aligned_mod cp.align ptr (zone_bytes cp.cflags + owner_bytes cp.cflags))

internal_size_mod :
    (size align cflags : ℕ)
    → size + align + 12 < 2 ^ 32
    → 1 < align
    → internal_size size align cflags % align ≡ 0
internal_size_mod size align cflags h big =
    ground (arith, padded_mod align (size + 2 * zone_bytes cflags + owner_bytes cflags))

mul_before : (i j n : ℕ) → i < j → i * n + n ≤ j * n
mul_before i j n h = grind arith

-- In a slab laid out by `kmem_cache_create` and `kmem_new_slab` that ends in the address space, for
-- objects i < j below 1024: the owner and the red zone in front of object i are in the slab's space,
-- object i and the red zone behind it end before the owner and the red zone in front of object j
-- begin, and object j ends with the red zone behind it in the slab's space.
pub objects_bounds :
    (cp : Cache) (slab : Slab) (i j : ℕ)
    → IsLaidOut cp slab
    → i < j
    → j < kmem_objects
    → let zone = zone_bytes cp.cflags in
      let owner = owner_bytes cp.cflags in
      let object = object_address cp slab in
      (slab.ptr + zone + owner ≤ object i)
      × (object i + cp.size + 2 * zone + owner ≤ object j)
      × (object j + cp.size + zone ≤ slab.ptr + cp.int_slabobj_size)
objects_bounds cp slab i j laid before inside =
    let si = Sizes-of cp slab i laid (omega arith) in
    let sj = Sizes-of cp slab j laid inside in
    let ei = object_address_eq cp slab i si in
    let ej = object_address_eq cp slab j sj in
    let step = mul_before i j cp.int_size before in
    (
      omega (arith, ei, si.offset_low),
      omega (arith, ei, ej, step, si.low),
      omega (arith, ej, sj.offset_high, sj.inside, sj.space, sj.low),
    )

-- Each object of a slab that is laid out so is aligned.
pub object_aligned :
    (cp : Cache) (slab : Slab) (i : ℕ)
    → IsLaidOut cp slab
    → i < kmem_objects
    → 1 < cp.align
    → object_address cp slab i % cp.align ≡ 0
object_aligned cp slab i laid inside big =
    let sizes = Sizes-of cp slab i laid inside in
    rw (object_address_eq cp slab i sizes) (
      mod_add (slab.ptr + slab.offset) (i * cp.int_size) cp.align (omega arith)
        (rw laid.offset (first_offset_mod cp slab.ptr (omega (arith, laid.fits)) big))
        (mod_mul i cp.int_size cp.align (omega arith) (
          rw laid.int_size
            (internal_size_mod cp.size cp.align cp.cflags (omega (arith, laid.fits)) big))))
