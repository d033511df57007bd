-- ===== src/Mm/ObjectCache.antt =====
-- kernel/mm/kmem_cache.c and kmem_cache.h: caches of objects of one size. The linked list of slabs is
-- a list, the first slab first; the stack of free objects that lies behind a slab header is the list
-- `ctl`. A pointer is a number, NULL is 0. What `kmalloc` returns is a list of results, taken in turn;
-- the calls of `kmalloc`, `kfree` and of the hooks of a cache are listed in their order. A hook is a
-- function of the client of a cache: what it changes is not part of this state.
pub mod Slabs
pub mod Layout
use racoon.Base.{
  ℕ, zero, suc, ◌+◌, ◌-◌, ◌*◌, ◌/◌, ◌%◌, ◌^◌, Bool, true, false, not, Option, none, some, ltb, leb,
  ◌==◌, ◌&&◌, ◌||◌, if◌then◌else◌, List, [], ◌∷◌, ◌++◌, u32, add32, sub32, Outcome, ok, halt, fault,
  ◌>>=◌, ◌>>◌, assert,
}
use racoon.Text.{Buffer, kstrncpy}

-- `KMEM_NAME_LENGTH`, `KMEM_OBJECTS` and `RED_ZONE_DATA`.
abbrev pub name_length : ℕ
name_length = 64

abbrev pub kmem_objects : ℕ
kmem_objects = 1024

abbrev pub red_zone_data : ℕ
red_zone_data = 3735928839

-- The tests of KV_NOGROW, KV_RED_ZONE, KV_OFF_SLAB and KV_OWNERSHIP.
abbrev pub is_nogrow : ℕ → Bool
is_nogrow flags = flags / 2 % 2 == 1

abbrev pub is_red_zone : ℕ → Bool
is_red_zone flags = flags / 4 % 2 == 1

abbrev pub is_off_slab : ℕ → Bool
is_off_slab flags = flags / 8 % 2 == 1

abbrev pub is_ownership : ℕ → Bool
is_ownership flags = flags / 32 % 2 == 1

-- `kmem_slab_t` at the address `at`, with the array of free objects behind it.
pub record Slab : Type 0 where
  pub at : ℕ
  pub position : ℕ
  pub offset : ℕ
  pub ptr : ℕ
  pub ctl : List ℕ

-- `kmem_cache_t` at the address `at`; the hooks are function pointers.
pub record Cache : Type 0 where
  pub at : ℕ
  pub name : Buffer
  pub size : ℕ
  pub align : ℕ
  pub objects : ℕ
  pub int_size : ℕ
  pub int_slabobj_size : ℕ
  pub constructor : ℕ
  pub destructor : ℕ
  pub reclaim : ℕ
  pub token : ℕ
  pub vmem : ℕ
  pub cflags : ℕ
  pub total_objects : ℕ
  pub used_objects : ℕ
  pub slabs : List Slab

pub data Call : Type 0 where
  allocated : (size ptr : ℕ) → Call
  freed : (ptr : ℕ) → Call
  constructed : (obj token flags : ℕ) → Call
  destructed : (obj token : ℕ) → Call
  reclaimed : (token : ℕ) → Call

-- The words of the memory, the results of the next calls of `kmalloc`, and the calls so far. Without
-- a result left, `kmalloc` returns NULL.
pub record Machine : Type 0 where
  pub words : ℕ → ℕ
  pub supply : List ℕ
  pub calls : List Call

abbrev pub called : Call → Machine → Machine
called call m = record m { calls = m.calls ++ (call ∷ []) }

pub first_result : List ℕ → ℕ × List ℕ
first_result [] = (0, [])
first_result (p ∷ supply) = (p, supply)

pub kmalloc : ℕ → Machine → ℕ × Machine
unfolding first_result
kmalloc size m =
    let (p, supply) = first_result m.supply in
    (p, called (allocated size p) (record m { supply = supply }))

abbrev pub kfree : ℕ → Machine → Machine
kfree p m = called (freed p) m

-- `get_object_ptr` without its assertion, and with it.
abbrev pub object_address : Cache → Slab → ℕ → ℕ
object_address cp slab index = u32 (slab.ptr + slab.offset + index * cp.int_size)

pub get_object_ptr : Cache → Slab → ℕ → Outcome ℕ
get_object_ptr cp slab index = do assert (ltb index cp.objects); ok (object_address cp slab index)

-- A size of 0 divides by zero.
pub get_object_index : Cache → Slab → ℕ → Outcome ℕ
get_object_index cp slab obj =
    let distance = sub32 (sub32 obj slab.ptr) slab.offset in
    if cp.int_size == 0 || obj == 0
    then (if obj == 0 then halt else fault)
    else do assert (distance % cp.int_size == 0); ok (distance / cp.int_size)

-- The loop of `get_object_slab`.
pub get_object_slab : Cache → ℕ → List Slab → Option Slab
get_object_slab cp obj [] = none
get_object_slab cp obj (slab ∷ slabs) =
    let rest = get_object_slab cp obj slabs in
    if leb slab.ptr obj && ltb obj (add32 slab.ptr cp.int_slabobj_size) then some slab else rest

-- `get_object_redzone` on the left and on the right, and `get_object_owner_ptr`.
abbrev pub left_redzone : ℕ → ℕ
left_redzone obj = sub32 obj 4

abbrev pub right_redzone : Cache → ℕ → ℕ
right_redzone cp obj = add32 obj cp.size

abbrev pub owner_ptr : Cache → ℕ → ℕ
owner_ptr cp obj = sub32 (if is_red_zone cp.cflags then left_redzone obj else obj) 4

-- `kmem_cache_create`: the sizes that it computes, in the order of its statements.
abbrev pub padded : (align size : ℕ) → ℕ
padded align size =
    if ltb 1 align && not (size % align == 0) then add32 size (align - size % align) else size

abbrev pub internal_size : (size align cflags : ℕ) → ℕ
internal_size size align cflags =
    let zoned = if is_red_zone cflags then add32 size 8 else size in
    padded align (if is_ownership cflags then add32 zoned 4 else zoned)

abbrev pub slab_space : (int_size align cflags : ℕ) → ℕ
slab_space int_size align cflags =
    let space = u32 (int_size * kmem_objects + align) in
    if is_red_zone cflags then add32 space 4 else space

-- `memory` is what stood in the new object; 120 is the size of the structure.
pub kmem_cache_create :
    (memory : Buffer) (name : Option Buffer)
    (size align constructor destructor reclaim token vmem cflags : ℕ) (m : Machine)
    → Option Cache × Machine
unfolding kmalloc
kmem_cache_create memory name size align constructor destructor reclaim token vmem cflags m =
    let (p, m') = kmalloc 120 m in
    if p == 0 then (none, m') else (
      some (record {
        at = p;
        name = elim name [
          | some text ↦ kstrncpy memory text name_length
          | none ↦ λ j. if j == 0 then 0 else memory j
        ];
        size = size;
        align = align;
        objects = kmem_objects;
        int_size = internal_size size align cflags;
        int_slabobj_size = slab_space (internal_size size align cflags) align cflags;
        constructor = constructor;
        destructor = destructor;
        reclaim = reclaim;
        token = token;
        vmem = vmem;
        cflags = cflags;
        total_objects = 0;
        used_objects = 0;
        slabs = [];
      }),
      m',
    )
