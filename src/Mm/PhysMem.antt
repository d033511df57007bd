-- ===== src/Mm/PhysMem.antt =====
-- kernel/mm/physmem.c: the allocator of physical pages over a bitmap of 32-bit blocks.
-- The file's static variables are a record. `s_freePages` and `s_lastPage` are kept as 32-bit
-- patterns. Each function runs with `kernel_lock` held, so it is one step. A pointer is an address,
-- and 0 is NULL.
pub mod Alloc
pub mod Bitmap
pub mod Free
pub mod Scan
pub mod Set
pub mod Single
mod Tests
pub mod Init
pub mod Invariant
use racoon.Base.{
  ℕ, zero, suc, ◌+◌, ◌-◌, ◌*◌, ◌/◌, ◌%◌, ◌^◌, Bool, true, false, Option, none, some, ltb, ◌==◌,
  if◌then◌else◌, update, Outcome, ok, fault, ◌>>◌, assert, u32, add32, sub32, test_bit, set_bit,
  clear_bit,
}

abbrev pub page_size : ℕ
page_size = 4096

-- `BLOCK_BITS`
abbrev pub block_bits : ℕ
block_bits = 32

pub record PhysMem : Type 0 where
  pub memory_bitmap : ℕ → ℕ
  pub memory_pages : ℕ
  pub memory_offset : ℕ
  pub free_pages : ℕ
  pub last_page : ℕ

-- `ISSET(page)`
pub is_set : (ℕ → ℕ) → ℕ → Bool
is_set bitmap page = test_bit (bitmap (page / block_bits)) (page % block_bits)

-- `SET(page)` leaves this bitmap; its value is `is_set` of the old one, as for `UNSET(page)`.
pub set_page : (ℕ → ℕ) → ℕ → ℕ → ℕ
set_page bitmap page =
    update bitmap (page / block_bits) (set_bit (bitmap (page / block_bits)) (page % block_bits))

pub unset_page : (ℕ → ℕ) → ℕ → ℕ → ℕ
unset_page bitmap page =
    update bitmap (page / block_bits) (clear_bit (bitmap (page / block_bits)) (page % block_bits))

-- The inner loop of `memory_multiple_alloc` with `k` rounds left: the first `j` whose page is taken.
pub scan : (ℕ → ℕ) → ℕ → ℕ → ℕ → Option ℕ
scan bitmap block zero j = none
scan bitmap block (suc k) j =
    let rest = scan bitmap block k (j + 1) in if is_set bitmap (block + j) then some j else rest

-- One round of its outer loop: the block fits, or the index with which the next round starts.
pub data Probe : Type 0 where
  fits : ℕ → Probe
  next_index : ℕ → Probe

pub probe : PhysMem → ℕ → ℕ → Probe
probe s pages i =
    let block = add32 i s.last_page % s.memory_pages in
    if ltb s.memory_pages (add32 block pages)
    then next_index (add32 (add32 i (sub32 pages 2)) 1)
    else elim (scan s.memory_bitmap block pages 0) [
      | none ↦ fits block
      | some j ↦ next_index (add32 (add32 i j) 1)
    ]

pub data Search : Type 0 where
  found : ℕ → Search
  exhausted : Search
  out_of_fuel : Search

pub search_pages : ℕ → PhysMem → ℕ → ℕ → Search
search_pages zero s pages i = out_of_fuel
search_pages (suc fuel) s pages i = elim (ltb i s.memory_pages) [
  | false ↦ exhausted
  | true ↦ elim (probe s pages i) [
    | fits block ↦ found block
    | next_index i' ↦ search_pages fuel s pages i'
  ]
]

-- The loop that marks a run of pages: its body, and `k` rounds of it.
abbrev pub take_page : ℕ → PhysMem → PhysMem
take_page page s = record s {
  memory_bitmap = set_page s.memory_bitmap page;
  free_pages = sub32 s.free_pages 1;
}

pub take_pages : ℕ → ℕ → PhysMem → PhysMem
take_pages zero page s = s
take_pages (suc k) page s = take_pages k (page + 1) (take_page page s)

-- The address of a page, `TO_PTR`.
abbrev pub to_ptr : PhysMem → ℕ → ℕ
to_ptr s page = u32 (page * page_size + s.memory_offset)

pub grant : PhysMem → ℕ → Search → ℕ × PhysMem
grant s pages exhausted = (0, s)
grant s pages out_of_fuel = (0, s)
grant s pages (found block) =
    let s' = take_pages pages block s in
    (to_ptr s block, record s' { last_page = add32 block pages })

pub memory_multiple_alloc : PhysMem → ℕ → ℕ × PhysMem
unfolding grant
memory_multiple_alloc s pages = grant s pages (search_pages (s.memory_pages + 1) s pages 0)

pub memory_alloc : PhysMem → ℕ → Outcome (ℕ × PhysMem)
memory_alloc s pages = do
  assert (ltb 0 pages)
  ok (if ltb pages s.free_pages then memory_multiple_alloc s pages else (0, s))

-- The loop of `memory_free`: its body after the test, and `k` rounds of it.
abbrev pub release_page : ℕ → PhysMem → PhysMem
release_page page s = record s {
  memory_bitmap = unset_page s.memory_bitmap page;
  free_pages = add32 s.free_pages 1;
}

pub release_pages : ℕ → ℕ → PhysMem → Outcome PhysMem
release_pages zero page s = ok s
release_pages (suc k) page s = do
  assert (is_set s.memory_bitmap page)
  release_pages k (page + 1) (release_page page s)

pub memory_free : PhysMem → ℕ → ℕ → Outcome PhysMem
memory_free s pages position = do
  let pos = sub32 position s.memory_offset
  assert (pos % page_size == 0)
  release_pages pages (pos / page_size) s

-- One round of the loop of `memory_set`.
pub mark_page : Bool → ℕ → PhysMem → PhysMem
mark_page true page s = record s {
  memory_bitmap = set_page s.memory_bitmap page;
  free_pages = if is_set s.memory_bitmap page then s.free_pages else sub32 s.free_pages 1;
}
mark_page false page s = record s {
  memory_bitmap = unset_page s.memory_bitmap page;
  free_pages = if is_set s.memory_bitmap page then add32 s.free_pages 1 else s.free_pages;
}

-- The bits of the blocks that `init_physmem` fills: the bitmap has no others.
abbrev pub bitmap_bits : PhysMem → ℕ
bitmap_bits s = (s.memory_pages + block_bits - 1) / block_bits * block_bits

-- A page without a bit is an access behind the bitmap.
pub mark_pages : Bool → ℕ → ℕ → PhysMem → Outcome PhysMem
mark_pages used zero page s = ok s
mark_pages used (suc k) page s =
    let rest = mark_pages used k (page + 1) (mark_page used page s) in
    if ltb page (bitmap_bits s) then rest else fault

pub round_down : ℕ → ℕ
round_down p = if p % page_size == 0 then p else u32 (p / page_size * page_size)

pub round_up : ℕ → ℕ
round_up p = if p % page_size == 0 then p else u32 ((p / page_size + 1) * page_size)

-- `used` is `used == 1`.
pub memory_set : PhysMem → ℕ → ℕ → Bool → Outcome PhysMem
memory_set s pstart pend used =
    let first = if used then round_down pstart else round_up pstart in
    let last = if used then round_up pend else round_down pend in
    mark_pages used (sub32 last first / page_size) (sub32 first s.memory_offset / page_size) s

-- The two loops of `init_physmem`: whole blocks, then the bits of the last block.
pub fill_blocks : ℕ → ℕ → (ℕ → ℕ) → ℕ → ℕ
fill_blocks zero i bitmap = bitmap
fill_blocks (suc k) i bitmap = fill_blocks k (i + 1) (update bitmap i (2 ^ 32 - 1))

pub fill_pages : ℕ → ℕ → (ℕ → ℕ) → ℕ → ℕ
fill_pages zero page bitmap = bitmap
fill_pages (suc k) page bitmap = fill_pages k (page + 1) (set_page bitmap page)

-- `map` is the memory that the caller hands over for the bitmap.
pub init_physmem : PhysMem → ℕ → (ℕ → ℕ) → ℕ → Outcome PhysMem
init_physmem s offset map pages = do
  assert (s.free_pages == 0)
  assert (s.last_page == 0)
  let blocks = pages / block_bits
  ok (record s {
    memory_offset = offset;
    memory_pages = pages;
    memory_bitmap =
        fill_pages (pages % block_bits) (blocks * block_bits) (fill_blocks blocks 0 map);
  })
