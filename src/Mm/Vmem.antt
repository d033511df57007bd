-- ===== src/Mm/Vmem.antt =====
-- kernel/mm/vmem.c and vmem.h: an allocator of ranges. The linked lists of boundary tags and of spans
-- are lists, the first first; a tag is known by its address `at`, by which the hash of a span and the
-- lists of free tags refer to it. A pointer is a number, NULL is 0. What `kmalloc` and the hook `afunc`
-- return are lists of results, taken in turn; the calls of `kfree` and of the hook `ffunc` are listed.
pub mod Highbit
pub mod Search
pub mod Tags
pub mod Alloc
pub mod Create
use racoon.Base.{
  ℕ, zero, suc, ◌+◌, ◌-◌, ◌*◌, ◌/◌, ◌%◌, ◌^◌, Bool, true, false, not, Option, none, some, ltb, leb,
  ◌==◌, ◌&&◌, ◌||◌, if◌then◌else◌, List, [], ◌∷◌, ◌++◌, u32, add32, sub32, Outcome, ok, halt, fault,
  ◌>>=◌, ◌>>◌, assert, load, store, length,
}
use racoon.Text.{Buffer}

-- The tests of VMEM_BESTFIT, VMEM_INSTANT and VMEM_SEARCH.
abbrev pub is_bestfit : ℕ → Bool
is_bestfit flags = flags % 2 == 1

abbrev pub is_instant : ℕ → Bool
is_instant flags = flags / 2 % 2 == 1

abbrev pub is_search : ℕ → Bool
is_search flags = flags / 4 % 2 == 1

-- `vmem_bt_t`
pub record Tag : Type 0 where
  pub at : ℕ
  pub addr : ℕ
  pub size : ℕ
  pub source_addr : ℕ
  pub allocated : Bool

-- `vmem_span_t`; the hash holds pointers to tags.
pub record Span : Type 0 where
  pub at : ℕ
  pub addr : ℕ
  pub size : ℕ
  pub slots : ℕ
  pub hash : List ℕ

-- `vmem_t`; a list of free tags is the list of their addresses.
pub record Vmem : Type 0 where
  pub at : ℕ
  pub name : Buffer
  pub quantum : ℕ
  pub cache_max : ℕ
  pub cache_bits : ℕ
  pub source : ℕ
  pub vmflag : ℕ
  pub tags : List Tag
  pub spans : List Span
  pub free_cache : List (List ℕ)

pub data Call : Type 0 where
  freed : (ptr : ℕ) → Call
  source_freed : (addr size : ℕ) → Call

-- Without a result left, a call returns NULL.
pub record Machine : Type 0 where
  pub supply : List ℕ
  pub imports : List ℕ
  pub calls : List Call

abbrev pub called : Call → Machine → Machine
called call m = record m { calls = m.calls ++ (call ∷ []) }

pub first_result : List ℕ → ℕ × List ℕ
first_result [] = (0, [])
first_result (p ∷ results) = (p, results)

pub kmalloc : Machine → ℕ × Machine
unfolding first_result
kmalloc m = let (p, supply) = first_result m.supply in (p, record m { supply = supply })

-- A call of `vmem->afunc`.
pub import_range : Machine → ℕ × Machine
unfolding first_result
import_range m = let (p, imports) = first_result m.imports in (p, record m { imports = imports })

-- The loop of `vmem_getspan`.
pub vmem_getspan : List Span → ℕ → Option Span
vmem_getspan [] res = none
vmem_getspan (span ∷ spans) res =
    let rest = vmem_getspan spans res in
    if leb span.addr res && ltb res (add32 span.addr span.size) then some span else rest

-- The position of the highest bit of a word that is not 0, in `k` rounds; the instruction `bsrl`.
pub bit_scan : ℕ → ℕ → ℕ
bit_scan zero value = 0
bit_scan (suc k) value =
    let rest = suc (bit_scan k (value / 2)) in if value / 2 == 0 then 0 else rest

-- For 0 the register keeps -1, and the assertion fails.
pub highbit : ℕ → Outcome ℕ
highbit value = if value == 0 then halt else ok (bit_scan 32 value)

-- `highbit( size / vmem->quantum )`
pub size_bit : Vmem → ℕ → Outcome ℕ
size_bit v size = if v.quantum == 0 then fault else highbit (size / v.quantum)

-- `none` is the result -1.
pub cache_num : Vmem → ℕ → Outcome (Option ℕ)
cache_num v size = do pos ← size_bit v size; ok (if leb v.cache_bits pos then none else some pos)

abbrev pub has : ℕ → List ℕ → Bool
has p [] = false
has p (q ∷ list) = (q == p) || has p list

-- `bt->fl_next != NULL || bt->fl_prev != NULL`: the tag has a neighbour in a list.
pub is_linked : ℕ → List (List ℕ) → Bool
is_linked p [] = false
is_linked p (list ∷ lists) = (has p list && ltb 1 (length list)) || is_linked p lists

pub add_freelist : Vmem → Tag → Outcome Vmem
add_freelist v bt = do
  pos ← size_bit v bt.size
  assert (not (is_linked bt.at v.free_cache))
  list ← load v.free_cache pos
  cache ← store v.free_cache pos (bt.at ∷ list)
  ok (record v { free_cache = cache })

pub unlink : ℕ → List ℕ → List ℕ
unlink p [] = []
unlink p (q ∷ list) = let rest = unlink p list in if q == p then list else q ∷ rest

pub rem_freelist : Vmem → Tag → Outcome Vmem
rem_freelist v bt = do
  pos ← cache_num v bt.size
  elim pos [
    | none ↦ halt
    | some i ↦ do
      list ← load v.free_cache i
      cache ← store v.free_cache i (unlink bt.at list)
      ok (record v { free_cache = cache })
  ]

-- `if ( cache_num( vmem, bt->size ) >= 0 )` and one of the two.
abbrev pub if_cached : (Vmem → Tag → Outcome Vmem) → Vmem → Tag → Outcome Vmem
if_cached op v bt = do pos ← cache_num v bt.size; elim pos [ none ↦ ok v | some i ↦ op v bt ]

-- The object at an address, its neighbours in the list, and the list after a change.
pub find_tag : ℕ → List Tag → Option Tag
find_tag p [] = none
find_tag p (bt ∷ tags) = let rest = find_tag p tags in if bt.at == p then some bt else rest

pub next_tag : ℕ → List Tag → Option Tag
next_tag p [] = none
next_tag p (bt ∷ []) = none
next_tag p (bt ∷ next ∷ tags) =
    let rest = next_tag p (next ∷ tags) in if bt.at == p then some next else rest

pub prev_tag : ℕ → List Tag → Option Tag
prev_tag p [] = none
prev_tag p (prev ∷ []) = none
prev_tag p (prev ∷ bt ∷ tags) =
    let rest = prev_tag p (bt ∷ tags) in if bt.at == p then some prev else rest

pub set_tag : Tag → List Tag → List Tag
set_tag new [] = []
set_tag new (bt ∷ tags) =
    let rest = set_tag new tags in if bt.at == new.at then new ∷ tags else bt ∷ rest

pub remove_tag : ℕ → List Tag → List Tag
remove_tag p [] = []
remove_tag p (bt ∷ tags) = let rest = remove_tag p tags in if bt.at == p then tags else bt ∷ rest

pub insert_behind : ℕ → Tag → List Tag → List Tag
insert_behind p new [] = []
insert_behind p new (bt ∷ tags) =
    let rest = insert_behind p new tags in if bt.at == p then bt ∷ new ∷ tags else bt ∷ rest

pub set_span : Span → List Span → List Span
set_span new [] = []
set_span new (span ∷ spans) =
    let rest = set_span new spans in if span.at == new.at then new ∷ spans else span ∷ rest
