-- ===== src/Mm/Vmem/Create.antt =====
-- Creation and deletion of an allocator of kernel/mm/vmem.c, and its spans.
use racoon.Base.{
  ℕ, ◌+◌, ◌/◌, ◌%◌, false, Option, none, some, ltb, leb, ◌==◌, if◌then◌else◌, List, [], ◌∷◌, add32,
  Outcome, ok, fault, ◌>>=◌, ◌>>◌, assert, tabulate,
}
use racoon.Text.{Buffer, kstrncpy}
use racoon.Mm.Vmem.{
  Tag, Span, Vmem, freed, Machine, called, kmalloc, highbit, add_freelist, if_cached,
}

-- `VMEM_NAME_LENGTH`
abbrev pub name_length : ℕ
name_length = 64

-- A span or a tag goes in front of the first one that does not begin before it.
pub insert_span : Span → List Span → List Span
insert_span new [] = new ∷ []
insert_span new (span ∷ spans) =
    let rest = insert_span new spans in
    if leb new.addr span.addr then new ∷ span ∷ spans else span ∷ rest

pub insert_tag : Tag → List Tag → List Tag
insert_tag new [] = new ∷ []
insert_tag new (bt ∷ tags) =
    let rest = insert_tag new tags in if leb new.addr bt.addr then new ∷ bt ∷ tags else bt ∷ rest

abbrev pub new_span : Vmem → (at addr size : ℕ) → Span
new_span v at addr size = record {
  at = at;
  addr = addr;
  size = size;
  slots = size / v.quantum;
  hash = tabulate (size / v.quantum) (λ i. 0);
}

-- `scratch` is what stood in the field that the function leaves as it is.
abbrev pub new_tag : (scratch at addr size : ℕ) → Tag
new_tag scratch at addr size = record {
  at = at;
  addr = addr;
  size = size;
  source_addr = scratch;
  allocated = false;
}

-- The three pieces of memory: the span, its hash and the tag; what was given is taken back.
pub take_memory : Machine → Option (ℕ × ℕ) × Machine
unfolding kmalloc
take_memory m =
    let (span, m1) = kmalloc m in
    let (hash, m2) = kmalloc m1 in
    let (bt, m3) = kmalloc m2 in
    if span == 0
    then (none, m1)
    else if hash == 0
    then (none, called (freed span) m2)
    else if bt == 0
    then (none, called (freed span) (called (freed hash) m3))
    else (some (span, bt), m3)

pub vmem_add : (scratch : ℕ) → Vmem → (addr size : ℕ) → Machine → Outcome (ℕ × Vmem × Machine)
unfolding take_memory insert_span insert_tag
vmem_add scratch v addr size m = do
  assert (ltb 0 size)
  whole ← (if v.quantum == 0 then fault else ok (size % v.quantum == 0))
  assert whole
  assert (ltb addr (add32 addr size))
  let (memory, m') = take_memory m
  elim memory [
    | none ↦ ok (0, v, m')
    | some (span, bt) ↦ do
      let v' = record v {
        spans = insert_span (new_span v span addr size) v.spans;
        tags = insert_tag (new_tag scratch bt addr size) v.tags;
      }
      v'' ← if_cached add_freelist v' (new_tag scratch bt addr size)
      ok (addr, v'', m')
  ]

abbrev pub freed_tags : List Tag → Machine → Machine
freed_tags [] m = m
freed_tags (bt ∷ tags) m = freed_tags tags (called (freed bt.at) m)

-- Of a span, the hash `hash_of span` and the structure.
abbrev pub freed_spans : (hash_of : Span → ℕ) → List Span → Machine → Machine
freed_spans hash_of [] m = m
freed_spans hash_of (span ∷ spans) m =
    freed_spans hash_of spans (called (freed span.at) (called (freed (hash_of span)) m))

-- `cache` is the address of the array of lists.
pub vmem_destroy : (hash_of : Span → ℕ) → (cache : ℕ) → Vmem → Machine → Machine
vmem_destroy hash_of cache v m =
    let m' = freed_spans hash_of v.spans (freed_tags v.tags m) in
    called (freed v.at) (if cache == 0 then m' else called (freed cache) m')

-- The new allocator without spans; `memory` is what stood in its name.
abbrev pub empty_vmem :
    (memory name : Buffer) (at quantum source qcache_max vmflag cache_bits : ℕ) → Vmem
empty_vmem memory name at quantum source qcache_max vmflag cache_bits = record {
  at = at;
  name = kstrncpy memory name name_length;
  quantum = quantum;
  cache_max = qcache_max;
  cache_bits = cache_bits;
  source = source;
  vmflag = vmflag;
  tags = [];
  spans = [];
  free_cache = tabulate cache_bits (λ i. []);
}

-- The first span, and the allocator, unless there is no memory for it.
pub first_span :
    (scratch : ℕ) (hash_of : Span → ℕ) (cache base size : ℕ)
    → Vmem
    → Machine
    → Outcome (Option Vmem × Machine)
unfolding vmem_add vmem_destroy
first_span scratch hash_of cache base size v m = do
  (added, v', m') ← vmem_add scratch v base size m
  if added == base then ok (some v', m') else ok (none, vmem_destroy hash_of cache v' m')

pub vmem_create :
    (scratch : ℕ) (hash_of : Span → ℕ) (memory name : Buffer)
    (base size quantum source qcache_max vmflag : ℕ)
    → Machine
    → Outcome (Option Vmem × Machine)
unfolding kmalloc first_span
vmem_create scratch hash_of memory name base size quantum source qcache_max vmflag m =
    let (at, m1) = kmalloc m in
    let (cache, m2) = kmalloc m1 in
    if at == 0 then ok (none, m1) else if quantum == 0 then fault else (do
      bit ← highbit (qcache_max / quantum)
      let v = empty_vmem memory name at quantum source qcache_max vmflag (bit + 1)
      (if cache == 0
          then ok (none, called (freed at) m2)
          else if size == 0
          then ok (some v, m2)
          else first_span scratch hash_of cache base size v m2))

-- `vmem_xalloc` and `vmem_xfree` stop at their first assertion.
pub vmem_xalloc : Vmem → Outcome (ℕ × Vmem)
vmem_xalloc v = do assert false; ok (0, v)

pub vmem_xfree : Vmem → Outcome Vmem
vmem_xfree v = do assert false; ok v
