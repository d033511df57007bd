-- ===== src/Mm/Vmem/Alloc.antt =====
-- The operations of kernel/mm/vmem.c.
pub mod Cut
pub mod Safety
mod Tests
use racoon.Base.{
  ℕ, zero, suc, ◌+◌, ◌-◌, ◌*◌, ◌/◌, ◌%◌, ◌^◌, Bool, true, false, not, Option, none, some, ltb, leb,
  ◌==◌, ◌&&◌, ◌||◌, if◌then◌else◌, List, [], ◌∷◌, ◌++◌, add32, sub32, Outcome, ok, halt, fault,
  ◌>>=◌, ◌>>◌, assert, access, load, store,
}
use racoon.Text.{Buffer, kstrncpy}
use racoon.Mm.Vmem.{
  Tag, Span, Vmem, Call, freed, source_freed, Machine, called, kmalloc, import_range, vmem_getspan,
  highbit, add_freelist, rem_freelist, if_cached, find_tag, next_tag, prev_tag, set_tag, remove_tag,
  insert_behind, set_span,
}
use racoon.Mm.Vmem.Search.{search_tag}

abbrev pub with_tags : Vmem → List Tag → Vmem
with_tags v tags = record v { tags = tags }

-- The size of a request in whole quanta.
abbrev pub rounded : (quantum rsize : ℕ) → ℕ
rounded quantum rsize =
    if rsize % quantum == 0 then rsize else add32 rsize (quantum - rsize % quantum)

-- The tag that stays, and the new one at the address `p`.
abbrev pub left_part : Tag → ℕ → Tag
left_part bt size = record bt { size = sub32 bt.size size }

abbrev pub right_part : Tag → (p size : ℕ) → Tag
right_part bt p size = record {
  at = p;
  addr = add32 bt.addr (sub32 bt.size size);
  size = size;
  source_addr = 0;
  allocated = false;
}

-- `none` is NULL.
pub vmem_al_splittag : Vmem → Tag → ℕ → Machine → Outcome (Option Tag × Vmem × Machine)
vmem_al_splittag v bt size m =
    let (p, m') = kmalloc m in
    if p == 0 then ok (none, v, m') else do
      assert (not bt.allocated)
      ok (
        some (right_part bt p size),
        with_tags v
            (insert_behind bt.at (right_part bt p size) (set_tag (left_part bt size) v.tags)),
        m',
      )

-- The tag for the request, cut off from the tag `bt` where it is larger by a quantum. Where there is no
-- memory for it, `vmem_alloc` goes on with NULL.
pub carve : Vmem → Tag → ℕ → Machine → Outcome (Tag × Vmem × Machine)
carve v bt size m =
    if leb v.quantum (sub32 bt.size size)
    then (do
      (cut, v', m') ← vmem_al_splittag v bt size m
      v'' ← elim cut [
        | none ↦ if_cached add_freelist v' bt
        | some tmp ↦ if_cached add_freelist v' (left_part bt size)
      ]
      tmp ← access cut
      ok (tmp, v'', m'))
    else ok (bt, v, m)

-- Mark the tag, and enter it in the hash of its span.
pub enter_at : Vmem → Tag → Option Span → Outcome Vmem
enter_at v bt none = halt
enter_at v bt (some span) = do
  let slot = sub32 bt.addr span.addr / v.quantum
  held ← load span.hash slot
  assert (held == 0)
  hash ← store span.hash slot bt.at
  ok (record v {
    tags = set_tag (record bt { allocated = true }) v.tags;
    spans = set_span (record span { hash = hash }) v.spans;
  })

pub enter : Vmem → Tag → Outcome Vmem
enter v bt = enter_at v bt (vmem_getspan v.spans bt.addr)

-- What `vmem_free` does to the left and to the right neighbour.
pub melt_left : Vmem → Span → Tag → Machine → Outcome (Tag × Vmem × Machine)
melt_left v span bt m = elim (prev_tag bt.at v.tags) [
  | none ↦ ok (bt, v, m)
  | some prev ↦
      if not prev.allocated && leb span.addr prev.addr
      then (do
        v' ← if_cached rem_freelist v prev
        let grown = record prev { size = add32 prev.size bt.size }
        ok (grown, with_tags v' (set_tag grown (remove_tag bt.at v'.tags)), called (freed bt.at) m))
      else ok (bt, v, m)
]

pub melt_right : Vmem → Span → Tag → Machine → Outcome (Tag × Vmem × Machine)
melt_right v span bt m = elim (next_tag bt.at v.tags) [
  | none ↦ ok (bt, v, m)
  | some next ↦
      if not next.allocated && ltb next.addr (add32 span.addr span.size)
      then (do
        v' ← if_cached rem_freelist v next
        let grown = record bt { size = add32 bt.size next.size }
        ok (
          grown,
          with_tags v' (set_tag grown (remove_tag next.at v'.tags)),
          called (freed next.at) m,
        ))
      else ok (bt, v, m)
]

-- The tag in a slot of the hash goes back to the free ones.
pub release : Vmem → Span → (slot : ℕ) → Tag → Machine → Outcome (Vmem × Machine)
release v span slot bt m = do
  let m1 =
      if not (v.source == 0) && not (bt.source_addr == 0)
      then called (source_freed bt.source_addr bt.size) m
      else m
  hash ← store span.hash slot 0
  assert bt.allocated
  let open_tag = record bt { allocated = false }
  let v1 = record v {
    tags = set_tag open_tag v.tags;
    spans = set_span (record span { hash = hash }) v.spans;
  }
  (left, v2, m2) ← melt_left v1 span open_tag m1
  (whole, v3, m3) ← melt_right v2 span left m2
  v4 ← if_cached add_freelist v3 whole
  ok (v4, m3)

-- The first result is the address, or NULL.
pub vmem_free : Vmem → ℕ → Machine → Outcome (ℕ × Vmem × Machine)
vmem_free v addr m = elim (vmem_getspan v.spans addr) [
  | none ↦ ok (0, v, m)
  | some span ↦ if v.quantum == 0 then fault else do
    let slot = sub32 addr span.addr / v.quantum
    held ← load span.hash slot
    if held == 0 then ok (0, v, m) else (do
      bt ← access (find_tag held v.tags)
      (v', m') ← release v span slot bt m
      ok (addr, v', m'))
]

-- The address to import the range from, if there is a source.
abbrev pub imported : Vmem → Tag → Machine → Outcome (ℕ × Vmem × Machine)
imported v bt m =
    if v.source == 0
    then ok (bt.addr, v, m)
    else (let (source_addr, m') = import_range m in
        let v' =
          with_tags v
            (set_tag (record bt { source_addr = source_addr; allocated = true }) v.tags) in
        if source_addr == 0
        then (do (addr, v'', m'') ← vmem_free v' bt.addr m'; ok (0, v'', m''))
        else ok (bt.addr, v', m'))

pub vmem_alloc : Vmem → (rsize vmflag : ℕ) → Machine → Outcome (ℕ × Vmem × Machine)
vmem_alloc v rsize vmflag m =
    if rsize == 0 then ok (0, v, m) else if v.quantum == 0 then fault else do
      let size = rounded v.quantum rsize
      found ← search_tag v size vmflag
      elim found [
        | none ↦ ok (0, v, m)
        | some bt ↦ do
          assert (not bt.allocated)
          v1 ← if_cached rem_freelist v bt
          (cut, v2, m2) ← carve v1 bt size m
          v3 ← enter v2 cut
          imported v3 cut m2
      ]
