-- ===== src/Ds/Iqueue.antt =====
-- kernel/ds/iqueue.c: a queue of ints in a circular array that grows and shrinks.
-- The ints are only moved, so a value is any number. `kmalloc` is an argument: it gives the memory
-- of a request, as the ints that lie there, or NULL. The memory that `kfree` takes is forgotten.
pub mod Add
pub mod Invariant
pub mod Next
pub mod Overflow
pub mod Run
mod Tests
use racoon.Base.{
  ℕ, zero, suc, ◌+◌, ◌*◌, ◌%◌, Bool, true, false, not, ◌&&◌, ◌||◌, Option, none, some, List, [],
  ltb, ◌==◌, if◌then◌else◌, Outcome, ok, ◌>>=◌, ◌>>◌, assert, load, store, Status, success, failure,
  u32, add32, sub32, test_bit,
}

pub record Iqueue : Type 0 where
  pub initial : ℕ
  pub grow : ℕ
  pub size : ℕ
  pub start : ℕ
  pub count : ℕ
  pub queue : List ℕ

-- `IQUEUE_NOGROW` is bit 0 of the flags, and `IQUEUE_NOSHRINK` is bit 1.
pub no_grow : ℕ → Bool
no_grow iqflags = test_bit iqflags 0

pub no_shrink : ℕ → Bool
no_shrink iqflags = test_bit iqflags 1

-- The copying loop of both operations, with `k` rounds left.
pub copy_queue : ℕ → ℕ → Iqueue → List ℕ → Outcome (List ℕ)
copy_queue zero i iq new_queue = ok new_queue
copy_queue (suc k) i iq new_queue = do
  v ← load iq.queue (add32 iq.start i % iq.size)
  new_queue' ← store new_queue i v
  copy_queue k (i + 1) iq new_queue'

-- The last statement of `iqueue_add`.
pub put : Iqueue → ℕ → Outcome (Status × Iqueue)
put iq num = do
  queue ← store iq.queue (add32 iq.start iq.count % iq.size) num
  ok (success, record iq { queue = queue; count = add32 iq.count 1 })

-- Both operations end a resize this way.
abbrev pub resized : Iqueue → ℕ → List ℕ → Iqueue
resized iq size queue = record iq { start = 0; size = size; queue = queue }

module _ (kmalloc : ℕ → Option (List ℕ)) where
  -- `sizeof( struct iqueue )` is 24.
  pub create : ℕ → ℕ → Option Iqueue
  create initial_size grow_size = elim (kmalloc 24) [
    | none ↦ none
    | some _ ↦
        let fresh = λ (queue : List ℕ). some (record {
          initial = initial_size;
          grow = grow_size;
          size = initial_size;
          start = 0;
          count = 0;
          queue = queue;
        }) in
        if ltb 0 initial_size
        then (elim (kmalloc (u32 (4 * initial_size))) [ none ↦ none | some queue ↦ fresh queue ])
        else fresh []
  ]

  pub add : Iqueue → ℕ → ℕ → Outcome (Status × Iqueue)
  add iq num iqflags =
      if iq.size == iq.count
      then (if (iq.grow == 0) || no_grow iqflags
          then ok (failure, iq)
          else (elim (kmalloc (u32 (4 * add32 iq.size iq.grow))) [
            | none ↦ ok (failure, iq)
            | some new_queue ↦ do
              queue ← copy_queue iq.count 0 iq new_queue
              put (resized iq (add32 iq.size iq.grow) queue) num
          ]))
      else put iq num

  -- The part of `iqueue_next` that gives memory back.
  pub shrink : Iqueue → ℕ → Outcome Iqueue
  shrink iq iqflags =
      if not (iq.grow == 0) && not (no_shrink iqflags)
      then (if ltb iq.initial iq.size && (iq.count % iq.grow == 0)
          then (elim (kmalloc (u32 (4 * sub32 iq.size iq.grow))) [
            | none ↦ ok iq
            | some new_queue ↦ do
              queue ← copy_queue iq.count 0 iq new_queue
              ok (resized iq (sub32 iq.size iq.grow) queue)
          ])
          else ok iq)
      else ok iq

  pub next : Iqueue → ℕ → Outcome (ℕ × Iqueue)
  next iq iqflags = do
    assert (ltb 0 iq.count)
    rc ← load iq.queue iq.start
    let rest = record iq { start = add32 iq.start 1 % iq.size; count = sub32 iq.count 1 }
    iq' ← shrink rest iqflags
    ok (rc, iq')

-- `iqueue_count`
pub count_of : Iqueue → ℕ
count_of iq = iq.count
