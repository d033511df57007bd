-- ===== src/Gc.antt =====
-- kernel/gc.c: for each CPU the queue of threads and processes that wait to be deleted, a ring of
-- `MAX_GC` pairs of ids. Its functions run with interrupts disabled on their own CPU, so each is one
-- step on that CPU's queue. `pos` and `size` are never negative: they are natural numbers.
pub mod Fifo
mod Tests
use racoon.Base.{
  ℕ, ◌+◌, ◌-◌, ◌%◌, Bool, not, Option, none, some, ltb, ◌==◌, if◌then◌else◌, Outcome, ok, ◌>>=◌,
  ◌>>◌, assert, update, Status, success, failure,
}

abbrev pub max_gc : ℕ
max_gc = 32

pub record GcInfo : Type 0 where
  pub pid : ℕ
  pub tid : ℕ

-- One entry of `qdata`.
pub record Qdata : Type 0 where
  pub info : ℕ → GcInfo
  pub pos : ℕ
  pub size : ℕ

pub load_gc : Qdata → Qdata
load_gc q = record q { pos = 0; size = 0 }

pub gc_queue : Qdata → GcInfo → Status × Qdata
gc_queue q x = if q.size == max_gc then (failure, q) else (
  success,
  record q { info = update q.info ((q.pos + q.size) % max_gc) x; size = q.size + 1 },
)

pub gc_has_work : Qdata → Status
gc_has_work q = if q.size == 0 then failure else success

-- The ids are written through the pointers where there is data.
pub gc_peek : Qdata → Option GcInfo
gc_peek q = if q.size == 0 then none else some (q.info q.pos)

pub gc_next : Qdata → Outcome Qdata
gc_next q = do
  assert (ltb 0 q.size)
  ok (record q { pos = (q.pos + 1) % max_gc; size = q.size - 1 })
