-- ===== src/Ds/Rwlock.antt =====
-- kernel/ds/rwlock.c: the lock of many readers or one writer, run by any number of threads on any
-- number of CPUs. A step is one access to the shared words, except that a test of two words is one
-- step. `rw->num_readers += 1` is a load and a store; `atomic_inc` and `atomic_dec` are one step.
-- The spinlock is kept with the thread that has it.
mod Counts
mod Tests
pub mod Exclusion
pub mod Invariant
pub mod Moves
pub mod Race
use racoon.Base.{ℕ, ◌+◌, ◌<◌, ◌≡◌, ◌≢◌, ◌⊎◌, Option, none, some, update, add32, sub32}

pub record Rwlock : Type 0 where
  pub num_readers : ℕ
  pub num_writers : ℕ
  pub write_request : ℕ
  pub spinlock : Option ℕ

-- `init_rwlock`
abbrev pub init_rwlock : Rwlock
init_rwlock = record { num_readers = 0; num_writers = 0; write_request = 0; spinlock = none }

pub data Access : Type 0 where
  reading : Access
  writing : Access

-- Where a thread is in its calls. The access that a thread holds is written down beside the steps of
-- `rwlock_release`, which does not look at it.
pub data Pc : Type 0 where
  idle : Pc
  read_wait : Pc
  read_test : Pc
  read_load : Pc
  read_store : ℕ → Pc
  read_done : Pc
  write_wait : Pc
  write_test : Pc
  write_retry : Pc
  write_done : Pc
  holding : Access → Pc
  clear_request : Access → Pc
  clear_writers : Access → Pc
  drop_reader : Access → Pc

pub data Move (me : ℕ) (m : Rwlock) : Pc → Rwlock → Pc → Type 0 where
  call_read : Move me m idle m read_wait
  call_write : Move me m idle m write_wait
  -- `rwlock_get_read_access`
  lock_read : m.spinlock ≡ none → Move me m read_wait (record m { spinlock = some me }) read_test
  read_open : m.num_writers ≡ 0 → m.write_request ≡ 0 → Move me m read_test m read_load
  read_closed :
      (m.num_writers ≢ 0) ⊎ (m.write_request ≢ 0)
      → Move me m read_test (record m { spinlock = none }) read_wait
  load_readers : Move me m read_load m (read_store m.num_readers)
  store_readers :
      (r : ℕ) → Move me m (read_store r) (record m { num_readers = add32 r 1 }) read_done
  unlock_read : Move me m read_done (record m { spinlock = none }) (holding reading)
  -- `rwlock_get_write_access`
  lock_write : m.spinlock ≡ none → Move me m write_wait (record m { spinlock = some me }) write_test
  write_open :
      m.num_readers ≡ 0
      → m.num_writers ≡ 0
      → Move me m write_test (record m { num_writers = add32 m.num_writers 1 }) write_done
  write_closed :
      (m.num_readers ≢ 0) ⊎ (m.num_writers ≢ 0)
      → Move me m write_test (record m { write_request = 1 }) write_retry
  unlock_retry : Move me m write_retry (record m { spinlock = none }) write_wait
  unlock_write : Move me m write_done (record m { spinlock = none }) (holding writing)
  -- `rwlock_release`
  see_writer : (a : Access) → m.num_writers ≢ 0 → Move me m (holding a) m (clear_request a)
  reset_request :
      (a : Access) → Move me m (clear_request a) (record m { write_request = 0 }) (clear_writers a)
  reset_writers : (a : Access) → Move me m (clear_writers a) (record m { num_writers = 0 }) idle
  see_no_writer : (a : Access) → m.num_writers ≡ 0 → Move me m (holding a) m (drop_reader a)
  decrement :
      (a : Access)
      → Move me m (drop_reader a) (record m { num_readers = sub32 m.num_readers 1 }) idle

-- One lock and the threads that use it.
pub record System : Type 0 where
  pub lock : Rwlock
  pub pc : ℕ → Pc

abbrev pub moved : System → ℕ → Rwlock → Pc → System
moved s i m p = record { lock = m; pc = update s.pc i p }

-- `k` steps of the threads below `n`, in any order.
pub data Run (n : ℕ) (s : System) : ℕ → System → Type 0 where
  start : Run n s 0 s
  later :
      {k : ℕ} {t : System} (i : ℕ) {m : Rwlock} {p : Pc}
      → Run n s k t
      → i < n
      → Move i t.lock (t.pc i) m p
      → Run n s (k + 1) (moved t i m p)

abbrev pub fresh : System
fresh = record { lock = init_rwlock; pc = λ _. idle }
