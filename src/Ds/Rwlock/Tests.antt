-- ===== src/Ds/Rwlock/Tests.antt =====
-- The theorems on the read-write lock at runs of three threads.
use racoon.Base.{◌≡◌, ℕ, ◌+◌, ◌^◌, ◌<◌, ◌≢◌, refl, arith, none, some}
use racoon.Ds.Rwlock.{reading, writing, System, Run, moved, fresh}
use racoon.Ds.Rwlock.Run.{start, later}
use racoon.Ds.Rwlock.Pc.{holding, write_wait, write_test, write_done}
use racoon.Ds.Rwlock.Move.{call_write, lock_write, write_open, unlock_write}
use racoon.Ds.Rwlock.Exclusion.{IsUnused, writer_alone}
use racoon.Ds.Rwlock.Race.{reader_lost}

-- Thread 2 holds the lock for writing.
abbrev asked : System
asked = moved fresh 2 fresh.lock write_wait

abbrev locked : System
locked = moved asked 2 (record asked.lock { spinlock = some 2 }) write_test

abbrev opened : System
opened = moved locked 2 (record locked.lock { num_writers = 1 }) write_done

abbrev taken : System
taken = moved opened 2 (record opened.lock { spinlock = none }) (holding writing)

taken_run : Run 3 fresh 4 taken
taken_run =
    later 2
      (later 2 (later 2 (later 2 start (omega arith) call_write) (omega arith) (lock_write refl))
        (omega arith) (write_open refl refl))
      (omega arith) unlock_write

writer_alone_example : taken.pc 1 ≢ holding reading
writer_alone_example =
    writer_alone 3 4 taken taken_run (omega arith) 2 1 reading (omega arith) (omega arith)
      (omega arith) refl

reader_lost_example :
    (s : System) × Run 3 fresh 16 s
    × IsUnused 3 s
    × (s.lock.num_readers ≡ 1)
    × ((k : ℕ) (t : System)
        → Run 3 s k t
        → 1 + k < 2 ^ 32
        → (i : ℕ) → i < 3
        → t.pc i ≢ holding writing)
reader_lost_example = reader_lost 3 (omega arith)
