-- ===== src/Ds/Rwlock/Race.antt =====
-- `rw->num_readers += 1` in `rwlock_get_read_access` is not atomic, and `rwlock_release` counts down
-- without the spinlock.
use racoon.Base.{ℕ, ◌+◌, ◌^◌, ◌≤◌, ◌<◌, ◌≡◌, ◌≢◌, refl, arith}
use racoon.Ds.Rwlock.{Rwlock, reading, writing, Pc, Move, System, Run, moved, fresh}
use racoon.Ds.Rwlock.Run.{start, later}
use racoon.Ds.Rwlock.Pc.{holding}
use racoon.Ds.Rwlock.Move.{
  call_read, lock_read, read_open, load_readers, store_readers, unlock_read, see_no_writer,
  decrement,
}
use racoon.Ds.Rwlock.Exclusion.{IsUnused, no_writer}

module _ (n : ℕ) (two : 2 ≤ n) where
  -- A move of the first thread, and one of the second.
  by_first :
      {k : ℕ} {t : System} {m : Rwlock} {p : Pc}
      → Run n fresh k t
      → Move 0 t.lock (t.pc 0) m p
      → Run n fresh (k + 1) (moved t 0 m p)
  by_first run move = later 0 run (omega arith) move

  by_second :
      {k : ℕ} {t : System} {m : Rwlock} {p : Pc}
      → Run n fresh k t
      → Move 1 t.lock (t.pc 1) m p
      → Run n fresh (k + 1) (moved t 1 m p)
  by_second run move = later 1 run (omega arith) move

  -- The first thread takes the lock for reading. The second loads the count, the first releases, and the second stores what it loaded plus
  -- one, and releases too.
  raced :
      (s : System) × Run n fresh 16 s
      × IsUnused n s
      × (s.lock.num_readers ≡ 1)
      × (s.lock.num_writers ≡ 0)
  raced =
      let asked = by_first (by_first start call_read) (lock_read refl) in
      let read = by_first (by_first asked (read_open refl refl)) load_readers in
      let entered = by_first (by_first read (store_readers 0)) unlock_read in
      let asked = by_second (by_second entered call_read) (lock_read refl) in
      let loaded = by_second (by_second asked (read_open refl refl)) load_readers in
      let gone = by_first (by_first loaded (see_no_writer reading refl)) (decrement reading) in
      let stored = by_second (by_second gone (store_readers 1)) unlock_read in
      (
        _,
        by_second (by_second stored (see_no_writer reading refl)) (decrement reading),
        (λ i h. ground arith),
        refl,
        refl,
      )

-- Two threads that take the lock for reading and release it can leave a fresh lock, after 16 steps,
-- unused, and yet with a reader in its count: from then on, in every run of fewer than 2^32 - 1
-- steps, no thread is given the lock for writing.
pub reader_lost :
    (n : ℕ)
    → 2 ≤ n
    → (s : System) × Run n fresh 16 s
      × IsUnused n s
      × (s.lock.num_readers ≡ 1)
      × ((k : ℕ) (t : System)
          → Run n s k t
          → 1 + k < 2 ^ 32
          → (i : ℕ) → i < n
          → t.pc i ≢ holding writing)
reader_lost n two =
    let (s, run, unused, one, none_writes) = raced n two in
    (
      s,
      run,
      unused,
      one,
      λ k t more small i h.
          no_writer n s unused (omega (arith, one)) none_writes k t more (omega (arith, one)) i h,
    )
