-- ===== src/Ds/Rwlock/Invariant.antt =====
-- What holds of the lock and its threads after every step.
use racoon.Base.{ℕ, ◌+◌, ◌≤◌, ◌<◌, ◌≡◌, ◌≢◌, Bool, true, false, arith, Option, some}
use racoon.Ds.Rwlock.{Rwlock, Access, reading, writing, Pc, System}
use racoon.Ds.Rwlock.Pc.{
  idle, read_wait, read_test, read_load, read_store, read_done, write_wait, write_test, write_retry,
  write_done, holding, clear_request, clear_writers, drop_reader,
}
use racoon.Ds.Rwlock.Counts.{count}

abbrev is_reading : Access → Bool
is_reading reading = true
is_reading writing = false

-- The thread is counted as a reader.
abbrev pub reads : Pc → Bool
reads read_done = true
reads (holding a) = is_reading a
reads (clear_request a) = is_reading a
reads (clear_writers a) = is_reading a
reads (drop_reader a) = is_reading a
reads _ = false

-- The thread is counted as the writer.
abbrev pub writes : Pc → Bool
writes write_done = true
writes (holding writing) = true
writes (clear_request writing) = true
writes (clear_writers writing) = true
writes (drop_reader writing) = true
writes _ = false

-- What a thread at a place knows, with `r` readers, `w` writers, a surplus of `d` in the count of
-- readers, and all counts at most `k`.
abbrev pub Knows : ℕ → ℕ → ℕ → ℕ → Option ℕ → ℕ → Pc → Type 0
Knows r w d k owner i read_test = owner ≡ some i
Knows r w d k owner i read_load = (owner ≡ some i) × (w ≡ 0)
Knows r w d k owner i (read_store x) = (owner ≡ some i) × (w ≡ 0) × (r + d ≤ x) × (x ≤ k)
Knows r w d k owner i read_done = owner ≡ some i
Knows r w d k owner i write_test = owner ≡ some i
Knows r w d k owner i write_retry = owner ≡ some i
Knows r w d k owner i write_done = owner ≡ some i
Knows r w d k owner i (clear_request a) = a ≡ writing
Knows r w d k owner i (clear_writers a) = a ≡ writing
Knows r w d k owner i (drop_reader a) = a ≡ reading
Knows r w d k owner i _ = Unit

-- The words of the lock, with `r` readers and `w` writers.
abbrev pub Agrees : ℕ → ℕ → ℕ → ℕ → Rwlock → Type 0
Agrees r w d k m =
    (m.num_writers ≡ w)
    × (w ≤ 1)
    × (r + d ≤ m.num_readers)
    × (m.num_readers ≤ k)
    × (w ≡ 1 → r ≡ 0)
    × (0 < d → w ≡ 0)

pub record Inv (n d k : ℕ) (s : System) : Type 0 where
  pub words : Agrees (count reads n s.pc) (count writes n s.pc) d k s.lock
  pub known :
      (i : ℕ)
      → i < n
      → Knows (count reads n s.pc) (count writes n s.pc) d k s.lock.spinlock i (s.pc i)

module _ (r w r' w' d k : ℕ) (owner : Option ℕ) (i : ℕ) where
  -- A thread without the spinlock knows nothing of the counts.
  pub Knows-outside :
      (k' : ℕ) (owner' : Option ℕ) (p : Pc)
      → owner ≢ some i
      → Knows r w d k owner i p
      → Knows r' w' d k' owner' i p
  Knows-outside k' owner' p ne h =
      elim p as (λ x. Knows r w d k owner i x → Knows r' w' d k' owner' i x) [
        | idle ↦ λ h. tt
        | read_wait ↦ λ h. tt
        | read_test ↦ λ h. absurd (ne h)
        | read_load ↦ λ h. absurd (ne h.0)
        | read_store x ↦ λ h. absurd (ne h.0)
        | read_done ↦ λ h. absurd (ne h)
        | write_wait ↦ λ h. tt
        | write_test ↦ λ h. absurd (ne h)
        | write_retry ↦ λ h. absurd (ne h)
        | write_done ↦ λ h. absurd (ne h)
        | holding a ↦ λ h. tt
        | clear_request a ↦ λ h. h
        | clear_writers a ↦ λ h. h
        | drop_reader a ↦ λ h. h
      ]
        h

  -- Fewer readers and writers leave what is known.
  pub Knows-fewer :
      (p : Pc) → r' ≤ r → w' ≤ w → Knows r w d k owner i p → Knows r' w' d (k + 1) owner i p
  Knows-fewer p lr lw h =
      elim p as (λ x. Knows r w d k owner i x → Knows r' w' d (k + 1) owner i x) [
        | idle ↦ λ h. tt
        | read_wait ↦ λ h. tt
        | read_test ↦ λ h. h
        | read_load ↦ λ h. (h.0, omega (arith, h))
        | read_store x ↦ λ h. (h.0, omega (arith, h), omega (arith, h), omega (arith, h))
        | read_done ↦ λ h. h
        | write_wait ↦ λ h. tt
        | write_test ↦ λ h. h
        | write_retry ↦ λ h. h
        | write_done ↦ λ h. h
        | holding a ↦ λ h. tt
        | clear_request a ↦ λ h. h
        | clear_writers a ↦ λ h. h
        | drop_reader a ↦ λ h. h
      ]
        h
