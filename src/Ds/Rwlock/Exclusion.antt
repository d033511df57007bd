-- ===== src/Ds/Rwlock/Exclusion.antt =====
-- What the read-write lock promises, and what a lost decrement costs.
use racoon.Base.{ℕ, zero, suc, ◌+◌, ◌^◌, ◌<◌, ◌≡◌, ◌≢◌, refl, arith, subst, ap, sym}
use racoon.Ds.Rwlock.{Access, reading, writing, Pc, System, Run, fresh}
use racoon.Ds.Rwlock.Pc.{idle, holding}
use racoon.Ds.Rwlock.Counts.{count, count_some, count_two}
use racoon.Ds.Rwlock.Invariant.{reads, writes, Inv, Knows}
use racoon.Ds.Rwlock.Moves.{Run-Inv}

fresh_counts : (n : ℕ) → (count reads n (λ _. idle) ≡ 0) × (count writes n (λ _. idle) ≡ 0)
unfolding count
fresh_counts zero = (refl, refl)
fresh_counts (suc n) = ground (arith, fresh_counts n)

fresh-Inv : (n : ℕ) → Inv n 0 0 fresh
fresh-Inv n = record { words = ground (arith, fresh_counts n); known = λ i h. tt }

module _ (n d k i j : ℕ) (s : System) (v : Inv n d k s) (hi : i < n) (hj : j < n) where
  no_second : (a : Access) → i ≢ j → s.pc i ≡ holding writing → s.pc j ≡ holding a → ⊥
  no_second writing other ei ej =
      let two = count_two writes s.pc n i j hi hj other (ap writes ei) (ap writes ej) in
      omega (arith, v.words, two)
  no_second reading other ei ej =
      let writer = count_some writes s.pc n i hi (ap writes ei) in
      let reader = count_some reads s.pc n j hj (ap reads ej) in
      ground (arith, v.words, writer, reader)

-- In every run of `n` threads on a fresh lock, in any order and of fewer than 2^32 steps, a thread that
-- holds the lock for writing holds it alone: no other thread holds it for writing or for reading.
pub writer_alone :
    (n k : ℕ) (s : System)
    → Run n fresh k s
    → k < 2 ^ 32
    → (i j : ℕ) (a : Access) → i < n
    → j < n
    → i ≢ j
    → s.pc i ≡ holding writing
    → s.pc j ≢ holding a
writer_alone n k s run small i j a hi hj other ei ej =
    let v = Run-Inv n 0 0 fresh (fresh-Inv n) k s run (omega arith) in
    no_second n 0 (0 + k) i j s v hi hj a other ei ej

-- Nobody uses the lock.
abbrev pub IsUnused : ℕ → System → Type 0
IsUnused n s = (i : ℕ) → i < n → s.pc i ≡ idle

unused_counts :
    (n : ℕ) (pc : ℕ → Pc)
    → ((i : ℕ) → i < n → pc i ≡ idle)
    → (count reads n pc ≡ 0) × (count writes n pc ≡ 0)
unfolding count
unused_counts zero pc h = (refl, refl)
unused_counts (suc n) pc h =
    let last : pc n ≡ idle = h n (omega arith) in
    let (r, w) = unused_counts n pc (λ i lt. h i (omega arith)) in
    (rw last (ground (arith, r)), rw last (ground (arith, w)))

surplus-Inv :
    (n : ℕ) (s : System)
    → IsUnused n s
    → 0 < s.lock.num_readers
    → s.lock.num_writers ≡ 0
    → Inv n 1 s.lock.num_readers s
surplus-Inv n s unused some_left none_writes = record {
  words = ground (arith, unused_counts n s.pc unused);
  known = λ i h.
      subst
        (λ p.
          Knows (count reads n s.pc) (count writes n s.pc) 1 s.lock.num_readers s.lock.spinlock i p)
        (sym (unused i h)) tt;
}

-- With a reader too many in the count, no thread is ever given the lock for writing.
pub no_writer :
    (n : ℕ) (s : System)
    → IsUnused n s
    → 0 < s.lock.num_readers
    → s.lock.num_writers ≡ 0
    → (k : ℕ) (t : System) → Run n s k t
    → s.lock.num_readers + k < 2 ^ 32
    → (i : ℕ) → i < n
    → t.pc i ≢ holding writing
no_writer n s unused some_left none_writes k t run small i h e =
    let v =
      Run-Inv n 1 s.lock.num_readers s (surplus-Inv n s unused some_left none_writes) k t run
        small in
    let writer = count_some writes t.pc n i h (ap writes e) in ground (arith, v.words, writer)
