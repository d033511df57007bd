-- ===== src/Ds/Iqueue/Invariant.antt =====
-- The representation invariant of `struct iqueue`, the sequence that it stands for, and the copy.
use racoon.Base.{
  ℕ, zero, suc, ◌+◌, ◌%◌, ◌^◌, ◌≤◌, ◌<◌, ◌≡◌, ◌≢◌, refl, List, arith, length, get_or, set,
  length-set, get_or-set_self, get_or-set_ne, load, load-ok, store-ok, store-fault, ok, fault,
  tabulate, length-tabulate, add32, ltb, leb, ◌&&◌, if◌then◌else◌, dec_lt,
}
use native.Mathlib.Nat.{mod-lt}
use racoon.Ds.Iqueue.{Iqueue, copy_queue}

-- The array holds `size` ints of which `count` are used, and a request for it does not wrap.
-- The step by which the array grows divides its first size.
pub record IsValid (iq : Iqueue) : Type 0 where
  pub storage : length iq.queue ≡ iq.size
  pub count_in : iq.count ≤ iq.size
  pub start_in : 0 < iq.size → iq.start < iq.size
  pub start_le : iq.start ≤ iq.size
  pub small : iq.size < 2 ^ 30
  pub base : iq.initial ≤ iq.size
  pub steps : iq.grow ≢ 0 → (iq.initial % iq.grow ≡ 0) × (iq.size % iq.grow ≡ 0)

-- The `i`-th int in the queue.
abbrev pub item : Iqueue → ℕ → ℕ
item iq i = get_or iq.queue ((iq.start + i) % iq.size) 0

unfoldable pub contents : Iqueue → List ℕ
contents iq = tabulate iq.count (item iq)

-- What the loop needs of its source.
pub record Readable (iq : Iqueue) (k : ℕ) : Type 0 where
  pub storage : length iq.queue ≡ iq.size
  pub bounds : iq.start + k < 2 ^ 32
  pub non_empty : 0 < k → 0 < iq.size

module _ (iq : Iqueue) where
  load-item :
      (i n : ℕ)
      → i < n
      → Readable iq n
      → load iq.queue (add32 iq.start i % iq.size) ≡ ok (item iq i)
  load-item i n h v =
      let e : add32 iq.start i ≡ iq.start + i = omega arith in
      rw e (
        load-ok iq.queue ((iq.start + i) % iq.size) 0
          (let b : (iq.start + i) % iq.size < iq.size = mod-lt _ (omega arith) in omega arith))

  Readable-step : (k i : ℕ) → Readable iq (i + suc k) → Readable iq (i + 1 + k)
  Readable-step k i v = record {
    storage = v.storage;
    bounds = omega arith;
    non_empty = λ h. v.non_empty (omega arith);
  }

  -- The loop copies the ints in order from index `i` of the new array on, if there is room.
  pub copy_queue-ok :
      (k i : ℕ) (new : List ℕ)
      → i + k ≤ length new
      → Readable iq (i + k)
      → (new' : List ℕ) × (copy_queue k i iq new ≡ ok new')
        × (length new' ≡ length new)
        × ((j : ℕ)
            → get_or new' j 0 ≡ (if leb i j && ltb j (i + k) then item iq j else get_or new j 0))
  unfolding copy_queue
  copy_queue-ok zero i new h v = (new, refl, refl, λ j. ground arith)
  copy_queue-ok (suc k) i new h v =
      let (new', e, len, at) =
        copy_queue-ok k (i + 1) (set new i (item iq i))
          (omega (arith, length-set new i (item iq i))) (Readable-step k i v) in
      (
        new',
        rw (load-item i (i + suc k) (omega arith) v, store-ok new i (item iq i) (omega arith)) e,
        omega (arith, len, length-set new i (item iq i)),
        λ j.
            ground (
              arith,
              at j,
              get_or-set_self new i (item iq i) 0,
              get_or-set_ne new i j (item iq i) 0,
            ),
      )

  -- With too little room it writes past the end of the new array.
  pub copy_queue-fault :
      (k i : ℕ) (new : List ℕ)
      → i ≤ length new
      → length new < i + k
      → Readable iq (i + k)
      → copy_queue k i iq new ≡ fault
  unfolding copy_queue
  copy_queue-fault zero i new l h v = absurd (omega arith)
  copy_queue-fault (suc k) i new l h v = elim (dec_lt i (length new)) [
    | yes room ↦
        rw (load-item i (i + suc k) (omega arith) v, store-ok new i (item iq i) room)
          (copy_queue-fault k (i + 1) (set new i (item iq i))
            (omega (arith, length-set new i (item iq i)))
            (omega (arith, length-set new i (item iq i))) (Readable-step k i v))
    | no full ↦
        rw (load-item i (i + suc k) (omega arith) v, store-fault new i (item iq i) (omega arith))
  ]

pub length-contents : (iq : Iqueue) → length (contents iq) ≡ iq.count
unfolding contents
length-contents iq = length-tabulate iq.count (item iq)
