-- ===== src/Ds/Htable.antt =====
-- kernel/ds/htable.c: a hash table with linear probing. A slot that is NULL is `none`; a slot that
-- holds a pointer has the pointer, a number, and what the pointed-to object holds. `total` and `size`
-- are ints that are not negative here; sums, products and remainders of ints are those of 32-bit words.
-- `room` says whether `kmalloc` gives a number of bytes.
pub mod Retrieve
pub mod Insert
mod Tests
use racoon.Base.{
  ℕ, zero, suc, ◌+◌, ◌-◌, ◌*◌, ◌/◌, ◌%◌, Bool, true, false, ◌&&◌, Option, none, some, ltb, leb,
  ◌==◌, if◌then◌else◌, List, [], ◌∷◌, length, get_or, set, Status, success, failure, Outcome, ok,
  fault, halt, ◌>>=◌, not, u32, add32, is_negative, ◌^◌, ◌||◌,
}

-- A pointer to an `A`.
pub record Pointer (A : Type 0) : Type 0 where
  pub address : ℕ
  pub target : A

module _ (A : Type 0) where
  abbrev pub Slots : Type 0
  Slots = List (Option (Pointer A))

  pub record Htable : Type 0 where
    pub total : ℕ
    pub size : ℕ
    pub percent : ℕ
    pub table : Slots

-- `( i + key ) % size`, where `hash` is the key without its sign: a sum that overflows is negative, and
-- so is its remainder (`none`) unless it is 0.
unfoldable pub position : (size i hash : ℕ) → Option ℕ
position size i hash =
    let sum = add32 i hash in
    if not (is_negative sum)
    then some (sum % size)
    else if (2 ^ 32 - sum) % size == 0
    then some 0
    else none

-- `( total * 100 ) / size`, compared with an int that is not negative.
abbrev pub is_above : (total size percent : ℕ) → Bool
is_above total size percent =
    let product = u32 (total * 100) in not (is_negative product) && ltb percent (product / size)

abbrev pub is_below : (total size percent : ℕ) → Bool
is_below total size percent =
    let product = u32 (total * 100) in
    if is_negative product
    then ltb 0 ((2 ^ 32 - product) / size) || ltb 0 percent
    else ltb (product / size) percent

module _ {A : Type 0} where
  -- `k` slots that are NULL.
  unfoldable pub no_entries : ℕ → Slots A
  no_entries zero = []
  no_entries (suc k) = none ∷ no_entries k

  -- `init_htable`, with room for the table.
  pub init_htable : ℕ → ℕ → Htable A
  unfolding no_entries
  init_htable size percent =
      let size' = if size == 0 then 32 else size in
      record { total = 0; size = size'; percent = percent; table = no_entries size' }

  -- The slot of a table.
  abbrev pub slot : Slots A → ℕ → Option (Pointer A)
  slot table i = get_or table i none

  abbrev pub is_null : Option (Pointer A) → Bool
  is_null none = true
  is_null (some p) = false

  abbrev pub has_address : Option (Pointer A) → ℕ → Bool
  has_address none address = false
  has_address (some p) address = p.address == address

  abbrev pub is_match : (A → Bool) → Option (Pointer A) → Bool
  is_match matches none = false
  is_match matches (some p) = matches p.target

  -- `matches` is the comparison with the sample. A negative position fails the assertion.
  pub retrieve_from : (A → Bool) → ℕ → ℕ → ℕ → Htable A → Outcome (Option (Pointer A))
  retrieve_from matches zero i hash t = ok none
  retrieve_from matches (suc k) i hash t =
      let rest = retrieve_from matches k (i + 1) hash t in
      elim (position t.size i hash) [
        | none ↦ halt
        | some pos ↦ if is_match matches (slot t.table pos) then ok (slot t.table pos) else rest
      ]

  unfoldable pub htable_retrieve : (A → Bool) → ℕ → Htable A → Outcome (Option (Pointer A))
  unfolding retrieve_from
  htable_retrieve matches hash t =
      if t.total == 0 then ok none else retrieve_from matches t.size 0 hash t

  -- The pointer stored at a position.
  abbrev pub filled : Htable A → ℕ → Pointer A → Htable A
  filled t pos p = record t { table = set t.table pos (some p); total = t.total + 1 }

  -- `key` is the hash of an object, without its sign.
  module _ (room : ℕ → Bool) (key : A → ℕ) where
    -- The first of the `k` slots from `i + hash` on that is NULL gets the pointer; `total` is counted.
    pub insert_from : ℕ → ℕ → ℕ → Pointer A → Htable A → Outcome (Htable A)
    insert_from zero i hash p t = ok t
    insert_from (suc k) i hash p t =
        let rest = insert_from k (i + 1) hash p t in
        elim (position t.size i hash) [
          | none ↦ halt
          | some pos ↦ if is_null (slot t.table pos) then ok (filled t pos p) else rest
        ]

    -- The loop of `htable_rehash`, with the insertion that it calls.
    pub insert_all :
        (Pointer A → Htable A → Outcome (Status × Htable A))
        → Slots A
        → Htable A
        → Outcome (Htable A)
    insert_all insert [] t = ok t
    insert_all insert (none ∷ table) t = insert_all insert table t
    insert_all insert (some p ∷ table) t = do (rc, t') ← insert p t; insert_all insert table t'

    -- Without memory the table stays as it is. No memory holds 2^30 slots: a number of bytes that wraps
    -- gives less, and the loops write behind it.
    pub rehash :
        (Pointer A → Htable A → Outcome (Status × Htable A)) → Htable A → ℕ → Outcome (Htable A)
    unfolding insert_all no_entries
    rehash insert t new_size =
        let moved =
          insert_all insert t.table
            (record t { total = 0; size = new_size; table = no_entries new_size }) in
        if not (room (u32 (4 * new_size)))
        then ok t
        else if leb (2 ^ 30) new_size
        then fault
        else moved

    -- `htable_insert`; `depth` bounds the calls of it within calls of it; a deeper one is a `fault`.
    pub htable_insert : ℕ → Pointer A → Htable A → Outcome (Status × Htable A)
    unfolding rehash insert_from
    htable_insert zero p t = fault
    htable_insert (suc depth) p t =
        let rehashed = rehash (λ q u. htable_insert depth q u) t (u32 (t.size * 2)) in
        if t.total == t.size then ok (failure, t) else if t.size == 0 then fault else (do
          t' ← if is_above (t.total + 1) t.size t.percent then rehashed else ok t
          t'' ← insert_from t'.size 0 (key p.target) p t'
          ok (success, t''))

    pub htable_rehash : ℕ → Htable A → ℕ → Outcome (Htable A)
    unfolding rehash htable_insert
    htable_rehash depth t new_size = rehash (htable_insert depth) t new_size

    -- The first of the `k` slots from `i + hash` on that holds the address gets NULL. A negative position
    -- is read without an assertion.
    pub remove_from : ℕ → ℕ → ℕ → ℕ → Htable A → Outcome (Htable A)
    remove_from zero i hash address t = ok t
    remove_from (suc k) i hash address t =
        let rest = remove_from k (i + 1) hash address t in
        elim (position t.size i hash) [
          | none ↦ fault
          | some pos ↦
              if has_address (slot t.table pos) address
              then ok (record t { table = set t.table pos none; total = t.total - 1 })
              else rest
        ]

    unfoldable pub htable_remove : ℕ → Pointer A → Htable A → Outcome (Status × Htable A)
    unfolding htable_rehash remove_from
    htable_remove depth p t =
        if t.total == 0 then ok (failure, t) else if t.size == 0 then fault else (do
          t' ←
              if is_below (t.total - 1) t.size (t.percent / 4) && ltb 32 t.size
              then htable_rehash depth t (t.size / 2)
              else ok t
          t'' ← remove_from t'.size 0 (key p.target) p.address t'
          ok (success, t''))

  -- The entry with `num` entries before it.
  pub get_entry : ℕ → Slots A → Option (Pointer A)
  get_entry num [] = none
  get_entry num (none ∷ table) = get_entry num table
  get_entry zero (some p ∷ table) = some p
  get_entry (suc num) (some p ∷ table) = get_entry num table

  unfoldable pub htable_get : Htable A → ℕ → Option (Pointer A)
  unfolding get_entry
  htable_get t num = if leb t.total num then none else get_entry num t.table
