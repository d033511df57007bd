-- ===== src/Ds/Htable/Insert.antt =====
-- Insertion, with the move into a larger table, keeps the entries that were there.
use native.Mathlib.Nat.{div-lt_iff_lt-mul, mod-lt}
use racoon.Base.{
  ℕ, zero, suc, ◌+◌, ◌*◌, ◌/◌, ◌%◌, ◌≤◌, ◌<◌, ◌≡◌, refl, ap, ◌∙◌, sym, arith, true, false, none,
  some, ◌==◌, if◌then◌else◌, [], ◌∷◌, length, set, length-set, Bool-cases, inl, inr, subst, success,
  ok, Bool, u32, leb, ◌^◌,
}
use racoon.Ds.Htable.{
  Pointer, Slots, Htable, no_entries, slot, is_null, insert_from, insert_all, rehash, htable_insert,
  filled, is_above,
}
use racoon.Ds.Htable.Retrieve.{probe_reaches, position-small}

abbrev pub bit : Bool → ℕ
bit true = 1
bit false = 0

length-no_entries : (A : Type 0) (k : ℕ) → length (no_entries {A = A} k) ≡ k
unfolding no_entries
length-no_entries A zero = refl
length-no_entries A (suc k) = omega (arith, length-no_entries A k)

module _ {A : Type 0} where
  -- The number of entries of a table that pass a test.
  unfoldable pub count_if : (Pointer A → Bool) → Slots A → ℕ
  count_if f [] = 0
  count_if f (none ∷ table) = count_if f table
  count_if f (some p ∷ table) = bit (f p) + count_if f table

  abbrev pub any : Pointer A → Bool
  any p = true

  -- `total` counts the entries, and `size` is the length of the table.
  pub record IsValid (t : Htable A) : Type 0 where
    pub size_fits : length t.table ≡ t.size
    pub total_fits : t.total ≡ count_if any t.table
    pub some_size : 0 < t.size

  count_if-no_entries : (f : Pointer A → Bool) (k : ℕ) → count_if f (no_entries k) ≡ 0
  unfolding count_if no_entries
  count_if-no_entries f zero = refl
  count_if-no_entries f (suc k) = count_if-no_entries f k

  count_if-set :
      (f : Pointer A → Bool) (table : Slots A) (j : ℕ) (p : Pointer A)
      → j < length table
      → is_null (slot table j) ≡ true
      → count_if f (set table j (some p)) ≡ bit (f p) + count_if f table
  unfolding count_if
  count_if-set f [] j p l h = ground (arith, l)
  count_if-set f (none ∷ table) zero p l h = refl
  count_if-set f (some q ∷ table) zero p l h = ground (arith, h)
  count_if-set f (none ∷ table) (suc j) p l h = count_if-set f table j p (omega (arith, l)) h
  count_if-set f (some q ∷ table) (suc j) p l h =
      omega (arith, count_if-set f table j p (omega (arith, l)) h)

  -- A table with fewer entries than slots has a slot that is NULL.
  free_slot :
      (table : Slots A)
      → count_if any table < length table
      → (j : ℕ) × (j < length table) × (is_null (slot table j) ≡ true)
  unfolding count_if
  free_slot [] h = ground (arith, h)
  free_slot (none ∷ table) h = (0, omega arith, refl)
  free_slot (some p ∷ table) h =
      let (j, l, e) = free_slot table (omega (arith, h)) in (suc j, omega (arith, l), e)

  module _ (room : ℕ → Bool) (key : A → ℕ) where
    insert_from_lem :
        (k i hash m : ℕ) (p : Pointer A) (t : Htable A)
        → m < k
        → i + k + hash ≤ 2 ^ 31
        → is_null (slot t.table ((i + m + hash) % t.size)) ≡ true
        → (i' : ℕ) × (is_null (slot t.table (i' % t.size)) ≡ true)
          × (insert_from room key k i hash p t ≡ ok (filled t (i' % t.size) p))
    unfolding insert_from
    insert_from_lem zero i hash m p t l small h = ground (arith, l)
    insert_from_lem (suc k) i hash zero p t l small h =
        let here : is_null (slot t.table ((i + hash) % t.size)) ≡ true =
          ap (λ (x : ℕ). is_null (slot t.table ((x + hash) % t.size))) (omega arith) ∙ h in
        (
          i + hash,
          here,
          rw (position-small t.size i hash (omega (arith, small)), insert_from) (rw here refl),
        )
    insert_from_lem (suc k) i hash (suc m) p t l small h =
        let same : i + 1 + m ≡ i + suc m = omega arith in
        let at = position-small t.size i hash (omega (arith, small)) in
        let (i', free, e) =
          insert_from_lem k (i + 1) hash m p t (omega (arith, l)) (omega (arith, small))
            (ap (λ (x : ℕ). is_null (slot t.table ((x + hash) % t.size))) same ∙ h) in
        elim (Bool-cases (is_null (slot t.table ((i + hash) % t.size)))) [
          | inl here ↦ (i + hash, here, rw (at, insert_from) (rw here refl))
          | inr further ↦ (i', free, rw (at, insert_from) (rw further e))
        ]

    -- The hash of a pointer, and of each in a table, leaves room for `n` steps in an int.
    abbrev pub Fits : ℕ → Pointer A → Type 0
    Fits n p = n + key p.target ≤ 2 ^ 31

    abbrev pub AllFit : ℕ → Slots A → Type 0
    AllFit n [] = Unit
    AllFit n (none ∷ table) = AllFit n table
    AllFit n (some p ∷ table) = Fits n p × AllFit n table

    -- The table of a valid `t` with one entry more.
    abbrev Adds : Pointer A → Htable A → Htable A → Type 0
    Adds p t t' =
        IsValid t'
        × (t'.size ≡ t.size)
        × (t'.percent ≡ t.percent)
        × ((f : Pointer A → Bool) → count_if f t'.table ≡ bit (f p) + count_if f t.table)

    place-Adds :
        (p : Pointer A) (t : Htable A)
        → IsValid t
        → t.total < t.size
        → Fits t.size p
        → (t' : Htable A) × (insert_from room key t.size 0 (key p.target) p t ≡ ok t') × Adds p t t'
    place-Adds p t valid more small =
        let (j, l, free) =
          free_slot t.table (omega (arith, more, valid.size_fits, valid.total_fits)) in
        let (m, lm, e) =
          probe_reaches t.size (key p.target) j (omega (arith, l, valid.size_fits)) in
        let (i, null, placed) =
          insert_from_lem t.size 0 (key p.target) m p t lm (omega (arith, small)) (
            ap (λ (x : ℕ). is_null (slot t.table x))
              (ap (λ (x : ℕ). (x + key p.target) % t.size) (omega arith) ∙ e)
            ∙ free) in
        let lj : i % t.size < length t.table =
          omega (arith, mod-lt i valid.some_size, valid.size_fits) in
        (filled t (i % t.size) p, placed, filled-Adds p t valid (i % t.size) lj null)
      where
        filled-Adds :
            (p : Pointer A) (t : Htable A)
            → IsValid t
            → (j : ℕ) → j < length t.table
            → is_null (slot t.table j) ≡ true
            → Adds p t (filled t j p)
        filled-Adds p t valid j l null = (
          record {
            size_fits = length-set t.table j (some p) ∙ valid.size_fits;
            total_fits = omega (arith, valid.total_fits, count_if-set any t.table j p l null);
            some_size = valid.some_size;
          },
          refl,
          refl,
          (λ f. count_if-set f t.table j p l null),
        )

    -- Below half of the size, the percentage is at most 50, or it overflows.
    half_full :
        (total size percent : ℕ)
        → 0 < size
        → 50 ≤ percent
        → (total + 1) * 2 ≤ size
        → is_above (total + 1) size percent ≡ false
    half_full total size percent some_size fifty half =
        let few : u32 ((total + 1) * 100) / size < 51 =
          (div-lt_iff_lt-mul some_size).1 (omega (arith, some_size, half)) in
        ground (arith, few, fifty)

    htable_insert_step :
        (depth : ℕ) (p : Pointer A) (t t' t'' : Htable A)
        → t.total < t.size
        → (if is_above (t.total + 1) t.size t.percent
            then rehash room key (λ q u. htable_insert room key depth q u) t (u32 (t.size * 2))
            else ok t)
          ≡ ok t'
        → insert_from room key t'.size 0 (key p.target) p t' ≡ ok t''
        → htable_insert room key (suc depth) p t ≡ ok (success, t'')
    unfolding htable_insert
    htable_insert_step depth p t t' t'' few moved placed =
        let more : (t.total == t.size) ≡ false = ground (arith, few) in
        let size : (t.size == 0) ≡ false = ground (arith, few) in
        rw (more, size, moved, placed) refl

    -- The table of a valid `t` with the entries of `table` as well.
    abbrev Merges : Slots A → Htable A → Htable A → Type 0
    Merges table t t' =
        IsValid t'
        × (t'.size ≡ t.size)
        × (t'.percent ≡ t.percent)
        × ((f : Pointer A → Bool) → count_if f t'.table ≡ count_if f table + count_if f t.table)

    insert_all_lem :
        (depth : ℕ) (table : Slots A) (t : Htable A)
        → IsValid t
        → 50 ≤ t.percent
        → (t.total + count_if any table) * 2 ≤ t.size
        → AllFit t.size table
        → (t' : Htable A) × (insert_all room key
              (λ q u. htable_insert room key (suc depth) q u)
              table
              t
            ≡ ok t')
          × Merges table t t'
    unfolding insert_all count_if
    insert_all_lem depth [] t valid percent half small =
        (t, refl, (valid, refl, refl, (λ f. omega arith)))
    insert_all_lem depth (none ∷ table) t valid percent half small =
        insert_all_lem depth table t valid percent half small
    insert_all_lem depth (some p ∷ table) t valid percent half (fits, small) =
        let (t₁, placed, (valid₁, size₁, percent₁, counts₁)) =
          place-Adds p t valid (omega (arith, half)) fits in
        let below =
          half_full t.total t.size t.percent valid.some_size percent (omega (arith, half)) in
        let (t', done, (valid', size', percent', counts')) =
          insert_all_lem depth table t₁ valid₁ (omega (arith, percent, percent₁))
            (omega (arith, half, size₁, valid₁.total_fits, counts₁ any, valid.total_fits))
            (subst (λ n. AllFit n table) (sym size₁) small) in
        (
          t',
          rw
              (htable_insert_step depth p t t t₁ (omega (arith, half, valid.some_size))
                (rw below refl) placed)
              done,
          (valid', size' ∙ size₁, percent' ∙ percent₁, (λ f. omega (arith, counts' f, counts₁ f))),
        )

    -- The table has been moved, or there was no memory for that.
    rehash_lem :
        (depth : ℕ) (t : Htable A)
        → IsValid t
        → 50 ≤ t.percent
        → t.total < t.size
        → t.size < 2 ^ 29
        → AllFit (t.size * 2) t.table
        → (t' : Htable A) × (rehash room key
              (λ q u. htable_insert room key (suc depth) q u)
              t
              (u32 (t.size * 2))
            ≡ ok t')
          × IsValid t'
          × (t.size ≤ t'.size)
          × (t'.size ≤ t.size * 2)
          × ((f : Pointer A → Bool) → count_if f t'.table ≡ count_if f t.table)
    unfolding rehash
    rehash_lem depth t valid percent few bound small =
        let fresh : Htable A = record t {
          total = 0;
          size = t.size * 2;
          table = no_entries (t.size * 2);
        } in
        let blank : IsValid fresh = record {
          size_fits = length-no_entries A (t.size * 2);
          total_fits = sym (count_if-no_entries any (t.size * 2));
          some_size = omega (arith, few);
        } in
        let (t', done, (valid', size', percent', counts')) =
          insert_all_lem depth t.table fresh blank percent (omega (arith, few, valid.total_fits))
            small in
        let wide : u32 (t.size * 2) ≡ t.size * 2 = omega (arith, bound) in
        let holds : leb (2 ^ 30) (t.size * 2) ≡ false = ground (arith, bound) in
        elim (Bool-cases (room (u32 (4 * (t.size * 2))))) [
          | inl given ↦ (
            t',
            rw (wide, given, holds) done,
            valid',
            omega (arith, size'),
            omega (arith, size'),
            (λ f. omega (arith, counts' f, count_if-no_entries f (t.size * 2))),
          )
          | inr missing ↦ (t, rw (wide, missing) refl, valid, omega arith, omega arith, (λ f. refl))
        ]

    -- A valid table that is not full, allows at least 50 percent and has less than 2^29 slots takes an
    -- entry, where the hashes of it and of those in the table leave room in an int for the probes of a
    -- table of twice the size. Whether there is memory for that table or not, `htable_insert` succeeds
    -- with one call of itself within itself, the result is valid, and for every test the entries that
    -- pass are those of before and the new one.
    pub htable_insert_lem :
        (depth : ℕ) (p : Pointer A) (t : Htable A)
        → IsValid t
        → 50 ≤ t.percent
        → t.total < t.size
        → t.size < 2 ^ 29
        → Fits (t.size * 2) p
        → AllFit (t.size * 2) t.table
        → (t' : Htable A) × (htable_insert room key (suc (suc depth)) p t ≡ ok (success, t'))
          × IsValid t'
          × ((f : Pointer A → Bool) → count_if f t'.table ≡ bit (f p) + count_if f t.table)
    htable_insert_lem depth p t valid percent few bound fits small =
        elim (Bool-cases (is_above (t.total + 1) t.size t.percent)) [
          | inl full ↦
              let (t₁, moved, valid₁, larger, double, counts₁) =
                rehash_lem depth t valid percent few bound small in
              let (t', placed, (valid', size', percent', counts')) =
                place-Adds p t₁ valid₁
                  (omega (arith, few, larger, valid.total_fits, valid₁.total_fits, counts₁ any))
                  (omega (arith, fits, double)) in
              (
                t',
                htable_insert_step (suc depth) p t t₁ t' few (rw full moved) placed,
                valid',
                (λ f. omega (arith, counts' f, counts₁ f)),
              )
          | inr kept ↦
              let (t', placed, (valid', size', percent', counts')) =
                place-Adds p t valid few (omega (arith, fits)) in
              (
                t',
                htable_insert_step (suc depth) p t t t' few (rw kept refl) placed,
                valid',
                counts',
              )
        ]
