-- ===== src/Ds/Htable/Tests.antt =====
-- The hash table on small tables.
use racoon.Base.{
  ℕ, ◌+◌, ◌*◌, ◌≡◌, refl, arith, Bool, true, none, some, ◌==◌, [], ◌∷◌, success, ok, halt, false,
  Option, ◌^◌, ◌-◌,
}
use racoon.Ds.Htable.{Pointer, Htable, slot, is_match, htable_insert, htable_retrieve, position}
use racoon.Ds.Htable.Retrieve.{htable_retrieve_lem}
use racoon.Ds.Htable.Insert.{IsValid, htable_insert_lem, count_if, bit}

abbrev key : ℕ → ℕ
key id = id * 100

abbrev always : ℕ → Bool
always bytes = true

abbrev object : ℕ → Pointer ℕ
object id = record { address = 4096 + id; target = id }

-- Two of three slots are in use, and a third entry would be more than 50 percent.
abbrev two_entries : Htable ℕ
two_entries = record {
  total = 2;
  size = 3;
  percent = 50;
  table = some (object 0) ∷ some (object 1) ∷ none ∷ [];
}

two_entries-IsValid : IsValid two_entries
unfolding count_if
two_entries-IsValid = record { size_fits = refl; total_fits = refl; some_size = omega arith }

-- The table grows to six slots.
moved :
    htable_insert always key 2 (object 5) two_entries
    ≡ ok (
      success,
      record {
        total = 3;
        size = 6;
        percent = 50;
        table = some (object 0) ∷ none ∷ some (object 5) ∷ none ∷ some (object 1) ∷ none ∷ [];
      },
    )
unfolding htable_insert position
moved = refl

htable_insert_example :
    (t' : Htable ℕ) × (htable_insert always key 2 (object 5) two_entries ≡ ok (success, t'))
    × IsValid t'
    × ((f : Pointer ℕ → Bool)
        → count_if f t'.table ≡ bit (f (object 5)) + count_if f two_entries.table)
htable_insert_example =
    htable_insert_lem always key 0 (object 5) two_entries two_entries-IsValid (omega arith)
      (omega arith) (omega arith) (omega arith) (omega arith, (omega arith, tt))

-- Without memory for the larger table the entry goes into the free slot.
not_moved :
    htable_insert (λ bytes. false) key 2 (object 5) two_entries
    ≡ ok (
      success,
      record two_entries {
        total = 3;
        table = some (object 0) ∷ some (object 1) ∷ some (object 5) ∷ [];
      },
    )
unfolding htable_insert position
not_moved = refl

-- A hash near 2^31: the second probe overflows, and its remainder is negative.
overflowed : htable_retrieve (λ id. id == 7) (2 ^ 31 - 1) two_entries ≡ halt
unfolding htable_retrieve position
overflowed = refl

htable_retrieve_example :
    (entry : Option (Pointer ℕ)) × (htable_retrieve (λ id. id == 1) 100 two_entries ≡ ok entry)
    × ((j : ℕ)
        → is_match (λ id. id == 1) (slot two_entries.table j) ≡ true
        → is_match (λ id. id == 1) entry ≡ true)
    × (is_match (λ id. id == 1) entry ≡ true → (j : ℕ) × (slot two_entries.table j ≡ entry))
    × (is_match (λ id. id == 1) entry ≡ false → entry ≡ none)
htable_retrieve_example =
    htable_retrieve_lem (λ id. id == 1) 100 two_entries (omega arith) refl (omega arith)
