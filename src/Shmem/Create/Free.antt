-- ===== src/Shmem/Create/Free.antt =====
-- The loop that looks for a free id comes to an end.
use racoon.Base.{
  ℕ, zero, suc, ◌+◌, ◌%◌, ◌^◌, ◌<◌, ◌≡◌, ◌⊎◌, Bool, true, false, none, ◌==◌, ◌||◌, Outcome, ok,
}
use racoon.Ds.Htable.{Pointer, Slots, Htable, slot, is_match}
use racoon.Shmem.{Shmem}
use racoon.Shmem.Create.{retrieve}

-- The ids that are tried, the first of which is `id`.
abbrev nth_id : ℕ → ℕ → ℕ
nth_id id i = (id + i) % 2 ^ 31

abbrev has_id : ℕ → Pointer Shmem → Bool
has_id id p = p.target.id == id

-- One of the first `k` ids.
abbrev hits : ℕ → ℕ → Pointer Shmem → Bool
hits id zero p = false
hits id (suc k) p = has_id (nth_id id k) p || hits id k p

-- A slot holds the id.
abbrev Taken : Slots Shmem → ℕ → Type 0
Taken table id = (j : ℕ) × (is_match (λ sh. sh.id == id) (slot table j) ≡ true)

-- The loop finds an id that `htable_retrieve` does not, or each id that it tried is taken.
abbrev Tried : ℕ → Htable Shmem → ℕ → Outcome (ℕ × ℕ) → Type 0
Tried fuel t id found =
    ((free : ℕ) × (next : ℕ) × (found ≡ ok (free, next)) × (retrieve free t ≡ ok none))
    ⊎ ((i : ℕ) → i < fuel → Taken t.table (nth_id id i))
