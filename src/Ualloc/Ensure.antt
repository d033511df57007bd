-- ===== src/Ualloc/Ensure.antt =====
-- `user_ensure` of kernel/ualloc.c: regions for those pages of a range that are not present.
pub mod Pages
use racoon.Base.{
  ℕ, zero, suc, ◌+◌, ◌*◌, ◌/◌, Bool, true, false, not, ltb, ◌==◌, if◌then◌else◌, u32, add32, sub32,
  Option, none, some, Outcome, ok, fault, ◌>>=◌,
}
use racoon.Ualloc.{Code, smk_ok, Process, Machine, page_size, user_alloc_hard}

abbrev pub Ensured : Type 0
Ensured = Outcome (Code × Process × Machine)

-- Go on where the result is SMK_OK.
unfoldable pub on_ok : (Process → Machine → Ensured) → Code × Process × Machine → Ensured
on_ok next (smk_ok, proc, m) = next proc m
on_ok next (rc, proc, m) = ok (rc, proc, m)

-- A region for the pages from `last` to `index`, if there are any.
unfoldable pub fill : (last index : ℕ) → (Process → Machine → Ensured) → Process → Machine → Ensured
fill last index next proc m =
    if index == last
    then next proc m
    else do r ← user_alloc_hard proc last (sub32 index last / page_size) m; on_ok next r

-- The loop with `fuel` rounds left; without one, where the loop would go on, the result is a fault.
-- `present` says which pages are present: what is mapped in meanwhile lies in front of `index`.
unfoldable pub ensure_from :
    (fuel : ℕ) (present : ℕ → Bool) (index end_of last : ℕ) → Process → Machine → Ensured
ensure_from zero present index end_of last proc m =
    if ltb index end_of
    then fault
    else if ltb last end_of
    then fill last end_of (λ p m'. ok (smk_ok, p, m')) proc m
    else ok (smk_ok, proc, m)
ensure_from (suc fuel) present index end_of last proc m =
    let next = add32 index page_size in
    let absent = ensure_from fuel present next end_of last proc m in
    let behind = λ (p : Process) (m' : Machine). ensure_from fuel present next end_of next p m' in
    if ltb index end_of
    then (if present index then fill last index behind proc m else absent)
    else if ltb last end_of
    then fill last end_of (λ p m'. ok (smk_ok, p, m')) proc m
    else ok (smk_ok, proc, m)

-- A round for each page is enough where the range does not wrap around.
unfoldable pub user_ensure : (present : ℕ → Bool) → Process → (ptr pages : ℕ) → Machine → Ensured
user_ensure present proc ptr pages m =
    ensure_from pages present ptr (u32 (ptr + pages * page_size)) ptr proc m
