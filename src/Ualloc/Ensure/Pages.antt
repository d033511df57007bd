-- ===== src/Ualloc/Ensure/Pages.antt =====
-- `user_ensure` ends, and its regions have as many pages as were not present.
use racoon.Base.{
  ℕ, zero, suc, ◌+◌, ◌*◌, ◌/◌, ◌^◌, ◌<◌, ◌≡◌, ◌≢◌, ◌⊎◌, inl, inr, refl, ap, sym, ◌∙◌, subst, arith,
  Bool, true, false, not, ltb, ltb→lt, ◌==◌, if◌then◌else◌, List, [], ◌∷◌, ok, halt, fault, ◌>>=◌,
  ◌>>◌, assert, u32, add32, sub32,
}
use racoon.Ualloc.{
  Code, smk_ok, smk_nomem, smk_not_found, smk_requested_nothing, smk_not_aligned, Region, Process,
  Machine, page_size, ensured, with_region, kmalloc, memory_alloc, page_call, user_alloc_hard,
}
use racoon.Ualloc.Ensure.{Ensured, on_ok, fill, ensure_from, user_ensure}

-- The pages of all regions, and the pages of a range that are not present.
abbrev pub page_sum : List Region → ℕ
page_sum [] = 0
page_sum (mem ∷ alloc) = mem.pages + page_sum alloc

abbrev pub absent_pages : (present : ℕ → Bool) → (ptr pages : ℕ) → ℕ
absent_pages present ptr zero = 0
absent_pages present ptr (suc pages) =
    (if present ptr then 0 else 1) + absent_pages present (ptr + page_size) pages

-- With SMK_OK there are `total` pages.
abbrev pub Accounts : ℕ → Code × Process × Machine → Type 0
Accounts total r = (r.0 ≢ smk_ok) ⊎ (page_sum r.1.alloc ≡ total)

-- The call does not run out of rounds, and its result accounts for the pages; an assertion may fail.
abbrev pub Ends : ℕ → Ensured → Type 0
Ends total (ok r) = Accounts total r
Ends total halt = Unit {0}
Ends total fault = ⊥

Ends-if :
    (total : ℕ) (b : Bool) (x y : Ensured)
    → (b ≡ true → Ends total x)
    → (b ≡ false → Ends total y)
    → Ends total (if b then x else y)
Ends-if total true x y h k = h refl
Ends-if total false x y h k = k refl

Ends-assert :
    (total : ℕ) (b : Bool) (x : Ensured) → (b ≡ true → Ends total x) → Ends total (assert b >> x)
Ends-assert total true x h = h refl
Ends-assert total false x h = tt

Ends-bind :
    (middle total : ℕ) (x : Ensured) (f : Code × Process × Machine → Ensured)
    → Ends middle x
    → ((r : Code × Process × Machine) → Accounts middle r → Ends total (f r))
    → Ends total (x >>= f)
Ends-bind middle total (ok r) f h k = k r h
Ends-bind middle total halt f h k = tt
Ends-bind middle total fault f h k = absurd h

user_alloc_hard-Ends :
    (proc : Process) (virtual pages : ℕ) (m : Machine)
    → Ends (pages + page_sum proc.alloc) (user_alloc_hard proc virtual pages m)
unfolding user_alloc_hard
user_alloc_hard-Ends proc virtual pages m =
    Ends-assert (pages + page_sum proc.alloc) (not (pages == 0)) _ λ some_pages.
      Ends-if (pages + page_sum proc.alloc) ((memory_alloc m).0 == 0) _ _ (λ e. inl (λ s. cc))
        λ e.
          Ends-if (pages + page_sum proc.alloc) ((kmalloc (memory_alloc m).1).0 == 0) _ _
            (λ z. inl (λ s. cc))
            λ z.
              Ends-assert (pages + page_sum proc.alloc)
                ((page_call (ensured proc.map virtual pages) (kmalloc (memory_alloc m).1).1).0 == 0)
                (ok (
                  smk_ok,
                  with_region proc (kmalloc (memory_alloc m).1).0 pages 0 (memory_alloc m).0
                      (page_call (ensured proc.map virtual pages) (kmalloc (memory_alloc m).1).1).0,
                  (page_call (ensured proc.map virtual pages) (kmalloc (memory_alloc m).1).1).1,
                ))
                λ found. inr refl

on_ok-Ends :
    (middle total : ℕ) (next : Process → Machine → Ensured) (r : Code × Process × Machine)
    → Accounts middle r
    → ((proc : Process) (m : Machine) → page_sum proc.alloc ≡ middle → Ends total (next proc m))
    → Ends total (on_ok next r)
unfolding on_ok
on_ok-Ends middle total next (smk_ok, proc, m) (inl wrong) k = absurd (wrong refl)
on_ok-Ends middle total next (smk_ok, proc, m) (inr e) k = k proc m e
on_ok-Ends middle total next (smk_nomem, proc, m) h k = inl (λ s. cc)
on_ok-Ends middle total next (smk_not_found, proc, m) h k = inl (λ s. cc)
on_ok-Ends middle total next (smk_requested_nothing, proc, m) h k = inl (λ s. cc)
on_ok-Ends middle total next (smk_not_aligned, proc, m) h k = inl (λ s. cc)

-- A run of `run` pages in front of `index`.
fill-Ends :
    (last index run total : ℕ) (next : Process → Machine → Ensured) (proc : Process) (m : Machine)
    → index ≡ last + run * page_size
    → index < 2 ^ 32
    → ((p : Process) (m' : Machine)
        → page_sum p.alloc ≡ run + page_sum proc.alloc
        → Ends total (next p m'))
    → Ends total (fill last index next proc m)
unfolding fill
fill-Ends last index run total next proc m place bound k =
    Ends-if total (index == last) _ _ (λ same. k proc m (ground (arith, same, place)))
      (λ apart.
        Ends-bind (run + page_sum proc.alloc) total _ _
          (subst
            (λ (n : ℕ).
              Ends (n + page_sum proc.alloc)
                (user_alloc_hard proc last (sub32 index last / page_size) m))
            (omega (arith, place, bound))
            (user_alloc_hard-Ends proc last (sub32 index last / page_size) m))
          λ r h. on_ok-Ends (run + page_sum proc.alloc) total next r h k)

-- The end of the loop, with `run` absent pages in front of it.
last_fill :
    (last end_of run total : ℕ) (proc : Process) (m : Machine)
    → end_of ≡ last + run * page_size
    → end_of < 2 ^ 32
    → total ≡ run + page_sum proc.alloc
    → Ends total (
        if ltb last end_of
        then fill last end_of (λ p m'. ok (smk_ok, p, m')) proc m
        else ok (smk_ok, proc, m))
last_fill last end_of run total proc m place bound count =
    Ends-if total (ltb last end_of) _ _
      (λ some_left.
        fill-Ends last end_of run total (λ p m'. ok (smk_ok, p, m')) proc m place bound
          (λ p m' e. inr (e ∙ sym count)))
      (λ at_end. inr (ground (arith, at_end, place, count)))

-- With `run` absent pages in front of `index` and `fuel` pages from there on.
ensure_from-Ends :
    (fuel : ℕ) (present : ℕ → Bool) (index end_of last run total : ℕ) (proc : Process) (m : Machine)
    → index ≡ last + run * page_size
    → end_of ≡ index + fuel * page_size
    → end_of < 2 ^ 32
    → total ≡ run + absent_pages present index fuel + page_sum proc.alloc
    → Ends total (ensure_from fuel present index end_of last proc m)
unfolding ensure_from
ensure_from-Ends zero present index end_of last run total proc m place at_end bound count =
    Ends-if total (ltb index end_of) _ _
      (λ e. absurd (omega (arith, ltb→lt index end_of e, at_end)))
      λ e.
        last_fill last end_of run total proc m (omega (arith, place, at_end)) bound
          (omega (arith, count))
ensure_from-Ends (suc fuel) present index end_of last run total proc m place at_end bound count =
    let next : ℕ = add32 index page_size in
    let word : add32 index page_size ≡ index + page_size = omega (arith, at_end, bound) in
    let rest : absent_pages present (add32 index page_size) fuel
        ≡ absent_pages present (index + page_size) fuel =
      ap (λ (i : ℕ). absent_pages present i fuel) word in
    Ends-if total (ltb index end_of) _ _
      (λ inside.
        Ends-if total (present index) _ _
          (λ here.
            fill-Ends last index run total _ proc m place (omega (arith, at_end, bound)) λ p m' e.
              ensure_from-Ends fuel present next end_of next 0 total p m' (omega arith)
                (omega (arith, word, at_end)) bound (ground (arith, count, here, rest, e)))
          (λ missing.
            ensure_from-Ends fuel present next end_of last (suc run) total proc m
              (omega (arith, word, place)) (omega (arith, word, at_end)) bound
              (ground (arith, count, missing, rest))))
      (λ outside. absurd (ground (arith, outside, at_end)))

-- For a range that does not wrap around the address space, a round for each page is enough for the loop
-- of `user_ensure`. Unless an assertion of `user_alloc_hard` fails, it returns; with SMK_OK, the
-- regions of the process have as many pages more than before as pages of the range were not present.
pub user_ensure-Ends :
    (present : ℕ → Bool) (proc : Process) (ptr pages : ℕ) (m : Machine)
    → ptr + pages * page_size < 2 ^ 32
    → Ends
        (absent_pages present ptr pages + page_sum proc.alloc)
        (user_ensure present proc ptr pages m)
unfolding user_ensure
user_ensure-Ends present proc ptr pages m bound =
    let word : u32 (ptr + pages * page_size) ≡ ptr + pages * page_size = omega (arith, bound) in
    ensure_from-Ends pages present ptr (u32 (ptr + pages * page_size)) ptr 0
      (absent_pages present ptr pages + page_sum proc.alloc) proc m (omega arith) word
      (omega (arith, word, bound)) (omega arith)
