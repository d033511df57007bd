-- ===== src/Ds/Links.antt =====
-- kernel/ds/list.h: doubly linked lists through a structure in each object. The memory is a function of
-- the address of such a structure; NULL is 0.
pub mod Insert
mod Tests
use racoon.Base.{ℕ, ◌==◌, if◌then◌else◌, update}

-- `struct ds_list`
pub record Links : Type 0 where
  pub object : ℕ
  pub prev : ℕ
  pub next : ℕ

abbrev pub Memory : Type 0
Memory = ℕ → Links

abbrev pub set_prev : ℕ → ℕ → Memory → Memory
set_prev l p s = update s l (record (s l) { prev = p })

abbrev pub set_next : ℕ → ℕ → Memory → Memory
set_next l p s = update s l (record (s l) { next = p })

-- A write through a pointer that may be NULL.
abbrev pub unless_null : ℕ → (Memory → Memory) → Memory → Memory
unless_null p write s = if p == 0 then s else write s

pub list_init : (l object : ℕ) → Memory → Memory
list_init l object s = update s l (record { object = object; prev = 0; next = 0 })

-- `NEXT_LINEAR` and `PREV_LINEAR`.
unfoldable pub next_linear : ℕ → Memory → ℕ
next_linear l s = if (s l).next == 0 then 0 else (s (s l).next).object

pub prev_linear : ℕ → Memory → ℕ
prev_linear l s = if (s l).prev == 0 then 0 else (s (s l).prev).object

pub list_remove : ℕ → Memory → Memory
unfolding list_init
list_remove l s =
    let s1 = unless_null (s l).prev (set_next (s l).prev (s l).next) s in
    let s2 = unless_null (s1 l).next (set_prev (s1 l).next (s1 l).prev) s1 in
    list_init l (s2 l).object s2

pub list_insert_before : (position l : ℕ) → Memory → Memory
list_insert_before position l s =
    let s1 = set_prev l (s position).prev s in
    let s2 = set_next l position s1 in
    let s3 = set_prev position l s2 in unless_null (s3 l).prev (set_next (s3 l).prev l) s3

pub list_insert_after : (position l : ℕ) → Memory → Memory
list_insert_after position l s =
    let s1 = set_prev l position s in
    let s2 = set_next l (s1 position).next s1 in
    let s3 = set_next position l s2 in unless_null (s3 l).next (set_prev (s3 l).next l) s3
