-- ===== src/Ds/Aqueue.antt =====
-- kernel/ds/aqueue.c: a queue of objects in a chain of pages. A page is a function of the slot, and the
-- chain is the list of the pages from `page` to `last_page`; the lock is held through each call.
-- A division by an `obj_count` of 0 is a `fault`. `kmalloc` is a parameter.
pub mod Lost
mod Tests
use racoon.Base.{
  ℕ, zero, suc, ◌+◌, ◌*◌, ◌/◌, ◌%◌, Bool, true, false, not, Option, none, some, ltb, leb, ◌==◌,
  ◌&&◌, if◌then◌else◌, List, [], ◌∷◌, ◌++◌, update, Outcome, ok, halt, fault, ◌>>=◌, ◌>>◌, assert,
  u32, add32, sub32, Status, success, failure,
}

module _ (A : Type 0) where
  abbrev pub Page : Type 0
  Page = ℕ → A

  pub record Aqueue : Type 0 where
    pub pages : ℕ
    pub obj_size : ℕ
    pub obj_count : ℕ
    pub position : ℕ
    pub last_position : ℕ
    pub chain : List Page

module _ {A : Type 0} where
  abbrev pub empty_queue : ℕ → ℕ → Aqueue A
  empty_queue size count = record {
    pages = 0;
    obj_size = size;
    obj_count = count;
    position = 0;
    last_position = 0;
    chain = [];
  }

  -- `aqueue_create`: `memory` says whether `kmalloc` gave the structure.
  unfoldable pub create : Bool → ℕ → ℕ → Option (Aqueue A)
  create memory size count = if memory then some (empty_queue size count) else none

  -- Write into the last page; without a page this is an access through NULL.
  pub write_last : ℕ → A → List (Page A) → Outcome (List (Page A))
  write_last slot obj [] = fault
  write_last slot obj (page ∷ []) = ok (update page slot obj ∷ [])
  write_last slot obj (page ∷ next ∷ rest) = do
    rest' ← write_last slot obj (next ∷ rest)
    ok (page ∷ rest')

  -- The end of `aqueue_add`.
  pub copy_in : Aqueue A → ℕ → A → Outcome (Status × Aqueue A)
  copy_in aq page_mod obj = do
    chain ← write_last page_mod obj aq.chain
    ok (success, record aq { chain = chain })

  -- A new page at the end of the chain.
  abbrev pub with_page : Aqueue A → Page A → Aqueue A
  with_page aq page = record aq { pages = add32 aq.pages 1; chain = aq.chain ++ (page ∷ []) }

  -- `sizeof( struct aqueue_page )` is 4.
  pub add : (ℕ → Option (Page A)) → Aqueue A → A → Outcome (Status × Aqueue A)
  add kmalloc aq obj =
      let page_div = aq.last_position / aq.obj_count in
      let page_mod = aq.last_position % aq.obj_count in
      if aq.obj_count == 0
      then fault
      else if (page_mod == 0) && leb aq.pages page_div
      then (elim (kmalloc (u32 (4 + aq.obj_count * aq.obj_size))) [
        | none ↦ ok (failure, aq)
        | some page ↦ copy_in (with_page aq page) page_mod obj
      ])
      else copy_in aq page_mod obj

  -- The pages behind the first; there must be one.
  pub next_pages : List (Page A) → Outcome (List (Page A))
  next_pages [] = fault
  next_pages (page ∷ []) = halt
  next_pages (page ∷ next ∷ rest) = ok (next ∷ rest)

  -- The loop of `aqueue_next` that frees the pages that have been read, `page_div` of them.
  pub free_pages : ℕ → Aqueue A → Outcome (Aqueue A)
  free_pages zero aq = ok aq
  free_pages (suc page_div) aq = do
    rest ← next_pages aq.chain
    free_pages page_div (record aq {
      chain = rest;
      last_position = sub32 aq.last_position aq.obj_count;
      position = sub32 aq.position aq.obj_count;
      pages = sub32 aq.pages 1;
    })

  pub read_first : List (Page A) → ℕ → Outcome A
  read_first [] slot = fault
  read_first (page ∷ rest) slot = ok (page slot)

  unfoldable pub next : Aqueue A → Outcome (A × Aqueue A)
  next aq = if aq.obj_count == 0 then fault else (do
    assert (not (aq.position == aq.last_position))
    aq' ← free_pages (aq.position / aq.obj_count) aq
    obj ← read_first aq'.chain (aq.position % aq.obj_count)
    ok (obj, record aq' { position = add32 aq'.position 1 }))

  -- `aqueue_count`
  pub count_of : Aqueue A → ℕ
  count_of aq = sub32 aq.last_position aq.position
