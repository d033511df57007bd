-- ===== src/Mm/Vmem/Search.antt =====
-- The searches of kernel/mm/vmem.c for a free tag.
pub mod Fit
pub mod Picked
use racoon.Base.{
  ℕ, zero, suc, ◌+◌, ◌-◌, Bool, true, false, not, Option, none, some, ltb, leb, ◌==◌, ◌&&◌, ◌||◌,
  if◌then◌else◌, List, [], ◌∷◌, Outcome, ok, halt, fault, ◌>>=◌, ◌>>◌, assert, access, load,
}
use racoon.Mm.Vmem.{Tag, Vmem, is_bestfit, is_instant, is_search, size_bit, find_tag}

-- `(best_bt == NULL) || (bt->size < best_bt->size)`, and the better one of the two.
abbrev pub better : Tag → Option Tag → Option Tag
better bt none = some bt
better bt (some best) = if ltb bt.size best.size then some bt else some best

abbrev pub is_fit : ℕ → Tag → Bool
is_fit rsize bt = not bt.allocated && leb rsize bt.size

-- The loop of `vmem_alloc_search`, with the best tag so far.
unfoldable pub search_from : (bestfit : Bool) → ℕ → Option Tag → List Tag → Option Tag
search_from bestfit rsize best [] = best
search_from bestfit rsize best (bt ∷ tags) =
    let on = search_from bestfit rsize (if is_fit rsize bt then better bt best else best) tags in
    if is_fit rsize bt && not bestfit then some bt else on

unfoldable pub vmem_alloc_search : Vmem → (rsize vmflag : ℕ) → Option Tag
vmem_alloc_search v rsize vmflag = search_from (is_bestfit vmflag) rsize none v.tags

-- The loop of `vmem_alloc_quantum` over one list of free tags. The flag says that the function returns.
unfoldable pub search_list :
    (bestfit : Bool) → ℕ → List Tag → Option Tag → List ℕ → Outcome (Bool × Option Tag)
search_list bestfit rsize tags best [] = ok (false, best)
search_list bestfit rsize tags best (p ∷ list) = do
  bt ← access (find_tag p tags)
  assert (not bt.allocated)
  let on = search_list bestfit rsize tags (if leb rsize bt.size then better bt best else best) list
  if leb rsize bt.size && not bestfit then ok (true, some bt) else on

abbrev pub is_some : Option Tag → Bool
is_some none = false
is_some (some bt) = true

-- The loop of `vmem_alloc_quantum` over the lists from `pos` on, `k` of them.
unfoldable pub search_cache :
    ℕ → (bestfit : Bool) → ℕ → (pos : ℕ) → Option Tag → Vmem → Outcome (Option Tag)
search_cache zero bestfit rsize pos best v = ok best
search_cache (suc k) bestfit rsize pos best v = do
  list ← load v.free_cache pos
  (found, best') ← search_list bestfit rsize v.tags best list
  let on = search_cache k bestfit rsize (pos + 1) best' v
  if found || (bestfit && is_some best') then ok best' else on

unfoldable pub vmem_alloc_quantum : Vmem → (rsize vmflag : ℕ) → Outcome (Option Tag)
vmem_alloc_quantum v rsize vmflag = do
  bit ← size_bit v rsize
  let pos = if is_instant vmflag then bit + 1 else bit
  search_cache (v.cache_bits - pos) (is_bestfit vmflag) rsize pos none v

-- The two searches as `vmem_alloc` makes them.
unfoldable pub search_tag : Vmem → (size vmflag : ℕ) → Outcome (Option Tag)
search_tag v size vmflag = if is_search vmflag then ok (vmem_alloc_search v size vmflag) else do
  found ← vmem_alloc_quantum v size vmflag
  ok (elim found [ none ↦ vmem_alloc_search v size vmflag | some bt ↦ some bt ])
