-- ===== src/Mm/Vmem/Search/Picked.antt =====
-- The tag that the searches of kernel/mm/vmem.c find is one of the allocator, and large enough.
use racoon.Base.{
  ℕ, zero, suc, ◌+◌, ◌≤◌, ◌≡◌, inl, inr, refl, arith, Bool, true, false, not, Option, none, some,
  leb, leb→le, ◌==◌, ◌&&◌, ◌||◌, if◌then◌else◌, List, [], ◌∷◌, Bool-cases, load, ltb, Post-if,
  Post-access, Post, Post-bind, Post-after, Post-assert,
}
use racoon.Mm.Vmem.{Tag, Vmem, is_bestfit, is_search, size_bit, find_tag}
use racoon.Mm.Vmem.Search.{
  better, is_fit, is_some, search_list, search_cache, vmem_alloc_search, vmem_alloc_quantum,
  search_tag,
}
use racoon.Mm.Vmem.Search.Fit.{IsIn, IsFirst, Finds, vmem_alloc_search-Finds}

abbrev pub IsPicked : ℕ → List Tag → Option Tag → Type 0
IsPicked rsize tags none = Unit {0}
IsPicked rsize tags (some bt) = IsIn bt tags × (rsize ≤ bt.size)

fit_size : (rsize : ℕ) (bt : Tag) → is_fit rsize bt ≡ true → rsize ≤ bt.size
fit_size rsize bt h = ground arith

IsFirst-IsIn :
    (rsize : ℕ) (bt : Tag) (tags : List Tag)
    → IsFirst rsize bt tags
    → IsIn bt tags × (is_fit rsize bt ≡ true)
IsFirst-IsIn rsize bt [] h = absurd h
IsFirst-IsIn rsize bt (other ∷ tags) (inl (same, fits)) = (inl same, ground (arith, same, fits))
IsFirst-IsIn rsize bt (other ∷ tags) (inr (misses, rest)) =
    let (inside, fits) = IsFirst-IsIn rsize bt tags rest in (inr inside, fits)

Finds-IsPicked :
    (bestfit : Bool) (rsize : ℕ) (tags : List Tag) (found : Option Tag)
    → Finds bestfit rsize tags found
    → IsPicked rsize tags found
Finds-IsPicked bestfit rsize tags none h = tt
Finds-IsPicked false rsize tags (some bt) h =
    let (inside, fits) = IsFirst-IsIn rsize bt tags h in (inside, fit_size rsize bt fits)
Finds-IsPicked true rsize tags (some bt) (inside, fits, larger) = (inside, fit_size rsize bt fits)

find_tag-IsIn : (p : ℕ) (tags : List Tag) (bt : Tag) → find_tag p tags ≡ some bt → IsIn bt tags
unfolding find_tag
find_tag-IsIn p [] bt e = cc
find_tag-IsIn p (other ∷ tags) bt e = elim (Bool-cases (other.at == p)) [
  | inl hit ↦ inl (ground (arith, e, hit))
  | inr miss ↦ inr (find_tag-IsIn p tags bt (ground (arith, e, miss)))
]

better-IsPicked :
    (rsize : ℕ) (tags : List Tag) (bt : Tag) (best : Option Tag)
    → IsIn bt tags
    → rsize ≤ bt.size
    → IsPicked rsize tags best
    → IsPicked rsize tags (better bt best)
better-IsPicked rsize tags bt none inside fits h = (inside, fits)
better-IsPicked rsize tags bt (some best) inside fits h =
    pick (ltb bt.size best.size) (inside, fits) h
  where
    pick :
        (b : Bool)
        → IsPicked rsize tags (some bt)
        → IsPicked rsize tags (some best)
        → IsPicked rsize tags (if b then some bt else some best)
    pick true x y = x
    pick false x y = y

better_fit-IsPicked :
    (rsize : ℕ) (tags : List Tag) (bt : Tag) (best : Option Tag) (b : Bool)
    → IsIn bt tags
    → (b ≡ true → rsize ≤ bt.size)
    → IsPicked rsize tags best
    → IsPicked rsize tags (if b then better bt best else best)
better_fit-IsPicked rsize tags bt best true inside fits h =
    better-IsPicked rsize tags bt best inside (fits refl) h
better_fit-IsPicked rsize tags bt best false inside fits h = h

search_list-IsPicked :
    (bestfit : Bool) (rsize : ℕ) (tags : List Tag) (best : Option Tag) (list : List ℕ)
    → IsPicked rsize tags best
    → Post (λ r. IsPicked rsize tags r.1) (search_list bestfit rsize tags best list)
unfolding search_list
search_list-IsPicked bestfit rsize tags best [] h = h
search_list-IsPicked bestfit rsize tags best (p ∷ list) h =
    Post-access (λ (r : Bool × Option Tag). IsPicked rsize tags r.1) (find_tag p tags) _
      λ bt e.
        Post-assert (λ (r : Bool × Option Tag). IsPicked rsize tags r.1) (not bt.allocated) _
          λ u.
            let inside : IsIn bt tags = find_tag-IsIn p tags bt e in
            Post-if (λ (r : Bool × Option Tag). IsPicked rsize tags r.1)
              (leb rsize bt.size && not bestfit) _ _ (λ t. (inside, ground (arith, t)))
              (λ t.
                search_list-IsPicked bestfit rsize tags
                  (if leb rsize bt.size then better bt best else best) list
                  (better_fit-IsPicked rsize tags bt best (leb rsize bt.size) inside
                    (leb→le rsize bt.size) h))

search_cache-IsPicked :
    (k : ℕ) (bestfit : Bool) (rsize pos : ℕ) (best : Option Tag) (v : Vmem)
    → IsPicked rsize v.tags best
    → Post (IsPicked rsize v.tags) (search_cache k bestfit rsize pos best v)
unfolding search_cache
search_cache-IsPicked zero bestfit rsize pos best v h = h
search_cache-IsPicked (suc k) bestfit rsize pos best v h =
    Post-after (IsPicked rsize v.tags) (load v.free_cache pos) _ λ list.
      Post-bind (λ (r : Bool × Option Tag). IsPicked rsize v.tags r.1) (IsPicked rsize v.tags)
        (search_list bestfit rsize v.tags best list) _
        (search_list-IsPicked bestfit rsize v.tags best list h)
        λ r picked.
          Post-if (IsPicked rsize v.tags) (r.0 || (bestfit && is_some r.1)) _ _ (λ t. picked)
            (λ t. search_cache-IsPicked k bestfit rsize (pos + 1) r.1 v picked)

search-IsPicked :
    (v : Vmem) (size vmflag : ℕ) → IsPicked size v.tags (vmem_alloc_search v size vmflag)
search-IsPicked v size vmflag =
    Finds-IsPicked (is_bestfit vmflag) size v.tags (vmem_alloc_search v size vmflag)
      (vmem_alloc_search-Finds v size vmflag)

-- The tag of either search.
pub search_tag-IsPicked :
    (v : Vmem) (size vmflag : ℕ) → Post (IsPicked size v.tags) (search_tag v size vmflag)
unfolding search_tag vmem_alloc_quantum
search_tag-IsPicked v size vmflag =
    Post-if (IsPicked size v.tags) (is_search vmflag) _ _ (λ t. search-IsPicked v size vmflag)
      λ t.
        Post-bind (IsPicked size v.tags) (IsPicked size v.tags) (vmem_alloc_quantum v size vmflag) _
          (Post-after (IsPicked size v.tags) (size_bit v size) _
            λ bit. search_cache-IsPicked _ (is_bestfit vmflag) size _ none v tt)
          (either v size vmflag)
  where
    either :
        (v : Vmem) (size vmflag : ℕ) (found : Option Tag)
        → IsPicked size v.tags found
        → IsPicked size v.tags
            (elim found [ none ↦ vmem_alloc_search v size vmflag | some bt ↦ some bt ])
    either v size vmflag none h = search-IsPicked v size vmflag
    either v size vmflag (some bt) h = h
