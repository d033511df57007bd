-- ===== src/Mm/Vmem/Search/Fit.antt =====
-- `vmem_alloc_search` finds the first tag that fits, or the smallest.
use racoon.Base.{
  ℕ, ◌≤◌, ◌≡◌, ◌⊎◌, inl, inr, refl, ap, sym, ◌∙◌, ltb→lt, arith, Bool, true, false, Option, none,
  some, ltb, List, [], ◌∷◌, Bool-cases,
}
use racoon.Mm.Vmem.{Tag, Vmem, is_bestfit}
use racoon.Mm.Vmem.Search.{is_fit, search_from, vmem_alloc_search}

-- Each tag that is free and large enough has the size `n` at least.
abbrev pub AllLarger : (rsize n : ℕ) → List Tag → Type 0
AllLarger rsize n [] = Unit {0}
AllLarger rsize n (bt ∷ tags) = ((is_fit rsize bt ≡ false) ⊎ (n ≤ bt.size)) × AllLarger rsize n tags

-- None fits.
abbrev pub NoneFits : ℕ → List Tag → Type 0
NoneFits rsize [] = Unit {0}
NoneFits rsize (bt ∷ tags) = (is_fit rsize bt ≡ false) × NoneFits rsize tags

-- `bt` fits and stands behind tags that do not.
abbrev pub IsFirst : ℕ → Tag → List Tag → Type 0
IsFirst rsize bt [] = ⊥
IsFirst rsize bt (other ∷ tags) =
    ((other ≡ bt) × (is_fit rsize other ≡ true))
    ⊎ ((is_fit rsize other ≡ false) × IsFirst rsize bt tags)

abbrev pub IsIn : Tag → List Tag → Type 0
IsIn bt [] = ⊥
IsIn bt (other ∷ tags) = (other ≡ bt) ⊎ IsIn bt tags

-- What the search finds: nothing where no tag fits; the first tag that fits without VMEM_BESTFIT;
-- with it, a tag that fits and is the smallest such.
abbrev pub Finds : (bestfit : Bool) → ℕ → List Tag → Option Tag → Type 0
Finds bestfit rsize tags none = NoneFits rsize tags
Finds false rsize tags (some bt) = IsFirst rsize bt tags
Finds true rsize tags (some bt) =
    IsIn bt tags × (is_fit rsize bt ≡ true) × AllLarger rsize bt.size tags

Finds-cons :
    (rsize : ℕ) (bt : Tag) (tags : List Tag) (found : Option Tag)
    → is_fit rsize bt ≡ false
    → Finds false rsize tags found
    → Finds false rsize (bt ∷ tags) found
Finds-cons rsize bt tags none misses rest = (misses, rest)
Finds-cons rsize bt tags (some other) misses rest = inr (misses, rest)

Finds-best-cons :
    (rsize : ℕ) (next : Tag) (tags : List Tag) (found : Option Tag)
    → is_fit rsize next ≡ false
    → Finds true rsize tags found
    → Finds true rsize (next ∷ tags) found
Finds-best-cons rsize next tags none misses rest = (misses, rest)
Finds-best-cons rsize next tags (some bt) misses (inside, fits, larger) =
    (inr inside, fits, (inl misses, larger))

search_first :
    (rsize : ℕ) (tags : List Tag) → Finds false rsize tags (search_from false rsize none tags)
unfolding search_from
search_first rsize [] = tt
search_first rsize (bt ∷ tags) = elim (Bool-cases (is_fit rsize bt)) [
  | inl fits ↦ rw fits (inl (refl, fits))
  | inr misses ↦ rw misses (
      Finds-cons rsize bt tags (search_from false rsize none tags) misses (search_first rsize tags))
]

-- With a best tag so far, the search finds one that is no larger.
record Best (rsize : ℕ) (best : Tag) (tags : List Tag) (bt : Tag) : Type 0 where
  found : search_from true rsize (some best) tags ≡ some bt
  smaller : bt.size ≤ best.size
  place : (bt ≡ best) ⊎ (IsIn bt tags × (is_fit rsize bt ≡ true))
  smallest : AllLarger rsize bt.size tags

place-cons :
    (rsize : ℕ) (best next bt : Tag) (tags : List Tag)
    → (bt ≡ best) ⊎ (IsIn bt tags × (is_fit rsize bt ≡ true))
    → (bt ≡ best) ⊎ (IsIn bt (next ∷ tags) × (is_fit rsize bt ≡ true))
place-cons rsize best next bt tags (inl e) = inl e
place-cons rsize best next bt tags (inr (inside, fits)) = inr (inr inside, fits)

place_next :
    (rsize : ℕ) (next bt : Tag) (tags : List Tag)
    → is_fit rsize next ≡ true
    → (bt ≡ next) ⊎ (IsIn bt tags × (is_fit rsize bt ≡ true))
    → IsIn bt (next ∷ tags) × (is_fit rsize bt ≡ true)
place_next rsize next bt tags fits (inl e) = (inl (sym e), ap (is_fit rsize) e ∙ fits)
place_next rsize next bt tags fits (inr (inside, fit)) = (inr inside, fit)

search-Best : (rsize : ℕ) (best : Tag) (tags : List Tag) → (bt : Tag) × Best rsize best tags bt
unfolding search_from
search-Best rsize best [] =
    (best, record { found = refl; smaller = omega arith; place = inl refl; smallest = tt })
search-Best rsize best (next ∷ tags) = elim (Bool-cases (is_fit rsize next)) [
  | inr misses ↦
      let (bt, b) = search-Best rsize best tags in
      (
        bt,
        record {
          found = rw misses b.found;
          smaller = b.smaller;
          place = place-cons rsize best next bt tags b.place;
          smallest = (inl misses, b.smallest);
        },
      )
  | inl fits ↦ elim (Bool-cases (ltb next.size best.size)) [
    | inl less ↦
        let (bt, b) = search-Best rsize next tags in
        (
          bt,
          record {
            found = rw (fits, less) b.found;
            smaller = omega (arith, b.smaller, ltb→lt next.size best.size less);
            place = inr (place_next rsize next bt tags fits b.place);
            smallest = (inr b.smaller, b.smallest);
          },
        )
    | inr more ↦
        let (bt, b) = search-Best rsize best tags in
        (
          bt,
          record {
            found = rw (fits, more) b.found;
            smaller = b.smaller;
            place = place-cons rsize best next bt tags b.place;
            smallest = (inr (ground (arith, more, b.smaller)), b.smallest);
          },
        )
  ]
]

search_smallest :
    (rsize : ℕ) (tags : List Tag) → Finds true rsize tags (search_from true rsize none tags)
unfolding search_from
search_smallest rsize [] = tt
search_smallest rsize (next ∷ tags) = elim (Bool-cases (is_fit rsize next)) [
  | inr misses ↦ rw misses (
      Finds-best-cons rsize next tags (search_from true rsize none tags) misses
        (search_smallest rsize tags))
  | inl fits ↦
      let (bt, b) = search-Best rsize next tags in
      let (inside, fit) = place_next rsize next bt tags fits b.place in
      rw (fits, b.found) (inside, fit, (inr b.smaller, b.smallest))
]

by_flag :
    (bestfit : Bool) (rsize : ℕ) (tags : List Tag)
    → Finds bestfit rsize tags (search_from bestfit rsize none tags)
by_flag false rsize tags = search_first rsize tags
by_flag true rsize tags = search_smallest rsize tags

-- `vmem_alloc_search` returns NULL where no free tag is large enough. Otherwise it returns a free tag
-- that is large enough: with VMEM_BESTFIT one of the smallest, without it the first of the list.
pub vmem_alloc_search-Finds :
    (v : Vmem) (rsize vmflag : ℕ)
    → Finds (is_bestfit vmflag) rsize v.tags (vmem_alloc_search v rsize vmflag)
unfolding vmem_alloc_search
vmem_alloc_search-Finds v rsize vmflag = by_flag (is_bestfit vmflag) rsize v.tags
