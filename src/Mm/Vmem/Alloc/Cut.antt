-- ===== src/Mm/Vmem/Alloc/Cut.antt =====
-- What `vmem_alloc` does to the boundary tags, step by step.
use racoon.Base.{
  ℕ, ◌/◌, ◌≤◌, ◌≡◌, ◌⊎◌, inl, inr, refl, subst₂, Post_ok, ◌∙◌, arith, true, false, not, Option,
  none, some, leb, leb→le, ◌==◌, List, ◌∷◌, Outcome, ok, halt, ◌>>=◌, ◌>>◌, assert, access, load,
  store, sub32, Post, Post-bind, Post-after, Post-assert, Post-if,
}
use racoon.Mm.Vmem.{
  Tag, Span, Vmem, Machine, kmalloc, vmem_getspan, add_freelist, rem_freelist, if_cached, cache_num,
  size_bit, is_linked, unlink, set_tag, insert_behind,
}
use racoon.Mm.Vmem.Search.{search_tag}
use racoon.Mm.Vmem.Search.Fit.{IsIn}
use racoon.Mm.Vmem.Search.Picked.{IsPicked, search_tag-IsPicked}
use racoon.Mm.Vmem.Alloc.{
  rounded, left_part, right_part, vmem_al_splittag, carve, enter_at, enter, imported, vmem_alloc,
}

-- Tags, source and quantum are those of `v`.
abbrev Same : Vmem → Vmem → Type 0
Same v v' = (v'.tags ≡ v.tags) × (v'.source ≡ v.source) × (v'.quantum ≡ v.quantum)

add_freelist-Same : (v : Vmem) (bt : Tag) → Post (Same v) (add_freelist v bt)
unfolding add_freelist
add_freelist-Same v bt = Post-after (Same v) (size_bit v bt.size) _ λ pos.
    Post-assert (Same v) (not (is_linked bt.at v.free_cache)) _ λ u.
      Post-after (Same v) (load v.free_cache pos) _ λ list.
        Post-after (Same v) (store v.free_cache pos (bt.at ∷ list)) _ λ cache. (refl, refl, refl)

rem_freelist-Same : (v : Vmem) (bt : Tag) → Post (Same v) (rem_freelist v bt)
unfolding rem_freelist
rem_freelist-Same v bt = Post-after (Same v) (cache_num v bt.size) _ λ pos. at_position pos
  where
    at_position :
        (pos : Option ℕ)
        → Post (Same v) (elim pos [
          | none ↦ halt
          | some i ↦ do
            list ← load v.free_cache i
            cache ← store v.free_cache i (unlink bt.at list)
            ok (record v { free_cache = cache })
        ])
    at_position none = tt
    at_position (some i) = Post-after (Same v) (load v.free_cache i) _ λ list.
        Post-after (Same v) (store v.free_cache i (unlink bt.at list)) _ λ cache. (refl, refl, refl)

if_cached-Same :
    (op : Vmem → Tag → Outcome Vmem) (v : Vmem) (bt : Tag)
    → Post (Same v) (op v bt)
    → Post (Same v) (if_cached op v bt)
if_cached-Same op v bt h = Post-after (Same v) (cache_num v bt.size) _ λ pos. at_position pos
  where
    at_position : (pos : Option ℕ) → Post (Same v) (elim pos [ none ↦ ok v | some i ↦ op v bt ])
    at_position none = (refl, refl, refl)
    at_position (some i) = h

-- The tag `cut` for a request is the whole tag, or its end.
abbrev pub IsCut : (quantum : ℕ) → List Tag → Tag → (size p : ℕ) → Tag → List Tag → Type 0
IsCut quantum tags bt size p cut tags' =
    ((cut ≡ bt) × (tags' ≡ tags))
    ⊎ ((cut ≡ right_part bt p size)
        × (quantum ≤ sub32 bt.size size)
        × (tags' ≡ insert_behind bt.at (right_part bt p size) (set_tag (left_part bt size) tags)))

abbrev Carves : Vmem → Tag → ℕ → Machine → Tag × Vmem × Machine → Type 0
Carves v bt size m r =
    IsCut v.quantum v.tags bt size (kmalloc m).0 r.0 r.1.tags × (r.1.source ≡ v.source)

-- The new tag of a split and the tags, or NULL.
abbrev Splits : Vmem → Tag → ℕ → Machine → Option Tag × Vmem × Machine → Type 0
Splits v bt size m r =
    (r.0 ≡ none)
    ⊎ ((r.0 ≡ some (right_part bt (kmalloc m).0 size))
        × (r.1.tags
            ≡ insert_behind bt.at (right_part bt (kmalloc m).0 size)
                (set_tag (left_part bt size) v.tags))
        × (r.1.source ≡ v.source))

vmem_al_splittag-Splits :
    (v : Vmem) (bt : Tag) (size : ℕ) (m : Machine)
    → Post (Splits v bt size m) (vmem_al_splittag v bt size m)
unfolding vmem_al_splittag
vmem_al_splittag-Splits v bt size m =
    Post-if (Splits v bt size m) ((kmalloc m).0 == 0) _ _ (λ e. inl refl)
      λ e. Post-assert (Splits v bt size m) (not bt.allocated) _ λ u. inr (refl, refl, refl)

carve_rest :
    (v : Vmem) (bt : Tag) (size : ℕ) (m : Machine) (cut : Option Tag) (v' : Vmem) (m' : Machine)
    → v.quantum ≤ sub32 bt.size size
    → Splits v bt size m (cut, v', m')
    → Post (Carves v bt size m) (do
      v'' ← elim cut [
        | none ↦ if_cached add_freelist v' bt
        | some tmp ↦ if_cached add_freelist v' (left_part bt size)
      ]
      tmp ← access cut
      ok (tmp, v'', m'))
carve_rest v bt size m none v' m' larger split =
    Post-after (Carves v bt size m) (if_cached add_freelist v' bt) _ λ v''. tt
carve_rest v bt size m (some tmp) v' m' larger (inl e) = cc
carve_rest v bt size m (some tmp) v' m' larger (inr (e, tags, source)) =
    Post-bind (Same v') (Carves v bt size m) (if_cached add_freelist v' (left_part bt size)) _
      (if_cached-Same add_freelist v' (left_part bt size)
        (add_freelist-Same v' (left_part bt size)))
      λ v'' same. (inr (cc, larger, same.0 ∙ tags), same.1 ∙ source)

carve-Carves :
    (v : Vmem) (bt : Tag) (size : ℕ) (m : Machine) → Post (Carves v bt size m) (carve v bt size m)
unfolding carve
carve-Carves v bt size m =
    Post-if (Carves v bt size m) (leb v.quantum (sub32 bt.size size)) _ _
      (λ larger.
        Post-bind (Splits v bt size m) (Carves v bt size m) (vmem_al_splittag v bt size m) _
          (vmem_al_splittag-Splits v bt size m)
          (λ r split.
            carve_rest v bt size m r.0 r.1 r.2 (leb→le v.quantum (sub32 bt.size size) larger)
              split))
      (λ exact. (inl (refl, refl), refl))

abbrev Enters : Vmem → Tag → Vmem → Type 0
Enters v bt v' =
    (v'.tags ≡ set_tag (record bt { allocated = true }) v.tags) × (v'.source ≡ v.source)

enter_at-Enters :
    (v : Vmem) (bt : Tag) (span : Option Span) → Post (Enters v bt) (enter_at v bt span)
unfolding enter_at
enter_at-Enters v bt none = tt
enter_at-Enters v bt (some span) =
    Post-after (Enters v bt) (load span.hash (sub32 bt.addr span.addr / v.quantum)) _ λ held.
      Post-assert (Enters v bt) (held == 0) _ λ u.
        Post-after (Enters v bt) (store span.hash (sub32 bt.addr span.addr / v.quantum) bt.at) _
          λ hash. (refl, refl)

enter-Enters : (v : Vmem) (bt : Tag) → Post (Enters v bt) (enter v bt)
unfolding enter
enter-Enters v bt = enter_at-Enters v bt (vmem_getspan v.spans bt.addr)

-- An allocation without a source returns NULL and changes no tag, or cuts a free tag of the
-- allocator that is large enough, and marks what it cut.
pub record Cuts (v : Vmem) (rsize : ℕ) (p addr : ℕ) (tags : List Tag) : Type 0 where
  pub bt : Tag
  pub cut : Tag
  pub between : List Tag
  pub from_tags : IsIn bt v.tags
  pub free : bt.allocated ≡ false
  pub fits : rounded v.quantum rsize ≤ bt.size
  pub at_cut : addr ≡ cut.addr
  pub is_cut : IsCut v.quantum v.tags bt (rounded v.quantum rsize) p cut between
  pub marked : tags ≡ set_tag (record cut { allocated = true }) between

abbrev Allocates : Vmem → ℕ → Machine → ℕ × Vmem × Machine → Type 0
Allocates v rsize m r = ((r.0 ≡ 0) × (r.1.tags ≡ v.tags)) ⊎ Cuts v rsize (kmalloc m).0 r.0 r.1.tags

sourced : (s t : ℕ) → s ≡ t → t ≡ 0 → (s == 0) ≡ false → ⊥
sourced s t e z h = ground (arith, e, z, h)

alloc-Found :
    (v : Vmem) (rsize : ℕ) (m : Machine) (bt : Tag)
    → v.source ≡ 0
    → IsPicked (rounded v.quantum rsize) v.tags (some bt)
    → Post (Allocates v rsize m) (do
      assert (not bt.allocated)
      v1 ← if_cached rem_freelist v bt
      (cut, v2, m2) ← carve v1 bt (rounded v.quantum rsize) m
      v3 ← enter v2 cut
      imported v3 cut m2)
alloc-Found v rsize m bt no_source picked =
    let size : ℕ = rounded v.quantum rsize in
    Post-assert (Allocates v rsize m) (not bt.allocated) _ λ u.
      Post-bind (Same v) (Allocates v rsize m) (if_cached rem_freelist v bt) _
        (if_cached-Same rem_freelist v bt (rem_freelist-Same v bt))
        λ v1 same.
          Post-bind (Carves v1 bt size m) (Allocates v rsize m) (carve v1 bt size m) _
            (carve-Carves v1 bt size m)
            λ r carved.
              Post-bind (Enters r.1 r.0) (Allocates v rsize m) (enter r.1 r.0) _
                (enter-Enters r.1 r.0)
                λ v3 entered.
                  Post-if (Allocates v rsize m) (v3.source == 0) _ _
                    (λ e. inr (record {
                      bt = bt;
                      cut = r.0;
                      between = r.1.tags;
                      from_tags = picked.0;
                      free = ground (arith, u);
                      fits = picked.1;
                      at_cut = refl;
                      is_cut =
                          subst₂
                            (λ (q : ℕ) (t : List Tag).
                              IsCut q t bt (rounded v.quantum rsize) (kmalloc m).0 r.0 r.1.tags)
                            same.2 same.0 carved.0;
                      marked = entered.0;
                    }))
                    (λ e.
                      absurd
                        (sourced v3.source v.source (entered.1 ∙ (carved.1 ∙ same.1)) no_source e))

allocates :
    (v : Vmem) (rsize vmflag : ℕ) (m : Machine)
    → v.source ≡ 0
    → Post (Allocates v rsize m) (vmem_alloc v rsize vmflag m)
unfolding vmem_alloc
allocates v rsize vmflag m no_source =
    Post-if (Allocates v rsize m) (rsize == 0) _ _ (λ e. inl (refl, refl))
      λ e.
        Post-if (Allocates v rsize m) (v.quantum == 0) _ _ (λ z. tt)
          λ z.
            Post-bind (IsPicked (rounded v.quantum rsize) v.tags) (Allocates v rsize m)
              (search_tag v (rounded v.quantum rsize) vmflag) _
              (search_tag-IsPicked v (rounded v.quantum rsize) vmflag)
              λ found picked. with_found found picked
  where
    with_found :
        (found : Option Tag)
        → IsPicked (rounded v.quantum rsize) v.tags found
        → Post (Allocates v rsize m) (elim found [
          | none ↦ ok (0, v, m)
          | some bt ↦ do
            assert (not bt.allocated)
            v1 ← if_cached rem_freelist v bt
            (cut, v2, m2) ← carve v1 bt (rounded v.quantum rsize) m
            v3 ← enter v2 cut
            imported v3 cut m2
        ])
    with_found none picked = inl (refl, refl)
    with_found (some bt) picked = alloc-Found v rsize m bt no_source picked

-- `vmem_alloc` without a source, where it returns.
pub vmem_alloc-Cuts :
    (v v' : Vmem) (rsize vmflag addr : ℕ) (m m' : Machine)
    → v.source ≡ 0
    → vmem_alloc v rsize vmflag m ≡ ok (addr, v', m')
    → ((addr ≡ 0) × (v'.tags ≡ v.tags)) ⊎ Cuts v rsize (kmalloc m).0 addr v'.tags
vmem_alloc-Cuts v v' rsize vmflag addr m m' no_source e =
    Post_ok (Allocates v rsize m) (vmem_alloc v rsize vmflag m) (addr, v', m') e
      (allocates v rsize vmflag m no_source)
