-- ===== src/Mm/Vmem/Alloc/Safety.antt =====
-- What `vmem_alloc` hands out was free, and nothing else changes.
use mathlib.Core.List.{append_assoc}
use racoon.Base.{
  ℕ, ◌+◌, ◌^◌, ◌≤◌, ◌<◌, ◌≡◌, ◌⊎◌, inl, inr, refl, ap, sym, ◌∙◌, subst, arith, true, false, ◌&&◌,
  ◌||◌, List, [], ◌∷◌, ◌++◌, Bool-cases, ok,
}
use racoon.Mm.Vmem.{Tag, Vmem, Machine, kmalloc, set_tag, insert_behind}
use racoon.Mm.Vmem.Tags.{
  in_range, is_owned, AreTiled, NotAt, AreDistinct, IsIn-split, NotAt-pre, NotAt-post,
  AreDistinct-pre, set_tag_at, insert_behind_at, is_owned-append, is_owned_inside, AreTiled-replace,
  AreDistinct-set, AreDistinct-insert, NotAt-append, AreTiled-end,
}
use racoon.Mm.Vmem.Alloc.{rounded, left_part, right_part, vmem_alloc}
use racoon.Mm.Vmem.Alloc.Cut.{IsCut, Cuts, vmem_alloc-Cuts}

-- A range of at least `rsize` that nothing allocated covers becomes allocated; no other address does,
-- and none ceases to be.
abbrev pub Granted : (rsize addr : ℕ) → List Tag → List Tag → Type 0
Granted rsize addr tags tags' =
    (size : ℕ) × (rsize ≤ size)
    × ((x : ℕ)
        → ((in_range addr size x && is_owned tags x) ≡ false)
          × (is_owned tags' x ≡ (in_range addr size x || is_owned tags x)))

-- The tags stay in order, and at different addresses.
abbrev pub AreValid : List Tag → Type 0
AreValid tags = AreTiled 0 tags × AreDistinct tags

abbrev marked_tag : Tag → Tag
marked_tag bt = record bt { allocated = true }

-- One free tag among others, that lie elsewhere.
module _ (bt : Tag) (pre post : List Tag) (tiled : AreTiled 0 (pre ++ (bt ∷ post)))
    (distinct : AreDistinct (pre ++ (bt ∷ post))) (free : bt.allocated ≡ false) where
  not_owned : (x : ℕ) → (in_range bt.addr bt.size x && is_owned (pre ++ (bt ∷ post)) x) ≡ false
  not_owned x = elim (Bool-cases (in_range bt.addr bt.size x)) [
    | inl inside ↦ rw (inside, is_owned_inside 0 x bt pre post tiled free inside) refl
    | inr outside ↦ rw outside refl
  ]

  owned_before : (x : ℕ) → is_owned (pre ++ (bt ∷ post)) x ≡ (is_owned pre x || is_owned post x)
  owned_before x = ground (arith, is_owned-append pre (bt ∷ post) x, free)

  owned_whole :
      (x : ℕ)
      → is_owned (pre ++ (marked_tag bt ∷ post)) x
        ≡ (in_range bt.addr bt.size x || is_owned (pre ++ (bt ∷ post)) x)
  owned_whole x = is_owned-append pre (marked_tag bt ∷ post) x ∙ ground (arith, owned_before x)

  whole-AreTiled : AreTiled 0 (pre ++ (marked_tag bt ∷ post))
  whole-AreTiled = AreTiled-replace 0 bt pre post (marked_tag bt ∷ post) tiled (λ l h. h)

  -- The end of the tag as a tag of its own, at a new address.
  module _ (p size : ℕ) (fresh : NotAt p (pre ++ (bt ∷ post))) (fits : size ≤ bt.size)
      (bound : bt.addr + bt.size < 2 ^ 32) where
    abbrev right : Tag
    right = right_part bt p size

    abbrev left : Tag
    left = left_part bt size

    right_addr : right.addr + size ≡ bt.addr + bt.size
    right_addr = omega (arith, fits, bound)

    left_size : left.size + size ≡ bt.size
    left_size = omega (arith, fits, bound)

    part-AreTiled : AreTiled 0 (pre ++ (left ∷ marked_tag right ∷ post))
    part-AreTiled = AreTiled-replace 0 bt pre post (left ∷ marked_tag right ∷ post) tiled λ l h. (
      h.0,
      omega (arith, left_size, bound),
      (
        omega (arith, right_addr, left_size),
        omega (arith, right_addr, bound),
        subst (λ (e : ℕ). AreTiled e post) (sym right_addr) h.2,
      ),
    )

    owned_part :
        (x : ℕ)
        → is_owned (pre ++ (left ∷ marked_tag right ∷ post)) x
          ≡ (in_range right.addr size x || is_owned (pre ++ (bt ∷ post)) x)
    owned_part x =
        is_owned-append pre (left ∷ marked_tag right ∷ post) x
        ∙ ground (arith, owned_before x, free)

    not_owned_part :
        (x : ℕ) → (in_range right.addr size x && is_owned (pre ++ (bt ∷ post)) x) ≡ false
    not_owned_part x = ground (arith, not_owned x, right_addr, left_size)

    tags_part :
        set_tag (marked_tag right) (insert_behind bt.at right (set_tag left (pre ++ (bt ∷ post))))
        ≡ pre ++ (left ∷ marked_tag right ∷ post)
    tags_part =
        ap (λ (l : List Tag). set_tag (marked_tag right) (insert_behind bt.at right l))
          (set_tag_at left bt pre post elsewhere refl)
        ∙ (ap (set_tag (marked_tag right)) (insert_behind_at right left pre post elsewhere)
            ∙ (ap (set_tag (marked_tag right)) (sym (append_assoc pre (left ∷ []) (right ∷ post)))
                ∙ (set_tag_at (marked_tag right) right (pre ++ (left ∷ [])) post before refl
                    ∙ append_assoc pre (left ∷ []) (marked_tag right ∷ post))))
      where
        elsewhere : NotAt bt.at pre
        elsewhere = AreDistinct-pre bt pre post distinct

        before : NotAt p (pre ++ (left ∷ []))
        before =
            NotAt-append p pre (left ∷ []) (NotAt-pre p pre (bt ∷ post) fresh)
              ((NotAt-post p pre (bt ∷ post) fresh).0, tt)

rounded_bounds : (quantum rsize : ℕ) → rsize + quantum < 2 ^ 32 → rsize ≤ rounded quantum rsize
rounded_bounds quantum rsize h = ground arith

abbrev Grants : (rsize addr : ℕ) → List Tag → List Tag → Type 0
Grants rsize addr tags tags' = AreValid tags' × Granted rsize addr tags tags'

Grants-eq :
    (rsize a a' : ℕ) (t t' n n' : List Tag)
    → a ≡ a'
    → t ≡ t'
    → n ≡ n'
    → Grants rsize a' t' n'
    → Grants rsize a t n
Grants-eq rsize a a' t t' n n' e f g h =
    subst (λ (k : ℕ). Grants rsize k t n) (sym e)
      (subst (λ (l : List Tag). Grants rsize a' l n) (sym f)
        (subst (λ (l : List Tag). Grants rsize a' t' l) (sym g) h))

-- From the cut of a tag that stands between others.
cut_at :
    (v : Vmem) (rsize p addr : ℕ) (tags : List Tag) (c : Cuts v rsize p addr tags)
    (pre post : List Tag)
    → v.tags ≡ pre ++ (c.bt ∷ post)
    → rsize + v.quantum < 2 ^ 32
    → AreValid v.tags
    → NotAt p v.tags
    → AreValid tags × Granted rsize addr v.tags tags
cut_at v rsize p addr tags c pre post same few valid fresh = by_case c.is_cut
  where
    tiled : AreTiled 0 (pre ++ (c.bt ∷ post))
    tiled = subst (AreTiled 0) same valid.0

    distinct : AreDistinct (pre ++ (c.bt ∷ post))
    distinct = subst AreDistinct same valid.1

    bound : c.bt.addr + c.bt.size < 2 ^ 32
    bound = AreTiled-end 0 c.bt pre post tiled

    size : ℕ
    size = rounded v.quantum rsize

    new : Tag
    new = right_part c.bt p size

    fresh' : NotAt p (pre ++ (c.bt ∷ post))
    fresh' = subst (NotAt p) same fresh

    by_case :
        IsCut v.quantum v.tags c.bt (rounded v.quantum rsize) p c.cut c.between
        → AreValid tags × Granted rsize addr v.tags tags
    by_case (inl (whole, between)) =
        Grants-eq rsize addr c.bt.addr v.tags (pre ++ (c.bt ∷ post)) tags
          (pre ++ (marked_tag c.bt ∷ post)) (c.at_cut ∙ ap (λ (t : Tag). t.addr) whole) same
          (c.marked
            ∙ (ap (λ (t : Tag). set_tag (marked_tag t) c.between) whole
                ∙ (ap (set_tag (marked_tag c.bt)) (between ∙ same)
                    ∙ set_tag_at (marked_tag c.bt) c.bt pre post
                        (AreDistinct-pre c.bt pre post distinct) refl)))
          (
            (
              whole-AreTiled c.bt pre post tiled distinct c.free,
              AreDistinct-set c.bt (marked_tag c.bt) pre post refl distinct,
            ),
            (
              c.bt.size,
              omega (arith, rounded_bounds v.quantum rsize few, c.fits),
              λ x. (
                not_owned c.bt pre post tiled distinct c.free x,
                owned_whole c.bt pre post tiled distinct c.free x,
              ),
            ),
          )
    by_case (inr (part, larger, between)) =
        Grants-eq rsize addr new.addr v.tags (pre ++ (c.bt ∷ post)) tags
          (pre ++ (left_part c.bt size ∷ marked_tag new ∷ post))
          (c.at_cut ∙ ap (λ (t : Tag). t.addr) part) same
          (c.marked
            ∙ (ap (λ (t : Tag). set_tag (marked_tag t) c.between) part
                ∙ (ap (set_tag (marked_tag new)) (
                      between
                      ∙ ap
                          (λ (l : List Tag).
                            insert_behind c.bt.at new (set_tag (left_part c.bt size) l))
                          same)
                    ∙ tags_part c.bt pre post tiled distinct c.free p size fresh' c.fits bound)))
          (
            (
              part-AreTiled c.bt pre post tiled distinct c.free p size fresh' c.fits bound,
              AreDistinct-insert c.bt (left_part c.bt size) (marked_tag new) pre post refl fresh'
                  distinct,
            ),
            (
              size,
              rounded_bounds v.quantum rsize few,
              λ x. (
                not_owned_part c.bt pre post tiled distinct c.free p size fresh' c.fits bound x,
                owned_part c.bt pre post tiled distinct c.free p size fresh' c.fits bound x,
              ),
            ),
          )

-- Where an allocator without a source has tags in order, at different addresses, and `kmalloc` gives
-- memory that no tag lies in, a call of `vmem_alloc` for a size that can be rounded up and that returns
-- leaves the tags so. It returns NULL and leaves them as they are, or the address of a range of at
-- least the size, no address of which was allocated: these addresses are allocated then, and of the
-- others those that were.
pub vmem_alloc-Granted :
    (v v' : Vmem) (rsize vmflag addr : ℕ) (m m' : Machine)
    → v.source ≡ 0
    → rsize + v.quantum < 2 ^ 32
    → AreValid v.tags
    → NotAt (kmalloc m).0 v.tags
    → vmem_alloc v rsize vmflag m ≡ ok (addr, v', m')
    → AreValid v'.tags × (((addr ≡ 0) × (v'.tags ≡ v.tags)) ⊎ Granted rsize addr v.tags v'.tags)
vmem_alloc-Granted v v' rsize vmflag addr m m' no_source few valid fresh e =
    by_case (vmem_alloc-Cuts v v' rsize vmflag addr m m' no_source e)
  where
    by_case :
        ((addr ≡ 0) × (v'.tags ≡ v.tags)) ⊎ Cuts v rsize (kmalloc m).0 addr v'.tags
        → AreValid v'.tags × (((addr ≡ 0) × (v'.tags ≡ v.tags)) ⊎ Granted rsize addr v.tags v'.tags)
    by_case (inl (null, same)) =
        (subst (λ (l : List Tag). AreValid l) (sym same) valid, inl (null, same))
    by_case (inr c) =
        let (pre, post, same) = IsIn-split c.bt v.tags c.from_tags in
        let (valid', granted) =
          cut_at v rsize (kmalloc m).0 addr v'.tags c pre post same few valid fresh in
        (valid', inr granted)
