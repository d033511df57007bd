-- ===== src/Mm/Vmem/Tags.antt =====
-- The list of boundary tags of kernel/mm/vmem.c: which addresses are allocated, and what a cut of one
-- free tag does to them.
use racoon.Base.{
  ℕ, ◌+◌, ◌^◌, ◌≤◌, ◌<◌, ◌≡◌, ◌≢◌, inl, inr, refl, ap, sym, ◌∙◌, subst, arith, Bool, true, false,
  ltb, leb, ◌&&◌, ◌||◌, List, [], ◌∷◌, ◌++◌,
}
use racoon.Mm.Vmem.{Tag, set_tag, insert_behind}
use racoon.Mm.Vmem.Search.Fit.{IsIn}

abbrev pub in_range : (addr size x : ℕ) → Bool
in_range addr size x = leb addr x && ltb x (addr + size)

-- An allocated tag covers the address.
abbrev pub is_owned : List Tag → ℕ → Bool
is_owned [] x = false
is_owned (bt ∷ tags) x = (bt.allocated && in_range bt.addr bt.size x) || is_owned tags x

-- The tags are in order from `lo` on and do not overlap, in an address space of 32 bits.
abbrev pub AreTiled : ℕ → List Tag → Type 0
AreTiled lo [] = Unit {0}
AreTiled lo (bt ∷ tags) =
    (lo ≤ bt.addr) × (bt.addr + bt.size < 2 ^ 32) × AreTiled (bt.addr + bt.size) tags

-- No tag lies at the address `p`.
abbrev pub NotAt : ℕ → List Tag → Type 0
NotAt p [] = Unit {0}
NotAt p (bt ∷ tags) = (bt.at ≢ p) × NotAt p tags

abbrev pub AreDistinct : List Tag → Type 0
AreDistinct [] = Unit {0}
AreDistinct (bt ∷ tags) = NotAt bt.at tags × AreDistinct tags

pub IsIn-split :
    (bt : Tag) (tags : List Tag)
    → IsIn bt tags
    → (pre : List Tag) × (post : List Tag) × (tags ≡ pre ++ (bt ∷ post))
IsIn-split bt [] h = absurd h
IsIn-split bt (other ∷ tags) (inl e) = ([], tags, ap (λ (t : Tag). t ∷ tags) e)
IsIn-split bt (other ∷ tags) (inr h) =
    let (pre, post, e) = IsIn-split bt tags h in
    (other ∷ pre, post, ap (λ (l : List Tag). other ∷ l) e)

pub NotAt-pre : (p : ℕ) (pre tags : List Tag) → NotAt p (pre ++ tags) → NotAt p pre
NotAt-pre p [] tags h = tt
NotAt-pre p (bt ∷ pre) tags h = (h.0, NotAt-pre p pre tags h.1)

pub NotAt-post : (p : ℕ) (pre tags : List Tag) → NotAt p (pre ++ tags) → NotAt p tags
NotAt-post p [] tags h = h
NotAt-post p (bt ∷ pre) tags h = NotAt-post p pre tags h.1

-- The tags in front of a tag lie elsewhere.
pub AreDistinct-pre :
    (bt : Tag) (pre post : List Tag) → AreDistinct (pre ++ (bt ∷ post)) → NotAt bt.at pre
AreDistinct-pre bt [] post h = tt
AreDistinct-pre bt (other ∷ pre) post h =
    let apart : bt.at ≢ other.at = (NotAt-post other.at pre (bt ∷ post) h.0).0 in
    ((λ e. apart (sym e)), AreDistinct-pre bt pre post h.1)

pub set_tag_at :
    (new bt : Tag) (pre post : List Tag)
    → NotAt new.at pre
    → bt.at ≡ new.at
    → set_tag new (pre ++ (bt ∷ post)) ≡ pre ++ (new ∷ post)
unfolding set_tag
set_tag_at new bt [] post h e = ground (arith, e)
set_tag_at new bt (other ∷ pre) post h e = ground (arith, h.0, set_tag_at new bt pre post h.1 e)

pub insert_behind_at :
    (new bt : Tag) (pre post : List Tag)
    → NotAt bt.at pre
    → insert_behind bt.at new (pre ++ (bt ∷ post)) ≡ pre ++ (bt ∷ new ∷ post)
unfolding insert_behind
insert_behind_at new bt [] post h = ground arith
insert_behind_at new bt (other ∷ pre) post h =
    ground (arith, h.0, insert_behind_at new bt pre post h.1)

pub is_owned-append :
    (pre tags : List Tag) (x : ℕ) → is_owned (pre ++ tags) x ≡ (is_owned pre x || is_owned tags x)
is_owned-append [] tags x = refl
is_owned-append (bt ∷ pre) tags x = ground (arith, is_owned-append pre tags x)

-- What covers addresses below `lo` is no tag that begins behind.
is_owned_below : (lo x : ℕ) (tags : List Tag) → AreTiled lo tags → x < lo → is_owned tags x ≡ false
is_owned_below lo x [] h less = refl
is_owned_below lo x (bt ∷ tags) h less =
    ground (arith, h.0, is_owned_below (bt.addr + bt.size) x tags h.2)

AreTiled-le :
    (lo : ℕ) (bt : Tag) (pre post : List Tag) → AreTiled lo (pre ++ (bt ∷ post)) → lo ≤ bt.addr
AreTiled-le lo bt [] post h = h.0
AreTiled-le lo bt (other ∷ pre) post h =
    omega (arith, h.0, AreTiled-le (other.addr + other.size) bt pre post h.2)

-- Within a free tag nothing is allocated.
pub is_owned_inside :
    (lo x : ℕ) (bt : Tag) (pre post : List Tag)
    → AreTiled lo (pre ++ (bt ∷ post))
    → bt.allocated ≡ false
    → in_range bt.addr bt.size x ≡ true
    → is_owned (pre ++ (bt ∷ post)) x ≡ false
is_owned_inside lo x bt [] post h free inside =
    ground (arith, free, is_owned_below (bt.addr + bt.size) x post h.2)
is_owned_inside lo x bt (other ∷ pre) post h free inside = ground (
  arith,
  is_owned_inside (other.addr + other.size) x bt pre post h.2 free inside,
  AreTiled-le (other.addr + other.size) bt pre post h.2,
)

-- The same tags with others in the place of `bt`.
pub AreTiled-replace :
    (lo : ℕ) (bt : Tag) (pre post new : List Tag)
    → AreTiled lo (pre ++ (bt ∷ post))
    → ((l : ℕ) → AreTiled l (bt ∷ post) → AreTiled l new)
    → AreTiled lo (pre ++ new)
AreTiled-replace lo bt [] post new h k = k lo h
AreTiled-replace lo bt (other ∷ pre) post new h k =
    (h.0, h.1, AreTiled-replace (other.addr + other.size) bt pre post new h.2 k)

-- Another tag at the same address, and one at a new address behind it.
pub NotAt-insert :
    (q : ℕ) (bt new right : Tag) (pre post : List Tag)
    → new.at ≡ bt.at
    → right.at ≢ q
    → NotAt q (pre ++ (bt ∷ post))
    → NotAt q (pre ++ (new ∷ right ∷ post))
NotAt-insert q bt new right [] post e apart h = ((λ s. h.0 (sym e ∙ s)), (apart, h.1))
NotAt-insert q bt new right (other ∷ pre) post e apart h =
    (h.0, NotAt-insert q bt new right pre post e apart h.1)

NotAt-set :
    (q : ℕ) (bt new : Tag) (pre post : List Tag)
    → new.at ≡ bt.at
    → NotAt q (pre ++ (bt ∷ post))
    → NotAt q (pre ++ (new ∷ post))
NotAt-set q bt new [] post e h = ((λ s. h.0 (sym e ∙ s)), h.1)
NotAt-set q bt new (other ∷ pre) post e h = (h.0, NotAt-set q bt new pre post e h.1)

pub AreDistinct-set :
    (bt new : Tag) (pre post : List Tag)
    → new.at ≡ bt.at
    → AreDistinct (pre ++ (bt ∷ post))
    → AreDistinct (pre ++ (new ∷ post))
AreDistinct-set bt new [] post e h = (subst (λ (q : ℕ). NotAt q post) (sym e) h.0, h.1)
AreDistinct-set bt new (other ∷ pre) post e h =
    (NotAt-set other.at bt new pre post e h.0, AreDistinct-set bt new pre post e h.1)

pub AreDistinct-insert :
    (bt new right : Tag) (pre post : List Tag)
    → new.at ≡ bt.at
    → NotAt right.at (pre ++ (bt ∷ post))
    → AreDistinct (pre ++ (bt ∷ post))
    → AreDistinct (pre ++ (new ∷ right ∷ post))
AreDistinct-insert bt new right [] post e fresh h =
    (((λ s. fresh.0 (sym (s ∙ e))), subst (λ (q : ℕ). NotAt q post) (sym e) h.0), (fresh.1, h.1))
AreDistinct-insert bt new right (other ∷ pre) post e fresh h = (
  NotAt-insert other.at bt new right pre post e (λ s. fresh.0 (sym s)) h.0,
  AreDistinct-insert bt new right pre post e fresh.1 h.1,
)

pub NotAt-append :
    (p : ℕ) (pre tags : List Tag) → NotAt p pre → NotAt p tags → NotAt p (pre ++ tags)
NotAt-append p [] tags h k = k
NotAt-append p (bt ∷ pre) tags h k = (h.0, NotAt-append p pre tags h.1 k)

pub AreTiled-end :
    (lo : ℕ) (bt : Tag) (pre post : List Tag)
    → AreTiled lo (pre ++ (bt ∷ post))
    → bt.addr + bt.size < 2 ^ 32
AreTiled-end lo bt [] post h = h.1
AreTiled-end lo bt (other ∷ pre) post h = AreTiled-end (other.addr + other.size) bt pre post h.2
