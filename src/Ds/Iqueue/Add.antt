-- ===== src/Ds/Iqueue/Add.antt =====
-- `iqueue_add` appends to the sequence, in place or after a resize, or refuses when it is full.
use racoon.Base.{
  ℕ, ◌+◌, ◌-◌, ◌*◌, ◌/◌, ◌%◌, ◌^◌, ◌≤◌, ◌<◌, ◌≡◌, ◌≢◌, refl, ap, ap₂, ◌∙◌, List, [], ◌∷◌, ◌++◌,
  arith, length, get_or, set, length-set, get_or-set_self, get_or-set_ne, store-ok, ok,
  tabulate_ext, tabulate-suc, add32, ◌==◌, dec_lt, ℕ_discrete, ◌>>=◌, true, false, Status, success,
  failure, Option, some, none, Option-cases, Bool-cases, inl, inr, ◌⊎◌, u32, sym,
}
use native.Mathlib.Nat.{mod-lt, mod-eq_of_lt, mod-eq-sub-mod}
use native.Mathlib.Numerals.{add-one}
use racoon.Ds.Iqueue.{Iqueue, copy_queue, put, add, resized, no_grow}
use racoon.Ds.Iqueue.Invariant.{IsValid, item, contents, copy_queue-ok}

-- Once round an array of `s` entries.
pub mod_once : (x s : ℕ) → s ≤ x → x < s + s → x % s ≡ x - s
mod_once x s h l = mod-eq-sub-mod h ∙ mod-eq_of_lt (omega arith)

-- Two places of a queue of at most `s` entries differ.
pub places_differ : (a s n i : ℕ) → a < s → n < s → i < n → (a + n) % s ≢ (a + i) % s
places_differ a s n i ha hn hi = elim (dec_lt (a + n) s) [
  | yes l ↦ omega (arith, mod-eq_of_lt l, mod-eq_of_lt {n = a + i} {m = s} (omega arith))
  | no g ↦ elim (dec_lt (a + i) s) [
    | yes l' ↦ omega (arith, mod_once (a + n) s (omega arith) (omega arith), mod-eq_of_lt l')
    | no g' ↦ omega (
      arith,
      mod_once (a + n) s (omega arith) (omega arith),
      mod_once (a + i) s (omega arith) (omega arith),
    )
  ]
]

-- An array with room for one more int.
pub record HasRoom (iq : Iqueue) : Type 0 where
  pub storage : length iq.queue ≡ iq.size
  pub free : iq.count < iq.size
  pub start_in : iq.start < iq.size
  pub small : iq.size < 2 ^ 30

-- The state after `put`.
abbrev pub appended : Iqueue → ℕ → Iqueue
appended iq num = record iq {
  queue = set iq.queue ((iq.start + iq.count) % iq.size) num;
  count = iq.count + 1;
}

module _ (iq : Iqueue) (num : ℕ) (r : HasRoom iq) where
  place_in : (iq.start + iq.count) % iq.size < iq.size
  place_in = mod-lt _ (omega arith)

  pub put-ok : put iq num ≡ ok (success, appended iq num)
  unfolding put
  put-ok =
      let e : add32 iq.start iq.count ≡ iq.start + iq.count = omega arith in
      let c : add32 iq.count 1 ≡ iq.count + 1 = omega arith in
      rw (e, c, store-ok iq.queue ((iq.start + iq.count) % iq.size) num (omega (arith, place_in)))

  pub contents-appended : contents (appended iq num) ≡ contents iq ++ (num ∷ [])
  unfolding contents
  contents-appended =
      let p = (iq.start + iq.count) % iq.size in
      rw (add-one, tabulate-suc iq.count (item (appended iq num)))
        (ap₂ (λ xs x. xs ++ (x ∷ []))
          (tabulate_ext iq.count _ _ (λ i lt.
            get_or-set_ne iq.queue p ((iq.start + i) % iq.size) num 0
              (places_differ iq.start iq.size iq.count i r.start_in r.free lt)))
          (get_or-set_self iq.queue p num 0 (omega (arith, place_in))))

-- After a resize the sequence is the same.
pub contents-resized :
    (iq : Iqueue) (size : ℕ) (queue : List ℕ)
    → iq.count ≤ size
    → ((j : ℕ) → j < iq.count → get_or queue j 0 ≡ item iq j)
    → contents (resized iq size queue) ≡ contents iq
unfolding contents
contents-resized iq size queue h same = tabulate_ext iq.count _ _ (λ i lt.
    let e : (0 + i) % size ≡ i =
      ap (λ t. t % size) (omega arith) ∙ mod-eq_of_lt {n = i} {m = size} (omega arith) in
    rw e (same i lt))

pub add-mod_self : (s g : ℕ) → s % g ≡ 0 → (s + g) % g ≡ 0
add-mod_self s g h = mod-eq-sub-mod (omega arith) ∙ ap (λ t. t % g) (omega arith) ∙ h

-- `kmalloc` gives as much memory as was asked for.
abbrev pub IsSized : (ℕ → Option (List ℕ)) → Type 0
IsSized kmalloc = (bytes : ℕ) (mem : List ℕ) → kmalloc bytes ≡ some mem → length mem ≡ bytes / 4

-- The value is appended, and the invariant holds again.
abbrev pub Accepted : Iqueue → ℕ → Status × Iqueue → Type 0
Accepted iq num (rc, iq') =
    (rc ≡ success)
    × IsValid iq'
    × (contents iq' ≡ contents iq ++ (num ∷ []))
    × (iq'.grow ≡ iq.grow)
    × (iq'.size ≤ iq.size + iq.grow)

-- The queue is full and may not or cannot grow; nothing changes.
abbrev pub Refused : (ℕ → Option (List ℕ)) → Iqueue → ℕ → Status × Iqueue → Type 0
Refused kmalloc iq iqflags (rc, iq') =
    (rc ≡ failure)
    × (iq' ≡ iq)
    × (iq.count ≡ iq.size)
    × ((iq.grow ≡ 0)
        ⊎ (no_grow iqflags ≡ true)
        ⊎ (kmalloc (u32 (4 * add32 iq.size iq.grow)) ≡ none))

module _ (kmalloc : ℕ → Option (List ℕ)) (sized : IsSized kmalloc) (iq : Iqueue) (num iqflags : ℕ)
    (v : IsValid iq) (bounded : iq.size + iq.grow < 2 ^ 30) where
  put-Accepted : iq.count < iq.size → Accepted iq num (success, appended iq num)
  put-Accepted free =
      let room : HasRoom iq = record {
        storage = v.storage;
        free = free;
        start_in = v.start_in (omega arith);
        small = v.small;
      } in
      (
        refl,
        record {
          storage =
              omega (arith, length-set iq.queue ((iq.start + iq.count) % iq.size) num, v.storage);
          count_in = omega arith;
          start_in = v.start_in;
          start_le = v.start_le;
          small = v.small;
          base = v.base;
          steps = v.steps;
        },
        contents-appended iq num room,
        refl,
        omega arith,
      )

  -- The state after a resize, before the value is put.
  grown-Accepted :
      (queue : List ℕ)
      → iq.grow ≢ 0
      → iq.count ≡ iq.size
      → length queue ≡ iq.size + iq.grow
      → ((j : ℕ) → j < iq.count → get_or queue j 0 ≡ item iq j)
      → (put (resized iq (iq.size + iq.grow) queue) num
          ≡ ok (success, appended (resized iq (iq.size + iq.grow) queue) num))
        × Accepted iq num (success, appended (resized iq (iq.size + iq.grow) queue) num)
  grown-Accepted queue g full len same =
      let iq' = resized iq (iq.size + iq.grow) queue in
      let room : HasRoom iq' = record {
        storage = len;
        free = omega arith;
        start_in = omega arith;
        small = bounded;
      } in
      (
        put-ok iq' num room,
        (
          refl,
          record {
            storage = omega (arith, length-set queue ((0 + iq.count) % (iq.size + iq.grow)) num);
            count_in = omega arith;
            start_in = λ h. omega arith;
            start_le = omega arith;
            small = bounded;
            base = omega arith;
            steps = λ h. ((v.steps g).0, add-mod_self iq.size iq.grow (v.steps g).1);
          },
          contents-appended iq' num room
              ∙ ap (λ xs. xs ++ (num ∷ []))
                  (contents-resized iq (iq.size + iq.grow) queue (omega arith) same),
          refl,
          omega arith,
        ),
      )

  copied-Accepted :
      (queue new_queue : List ℕ)
      → iq.size ≡ iq.count
      → iq.grow ≢ 0
      → copy_queue iq.count 0 iq new_queue ≡ ok queue
      → length queue ≡ iq.size + iq.grow
      → ((j : ℕ) → j < iq.count → get_or queue j 0 ≡ item iq j)
      → (r : Status × Iqueue) × ((copy_queue iq.count 0 iq new_queue >>= λ queue.
            put (resized iq (add32 iq.size iq.grow) queue) num)
          ≡ ok r)
        × Accepted iq num r
  copied-Accepted queue new_queue full g e len same =
      let wide : add32 iq.size iq.grow ≡ iq.size + iq.grow = omega arith in
      let (put_ok, accepted) = grown-Accepted queue g (sym full) len same in
      (_, rw (e, wide) put_ok, accepted)

  grown :
      (new_queue : List ℕ)
      → iq.size ≡ iq.count
      → iq.grow ≢ 0
      → kmalloc (u32 (4 * add32 iq.size iq.grow)) ≡ some new_queue
      → (r : Status × Iqueue) × ((copy_queue iq.count 0 iq new_queue >>= λ queue.
            put (resized iq (add32 iq.size iq.grow) queue) num)
          ≡ ok r)
        × Accepted iq num r
  grown new_queue full g mem =
      let long : length new_queue ≡ iq.size + iq.grow =
        omega (arith, sized (u32 (4 * add32 iq.size iq.grow)) new_queue mem) in
      let (queue, e, len, at) =
        copy_queue-ok iq iq.count 0 new_queue (omega arith)
          (record { storage = v.storage; bounds = omega arith; non_empty = λ h. omega arith }) in
      copied-Accepted queue new_queue full g e (len ∙ long) (λ j lt. ground (arith, at j))

  -- `iqueue_add` returns. Either it answers 0 and the value stands last in the sequence, or it
  -- answers -1 and nothing changed: then the queue is full, and it has no step to grow by, or growing
  -- was forbidden, or there was no memory.
  pub add_lem :
      (r : Status × Iqueue) × (add kmalloc iq num iqflags ≡ ok r)
      × (Accepted iq num r ⊎ Refused kmalloc iq iqflags r)
  unfolding add
  add_lem = elim (ℕ_discrete iq.size iq.count) [
    | no room ↦
        let free : iq.count < iq.size = omega arith in
        let e : (iq.size == iq.count) ≡ false = ground arith in
        (
          _,
          rw e (
              put-ok iq num (record {
                storage = v.storage;
                free = free;
                start_in = v.start_in (omega arith);
                small = v.small;
              })),
          inl (put-Accepted free),
        )
    | yes full ↦
        let e : (iq.size == iq.count) ≡ true = ground arith in
        elim (ℕ_discrete iq.grow 0) [
          | yes g ↦ ((failure, iq), ground arith, inr (refl, refl, sym full, inl g))
          | no g ↦
              let g' : (iq.grow == 0) ≡ false = ground arith in
              elim (Bool-cases (no_grow iqflags)) [
                | inl forbidden ↦
                    ((failure, iq), ground arith, inr (refl, refl, sym full, inr (inl forbidden)))
                | inr allowed ↦ elim (Option-cases (kmalloc (u32 (4 * add32 iq.size iq.grow)))) [
                  | inl no_memory ↦
                      ((failure, iq), ground arith, inr (refl, refl, sym full, inr (inr no_memory)))
                  | inr (new_queue, mem) ↦
                      let (r, run, accepted) = grown new_queue full g mem in
                      (r, rw (e, g', allowed, mem) run, inl accepted)
                ]
              ]
        ]
  ]
