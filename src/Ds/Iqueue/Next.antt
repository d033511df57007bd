-- ===== src/Ds/Iqueue/Next.antt =====
-- `iqueue_next` takes the first int of the sequence, and may give memory back.
use racoon.Base.{
  ℕ, suc, ◌+◌, ◌-◌, ◌*◌, ◌%◌, ◌≤◌, ◌<◌, ◌≡◌, ◌≢◌, refl, ap, ap₂, ◌∙◌, List, ◌∷◌, arith, length,
  get_or, load-ok, ok, tabulate, tabulate_ext, tabulate-head, add32, sub32, ltb, ◌&&◌, not, ◌==◌,
  ◌>>=◌, true, Option, some, Option-cases, Bool-cases, inl, inr, u32, sym,
}
use native.Mathlib.Nat.{mod-lt, mod-eq_of_lt, mod-eq-sub-mod, div-add-mod, mod-add-mod}
use racoon.Ds.Iqueue.{Iqueue, copy_queue, shrink, next, resized, no_shrink}
use racoon.Ds.Iqueue.Invariant.{IsValid, item, contents, copy_queue-ok}
use racoon.Ds.Iqueue.Add.{contents-resized, IsSized}

-- A multiple of `g` below another one is at least `g` below it.
multiples_apart : (g a b : ℕ) → a % g ≡ 0 → b % g ≡ 0 → a < b → a + g ≤ b
multiples_apart g a b ha hb h = grind (arith, div-add-mod a g, div-add-mod b g)

sub-mod_self : (s g : ℕ) → g ≤ s → s % g ≡ 0 → (s - g) % g ≡ 0
sub-mod_self s g l h = sym (mod-eq-sub-mod l) ∙ h

-- `iq'` is `iq` with its sequence in an array of another size.
pub record Reshaped (iq iq' : Iqueue) : Type 0 where
  pub valid : IsValid iq'
  pub same : contents iq' ≡ contents iq
  pub grow : iq'.grow ≡ iq.grow
  pub size : iq'.size ≤ iq.size

module _ (kmalloc : ℕ → Option (List ℕ)) (sized : IsSized kmalloc) (iq : Iqueue) (iqflags : ℕ)
    (v : IsValid iq) where
  -- The state after a shrink by one step.
  shrunk-Reshaped :
      (queue : List ℕ)
      → iq.count + iq.grow ≤ iq.size
      → iq.initial + iq.grow ≤ iq.size
      → iq.grow ≢ 0
      → length queue ≡ iq.size - iq.grow
      → ((j : ℕ) → j < iq.count → get_or queue j 0 ≡ item iq j)
      → Reshaped iq (resized iq (sub32 iq.size iq.grow) queue)
  shrunk-Reshaped queue room above g len same =
      let small : sub32 iq.size iq.grow ≡ iq.size - iq.grow = omega (arith, v.small) in
      rw small (record {
        valid = record {
          storage = len;
          count_in = omega arith;
          start_in = λ h. h;
          start_le = omega arith;
          small = omega (arith, v.small);
          base = omega arith;
          steps = λ h. ((v.steps g).0, sub-mod_self iq.size iq.grow (omega arith) (v.steps g).1);
        };
        same = contents-resized iq (iq.size - iq.grow) queue (omega arith) same;
        grow = refl;
        size = omega arith;
      })

  same-Reshaped : Reshaped iq iq
  same-Reshaped = record { valid = v; same = refl; grow = refl; size = omega arith }

  copied-Reshaped :
      (queue new_queue : List ℕ)
      → iq.count < iq.size
      → iq.initial < iq.size
      → iq.count % iq.grow ≡ 0
      → iq.grow ≢ 0
      → copy_queue iq.count 0 iq new_queue ≡ ok queue
      → length queue ≡ iq.size - iq.grow
      → ((j : ℕ) → j < iq.count → get_or queue j 0 ≡ item iq j)
      → (iq' : Iqueue) × ((copy_queue iq.count 0 iq new_queue >>= λ queue.
            ok (resized iq (sub32 iq.size iq.grow) queue))
          ≡ ok iq')
        × Reshaped iq iq'
  copied-Reshaped queue new_queue free above due g e len same = (
    _,
    rw e,
    shrunk-Reshaped queue (multiples_apart iq.grow iq.count iq.size due (v.steps g).1 free)
        (multiples_apart iq.grow iq.initial iq.size (v.steps g).0 (v.steps g).1 above) g len same,
  )

  give_back :
      (new_queue : List ℕ)
      → iq.count < iq.size
      → iq.initial < iq.size
      → iq.count % iq.grow ≡ 0
      → iq.grow ≢ 0
      → kmalloc (u32 (4 * sub32 iq.size iq.grow)) ≡ some new_queue
      → (iq' : Iqueue) × ((copy_queue iq.count 0 iq new_queue >>= λ queue.
            ok (resized iq (sub32 iq.size iq.grow) queue))
          ≡ ok iq')
        × Reshaped iq iq'
  give_back new_queue free above due g mem =
      let room = multiples_apart iq.grow iq.count iq.size due (v.steps g).1 free in
      let long : length new_queue ≡ iq.size - iq.grow =
        omega (arith, sized (u32 (4 * sub32 iq.size iq.grow)) new_queue mem, v.small) in
      let (queue, e, len, at) =
        copy_queue-ok iq iq.count 0 new_queue (omega (arith, room)) (record {
          storage = v.storage;
          bounds = omega (arith, v.small, v.start_le);
          non_empty = λ h. omega arith;
        }) in
      copied-Reshaped queue new_queue free above due g e (len ∙ long) (λ j lt. ground (arith, at j))

  shrink-Reshaped :
      iq.count < iq.size → (iq' : Iqueue) × (shrink kmalloc iq iqflags ≡ ok iq') × Reshaped iq iq'
  unfolding shrink
  shrink-Reshaped free = elim (Bool-cases (not (iq.grow == 0) && not (no_shrink iqflags))) [
    | inr kept ↦ (iq, rw kept, same-Reshaped)
    | inl wanted ↦ elim (Bool-cases (ltb iq.initial iq.size && (iq.count % iq.grow == 0))) [
      | inr kept ↦ (iq, rw (wanted, kept), same-Reshaped)
      | inl due ↦ elim (Option-cases (kmalloc (u32 (4 * sub32 iq.size iq.grow)))) [
        | inl no_memory ↦ (iq, rw (wanted, due, no_memory), same-Reshaped)
        | inr (new_queue, mem) ↦
            let (iq', run, shape) =
              give_back new_queue free (ground arith) (ground arith) (ground arith) mem in
            (iq', rw (wanted, due, mem) run, shape)
      ]
    ]
  ]

-- The state of `iqueue_next` before it gives memory back.
abbrev rest_of : Iqueue → Iqueue
rest_of iq = record iq { start = add32 iq.start 1 % iq.size; count = sub32 iq.count 1 }

module _ (iq : Iqueue) (v : IsValid iq) (some_item : 0 < iq.count) where
  rest_fields : (add32 iq.start 1 ≡ iq.start + 1) × (sub32 iq.count 1 ≡ iq.count - 1)
  rest_fields = omega (arith, v.small, v.start_le, v.count_in)

  rest-IsValid : IsValid (rest_of iq)
  rest-IsValid =
      let below : add32 iq.start 1 % iq.size < iq.size = mod-lt _ (omega (arith, v.count_in)) in
      record {
        storage = v.storage;
        count_in = omega (arith, rest_fields, v.count_in);
        start_in = λ h. below;
        start_le = omega (arith, below);
        small = v.small;
        base = v.base;
        steps = v.steps;
      }

  contents-rest : contents iq ≡ get_or iq.queue iq.start 0 ∷ contents (rest_of iq)
  unfolding contents
  contents-rest =
      let one_more : iq.count ≡ suc (iq.count - 1) = omega arith in
      let first : (iq.start + 0) % iq.size ≡ iq.start =
        ap (λ t. t % iq.size) (omega arith)
        ∙ mod-eq_of_lt (v.start_in (omega (arith, v.count_in))) in
      rw (rest_fields.0, rest_fields.1)
        (ap (λ n. tabulate n (item iq)) one_more
          ∙ tabulate-head (iq.count - 1) (item iq)
          ∙ ap₂ ◌∷◌ (ap (λ i. get_or iq.queue i 0) first) (
              tabulate_ext (iq.count - 1) _ _ (λ i lt.
                ap (λ j. get_or iq.queue j 0)
                  (ap (λ t. t % iq.size) (omega arith)
                    ∙ sym (mod-add-mod (iq.start + 1) iq.size i)))))

module _ (kmalloc : ℕ → Option (List ℕ)) (sized : IsSized kmalloc) (iq : Iqueue) (iqflags : ℕ)
    (v : IsValid iq) (some_item : 0 < iq.count) where
  -- On a queue that is not empty `iqueue_next` returns the first int of the sequence and leaves the
  -- others, in their order, whether it shrinks the array or not; the invariant holds again.
  pub next_lem :
      (num : ℕ) × (iq' : Iqueue) × (next kmalloc iq iqflags ≡ ok (num, iq'))
      × IsValid iq'
      × (contents iq ≡ num ∷ contents iq')
      × (iq'.grow ≡ iq.grow)
      × (iq'.size ≤ iq.size)
  unfolding next
  next_lem =
      let (iq', e, shape) =
        shrink-Reshaped kmalloc sized (rest_of iq) iqflags (rest-IsValid iq v some_item)
          (omega (arith, rest_fields iq v some_item, v.count_in)) in
      let positive : ltb 0 iq.count ≡ true = ground arith in
      let first = get_or iq.queue iq.start 0 in
      (
        first,
        iq',
        rw
            (
              positive,
              load-ok iq.queue iq.start 0
                  (omega (arith, v.storage, v.start_in (omega (arith, v.count_in)))),
            )
            (rw e refl),
        shape.valid,
        contents-rest iq v some_item ∙ ap (λ xs. first ∷ xs) (sym shape.same),
        shape.grow,
        shape.size,
      )
