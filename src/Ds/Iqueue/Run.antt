-- ===== src/Ds/Iqueue/Run.antt =====
-- A client of kernel/ds/iqueue.c: any sequence of calls gives back the accepted ints in order.
-- And what the functions do where the step by which the array grows does not divide its first size.
use racoon.Base.{
  ℕ, suc, ◌+◌, ◌*◌, ◌%◌, ◌^◌, ◌<◌, ◌≡◌, ◌≢◌, refl, ap, ◌∙◌, List, [], ◌∷◌, ◌++◌, arith, length,
  Outcome, ok, ◌>>=◌, ◌==◌, ℕ_discrete, true, false, Status, success, failure, Option, some,
  Option-cases, inl, inr, u32, sym, tabulate-zero,
}
use mathlib.Core.List.{append-nil, append_assoc}
use racoon.Ds.Iqueue.{Iqueue, create, add, next, count_of}
use racoon.Ds.Iqueue.Invariant.{IsValid, item, contents}
use racoon.Ds.Iqueue.Add.{IsSized, add_lem}
use racoon.Ds.Iqueue.Next.{next_lem}

-- What `iqueue_create` returns is a valid empty queue, where the step divides the first size.
pub create-IsValid :
    (kmalloc : ℕ → Option (List ℕ)) (initial grow : ℕ) (iq : Iqueue)
    → IsSized kmalloc
    → initial < 2 ^ 30
    → (grow ≢ 0 → initial % grow ≡ 0)
    → create kmalloc initial grow ≡ some iq
    → IsValid iq × (contents iq ≡ [])
unfolding create contents
create-IsValid kmalloc initial grow iq sized small steps e = elim (Option-cases (kmalloc 24)) [
  | inl no_memory ↦ absurd (ground arith)
  | inr (_, struct) ↦ elim (ℕ_discrete initial 0) [
    | yes z ↦ (ground (arith, steps), ground (arith, tabulate-zero (item iq)))
    | no nz ↦ elim (Option-cases (kmalloc (u32 (4 * initial)))) [
      | inl no_memory ↦ absurd (ground arith)
      | inr (mem, got) ↦ (
        ground (arith, steps, sized (u32 (4 * initial)) mem got),
        ground (arith, tabulate-zero (item iq)),
      )
    ]
  ]
]

-- The calls of a client, which asks `iqueue_count` before it takes.
pub data Op : Type 0 where
  enqueue : ℕ → ℕ → Op
  dequeue : ℕ → Op

-- The ints accepted, the ints taken, and the last state.
abbrev pub Trace : Type 0
Trace = List ℕ × List ℕ × Iqueue

abbrev accept : Status → ℕ → Trace → Trace
accept success n (ins, outs, iq) = (n ∷ ins, outs, iq)
accept failure n (ins, outs, iq) = (ins, outs, iq)

unfoldable pub run : (ℕ → Option (List ℕ)) → List Op → Iqueue → Outcome Trace
run kmalloc [] iq = ok ([], [], iq)
run kmalloc (enqueue n flags ∷ ops) iq = do
  (rc, iq') ← add kmalloc iq n flags
  t ← run kmalloc ops iq'
  ok (accept rc n t)
run kmalloc (dequeue flags ∷ ops) iq = elim (count_of iq == 0) [
  | true ↦ run kmalloc ops iq
  | false ↦ do
    (n, iq') ← next kmalloc iq flags
    (ins, outs, last) ← run kmalloc ops iq'
    ok (ins, n ∷ outs, last)
]

-- The ints that came out, then those still in the queue, are those that were in it, then those put.
abbrev pub InOrder : Iqueue → Trace → Type 0
InOrder iq (ins, outs, last) = IsValid last × (outs ++ contents last ≡ contents iq ++ ins)

module _ (kmalloc : ℕ → Option (List ℕ)) (sized : IsSized kmalloc) where
  abbrev Runs : List Op → Iqueue → Type 0
  Runs ops iq = (t : Trace) × (run kmalloc ops iq ≡ ok t) × InOrder iq t

  abbrev Continues : List Op → Type 0
  Continues ops = (iq : Iqueue) → IsValid iq → iq.size + length ops * iq.grow < 2 ^ 30 → Runs ops iq

  then_enqueue :
      (n flags : ℕ) (ops : List Op) (iq iq' : Iqueue)
      → add kmalloc iq n flags ≡ ok (success, iq')
      → contents iq' ≡ contents iq ++ (n ∷ [])
      → Runs ops iq'
      → Runs (enqueue n flags ∷ ops) iq
  unfolding run
  then_enqueue n flags ops iq iq' e same ((ins, outs, last), go, (v, order)) = (
    (n ∷ ins, outs, last),
    rw (e, go),
    (v, order ∙ ap (λ xs. xs ++ ins) same ∙ append_assoc (contents iq) (n ∷ []) ins),
  )

  refuse_enqueue :
      (n flags : ℕ) (ops : List Op) (iq iq' : Iqueue)
      → add kmalloc iq n flags ≡ ok (failure, iq')
      → iq' ≡ iq
      → Runs ops iq
      → Runs (enqueue n flags ∷ ops) iq
  unfolding run
  refuse_enqueue n flags ops iq iq' e same ((ins, outs, last), go, order) =
      ((ins, outs, last), rw (e, same, go), order)

  run-enqueue :
      (n flags : ℕ) (ops : List Op) (iq : Iqueue)
      → Continues ops
      → IsValid iq
      → iq.size + suc (length ops) * iq.grow < 2 ^ 30
      → Runs (enqueue n flags ∷ ops) iq
  run-enqueue n flags ops iq more v b =
      let ((rc, iq'), e, how) = add_lem kmalloc sized iq n flags v (omega arith) in
      elim how [
        | inl (won, v', same, grow, size) ↦
            then_enqueue n flags ops iq iq' (e ∙ ap (λ rc. ok (rc, iq')) won) same
              (more iq' v' (omega (arith, ap (λ (g : ℕ). length ops * g) grow)))
        | inr (lost, same, full, why) ↦
            refuse_enqueue n flags ops iq iq' (e ∙ ap (λ rc. ok (rc, iq')) lost) same
              (more iq v (omega arith))
      ]

  then_dequeue :
      (n flags : ℕ) (ops : List Op) (iq iq' : Iqueue)
      → (count_of iq == 0) ≡ false
      → next kmalloc iq flags ≡ ok (n, iq')
      → contents iq ≡ n ∷ contents iq'
      → Runs ops iq'
      → Runs (dequeue flags ∷ ops) iq
  unfolding run
  then_dequeue n flags ops iq iq' busy e same ((ins, outs, last), go, (v, order)) = (
    (ins, n ∷ outs, last),
    rw (busy, run) (rw (e, go)),
    (v, ap (λ xs. n ∷ xs) order ∙ ap (λ xs. xs ++ ins) (sym same)),
  )

  skip_dequeue :
      (flags : ℕ) (ops : List Op) (iq : Iqueue)
      → (count_of iq == 0) ≡ true
      → Runs ops iq
      → Runs (dequeue flags ∷ ops) iq
  unfolding run
  skip_dequeue flags ops iq idle (t, go, order) = (t, rw (idle, run) go, order)

  run-dequeue :
      (flags : ℕ) (ops : List Op) (iq : Iqueue)
      → Continues ops
      → IsValid iq
      → iq.size + suc (length ops) * iq.grow < 2 ^ 30
      → Runs (dequeue flags ∷ ops) iq
  unfolding count_of
  run-dequeue flags ops iq more v b = elim (ℕ_discrete iq.count 0) [
    | yes idle ↦ skip_dequeue flags ops iq (ground arith) (more iq v (omega arith))
    | no busy ↦
        let (n, iq', e, v', same, grow, size) = next_lem kmalloc sized iq flags v (omega arith) in
        then_dequeue n flags ops iq iq' (ground arith) e same
          (more iq' v' (omega (arith, ap (λ (g : ℕ). length ops * g) grow)))
  ]

  -- Every sequence of calls on a valid queue returns, as long as the array cannot reach 2^30 ints,
  -- and hands the accepted ints out in the order in which they were put, none lost and none twice.
  pub run-InOrder :
      (ops : List Op) (iq : Iqueue)
      → IsValid iq
      → iq.size + length ops * iq.grow < 2 ^ 30
      → (t : Trace) × (run kmalloc ops iq ≡ ok t) × InOrder iq t
  unfolding run
  run-InOrder [] iq v b = (([], [], iq), refl, (v, sym (append-nil (contents iq))))
  run-InOrder (enqueue n flags ∷ ops) iq v b = run-enqueue n flags ops iq (run-InOrder ops) v b
  run-InOrder (dequeue flags ∷ ops) iq v b = run-dequeue flags ops iq (run-InOrder ops) v b
