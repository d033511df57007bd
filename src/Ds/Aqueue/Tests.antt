-- ===== src/Ds/Aqueue/Tests.antt =====
-- `aqueue_add` at three objects.
use racoon.Base.{ℕ, ◌≡◌, [], ◌∷◌, Option, some, true, ok, halt, arith}
use racoon.Ds.Aqueue.{Page, Aqueue, create, next, count_of}
use racoon.Ds.Aqueue.Lost.{add_all, add_all-halt}

abbrev heap : ℕ → Option (Page ℕ)
heap bytes = some (λ slot. 7)

add_all-halt_example :
    (fresh : Aqueue ℕ) × (aq : Aqueue ℕ) × (create true 4 2 ≡ some fresh)
    × (add_all heap (3 ∷ 4 ∷ 5 ∷ []) fresh ≡ ok aq)
    × (count_of aq ≡ 0)
    × (next aq ≡ halt)
add_all-halt_example = add_all-halt heap 4 2 (3 ∷ 4 ∷ 5 ∷ []) (omega arith)
