-- ===== src/Irq/Rounds.antt =====
-- An interrupt that no thread accepts is handed to every thread in turn.
use native.Mathlib.Nat.{mod-lt, mod-add-mod, mod-eq_of_lt}
use racoon.Base.{
  ℕ, zero, suc, ◌+◌, ◌%◌, ◌^◌, ◌≤◌, ◌<◌, ◌≡◌, refl, ap, ap₂, subst, ◌∙◌, arith, Bool, true, false,
  ◌||◌, dec_lt, leb, ltb, ◌==◌, List, [], ◌∷◌, length, length-set, get_or, load-ok, set, add32,
  add64, success, Outcome, ok, ◌>>=◌,
}
use racoon.Irq.{
  Ptr, IrqStub, IrqHook, IrqCall, queued, dequeued, yielded, apic_acked, line_acked, running,
  irq_complete, irq_handler,
}

-- The thread at a position.
abbrev pub thread_at : IrqHook → ℕ → Ptr
thread_at handler pos = (get_or handler.stubs pos (record { tr = 0; ack = 0; nop = 0 })).tr

-- The thread that a rejection hands the interrupt to, or `tr` itself.
abbrev next_of : Ptr → List IrqCall → Ptr
next_of tr (queued next ∷ calls) = next
next_of tr (dequeued other ∷ calls) = tr
next_of tr (yielded ∷ calls) = tr
next_of tr (apic_acked ∷ calls) = tr
next_of tr (line_acked irq ∷ calls) = tr
next_of tr [] = tr

-- The threads that get the interrupt, of which each rejects it, `k` of them.
pub reject_all : ℕ → ℕ → Ptr → IrqHook → Outcome (IrqHook × List Ptr)
reject_all zero irq tr handler = ok (handler, [])
reject_all (suc k) irq tr handler = do
  (rc, handler', calls) ← irq_complete tr irq 1 handler
  (handler'', threads) ← reject_all k irq (next_of tr calls) handler'
  ok (handler'', tr ∷ threads)

-- The threads from the `i`-th on, in the order of the positions behind `last`.
unfoldable pub in_turn : IrqHook → ℕ → ℕ → List Ptr
in_turn handler zero i = []
in_turn handler (suc k) i =
    thread_at handler ((i + handler.last) % handler.count) ∷ in_turn handler k (i + 1)

-- A hook with handlers, of which `last` is one.
pub record IsReady (handler : IrqHook) : Type 0 where
  pub fits : length handler.stubs ≡ handler.count
  pub some_handler : 0 < handler.count
  pub few : handler.count < 2 ^ 31
  pub last_fits : handler.last < handler.count

-- After one rejection.
abbrev rejected_hook : IrqHook → ℕ → IrqHook
rejected_hook handler pos =
    let stub = get_or handler.stubs pos (record { tr = 0; ack = 0; nop = 0 }) in
    record handler {
      stubs = set handler.stubs pos (record stub { nop = add64 stub.nop 1 });
      index = add32 handler.index 1;
    }

same_threads :
    (stubs : List IrqStub) (pos q n : ℕ) (d : IrqStub)
    → (get_or (set stubs pos (record (get_or stubs pos d) { nop = n })) q d).tr
      ≡ (get_or stubs q d).tr
same_threads [] pos q n d = refl
same_threads (stub ∷ stubs) zero zero n d = refl
same_threads (stub ∷ stubs) zero (suc q) n d = refl
same_threads (stub ∷ stubs) (suc pos) zero n d = refl
same_threads (stub ∷ stubs) (suc pos) (suc q) n d = same_threads stubs pos q n d

rejected_hook-IsReady :
    (handler : IrqHook) (pos : ℕ) → IsReady handler → IsReady (rejected_hook handler pos)
rejected_hook-IsReady handler pos ready = record {
  fits = length-set handler.stubs pos _ ∙ ready.fits;
  some_handler = ready.some_handler;
  few = ready.few;
  last_fits = ready.last_fits;
}

in_turn_same :
    (handler : IrqHook) (pos k i : ℕ)
    → in_turn (rejected_hook handler pos) k i ≡ in_turn handler k i
unfolding in_turn
in_turn_same handler pos zero i = refl
in_turn_same handler pos (suc k) i =
    ap₂ ◌∷◌
      (same_threads handler.stubs pos ((i + handler.last) % handler.count) _
        (record { tr = 0; ack = 0; nop = 0 }))
      (in_turn_same handler pos k (i + 1))

-- The position and the thread of the handler that is running.
abbrev running_position : IrqHook → ℕ
running_position handler = (handler.index + handler.last) % handler.count

abbrev running_thread : IrqHook → Ptr
running_thread handler = thread_at handler (running_position handler)

module _ (irq : ℕ) (valid : irq < 24) (handler : IrqHook) (ready : IsReady handler) where
  -- A rejection with threads left hands the interrupt to the next.
  irq_complete_next :
      suc handler.index < handler.count
      → irq_complete (running_thread handler) irq 1 handler
        ≡ ok (
          success,
          rejected_hook handler (running_position handler),
          queued (
                thread_at
                  (rejected_hook handler (running_position handler))
                  ((running_position handler + 1) % handler.count))
              ∷ dequeued (running_thread handler)
              ∷ [],
        )
  unfolding irq_complete running
  irq_complete_next more =
      let in_range : leb 24 irq ≡ false = ground (arith, valid) in
      let any : (handler.count == 0) ≡ false = ground (arith, ready.some_handler) in
      let blank : IrqStub = record { tr = 0; ack = 0; nop = 0 } in
      let inside : running_position handler < length handler.stubs =
        omega (arith, mod-lt (handler.index + handler.last) ready.some_handler, ready.fits) in
      let own : ((running_thread handler) == (running_thread handler)) ≡ true = ground arith in
      let left : ltb ((handler.index + 1) % 2 ^ 32) handler.count ≡ true =
        ground (arith, more, ready.few) in
      let ready' = rejected_hook-IsReady handler (running_position handler) ready in
      let stubs' = (rejected_hook handler (running_position handler)).stubs in
      let inside' : (running_position handler + 1) % handler.count < length stubs' =
        omega (arith, mod-lt (running_position handler + 1) ready.some_handler, ready'.fits) in
      rw (in_range, any, load-ok handler.stubs (running_position handler) blank inside)
        (rw (own, left)
          (rw (load-ok stubs' ((running_position handler + 1) % handler.count) blank inside') refl))

  irq_complete_last :
      suc handler.index ≡ handler.count
      → irq_complete (running_thread handler) irq 1 handler
        ≡ ok (
          success,
          rejected_hook handler (running_position handler),
          dequeued (running_thread handler) ∷ [],
        )
  unfolding irq_complete running
  irq_complete_last done =
      let in_range : leb 24 irq ≡ false = ground (arith, valid) in
      let any : (handler.count == 0) ≡ false = ground (arith, ready.some_handler) in
      let blank : IrqStub = record { tr = 0; ack = 0; nop = 0 } in
      let inside : running_position handler < length handler.stubs =
        omega (arith, mod-lt (handler.index + handler.last) ready.some_handler, ready.fits) in
      let own : ((running_thread handler) == (running_thread handler)) ≡ true = ground arith in
      let over : ltb ((handler.index + 1) % 2 ^ 32) handler.count ≡ false =
        ground (arith, done, ready.few) in
      rw (in_range, any, load-ok handler.stubs (running_position handler) blank inside)
        (rw (own, over) refl)

  reject_step :
      suc handler.index ≤ handler.count
      → (calls : List IrqCall) × (irq_complete (running_thread handler) irq 1 handler
          ≡ ok (success, rejected_hook handler (running_position handler), calls))
        × (suc handler.index < handler.count
            → next_of (running_thread handler) calls
              ≡ running_thread (rejected_hook handler (running_position handler)))
  reject_step room = elim (dec_lt (suc handler.index) handler.count) [
    | yes more ↦
        let rejected = rejected_hook handler (running_position handler) in
        let next = thread_at rejected ((running_position handler + 1) % handler.count) in
        let same : (running_position handler + 1) % handler.count ≡ running_position rejected =
          mod-add-mod (handler.index + handler.last) handler.count 1
          ∙ ap (λ (x : ℕ). x % handler.count) (omega (arith, more, ready.few)) in
        (
          queued next ∷ dequeued (running_thread handler) ∷ [],
          irq_complete_next more,
          (λ l. ap (thread_at rejected) same),
        )
    | no done ↦ (
      dequeued (running_thread handler) ∷ [],
      irq_complete_last (omega (arith, done, room)),
      (λ l. ground (arith, done, l)),
    )
  ]

-- What `irq_handler` begins: the threads get the interrupt in turn, from the one that accepted last.
abbrev raised_hook : IrqHook → IrqHook
raised_hook handler = record handler { raised = add64 handler.raised 1; index = 0 }

irq_handler_first :
    (has_ioapic : Bool) (irq : ℕ) (handler : IrqHook)
    → 0 < irq
    → IsReady handler
    → irq_handler has_ioapic irq handler
      ≡ ok (raised_hook handler, queued (thread_at handler handler.last) ∷ [])
unfolding irq_handler
irq_handler_first has_ioapic irq handler device ready =
    let device_irq : (irq == 0) ≡ false = ground (arith, device) in
    let any : ((handler.count == 0) || leb (2 ^ 31) handler.count) ≡ false =
      ground (arith, ready.some_handler, ready.few) in
    let inside : handler.last < length handler.stubs = omega (arith, ready.last_fits, ready.fits) in
    rw (device_irq, any)
      (rw (load-ok handler.stubs handler.last (record { tr = 0; ack = 0; nop = 0 }) inside) refl)

reject_more :
    (k irq tr next : ℕ) (handler rejected handler' : IrqHook) (calls : List IrqCall)
    (threads : List Ptr)
    → irq_complete tr irq 1 handler ≡ ok (success, rejected, calls)
    → next_of tr calls ≡ next
    → reject_all k irq next rejected ≡ ok (handler', threads)
    → reject_all (suc k) irq tr handler ≡ ok (handler', tr ∷ threads)
unfolding reject_all
reject_more k irq tr next handler rejected handler' calls threads e n rest =
    rw e (rw n (rw rest refl))

in_turn-raised_hook :
    (handler : IrqHook) (k i : ℕ) → in_turn (raised_hook handler) k i ≡ in_turn handler k i
unfolding in_turn
in_turn-raised_hook handler zero i = refl
in_turn-raised_hook handler (suc k) i =
    ap (λ threads. thread_at handler ((i + handler.last) % handler.count) ∷ threads)
      (in_turn-raised_hook handler k (i + 1))

reject_all-in_turn :
    (k irq : ℕ) (handler : IrqHook)
    → irq < 24
    → IsReady handler
    → k + handler.index ≤ handler.count
    → (handler' : IrqHook) × (reject_all k irq (running_thread handler) handler
        ≡ ok (handler', in_turn handler k handler.index))
unfolding in_turn reject_all
reject_all-in_turn zero irq handler valid ready room = (handler, refl)
reject_all-in_turn (suc zero) irq handler valid ready room =
    let (calls, e, next) = reject_step irq valid handler ready (omega (arith, room)) in
    (rejected_hook handler (running_position handler), rw e refl)
reject_all-in_turn (suc (suc k)) irq handler valid ready room =
    let rejected = rejected_hook handler (running_position handler) in
    let (calls, e, next) = reject_step irq valid handler ready (omega (arith, room)) in
    let index : add32 handler.index 1 ≡ handler.index + 1 = omega (arith, room, ready.few) in
    let (handler', rest) =
      reject_all-in_turn (suc k) irq rejected valid
        (rejected_hook-IsReady handler (running_position handler) ready)
        (omega (arith, room, index)) in
    (
      handler',
      reject_more (suc k) irq (running_thread handler) (running_thread rejected) handler rejected
            handler' calls (in_turn rejected (suc k) rejected.index) e (next (omega (arith, room)))
            rest
          ∙ ap (λ threads. ok (handler', running_thread handler ∷ threads))
              (in_turn_same handler (running_position handler) (suc k) (add32 handler.index 1)
                ∙ ap (in_turn handler (suc k)) index),
    )

-- On a hook with handlers, fewer than 2^31, of which `last` is one: an interrupt other than the
-- timer's goes to the thread that accepted the last one, and each of up to `count` threads that
-- rejects it hands it to the next, with no thread left out: after `irq_handler`, `k` rejections
-- are those of the threads of the positions `last`, `last + 1`, ... modulo `count`.
pub reject_all-irq_handler :
    (has_ioapic : Bool) (k irq : ℕ) (handler : IrqHook)
    → 0 < irq
    → irq < 24
    → IsReady handler
    → k ≤ handler.count
    → (raised : IrqHook) × (handler' : IrqHook) × (irq_handler has_ioapic irq handler
        ≡ ok (raised, queued (thread_at handler handler.last) ∷ []))
      × (reject_all k irq (thread_at handler handler.last) raised
          ≡ ok (handler', in_turn handler k 0))
reject_all-irq_handler has_ioapic k irq handler device valid ready room =
    let raised = raised_hook handler in
    let ready' : IsReady raised = record {
      fits = ready.fits;
      some_handler = ready.some_handler;
      few = ready.few;
      last_fits = ready.last_fits;
    } in
    let (handler', all) = reject_all-in_turn k irq raised valid ready' (omega (arith, room)) in
    let first : running_thread raised ≡ thread_at handler handler.last =
      ap (λ (x : ℕ). thread_at handler (x % handler.count)) (omega arith)
      ∙ ap (thread_at handler) (mod-eq_of_lt ready.last_fits) in
    (
      raised,
      handler',
      irq_handler_first has_ioapic irq handler device ready,
      subst (λ tr. reject_all k irq tr raised ≡ ok (handler', in_turn handler k 0)) first
          (all ∙ ap (λ threads. ok (handler', threads)) (in_turn-raised_hook handler k 0)),
    )
