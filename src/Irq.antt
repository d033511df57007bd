-- ===== src/Irq.antt =====
-- kernel/irq.c: the threads that handle an interrupt, in the order in which they asked for it, and the
-- hand-over of an interrupt from one to the next. A `struct thread*` is a number. An int is the word
-- of its 32 bits; the sums of two of them stay below 2^31. The spin lock and the lock of the scheduler
-- are held through each call; the calls of the fast queues and of the scheduler are listed.
pub mod Release
pub mod Rounds
mod Tests
use racoon.Base.{
  minus_one, is_negative, ℕ, zero, suc, ◌+◌, ◌-◌, ◌*◌, ◌/◌, ◌%◌, ◌^◌, Bool, true, false, not,
  Option, none, some, ltb, leb, ◌==◌, ◌&&◌, ◌||◌, if◌then◌else◌, List, [], ◌∷◌, ◌++◌, length, set,
  add32, sub32, add64, load, store, Status, success, failure, Outcome, ok, halt, fault, ◌>>=◌,
  set_bit, clear_bit,
}

abbrev pub Ptr : Type 0
Ptr = ℕ

-- `IRQ_COUNT`
abbrev pub irq_count : ℕ
irq_count = 24

-- `struct irq_stub`
pub record IrqStub : Type 0 where
  pub tr : Ptr
  pub ack : ℕ
  pub nop : ℕ

-- `struct irq_hook`
pub record IrqHook : Type 0 where
  pub raised : ℕ
  pub index : ℕ
  pub last : ℕ
  pub count : ℕ
  pub stubs : List IrqStub

-- A hook of `init_irqs`.
abbrev pub init_hook : IrqHook
init_hook = record { raised = 0; index = 0; last = 0; count = 0; stubs = [] }

-- THREAD_SUSPENDED and THREAD_IRQ, and the fields of a thread that are read and written here.
pub data ThreadState : Type 0 where
  suspended waits_irq other_state : ThreadState

abbrev pub is_suspended : ThreadState → Bool
is_suspended suspended = true
is_suspended waits_irq = false
is_suspended other_state = false

pub record IrqThread : Type 0 where
  pub tid : ℕ
  pub process : Ptr
  pub state : ThreadState
  pub irq : ℕ
  pub cpu_affinity : ℕ

-- `fast_queue`, `fast_dequeue`, `sched_yield`, `ack_apic` and `ack_8259`.
pub data IrqCall : Type 0 where
  queued dequeued : Ptr → IrqCall
  yielded : IrqCall
  apic_acked : IrqCall
  line_acked : (irq : ℕ) → IrqCall

-- Whether the line is unmasked, masked, or left as it is.
pub data Line : Type 0 where
  unmasked masked as_it_is : Line

-- `request_irq`: `memory` says whether `kmalloc` gives the hook, and `stub_memory` whether it gives
-- the array.
pub request_irq :
    Bool → Bool → ℕ → Ptr → IrqThread → ℕ → IrqHook → Status × IrqThread × IrqHook × Line
request_irq memory stub_memory cpu_count tr t irq handler =
    let hook = record handler {
      index = if is_negative handler.index then 0 else handler.index;
      last = if is_negative handler.last then 0 else handler.last;
      count = add32 handler.count 1;
      stubs = handler.stubs ++ (record { tr = tr; ack = 0; nop = 0 } ∷ []);
    } in
    let t' = record t {
      irq = irq;
      state = waits_irq;
      cpu_affinity =
          if is_negative t.cpu_affinity then sub32 t.tid 1 % cpu_count else t.cpu_affinity;
    } in
    if leb irq_count irq || not (is_suspended t.state) || not memory || not stub_memory
    then (failure, t, handler, as_it_is)
    else (success, t', hook, (if handler.count == 0 then unmasked else as_it_is))

-- The loop of `release_irq` over the old stubs: `i` is the index and `found` the number of stubs of
-- the thread so far. It answers that number and the new stubs.
pub copy_others : Ptr → List IrqStub → ℕ → ℕ → List IrqStub → Outcome (ℕ × List IrqStub)
copy_others tr [] i found stubs = ok (found, stubs)
copy_others tr (stub ∷ old) i found stubs =
    let skipped = copy_others tr old (i + 1) (found + 1) stubs in
    if stub.tr == tr
    then skipped
    else (do stubs' ← store stubs (i - found) stub; copy_others tr old (i + 1) found stubs')

-- The stubs of the new hook, and how many were the thread's; `stubs` is what `kmalloc` gave.
pub stubs_without :
    (process_of : Ptr → Ptr)
    → Option (List IrqStub)
    → Ptr
    → IrqThread
    → IrqHook
    → Outcome (Option (ℕ × List IrqStub))
unfolding copy_others
stubs_without process_of stubs tr t handler =
    if sub32 handler.count 1 == 0
    then (do
      stub ← load handler.stubs 0
      ok (some ((if process_of stub.tr == t.process then 1 else 0), [])))
    else elim stubs [
      | none ↦ ok none
      | some stubs ↦ do
        (found, stubs') ← copy_others tr handler.stubs 0 0 stubs
        ok (some (found, stubs'))
    ]

-- `release_irq`. `last` is moved the wrong way, as in the code.
pub release_irq :
    (process_of : Ptr → Ptr)
    → Bool
    → Option (List IrqStub)
    → Ptr
    → IrqThread
    → ℕ
    → IrqHook
    → Outcome (Status × IrqThread × IrqHook × Line)
unfolding stubs_without
release_irq process_of memory stubs tr t irq handler =
    let count = sub32 handler.count 1 in
    let failed : Status × IrqThread × IrqHook × Line = (failure, t, handler, as_it_is) in
    if leb irq_count irq || not memory then ok failed else (do
      copied ← stubs_without process_of stubs tr t handler
      elim copied [
        | none ↦ ok failed
        | some (found, stubs') ↦
            if found == 0
            then ok failed
            else if ltb 1 found
            then halt
            else ok (
              success,
              record t { state = suspended; irq = minus_one },
              record handler {
                count = count;
                stubs = stubs';
                index =
                    if leb count handler.index && ltb 0 handler.index
                    then sub32 handler.index 1
                    else handler.index;
                last =
                    if leb count handler.last && ltb 0 handler.last
                    then sub32 handler.last minus_one
                    else handler.last;
              },
              (if count == 0 then masked else as_it_is),
            )
      ])

-- The position of the handler that is running; without handlers this divides by 0.
pub running : IrqHook → Outcome ℕ
running handler =
    if handler.count == 0 then fault else ok ((handler.index + handler.last) % handler.count)

-- `irq_ack` by the current thread; the acknowledgement to the controller is not modelled.
pub irq_ack : Ptr → ℕ → IrqHook → Outcome Status
unfolding running
irq_ack tr irq handler = if leb irq_count irq then ok failure else (do
  pos ← running handler
  stub ← load handler.stubs pos
  ok (if stub.tr == tr then success else failure))

-- `irq_complete` by the current thread `tr`, of which `irq` is the field.
pub irq_complete : Ptr → ℕ → ℕ → IrqHook → Outcome (Status × IrqHook × List IrqCall)
unfolding running
irq_complete tr irq status handler =
    if leb irq_count irq
    then ok (failure, handler, [])
    else (do pos ← running handler; stub ← load handler.stubs pos; completed pos stub)
  where
    accepted : ℕ → IrqStub → IrqHook
    accepted pos stub = record handler {
      stubs = set handler.stubs pos (record stub { ack = add64 stub.ack 1 });
      last = pos;
    }

    rejected : ℕ → IrqStub → Outcome (Status × IrqHook × List IrqCall)
    rejected pos stub =
        let handler' = record handler {
          stubs = set handler.stubs pos (record stub { nop = add64 stub.nop 1 });
          index = add32 handler.index 1;
        } in
        if ltb handler'.index handler.count
        then (do
          next ← load handler'.stubs ((pos + 1) % handler.count)
          ok (success, handler', queued next.tr ∷ dequeued tr ∷ []))
        else ok (success, handler', dequeued tr ∷ [])

    completed : ℕ → IrqStub → Outcome (Status × IrqHook × List IrqCall)
    completed pos stub =
        let next = rejected pos stub in
        if not (stub.tr == tr)
        then ok (failure, handler, [])
        else if status == 0
        then ok (success, accepted pos stub, dequeued tr ∷ yielded ∷ [])
        else next

-- `irq_handler`: `handler` is `handlers[irq]`. Interrupt 0 is the timer's and only acknowledged.
pub irq_handler : (has_ioapic : Bool) → (irq : ℕ) → IrqHook → Outcome (IrqHook × List IrqCall)
irq_handler has_ioapic irq handler =
    let handler' = record handler { raised = add64 handler.raised 1; index = 0 } in
    if irq == 0
    then ok (handler, (if has_ioapic then apic_acked else line_acked irq) ∷ [])
    else if (handler.count == 0) || is_negative handler.count
    then ok (handler', [])
    else (do stub ← load handler'.stubs handler.last; ok (handler', queued stub.tr ∷ []))

-- `mask_8259` and `unmask_8259`: the mask of 16 lines, of which a set bit is masked.
pub mask_8259 : ℕ → ℕ → ℕ
mask_8259 irq mask = set_bit mask irq

pub unmask_8259 : ℕ → ℕ → ℕ
unmask_8259 irq mask = clear_bit mask irq
