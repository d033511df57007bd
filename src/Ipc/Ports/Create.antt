-- ===== src/Ipc/Ports/Create.antt =====
-- What the creation of a port does.
use racoon.Base.{
  minus_one, ℕ, ◌<◌, ◌≡◌, ◌≢◌, ◌⊎◌, inl, inr, refl, arith, Bool, true, false, Bool-cases, Option,
  none, some, leb, ◌==◌, Status, success, failure,
}
use racoon.Ds.Aqueue.{create, empty_queue}
use racoon.Ipc.{IpcBlock, IpcThread, Ipc, with_block, with_thread, port2tid}
use racoon.Ipc.Ports.{with_port, create_port}

-- A creation that failed without a change of an owner or a thread, or succeeded on a port without an
-- owner, for a thread of the process: the thread owns it, no other port changed, and the queues are new.
abbrev pub Created : Ipc → ℕ → ℕ → Status × Ipc → Type 0
Created p port tid done =
    ((done.0 ≡ failure)
      × ((q : ℕ) → port2tid done.1 q ≡ port2tid p q)
      × ((t : ℕ) → done.1.threads t ≡ p.threads t))
    ⊎ ((done.0 ≡ success)
        × (port2tid p port ≡ minus_one)
        × (port2tid done.1 port ≡ tid)
        × ((done.1.ipc port).pulse_q ≡ some (empty_queue 36 1024))
        × ((done.1.ipc port).message_q ≡ some (empty_queue 20 256))
        × ((q : ℕ) → q ≢ port → done.1.ipc q ≡ p.ipc q))

module _ (p : Ipc) (port tid : ℕ) where
  unchanged : Created p port tid (failure, p)
  unchanged = inl (refl, (λ q. refl), (λ t. refl))

  without_queues :
      (block : IpcBlock)
      → block.tid ≡ (p.ipc port).tid
      → Created p port tid (failure, with_block p port block)
  unfolding port2tid
  without_queues block h = inl (refl, (λ q. ground (arith, h)), (λ t. refl))

  with_queues :
      (target : IpcThread)
      → port < 1024
      → (p.ipc port).tid ≡ minus_one
      → Created p port tid (
        success,
        with_thread
            (with_block p port (record {
              tid = tid;
              flags = 0;
              pulse_q = some (empty_queue 36 1024);
              message_q = some (empty_queue 20 256);
            }))
            target,
      )
  unfolding port2tid
  with_queues target inside free = inr (
    refl,
    ground (arith, inside, free),
    ground (arith, inside),
    ground arith,
    ground arith,
    (λ q ne. ground (arith, ne)),
  )

-- Each creation fails without a change of an owner or a thread, or gives the thread a port that had no
-- owner, with new queues, and changes no other port.
pub create_port_lem :
    (pulse_memory message_memory : Bool) (p : Ipc) (port tid : ℕ)
    → Created p port tid (create_port pulse_memory message_memory p port tid)
unfolding create_port create
create_port_lem pulse_memory message_memory p port tid = elim (Bool-cases (leb 1024 port)) [
  | inl outside ↦ rw outside (unchanged p port tid)
  | inr inside ↦ rw inside (elim (Bool-cases ((p.ipc port).tid == minus_one)) [
    | inr owned ↦ rw owned (unchanged p port tid)
    | inl free ↦ rw free (
        by_thread (ground (arith, inside)) (ground (arith, free)) pulse_memory message_memory
          (p.threads tid))
  ])
]
  where
    made : Bool → Bool → Option IpcThread → Status × Ipc
    made pulse_memory message_memory found = elim found [
      | none ↦ (failure, p)
      | some target ↦ elim (create pulse_memory 36 1024) [
        | none ↦ (failure, with_block p port (record (p.ipc port) { pulse_q = none }))
        | some pulses ↦ elim (create message_memory 20 256) [
          | none ↦ (
            failure,
            with_block p port (record (p.ipc port) { pulse_q = none; message_q = none }),
          )
          | some messages ↦ (
            success,
            with_thread
                (with_block p port (record {
                  tid = tid;
                  flags = 0;
                  pulse_q = some pulses;
                  message_q = some messages;
                }))
                (with_port target port),
          )
        ]
      ]
    ]

    by_thread :
        port < 1024
        → (p.ipc port).tid ≡ minus_one
        → (pulse_memory message_memory : Bool) (found : Option IpcThread)
        → Created p port tid (made pulse_memory message_memory found)
    by_thread inside free pulse_memory message_memory none = unchanged p port tid
    by_thread inside free false message_memory (some target) = without_queues p port tid _ refl
    by_thread inside free true false (some target) = without_queues p port tid _ refl
    by_thread inside free true true (some target) =
        with_queues p port tid (with_port target port) inside free
