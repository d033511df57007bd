-- ===== src/Ipc/Ports.antt =====
-- kernel/ipc/ports.c. `tr` is a thread of the process, found by its tid.
pub mod Create
pub mod Release
mod Tests
use racoon.Base.{
  minus_one, is_negative, ℕ, zero, suc, ◌+◌, ◌-◌, Bool, true, false, not, Option, none, some, ltb,
  leb, ◌==◌, ◌&&◌, ◌||◌, if◌then◌else◌, update, first_index, Status, success, failure, Outcome, ok,
  halt, fault, ◌>>=◌,
}
use racoon.Ds.Aqueue.{Aqueue, create}
use racoon.Ipc.{
  max_ports, Pulse, Message, IpcBlock, IpcThread, Ipc, with_block, with_thread, port2tid,
}
use racoon.Ipc.Pulses.{drop_pulse}
use racoon.Ipc.Messages.{drop_message}

-- The port goes to the first free place of the thread's list.
abbrev pub with_port : IpcThread → ℕ → IpcThread
with_port tr port =
    let i = first_index (λ i. tr.ports i == minus_one) max_ports 0 in
    if ltb i max_ports then record tr { ports = update tr.ports i port } else tr

-- The flags say whether there is memory for the queues; 36 and 20 are the sizes of the objects.
pub create_port : (pulse_memory message_memory : Bool) → Ipc → (port tid : ℕ) → Status × Ipc
create_port pulse_memory message_memory p port tid =
    let block = p.ipc port in
    let no_queue = record block { pulse_q = none } in
    if leb max_ports port
    then (failure, p)
    else if not (block.tid == minus_one)
    then (failure, p)
    else elim (p.threads tid) [
      | none ↦ (failure, p)
      | some target ↦ elim (create pulse_memory 36 1024) [
        | none ↦ (failure, with_block p port no_queue)
        | some pulses ↦ elim (create message_memory 20 256) [
          | none ↦ (failure, with_block p port (record no_queue { message_q = none }))
          | some messages ↦ (
            success,
            with_thread
                (with_block p port (record {
                  tid = tid;
                  flags = 0;
                  pulse_q = some pulses;
                  message_q = some messages;
                }))
                (with_port target port),
          )
        ]
      ]
    ]

-- The loop of `set_port_flags` over all ports of the thread, from place `i` on.
pub set_all_flags : ℕ → ℕ → IpcThread → ℕ → Ipc → Ipc
set_all_flags zero i tr flags p = p
set_all_flags (suc k) i tr flags p =
    let port = tr.ports i in
    let rest =
      set_all_flags k (i + 1) tr flags
        (with_block p port (record (p.ipc port) { flags = flags })) in
    if port == minus_one then p else rest

pub set_port_flags : Ipc → IpcThread → (port flags : ℕ) → Status × Ipc
unfolding set_all_flags
set_port_flags p tr port flags =
    let p' =
      with_thread p (record tr { last_port_message = minus_one; last_port_pulse = minus_one }) in
    if leb max_ports port && not (port == minus_one)
    then (failure, p)
    else if port == minus_one
    then (success, set_all_flags max_ports 0 tr flags p')
    else if (p'.ipc port).tid == minus_one
    then (failure, p')
    else (success, with_block p' port (record (p'.ipc port) { flags = flags }))

-- The loops of `release_port` that drop what was there, in `fuel` rounds at most. Both set the hint for
-- messages.
pub drop_pulses : ℕ → Ipc → IpcThread → ℕ → Outcome (Ipc × IpcThread)
drop_pulses zero p tr port = fault
drop_pulses (suc fuel) p tr port = drop_pulse p (record tr { last_port_message = port }) >>= λ r.
    elim r.0 [ success ↦ drop_pulses fuel r.1 r.2 port | failure ↦ ok (r.1, r.2) ]

pub drop_messages : ℕ → Ipc → IpcThread → ℕ → Outcome (Ipc × IpcThread)
drop_messages zero p tr port = fault
drop_messages (suc fuel) p tr port =
    drop_message p (record tr { last_port_message = port }) >>= λ r. elim r.0 [
      | success ↦ drop_messages fuel r.1 r.2 port
      | failure ↦ ok (r.1, r.2)
    ]

-- The loop that takes the port out of the thread's list.
pub remove_port : ℕ → ℕ → Bool → ℕ → (ℕ → ℕ) → ℕ → ℕ
remove_port zero i found port ports = ports
remove_port (suc k) i found port ports =
    let found' = found || (ports i == port) in
    let entry = if found' && (i == 1023) then minus_one else ports (if found' then i + 1 else i) in
    let rest = remove_port k (i + 1) found' port (update ports i entry) in
    if ports i == minus_one then ports else rest

-- `aqueue_destroy` of the queues and the reset of the block.
abbrev pub closed_port : Ipc → ℕ → Ipc
closed_port p port =
    with_block p port (record { tid = minus_one; flags = 0; pulse_q = none; message_q = none })

pub release_port : ℕ → Ipc → ℕ → Outcome (Status × Ipc)
release_port fuel p port =
    if leb max_ports port
    then ok (failure, p)
    else if (p.ipc port).tid == minus_one
    then ok (failure, p)
    else elim (p.threads (p.ipc port).tid) [
      | none ↦ ok (success, closed_port p port)
      | some tr ↦ do
        (p₁, tr₁) ← drop_pulses fuel p tr port
        (p₂, tr₂) ← drop_messages fuel p₁ tr₁ port
        ok (
          success,
          with_thread (closed_port p₂ port)
              (record tr₂ { ports = remove_port max_ports 0 false port tr₂.ports }),
        )
    ]

-- The loop of `bulk_set_ports`, of which the pairs are functions of the place.
pub bulk_set_from : ℕ → ℕ → (ℕ → ℕ) → (ℕ → ℕ) → ℕ → Ipc → Ipc
unfolding set_port_flags
bulk_set_from zero i ports flags tid p = p
bulk_set_from (suc k) i ports flags tid p =
    let p' : Ipc = elim (p.threads tid) [
      | none ↦ p
      | some tr ↦ (set_port_flags p tr (ports i) (flags i)).1
    ] in
    let rest = bulk_set_from k (i + 1) ports flags tid p' in
    if ports i == minus_one then p else rest

pub bulk_set_ports : (ℕ → ℕ) → (ℕ → ℕ) → ℕ → Ipc → Ipc
unfolding bulk_set_from
bulk_set_ports ports flags tid p = bulk_set_from max_ports 0 ports flags tid p
