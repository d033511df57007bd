-- ===== src/Ipc/Messages.antt =====
-- kernel/ipc/messages.c. The memory of a message's bytes is part of the message; `kmalloc` says whether
-- there is memory for them. `aqueue_next` returns 0, as these functions assert.
use racoon.Base.{
  minus_one, ℕ, zero, suc, ◌+◌, ◌^◌, Bool, true, false, not, Option, none, some, ltb, leb, ◌==◌,
  if◌then◌else◌, Status, success, failure, Outcome, ok, halt, fault, ◌>>=◌, add32,
}
use racoon.Text.{Buffer, kmemcpy}
use racoon.Ds.Aqueue.{Aqueue, add, next, count_of}
use racoon.Ipc.{max_ports, Message, IpcThread, Ipc, with_block, with_thread, port2tid, is_masked}
use racoon.Ipc.Pulses.{woken_up, has_port}

abbrev pub messages_of : Ipc → ℕ → Outcome (Aqueue Message)
messages_of p port = elim (p.ipc port).message_q [ some q ↦ ok q | none ↦ halt ]

abbrev pub with_messages : Ipc → ℕ → Aqueue Message → Ipc
with_messages p port q = with_block p port (record (p.ipc port) { message_q = some q })

-- `memory` is what `kmalloc` gives for the bytes.
pub send_message :
    (ℕ → Option (ℕ → Message))
    → Option Buffer
    → Ipc
    → (source_pid source_port dest_port size : ℕ) → Buffer
    → Outcome (Status × Ipc)
unfolding port2tid
send_message kmalloc memory p source_pid source_port dest_port size location =
    let tid = port2tid p dest_port in
    if leb (2 ^ 31) tid then ok (failure, p) else elim (p.threads tid) [
      | none ↦ ok (failure, p)
      | some tr ↦ elim memory [
        | none ↦ ok (failure, p)
        | some mem ↦ elim (p.ipc dest_port).message_q [
          | none ↦ fault
          | some q ↦ do
            (rc, q') ← add kmalloc q (record {
              source_pid = source_pid;
              source_port = source_port;
              dest_port = dest_port;
              size = size;
              bytes = kmemcpy mem location size;
            })
            let p' = with_messages p dest_port q'
            elim rc [
              | failure ↦ ok (failure, p')
              | success ↦ ok (success, woken_up p' dest_port tr)
            ]
        ]
      ]
    ]

pub next_message : Ipc → ℕ → Outcome (Message × Ipc)
next_message p port = do
  q ← messages_of p port
  (message, q') ← next q
  ok (message, with_messages p port q')

-- The first port of the thread from place `i` on that is not masked and has a message; with `stop`
-- the loop ends at the first that is not masked.
pub ready_port : Bool → ℕ → ℕ → Ipc → IpcThread → Outcome (Option ℕ)
ready_port stop zero i p tr = ok none
ready_port stop (suc k) i p tr =
    let port = tr.ports i in
    let rest = ready_port stop k (i + 1) p tr in
    if port == minus_one then ok none else if is_masked p port then rest else (do
      q ← messages_of p port
      if not (count_of q == 0) then ok (some port) else if stop then ok none else rest)

-- What is copied to the receiver: the message, its size cut to the size of the buffer, and the buffer.
abbrev pub Received : Type 0
Received = Message × ℕ × Buffer

abbrev pub received : ℕ → Buffer → Message → Received
received bytes location message =
    let size = if ltb bytes message.size then bytes else message.size in
    (message, size, kmemcpy location message.bytes size)

pub receive_message : Ipc → ℕ → ℕ → Buffer → Outcome (Option Received × Ipc)
unfolding next_message
receive_message p port bytes location = do
  (message, p') ← next_message p port
  ok (some (received bytes location message), p')

pub recv_message : Ipc → IpcThread → ℕ → ℕ → Buffer → Outcome (Option Received × Ipc)
unfolding receive_message ready_port
recv_message p tr dest_port bytes location =
    let port = if ltb dest_port max_ports then dest_port else tr.last_port_message in
    let tr' = record tr { last_port_message = minus_one } in
    let p' = with_thread p tr' in
    let received_here = receive_message p' port bytes location in
    if ltb port max_ports
    then (if is_masked p' port
        then ok (none, p')
        else (do q ← messages_of p' port; if count_of q == 0 then ok (none, p') else received_here))
    else (do
      found ← ready_port false max_ports 0 p' tr'
      elim found [ none ↦ ok (none, p') | some port' ↦ receive_message p' port' bytes location ])

-- The end of `peek_message`.
pub peek_from : Ipc → IpcThread → ℕ → Outcome (Option Message × Ipc)
unfolding next_message
peek_from p tr port = do
  (message, p') ← next_message p port
  ok (some message, with_thread p' (record tr { last_port_message = port }))

pub peek_message : Ipc → IpcThread → ℕ → Outcome (Option Message × Ipc)
unfolding peek_from ready_port has_port
peek_message p tr dest_port =
    let tr' = record tr { last_port_message = minus_one } in
    let p' = with_thread p tr' in
    let peeked = peek_from p' tr' dest_port in
    if ltb dest_port max_ports
    then (if not (has_port max_ports 0 dest_port tr)
        then ok (none, p)
        else if is_masked p' dest_port
        then ok (none, p')
        else (do q ← messages_of p' dest_port; if count_of q == 0 then ok (none, p') else peeked))
    else (do
      found ← ready_port false max_ports 0 p' tr'
      elim found [ none ↦ ok (none, p') | some port ↦ peek_from p' tr' port ])

pub messages_from : ℕ → ℕ → Ipc → IpcThread → Outcome ℕ
messages_from zero i p tr = ok 0
messages_from (suc k) i p tr =
    let port = tr.ports i in
    let rest = messages_from k (i + 1) p tr in
    if port == minus_one
    then ok 0
    else if is_masked p port
    then rest
    else (do q ← messages_of p port; count ← rest; ok (add32 (count_of q) count))

pub messages_waiting : Ipc → IpcThread → Outcome ℕ
unfolding messages_from
messages_waiting p tr = messages_from max_ports 0 p tr

pub drop_message : Ipc → IpcThread → Outcome (Status × Ipc × IpcThread)
unfolding next_message ready_port
drop_message p tr =
    let port = tr.last_port_message in
    let tr' = record tr { last_port_message = minus_one } in
    let p' = with_thread p tr' in
    let dropped =
      λ (port : ℕ). next_message p' port >>= λ (r : Message × Ipc). ok (success, r.1, tr') in
    if ltb port max_ports
    then (if is_masked p' port then ok (failure, p', tr') else (do
      q ← messages_of p' port
      if count_of q == 0 then ok (failure, p', tr') else dropped port))
    else (do
      found ← ready_port true max_ports 0 p' tr'
      elim found [ none ↦ ok (failure, p', tr') | some port' ↦ dropped port' ])
