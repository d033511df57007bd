-- ===== src/Ipc/Pulses.antt =====
-- kernel/ipc/pulse.c. `set_thread_state` of a dormant thread makes it run.
use racoon.Base.{
  minus_one, ℕ, zero, suc, ◌+◌, ◌^◌, Bool, true, false, not, Option, none, some, ltb, leb, ◌==◌,
  ◌&&◌, if◌then◌else◌, Status, success, failure, Outcome, ok, halt, fault, ◌>>=◌, add32,
}
use racoon.Ds.Aqueue.{Aqueue, add, next, count_of}
use racoon.Ipc.{max_ports, Pulse, IpcThread, Ipc, with_block, with_thread, port2tid, is_masked}

-- The pulse queue of a port; the code asserts that there is one, and `aqueue_next` faults on NULL.
abbrev pub pulses_of : Ipc → ℕ → Outcome (Aqueue Pulse)
pulses_of p port = elim (p.ipc port).pulse_q [ some q ↦ ok q | none ↦ halt ]

abbrev pub with_pulses : Ipc → ℕ → Aqueue Pulse → Ipc
with_pulses p port q = with_block p port (record (p.ipc port) { pulse_q = some q })

-- Wake the thread up if it wants to be woken_up up.
abbrev pub woken_up : Ipc → ℕ → IpcThread → Ipc
woken_up p port tr =
    if not (is_masked p port) && tr.dormant
    then with_thread p (record tr { dormant = false })
    else p

pub send_pulse : (ℕ → Option (ℕ → Pulse)) → Ipc → ℕ → Pulse → Outcome (Status × Ipc)
unfolding port2tid
send_pulse kmalloc p dest_port pulse =
    let tid = port2tid p dest_port in
    if leb (2 ^ 31) tid then ok (failure, p) else elim (p.threads tid) [
      | none ↦ ok (failure, p)
      | some tr ↦ do
        q ← pulses_of p dest_port
        (rc, q') ← add kmalloc q pulse
        let p' = with_pulses p dest_port q'
        elim rc [ failure ↦ ok (failure, p') | success ↦ ok (success, woken_up p' dest_port tr) ]
    ]

-- `aqueue_next` on the pulse queue of a port.
unfoldable pub next_pulse : Ipc → ℕ → Outcome (Pulse × Ipc)
next_pulse p port = do q ← pulses_of p port; (pulse, q') ← next q; ok (pulse, with_pulses p port q')

-- The pulses of the thread's ports from place `i` on, `k` places.
pub waiting_from : ℕ → ℕ → Ipc → IpcThread → Outcome ℕ
waiting_from zero i p tr = ok 0
waiting_from (suc k) i p tr =
    let port = tr.ports i in
    let rest = waiting_from k (i + 1) p tr in
    if port == minus_one
    then ok 0
    else if is_masked p port
    then rest
    else (do q ← pulses_of p port; count ← rest; ok (add32 (count_of q) count))

pub pulses_waiting : Ipc → IpcThread → Outcome ℕ
unfolding waiting_from
pulses_waiting p tr = waiting_from max_ports 0 p tr

-- The first port of the thread from place `i` on that is not masked.
pub open_port : ℕ → ℕ → Ipc → IpcThread → Option ℕ
open_port zero i p tr = none
open_port (suc k) i p tr =
    let rest = open_port k (i + 1) p tr in
    if tr.ports i == minus_one
    then none
    else if is_masked p (tr.ports i)
    then rest
    else some (tr.ports i)

-- The end of `receive_pulse`, where the code asserts that the result of `aqueue_next` is not 0; it is 0.
pub receive_from : Ipc → ℕ → Outcome (Option Pulse × Ipc)
unfolding next_pulse
receive_from p port = do
  q ← pulses_of p port
  if count_of q == 0 then ok (none, p) else (do (pulse, p') ← next_pulse p port; halt)

-- `receive_pulse`, with what `*dest_port` holds.
pub receive_pulse : Ipc → IpcThread → ℕ → Outcome (Option Pulse × Ipc)
unfolding receive_from open_port
receive_pulse p tr dest_port =
    let port = if ltb dest_port max_ports then dest_port else tr.last_port_pulse in
    let tr' = record tr { last_port_pulse = minus_one } in
    let p' = with_thread p tr' in
    if ltb port max_ports
    then (if is_masked p' port then ok (none, p') else receive_from p' port)
    else elim (open_port max_ports 0 p' tr') [
      | none ↦ ok (none, p')
      | some port' ↦ receive_from p' port'
    ]

unfoldable pub drop_pulse : Ipc → IpcThread → Outcome (Status × Ipc × IpcThread)
drop_pulse p tr =
    let port = tr.last_port_pulse in
    let tr' = record tr { last_port_pulse = minus_one } in
    let p' = with_thread p tr' in
    let dropped =
      λ (port : ℕ). next_pulse p' port >>= λ (r : Pulse × Ipc). ok (success, r.1, tr') in
    if ltb port max_ports
    then (if is_masked p' port then ok (failure, p', tr') else dropped port)
    else if tr.ports 0 == minus_one
    then ok (failure, p', tr')
    else elim (p'.ipc (tr.ports 0)).pulse_q [ none ↦ fault | some q ↦ dropped (tr.ports 0) ]

-- Whether the port is in the list of the thread, from place `i` on.
unfoldable pub has_port : ℕ → ℕ → ℕ → IpcThread → Bool
has_port zero i port tr = false
has_port (suc k) i port tr =
    let rest = has_port k (i + 1) port tr in
    if tr.ports i == minus_one then false else if tr.ports i == port then true else rest

-- The end of `preview_pulse`.
pub preview_from : Ipc → IpcThread → ℕ → Outcome (Option Pulse × Ipc)
unfolding next_pulse
preview_from p tr port = do
  q ← pulses_of p port
  if count_of q == 0 then ok (none, p) else (do
    (pulse, p') ← next_pulse p port
    ok (some pulse, with_thread p' (record tr { last_port_pulse = port })))

pub preview_pulse : Ipc → IpcThread → ℕ → Outcome (Option Pulse × Ipc)
unfolding preview_from has_port open_port
preview_pulse p tr dest_port =
    let tr' = record tr { last_port_pulse = minus_one } in
    let p' = with_thread p tr' in
    if ltb dest_port max_ports
    then (if not (has_port max_ports 0 dest_port tr)
        then ok (none, p)
        else if is_masked p' dest_port
        then ok (none, p')
        else preview_from p' tr' dest_port)
    else elim (open_port max_ports 0 p' tr') [
      | none ↦ ok (none, p')
      | some port ↦ preview_from p' tr' port
    ]
