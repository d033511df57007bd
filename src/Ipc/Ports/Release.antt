-- ===== src/Ipc/Ports/Release.antt =====
-- What the release of a port does to a thread with one port.
use racoon.Base.{
  minus_one, ℕ, suc, ◌<◌, ◌^◌, ◌≡◌, ◌≢◌, refl, ap, ◌∙◌, arith, Bool, true, false, Option, none,
  some, leb, ◌==◌, update, first_index, success, Outcome, ok, halt, ◌>>=◌,
}
use racoon.Ds.Aqueue.{Aqueue, create, empty_queue, next}
use racoon.Ipc.{Pulse, IpcThread, Ipc, with_block, with_thread}
use racoon.Ipc.Pulses.{with_pulses, drop_pulse, next_pulse}
use racoon.Ipc.Ports.{with_port, create_port, drop_pulses, release_port}

next_pulse-halt :
    (p : Ipc) (port : ℕ) (q : Aqueue Pulse)
    → (p.ipc port).pulse_q ≡ some q
    → next q ≡ halt
    → next_pulse p port ≡ halt
unfolding next_pulse
next_pulse-halt p port q there empty =
    ap (λ (o : Option (Aqueue Pulse)). after (elim o [ some q ↦ ok q | none ↦ halt ])) there
    ∙ ap (λ (o : Outcome (Pulse × Aqueue Pulse)). o >>= λ r. ok (r.0, with_pulses p port r.1)) empty
  where
    after : Outcome (Aqueue Pulse) → Outcome (Pulse × Ipc)
    after o = o >>= λ q. next q >>= λ r. ok (r.0, with_pulses p port r.1)

drop_pulse-halt :
    (p : Ipc) (tr : IpcThread) (q : Aqueue Pulse)
    → tr.last_port_pulse ≡ minus_one
    → (tr.ports 0 == minus_one) ≡ false
    → (p.ipc (tr.ports 0)).pulse_q ≡ some q
    → next q ≡ halt
    → drop_pulse p tr ≡ halt
unfolding drop_pulse
drop_pulse-halt p tr q hint port there empty =
    let p' = with_thread p (record tr { last_port_pulse = minus_one }) in
    rw (hint, port, there) (rw (next_pulse-halt p' (tr.ports 0) q there empty) refl)

drop_pulses-halt :
    (fuel : ℕ) (p : Ipc) (port : ℕ) (tr : IpcThread)
    → drop_pulse p (record tr { last_port_message = port }) ≡ halt
    → drop_pulses (suc fuel) p tr port ≡ halt
unfolding drop_pulses
drop_pulses-halt fuel p port tr h = rw h refl

release_port-halt :
    (fuel : ℕ) (p : Ipc) (port : ℕ) (tr : IpcThread)
    → port < 1024
    → p.threads (p.ipc port).tid ≡ some tr
    → (p.ipc port).tid ≢ minus_one
    → drop_pulses (suc fuel) p tr port ≡ halt
    → release_port (suc fuel) p port ≡ halt
unfolding release_port
release_port-halt fuel p port tr inside found owned halts =
    let in_range : leb 1024 port ≡ false = ground (arith, inside) in
    let own : ((p.ipc port).tid == minus_one) ≡ false = ground (arith, owned) in
    rw (in_range, own, found) (rw halts refl)

next-empty_queue : (size count : ℕ) → next (empty_queue {A = Pulse} size (suc count)) ≡ halt
unfolding next
next-empty_queue size count = ground arith

-- The process behind a creation for a thread without ports.
abbrev opened : Ipc → ℕ → ℕ → IpcThread → Ipc
opened p port tid tr =
    with_thread
      (with_block p port (record {
        tid = tid;
        flags = 0;
        pulse_q = some (empty_queue 36 1024);
        message_q = some (empty_queue 20 256);
      }))
      (record tr { ports = update tr.ports 0 port })

first_index_here : (f : ℕ → Bool) (k n : ℕ) → f n ≡ true → first_index f (suc k) n ≡ n
unfolding first_index
first_index_here f k n h = rw h refl

with_port_first :
    (tr : IpcThread) (port : ℕ)
    → tr.ports 0 ≡ minus_one
    → with_port tr port ≡ record tr { ports = update tr.ports 0 port }
with_port_first tr port first =
    rw (first_index_here (λ i. tr.ports i == minus_one) 1023 0 (ground (arith, first))) refl

create_port-opened :
    (p : Ipc) (port tid : ℕ) (tr : IpcThread)
    → port < 1024
    → (p.ipc port).tid ≡ minus_one
    → p.threads tid ≡ some tr
    → tr.ports 0 ≡ minus_one
    → create_port true true p port tid ≡ (success, opened p port tid tr)
unfolding create_port create
create_port-opened p port tid tr inside free found first =
    let in_range : leb 1024 port ≡ false = ground (arith, inside) in
    rw (in_range, free, found) (rw (with_port_first tr port first) refl)

-- The release of the port that a thread has just created as its first, without a hint for pulses, halts
-- on an assertion: the loop that drops pulses asks an empty queue for one.
pub release_port-create_port :
    (fuel : ℕ) (p : Ipc) (port tid : ℕ) (tr : IpcThread)
    → port < 1024
    → (p.ipc port).tid ≡ minus_one
    → p.threads tid ≡ some tr
    → tr.tid ≡ tid
    → tid < 2 ^ 31
    → tr.ports 0 ≡ minus_one
    → tr.last_port_pulse ≡ minus_one
    → ((create_port true true p port tid).0 ≡ success)
      × (release_port (suc fuel) (create_port true true p port tid).1 port ≡ halt)
release_port-create_port fuel p port tid tr inside free found same bound first hint =
    let p' = opened p port tid tr in
    let tr' : IpcThread = record tr { ports = update tr.ports 0 port } in
    let owner : (p'.ipc port).tid ≡ tid = ground arith in
    let there : p'.threads tid ≡ some tr' = ground (arith, same) in
    let kept : (p'.ipc (tr'.ports 0)).pulse_q ≡ some (empty_queue 36 1024) = ground arith in
    let used : (tr'.ports 0 == minus_one) ≡ false = ground (arith, inside) in
    let halts =
      drop_pulse-halt p' (record tr' { last_port_message = port }) (empty_queue 36 1024) hint used
        kept (next-empty_queue 36 1023) in
    rw (create_port-opened p port tid tr inside free found first) (
      refl,
      release_port-halt fuel p' port tr' inside (ap p'.threads owner ∙ there)
          (ground (arith, owner, bound)) (drop_pulses-halt fuel p' port tr' halts),
    )
