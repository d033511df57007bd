-- ===== src/Ipc/Ports/Tests.antt =====
-- Ports of a process with one thread.
use racoon.Base.{minus_one, ◌≡◌, refl, arith, true, none, some, ◌==◌, if◌then◌else◌, success, halt}
use racoon.Ipc.{IpcThread, Ipc}
use racoon.Ipc.Ports.{create_port, release_port}
use racoon.Ipc.Ports.Release.{release_port-create_port}

abbrev thread : IpcThread
thread = record {
  tid = 1;
  ports = λ i. minus_one;
  last_port_message = minus_one;
  last_port_pulse = minus_one;
  dormant = true;
}

abbrev process : Ipc
process = record {
  ipc = λ i. record { tid = minus_one; flags = 0; pulse_q = none; message_q = none };
  threads = λ tid. if tid == 1 then some thread else none;
}

release_port_example :
    ((create_port true true process 7 1).0 ≡ success)
    × (release_port 1 (create_port true true process 7 1).1 7 ≡ halt)
release_port_example =
    release_port-create_port 0 process 7 1 thread (omega arith) refl refl refl (omega arith) refl
      refl
