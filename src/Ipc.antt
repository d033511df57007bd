-- ===== src/Ipc.antt =====
-- Ports and what is sent to them: kernel/ipc. The state is the part of a process that this code reads
-- and writes: the table of ports, and of each thread its list of ports, its hints and whether it is
-- dormant. `get_thread` is a look-up by tid. An int is the word of its 32 bits, so a port that is
-- negative is one of 2^31 or more; -1 ends a list of ports.
pub mod Ports
pub mod Pulses
pub mod Messages
use racoon.Base.{
  minus_one, ℕ, zero, suc, ◌+◌, ◌-◌, Bool, true, false, not, Option, none, some, ltb, leb, ◌==◌,
  ◌&&◌, if◌then◌else◌, update, first_index, Outcome, ok, halt, fault, ◌>>=◌,
}
use Prim.Native.Nat.{bit_and}
use racoon.Text.{Buffer}
use racoon.Ds.Aqueue.{Aqueue}

-- `MAX_PORTS`, `PULSE_OBJECTS` and `MESSAGE_OBJECTS`
abbrev pub max_ports : ℕ
max_ports = 1024

-- `struct pulse` and `struct message`
pub record Pulse : Type 0 where
  pub source_pid : ℕ
  pub source_port : ℕ
  pub dest_port : ℕ
  pub data1 : ℕ
  pub data2 : ℕ
  pub data3 : ℕ
  pub data4 : ℕ
  pub data5 : ℕ
  pub data6 : ℕ

pub record Message : Type 0 where
  pub source_pid : ℕ
  pub source_port : ℕ
  pub dest_port : ℕ
  pub size : ℕ
  pub bytes : Buffer

-- `struct ipc_block`
pub record IpcBlock : Type 0 where
  pub tid : ℕ
  pub flags : ℕ
  pub pulse_q : Option (Aqueue Pulse)
  pub message_q : Option (Aqueue Message)

pub record IpcThread : Type 0 where
  pub tid : ℕ
  pub ports : ℕ → ℕ
  pub last_port_message : ℕ
  pub last_port_pulse : ℕ
  pub dormant : Bool

pub record Ipc : Type 0 where
  pub ipc : ℕ → IpcBlock
  pub threads : ℕ → Option IpcThread

abbrev pub with_block : Ipc → ℕ → IpcBlock → Ipc
with_block p port block = record p { ipc = update p.ipc port block }

abbrev pub with_thread : Ipc → IpcThread → Ipc
with_thread p tr = record p { threads = update p.threads tr.tid (some tr) }

unfoldable pub port2tid : Ipc → ℕ → ℕ
port2tid p port = if leb max_ports port then minus_one else (p.ipc port).tid

pub tid2port : Ipc → ℕ → ℕ
tid2port p tid =
    let i = first_index (λ i. (p.ipc i).tid == tid) max_ports 0 in
    if ltb i max_ports then i else minus_one

unfoldable pub port_flags : Ipc → ℕ → ℕ → ℕ
port_flags p port flags =
    if leb max_ports port
    then minus_one
    else if (p.ipc port).tid == minus_one
    then minus_one
    else bit_and (p.ipc port).flags flags

pub get_port_flags : Ipc → ℕ → ℕ
get_port_flags p port =
    if leb max_ports port
    then minus_one
    else if (p.ipc port).tid == minus_one
    then minus_one
    else (p.ipc port).flags

-- `port_flags( proc, port, IPC_MASKED ) != 0`
abbrev pub is_masked : Ipc → ℕ → Bool
is_masked p port = not (port_flags p port 1 == 0)
