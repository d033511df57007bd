-- ===== src/Gc/Tests.antt =====
-- The queue of the garbage collector with two entries round the end of the ring.
use racoon.Base.{arith}
use racoon.Gc.{GcInfo, Qdata}
use racoon.Gc.Fifo.{IsValid}

abbrev finished : Qdata
finished = record { info = λ i. record { pid = i; tid = 1 }; pos = 31; size = 2 }

finished-IsValid : IsValid finished
finished-IsValid = record { pos_in = omega arith; size_in = omega arith }

abbrev thread_four : GcInfo
thread_four = record { pid = 9; tid = 4 }
