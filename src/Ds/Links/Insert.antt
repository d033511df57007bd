-- ===== src/Ds/Links/Insert.antt =====
-- What is inserted behind or in front of an element is removed again.
use racoon.Base.{ℕ, not, ◌&&◌, ◌==◌, if◌then◌else◌}
use racoon.Ds.Links.{Memory}

-- The memory behind an insertion.
inserted : Memory → (position l next : ℕ) → Memory
inserted s position l next x =
    if l == x
    then record { object = (s l).object; prev = position; next = next }
    else if position == x
    then record (s position) { next = l }
    else if not (next == 0) && next == x
    then record (s next) { prev = l }
    else s x
