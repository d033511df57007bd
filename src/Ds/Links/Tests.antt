-- ===== src/Ds/Links/Tests.antt =====
-- A list of two elements, and one in no list.
use racoon.Base.{◌≡◌, refl, ◌==◌, if◌then◌else◌}
use racoon.Ds.Links.{Memory, list_insert_before}

abbrev two : Memory
two x =
    if x == 1
    then record { object = 11; prev = 0; next = 2 }
    else if x == 2
    then record { object = 12; prev = 1; next = 0 }
    else record { object = 13; prev = 0; next = 0 }

between : (list_insert_before 2 3 two 1).next ≡ 3
unfolding list_insert_before
between = refl
