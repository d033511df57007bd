-- ===== src/Shmem/Region/Users.antt =====
-- The list of the users of a region.
use racoon.Base.{ℕ, ◌+◌, ◌≤◌, ◌≡◌, ◌≢◌, refl, arith, none, some, ◌==◌, if◌then◌else◌, List, [], ◌∷◌}
use racoon.Shmem.{ShmemInfo}
use racoon.Shmem.Region.{find_info, set_info, remove_info}

pub find_info-pid :
    (pid : ℕ) (list : List ShmemInfo) (info : ShmemInfo)
    → find_info pid list ≡ some info
    → info.pid ≡ pid
unfolding find_info
find_info-pid pid [] info h = ground (arith, h)
find_info-pid pid (first ∷ list) info h = ground (arith, h, find_info-pid pid list info)

pub find_info-set_info :
    (new info : ShmemInfo) (list : List ShmemInfo)
    → find_info new.pid list ≡ some info
    → find_info new.pid (set_info new list) ≡ some new
unfolding find_info set_info
find_info-set_info new info [] h = ground (arith, h)
find_info-set_info new info (first ∷ list) h = ground (arith, h, find_info-set_info new info list)

-- Two changes of the same user are the second, and a change to what is there is none.
pub set_info-set_info :
    (new newer : ShmemInfo) (list : List ShmemInfo)
    → new.pid ≡ newer.pid
    → set_info newer (set_info new list) ≡ set_info newer list
unfolding set_info
set_info-set_info new newer [] h = refl
set_info-set_info new newer (first ∷ list) h = ground (arith, h, set_info-set_info new newer list h)

pub set_info_same :
    (info : ShmemInfo) (list : List ShmemInfo)
    → find_info info.pid list ≡ some info
    → set_info info list ≡ list
unfolding find_info set_info
set_info_same info [] h = refl
set_info_same info (first ∷ list) h = ground (arith, h, set_info_same info list)

-- The number of users of a process.
unfoldable pub users_of : ℕ → List ShmemInfo → ℕ
users_of pid [] = 0
users_of pid (info ∷ list) = (if info.pid == pid then 1 else 0) + users_of pid list

no_user : (pid : ℕ) (list : List ShmemInfo) → users_of pid list ≡ 0 → find_info pid list ≡ none
unfolding users_of find_info
no_user pid [] h = refl
no_user pid (info ∷ list) h = ground (arith, h, no_user pid list)

pub find_info-remove_info :
    (pid : ℕ) (list : List ShmemInfo)
    → users_of pid list ≤ 1
    → find_info pid (remove_info pid list) ≡ none
unfolding users_of find_info remove_info
find_info-remove_info pid [] h = refl
find_info-remove_info pid (info ∷ list) h =
    ground (arith, h, no_user pid list, find_info-remove_info pid list)

pub find_info-remove_info_ne :
    (pid other : ℕ) (list : List ShmemInfo)
    → other ≢ pid
    → find_info other (remove_info pid list) ≡ find_info other list
unfolding find_info remove_info
find_info-remove_info_ne pid other [] h = refl
find_info-remove_info_ne pid other (info ∷ list) h =
    ground (arith, h, find_info-remove_info_ne pid other list h)
