-- ===== src/Shmem/Region/Access.antt =====
-- Who may use a region.
use racoon.Base.{
  is_negative, ℕ, ◌≤◌, ◌≡◌, ◌≢◌, ◌⊎◌, refl, arith, Bool, true, false, Option, none, some, ◌==◌,
  ◌||◌, if◌then◌else◌, List, [], ◌∷◌, Bool-cases, inl, inr, success, failure,
}
use racoon.Shmem.{is_promiscuous, page_flags, ShmemInfo, Shmem, Call, replaced}
use racoon.Shmem.Region.{
  find_info, remove_info, new_info, with_list, Done, shmem_grant, shmem_revoke, user_of,
  shmem_request,
}
use racoon.Shmem.Region.Users.{users_of, find_info-remove_info, find_info-remove_info_ne}

-- A grant of `pid` by `owner` that failed without a change, or succeeded: it was the owner's, the
-- process was no user and is one now, and no other process gained or lost access.
abbrev pub Granted : ℕ → ℕ → ℕ → Shmem → Done → Type 0
Granted owner pid flags sh done =
    ((done.0 ≡ failure) × (done.1 ≡ sh))
    ⊎ ((done.0 ≡ success)
        × (owner ≡ sh.pid)
        × (find_info pid sh.list ≡ none)
        × (find_info pid done.1.list ≡ some (new_info pid flags))
        × ((other : ℕ) → other ≢ pid → find_info other done.1.list ≡ find_info other sh.list))

-- The same for a revoke, after which a request of the process fails if the region is not promiscuous.
abbrev pub Revoked : ℕ → ℕ → Shmem → Done → Type 0
Revoked owner pid sh done =
    ((done.0 ≡ failure) × (done.1 ≡ sh))
    ⊎ ((done.0 ≡ success)
        × (owner ≡ sh.pid)
        × ((page_provide : ℕ → ℕ → ℕ → ℕ) (memory : Bool)
            → is_promiscuous sh.flags ≡ false
            → (shmem_request page_provide memory pid done.1).0 ≡ none)
        × ((other : ℕ) → other ≢ pid → find_info other done.1.list ≡ find_info other sh.list))

-- Interrupts are as they were, or disabled by a failure for lack of the copy.
abbrev pub IsRestored : ℕ → Bool → Done × Bool → Type 0
IsRestored scratch enabled result =
    (result.1 ≡ enabled) ⊎ ((scratch ≡ 0) × (result.0.0 ≡ failure) × (result.1 ≡ false))

new_user-Granted :
    (owner pid flags : ℕ) (sh : Shmem)
    → owner ≡ sh.pid
    → find_info pid sh.list ≡ none
    → Granted owner pid flags sh (success, with_list sh (new_info pid flags ∷ sh.list), [])
unfolding find_info
new_user-Granted owner pid flags sh own absent =
    inr (refl, own, absent, ground arith, (λ other ne. ground (arith, ne)))

-- Each grant fails without a change, or is the owner's: it makes a process that was no user one, with
-- the flags that are allowed, and no other process gains or loses access.
pub shmem_grant_lem :
    (memory : Bool) (owner pid flags : ℕ) (sh : Shmem)
    → Granted owner pid flags sh (shmem_grant memory owner pid flags sh)
unfolding shmem_grant
shmem_grant_lem memory owner pid flags sh = elim (Bool-cases (owner == sh.pid)) [
  | inl own ↦ rw own (by_user (ground (arith, own)) (find_info pid sh.list) refl memory)
  | inr other ↦ rw other (inl (refl, refl))
]
  where
    by_user :
        owner ≡ sh.pid
        → (found : Option ShmemInfo) → find_info pid sh.list ≡ found
        → (memory : Bool)
        → Granted owner pid flags sh (elim found [
          | some info ↦ (failure, sh, [])
          | none ↦
              if memory
              then (success, with_list sh (new_info pid flags ∷ sh.list), [])
              else (failure, sh, [])
        ])
    by_user own (some info) found memory = inl (refl, refl)
    by_user own none found false = inl (refl, refl)
    by_user own none found true = new_user-Granted owner pid flags sh own found

request_stranger :
    (page_provide : ℕ → ℕ → ℕ → ℕ) (memory : Bool) (pid : ℕ) (sh : Shmem)
    → is_promiscuous sh.flags ≡ false
    → find_info pid sh.list ≡ none
    → (shmem_request page_provide memory pid sh).0 ≡ none
unfolding shmem_request user_of
request_stranger page_provide memory pid sh plain absent =
    rw (absent, shmem_request, user_of) (rw plain refl)

unlinked-Revoked :
    (owner pid : ℕ) (sh : Shmem) (calls : List Call)
    → users_of pid sh.list ≤ 1
    → owner ≡ sh.pid
    → Revoked owner pid sh (success, with_list sh (remove_info pid sh.list), calls)
unlinked-Revoked owner pid sh calls unique own = inr (
  refl,
  own,
  (λ page_provide memory plain.
      request_stranger page_provide memory pid (with_list sh (remove_info pid sh.list)) plain
        (find_info-remove_info pid sh.list unique)),
  (λ other ne. find_info-remove_info_ne pid other sh.list ne),
)

if-Revoked :
    (owner pid : ℕ) (sh : Shmem) (c : Bool) (t e : Done × Bool)
    → Revoked owner pid sh t.0
    → Revoked owner pid sh e.0
    → Revoked owner pid sh (if c then t else e).0
if-Revoked owner pid sh true t e h k = h
if-Revoked owner pid sh false t e h k = k

-- Each revoke of a process with at most one entry fails without a change of the region, or is the
-- owner's: the next request of the process fails if the region is not promiscuous, and no other process
-- gains or loses access. Interrupts are enabled or not as before, but for a revoke that fails for lack
-- of a scratch copy, which leaves them disabled.
pub shmem_revoke_lem :
    (scratch owner pid : ℕ) (enabled : Bool) (sh : Shmem)
    → users_of pid sh.list ≤ 1
    → Revoked owner pid sh (shmem_revoke scratch owner pid enabled sh).0
      × IsRestored scratch enabled (shmem_revoke scratch owner pid enabled sh)
unfolding shmem_revoke
shmem_revoke_lem scratch owner pid enabled sh unique = elim (Bool-cases (owner == sh.pid)) [
  | inl own ↦
      rw own
        (by_user (ground (arith, own)) (find_info pid sh.list), restored (find_info pid sh.list))
  | inr other ↦ rw other (inl (refl, refl), inl refl)
]
  where
    failed : Revoked owner pid sh (failure, sh, [])
    failed = inl (refl, refl)

    revoked : Option ShmemInfo → Done × Bool
    revoked found = elim found [
      | none ↦ ((failure, sh, []), enabled)
      | some info ↦
          if (info.usage == 0) || is_negative info.usage
          then ((success, with_list sh (remove_info pid sh.list), []), enabled)
          else if scratch == 0
          then ((failure, sh, []), false)
          else (
            (
              success,
              with_list sh (remove_info pid sh.list),
              replaced pid scratch info.virtual_location info.virtual_pages (page_flags info.flags)
                  ∷ [],
            ),
            enabled,
          )
    ]

    restored : (found : Option ShmemInfo) → IsRestored scratch enabled (revoked found)
    restored none = inl refl
    restored (some info) = elim (Bool-cases ((info.usage == 0) || is_negative info.usage)) [
      | inl idle ↦ rw idle (inl refl)
      | inr used ↦ rw used (elim (Bool-cases (scratch == 0)) [
        | inl missing ↦ rw missing (inr (ground (arith, missing), refl, refl))
        | inr given ↦ rw given (inl refl)
      ])
    ]

    by_user : owner ≡ sh.pid → (found : Option ShmemInfo) → Revoked owner pid sh (revoked found).0
    by_user own none = failed
    by_user own (some info) =
        let unlinked = with_list sh (remove_info pid sh.list) in
        let call =
          replaced pid scratch info.virtual_location info.virtual_pages (page_flags info.flags) in
        if-Revoked owner pid sh ((info.usage == 0) || is_negative info.usage)
          ((success, unlinked, []), enabled)
          (if scratch == 0
            then ((failure, sh, []), false)
            else ((success, unlinked, call ∷ []), enabled))
          (unlinked-Revoked owner pid sh [] unique own)
          (if-Revoked owner pid sh (scratch == 0) ((failure, sh, []), false)
            ((success, unlinked, call ∷ []), enabled) failed
            (unlinked-Revoked owner pid sh (call ∷ []) unique own))
