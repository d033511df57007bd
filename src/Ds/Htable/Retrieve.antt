-- ===== src/Ds/Htable/Retrieve.antt =====
-- The probe sequence reaches every slot, so `htable_retrieve` finds what is there.
use native.Mathlib.Nat.{add-mod_right, mod-eq_of_lt}
use racoon.Base.{
  ℕ, zero, suc, ◌+◌, ◌-◌, ◌%◌, ◌<◌, ◌≡◌, refl, ap, ◌∙◌, arith, Bool, true, false, none, ◌==◌, [],
  ◌∷◌, length, Bool-cases, inl, inr, subst, ok, Option, some, ◌≤◌, ◌^◌, add32, if◌then◌else◌,
}
use racoon.Ds.Htable.{
  Slots, Htable, slot, is_match, retrieve_from, htable_retrieve, Pointer, position,
}

-- From every start, `n` steps of the probe visit every slot below `n`.
pub probe_reaches : (n hash j : ℕ) → j < n → (i : ℕ) × (i < n) × ((i + hash) % n ≡ j)
probe_reaches n zero j h = (j, h, ap (λ (x : ℕ). x % n) (omega arith) ∙ mod-eq_of_lt h)
probe_reaches n (suc hash) j h = let (i, l, e) = probe_reaches n hash j h in before i l e
  where
    before : (i : ℕ) → i < n → (i + hash) % n ≡ j → (i : ℕ) × (i < n) × ((i + suc hash) % n ≡ j)
    before zero l e =
        let round : n - 1 + suc hash ≡ hash + n = omega (arith, l) in
        (
          n - 1,
          omega (arith, l),
          ap (λ (x : ℕ). x % n) round
              ∙ add-mod_right hash n
              ∙ ap (λ (x : ℕ). x % n) (omega arith)
              ∙ e,
        )
    before (suc i) l e =
        let step : i + suc hash ≡ suc i + hash = omega arith in
        (i, omega (arith, l), ap (λ (x : ℕ). x % n) step ∙ e)

-- Without overflow.
pub position-small :
    (size i hash : ℕ) → i + hash < 2 ^ 31 → position size i hash ≡ some ((i + hash) % size)
unfolding position
position-small size i hash h =
    let sum : add32 i hash ≡ i + hash = omega (arith, h) in rw sum (ground (arith, h))

module _ {A : Type 0} (matches : A → Bool) where
  -- The probes of `htable_retrieve`, on numbers without a bound.
  unfoldable pub seek_from : ℕ → ℕ → ℕ → Htable A → Option (Pointer A)
  seek_from zero i hash t = none
  seek_from (suc k) i hash t =
      let rest = seek_from k (i + 1) hash t in
      let entry = slot t.table ((i + hash) % t.size) in
      if is_match matches entry then entry else rest

  retrieve_from-seek_from :
      (k i hash : ℕ) (t : Htable A)
      → i + k + hash ≤ 2 ^ 31
      → retrieve_from matches k i hash t ≡ ok (seek_from k i hash t)
  unfolding retrieve_from seek_from
  retrieve_from-seek_from zero i hash t h = refl
  retrieve_from-seek_from (suc k) i hash t h =
      elim (Bool-cases (is_match matches (slot t.table ((i + hash) % t.size)))) [
        | inl here ↦
            rw (position-small t.size i hash (omega (arith, h)), retrieve_from) (rw here refl)
        | inr further ↦
            rw (position-small t.size i hash (omega (arith, h)), retrieve_from)
              (rw further (retrieve_from-seek_from k (i + 1) hash t (omega (arith, h))))
      ]

  -- What matches among the slots that are looked at is in a slot.
  seek_from_found :
      (k i hash : ℕ) (t : Htable A)
      → is_match matches (seek_from k i hash t) ≡ true
      → (j : ℕ) × (slot t.table j ≡ seek_from k i hash t)
  unfolding seek_from
  seek_from_found zero i hash t = λ h. ground (arith, h)
  seek_from_found (suc k) i hash t =
      elim (Bool-cases (is_match matches (slot t.table ((i + hash) % t.size)))) [
        | inl here ↦ rw here (λ h. ((i + hash) % t.size, refl))
        | inr further ↦ rw further (seek_from_found k (i + 1) hash t)
      ]

  seek_from-none :
      (k i hash : ℕ) (t : Htable A)
      → is_match matches (seek_from k i hash t) ≡ false
      → seek_from k i hash t ≡ none
  unfolding seek_from
  seek_from-none zero i hash t = λ h. refl
  seek_from-none (suc k) i hash t =
      elim (Bool-cases (is_match matches (slot t.table ((i + hash) % t.size)))) [
        | inl here ↦ rw here (λ h. ground (arith, h, here))
        | inr further ↦ rw further (seek_from-none k (i + 1) hash t)
      ]

  -- If one of the slots matches, something is retrieved.
  seek_from_matches :
      (k i hash : ℕ) (t : Htable A) (m : ℕ)
      → m < k
      → is_match matches (slot t.table ((i + m + hash) % t.size)) ≡ true
      → is_match matches (seek_from k i hash t) ≡ true
  unfolding seek_from
  seek_from_matches zero i hash t m l h = ground (arith, l)
  seek_from_matches (suc k) i hash t zero l h =
      let here : is_match matches (slot t.table ((i + hash) % t.size)) ≡ true =
        ap (λ (x : ℕ). is_match matches (slot t.table ((x + hash) % t.size))) (omega arith) ∙ h in
      rw here here
  seek_from_matches (suc k) i hash t (suc m) l h =
      let same : i + 1 + m ≡ i + suc m = omega arith in
      let later =
        seek_from_matches k (i + 1) hash t m (omega (arith, l))
          (ap (λ (x : ℕ). is_match matches (slot t.table ((x + hash) % t.size))) same ∙ h) in
      elim (Bool-cases (is_match matches (slot t.table ((i + hash) % t.size)))) [
        | inl here ↦ rw here here
        | inr further ↦ rw further later
      ]

  slot_match : (table : Slots A) (j : ℕ) → is_match matches (slot table j) ≡ true → j < length table
  slot_match [] j h = ground (arith, h)
  slot_match (e ∷ table) zero h = omega arith
  slot_match (e ∷ table) (suc j) h = omega (arith, slot_match table j h)

  seek_from-all :
      (hash : ℕ) (t : Htable A)
      → length t.table ≡ t.size
      → (j : ℕ) → is_match matches (slot t.table j) ≡ true
      → is_match matches (seek_from t.size 0 hash t) ≡ true
  seek_from-all hash t size j h =
      let (m, l, e) =
        probe_reaches t.size hash j (subst (λ n. j < n) size (slot_match t.table j h)) in
      seek_from_matches t.size 0 hash t m l (
        ap (λ (x : ℕ). is_match matches (slot t.table x))
          (ap (λ (x : ℕ). (x + hash) % t.size) (omega arith) ∙ e)
        ∙ h)

  -- In a table that counts at least one entry, and whose size and the hash together stay within an int,
  -- `htable_retrieve` returns. What it answers matches exactly when a slot holds an entry that matches;
  -- then it is in a slot, and else it is NULL.
  pub htable_retrieve_lem :
      (hash : ℕ) (t : Htable A)
      → 0 < t.total
      → length t.table ≡ t.size
      → t.size + hash ≤ 2 ^ 31
      → (entry : Option (Pointer A)) × (htable_retrieve matches hash t ≡ ok entry)
        × ((j : ℕ) → is_match matches (slot t.table j) ≡ true → is_match matches entry ≡ true)
        × (is_match matches entry ≡ true → (j : ℕ) × (slot t.table j ≡ entry))
        × (is_match matches entry ≡ false → entry ≡ none)
  unfolding htable_retrieve
  htable_retrieve_lem hash t counted size small =
      let some_left : (t.total == 0) ≡ false = ground (arith, counted) in
      (
        seek_from t.size 0 hash t,
        rw some_left (retrieve_from-seek_from t.size 0 hash t (omega (arith, small))),
        seek_from-all hash t size,
        seek_from_found t.size 0 hash t,
        seek_from-none t.size 0 hash t,
      )
