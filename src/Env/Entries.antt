-- ===== src/Env/Entries.antt =====
-- The table of variables after an entry is written, and what its names stand for then.
use racoon.Base.{
  ℕ, ◌+◌, ◌*◌, ◌≤◌, ◌<◌, ◌≡◌, ◌≢◌, ap, ◌∙◌, sym, subst, dec_lt, Bool, true, false, Bool-cases, inl,
  inr, arith, Option, some, ℕ_discrete, tabulate, tabulate_ext, first_index, first_index_bounds,
  first_index_before, first_index_at, first_index_is, first_index_none, first_index_ext, update,
}
use racoon.Text.{Buffer, kmemcpy, kstrncpy}
use racoon.Text.Copy.{kmemcpy_lem, kstrncpy_lem, kstrncpy-IsBytes}
use racoon.Text.Compare.{IsBytes}
use racoon.Env.{EnvironInfo, Environment, name_length, same_name, name_position}
use racoon.Env.Find.{name_of, same_name_iff, same_name_eq, value_of, IsTable}

module _ (info : ℕ → EnvironInfo) (count : ℕ) (v : IsTable info count) (name : Buffer)
    (b : IsBytes name_length name) where
  abbrev test : Buffer → ℕ → Bool
  test n i = same_name (info i).name n

  pub pos_in : (n : Buffer) → name_position info count n ≤ count
  unfolding name_position
  pos_in n = omega (arith, first_index_bounds (test n) count 0)

  at_pos :
      (n : Buffer) → name_position info count n < count → test n (name_position info count n) ≡ true
  unfolding name_position
  at_pos n h = ground (arith, first_index_at (test n) count 0)

  before_pos : (n : Buffer) (i : ℕ) → i < name_position info count n → test n i ≡ false
  unfolding name_position
  before_pos n i h = ground (arith, first_index_before (test n) count 0 i)

  same_pos :
      (n : Buffer)
      → IsBytes name_length n
      → name_of n ≡ name_of name
      → name_position info count n ≡ name_position info count name
  unfolding name_position
  same_pos n bn e =
      first_index_ext (test n) (test name) count
        (λ i h. same_name_eq (info i).name n name (v.named i h) bn b e)

  -- A different name stands elsewhere.
  other_pos :
      (n : Buffer)
      → IsBytes name_length n
      → name_of n ≢ name_of name
      → name_position info count n < count
      → name_position info count n ≢ name_position info count name
  other_pos n bn ne h e =
      let p = name_position info count n in
      let mine = (same_name_iff (info p).name n (v.named p h) bn).0 (at_pos n h) in
      let his : test name p ≡ true = ap (test name) e ∙ at_pos name (omega (arith, e)) in
      ne (sym mine ∙ (same_name_iff (info p).name name (v.named p h) b).0 his)

  module _ (size : ℕ) (bytes : Buffer) where
    abbrev pub overwritten : ℕ → EnvironInfo
    overwritten =
        let p = name_position info count name in
        update info p (record (info p) { size = size; bytes = bytes })

    pos-overwritten : (n : Buffer) → name_position overwritten count n ≡ name_position info count n
    unfolding name_position
    pos-overwritten n =
        let p = name_position info count name in
        first_index_ext (λ i. same_name (overwritten i).name n) (test n) count
          (λ i h.
            let e : (overwritten i).name ≡ (info i).name = ground arith in
            ap (λ x. same_name x n) e)

    pub value-overwritten_same :
        (n : Buffer)
        → IsBytes name_length n
        → name_position info count name < count
        → name_of n ≡ name_of name
        → value_of overwritten count n ≡ some (tabulate size bytes)
    unfolding value_of
    value-overwritten_same n bn found e =
        let p = pos-overwritten n ∙ same_pos n bn e in rw p (ground arith)

    pub value-overwritten_other :
        (n : Buffer)
        → IsBytes name_length n
        → name_position info count name < count
        → name_of n ≢ name_of name
        → value_of overwritten count n ≡ value_of info count n
    unfolding value_of
    value-overwritten_other n bn found ne =
        rw (pos-overwritten n) (ground (arith, other_pos n bn ne))

    module _ (grown : ℕ → EnvironInfo) (keeps : (i : ℕ) → i < count → grown i ≡ info i)
        (missing : name_position info count name ≡ count) where
      abbrev new_name : Buffer
      new_name = kstrncpy (grown count).name name name_length

      abbrev pub appended : ℕ → EnvironInfo
      appended = update grown count (record { name = new_name; size = size; bytes = bytes })

      new_name-name_of : name_of new_name ≡ name_of name
      unfolding name_of
      new_name-name_of = (kstrncpy_lem name_length (grown count).name name).0

      old_entry : (i : ℕ) → i < count → appended i ≡ info i
      old_entry i h = ground (arith, keeps i h)

      abbrev test' : Buffer → ℕ → Bool
      test' n i = same_name (appended i).name n

      old_test : (n : Buffer) (i : ℕ) → i < count → test' n i ≡ test n i
      old_test n i h = ap (λ x. same_name x.name n) (old_entry i h)

      last_test :
          (n : Buffer)
          → IsBytes name_length n
          → (test' n count ≡ true → name_of n ≡ name_of name)
            × (name_of n ≡ name_of name → test' n count ≡ true)
      last_test n bn =
          let e : appended count ≡ record { name = new_name; size = size; bytes = bytes } =
            ground arith in
          let new =
            same_name_iff new_name n (kstrncpy-IsBytes name_length (grown count).name name b) bn in
          (
            (λ h. sym (new.0 (ap (λ x. same_name x.name n) (sym e) ∙ h)) ∙ new_name-name_of),
            (λ h. ap (λ x. same_name x.name n) e ∙ new.1 (new_name-name_of ∙ sym h)),
          )

      pub appended-IsTable : IsTable appended (count + 1)
      appended-IsTable = record {
        named = λ i h. elim (ℕ_discrete i count) [
          | yes e ↦
              let entry : (appended i).name ≡ new_name = ground (arith, e) in
              subst (IsBytes name_length) (sym entry)
                (kstrncpy-IsBytes name_length (grown count).name name b)
          | no ne ↦
              subst (λ x. IsBytes name_length x.name) (sym (old_entry i (omega arith)))
                (v.named i (omega arith))
        ];
      }

      pub value-appended_same :
          (n : Buffer)
          → IsBytes name_length n
          → name_of n ≡ name_of name
          → value_of appended (count + 1) n ≡ some (tabulate size bytes)
      unfolding value_of name_position
      value-appended_same n bn e =
          let none_before : (i : ℕ) → i < count → test' n i ≡ false =
            λ i h. old_test n i h ∙ before_pos n i (omega (arith, same_pos n bn e, missing)) in
          let found : first_index (test' n) (count + 1) 0 ≡ count =
            first_index_is (test' n) (count + 1) count (omega arith) ((last_test n bn).1 e)
              none_before in
          rw found (ground arith)

      pub value-appended_other :
          (n : Buffer)
          → IsBytes name_length n
          → name_of n ≢ name_of name
          → value_of appended (count + 1) n ≡ value_of info count n
      unfolding value_of name_position
      value-appended_other n bn ne = elim (dec_lt (name_position info count n) count) [
        | yes h ↦
            let q = name_position info count n in
            let found : first_index (test' n) (count + 1) 0 ≡ q =
              first_index_is (test' n) (count + 1) q (omega (arith, h))
                (old_test n q h ∙ at_pos n h)
                (λ i lt. old_test n i (omega (arith, lt, h)) ∙ before_pos n i lt) in
            rw found (ground (arith, old_entry q h, h))
        | no h ↦
            let last : test' n count ≡ false = elim (Bool-cases (test' n count)) [
              | inl yes_n ↦ absurd (ne ((last_test n bn).0 yes_n))
              | inr no_n ↦ no_n
            ] in
            let none_old : (i : ℕ) → i < count → test' n i ≡ false =
              λ i lt. old_test n i lt ∙ before_pos n i (omega (arith, lt, h)) in
            let missed : first_index (test' n) (count + 1) 0 ≡ count + 1 =
              first_index_none (test' n) (count + 1) (λ i lt. elim (ℕ_discrete i count) [
                | yes e ↦ ap (test' n) e ∙ last
                | no other ↦ none_old i (omega arith)
              ]) in
            rw missed (ground (arith, h))
      ]

-- `krealloc` keeps the first entries.
abbrev pub Keeps : (Option (ℕ → EnvironInfo) → ℕ → Option (ℕ → EnvironInfo)) → Type 0
Keeps krealloc =
    (old new : ℕ → EnvironInfo) (n : ℕ)
    → krealloc (some old) ((n + 1) * 1032) ≡ some new
    → (i : ℕ) → i < n
    → new i ≡ old i

-- The environment after a variable is set: its value is the new one, the others keep theirs.
pub record Written (name : Buffer) (size : ℕ) (bytes : Buffer) (info : ℕ → EnvironInfo) (count : ℕ)
    (env : Environment) : Type 0 where
  pub table : ℕ → EnvironInfo
  pub pointer : env.environment ≡ some table
  pub valid : IsTable table env.environment_count
  pub new_value :
      (n : Buffer)
      → IsBytes name_length n
      → name_of n ≡ name_of name
      → value_of table env.environment_count n ≡ some (tabulate size bytes)
  pub old_value :
      (n : Buffer)
      → IsBytes name_length n
      → name_of n ≢ name_of name
      → value_of table env.environment_count n ≡ value_of info count n

pub tabulate-kmemcpy : (n : ℕ) (s ct : Buffer) → tabulate n (kmemcpy s ct n) ≡ tabulate n ct
tabulate-kmemcpy n s ct = tabulate_ext n _ _ (λ i h. ground (arith, kmemcpy_lem n s ct i))
