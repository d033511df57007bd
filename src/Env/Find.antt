-- ===== src/Env/Find.antt =====
-- Where a name stands in the table.
use racoon.Base.{
  ℕ, ◌<◌, ◌≡◌, ◌∙◌, sym, ◌↔◌, true, Bool-cases, inl, inr, arith, List, Option, some, none, tabulate,
  if◌then◌else◌, ltb,
}
use racoon.Text.{Buffer, Sign, less, same, more, kstrncmp}
use racoon.Text.Compare.{string_at, IsBytes, kstrncmp_lem}
use racoon.Env.{EnvironInfo, name_length, is_same, same_name, name_position}

-- The name that a buffer holds.
unfoldable pub name_of : Buffer → List ℕ
name_of name = string_at name_length 0 name

is_same_iff : (s : Sign) → (is_same s ≡ true) ↔ (s ≡ same)
is_same_iff less = ground arith
is_same_iff same = ground arith
is_same_iff more = ground arith

pub same_name_iff :
    (a b : Buffer)
    → IsBytes name_length a
    → IsBytes name_length b
    → (same_name a b ≡ true) ↔ (name_of a ≡ name_of b)
unfolding name_of
same_name_iff a b ha hb =
    let s = is_same_iff (kstrncmp a b name_length) in
    let n = kstrncmp_lem name_length a b ha hb in ((λ h. n.0 (s.0 h)), (λ h. s.1 (n.1 h)))

-- Two buffers with the same name are found at the same place.
pub same_name_eq :
    (a b c : Buffer)
    → IsBytes name_length a
    → IsBytes name_length b
    → IsBytes name_length c
    → name_of b ≡ name_of c
    → same_name a b ≡ same_name a c
same_name_eq a b c ha hb hc e =
    let s = same_name_iff a b ha hb in
    let t = same_name_iff a c ha hc in
    elim (Bool-cases (same_name a b)) [
      | inl yes_b ↦ yes_b ∙ sym (t.1 (s.0 yes_b ∙ e))
      | inr no_b ↦ elim (Bool-cases (same_name a c)) [
        | inl yes_c ↦ absurd (ground (arith, s.1 (t.0 yes_c ∙ sym e)))
        | inr no_c ↦ no_b ∙ sym no_c
      ]
    ]

-- The bytes stored under a name.
unfoldable pub value_of : (ℕ → EnvironInfo) → ℕ → Buffer → Option (List ℕ)
value_of info count name =
    let p = name_position info count name in
    if ltb p count then some (tabulate (info p).size (info p).bytes) else none

pub record IsTable (info : ℕ → EnvironInfo) (count : ℕ) : Type 0 where
  pub named : (i : ℕ) → i < count → IsBytes name_length (info i).name
