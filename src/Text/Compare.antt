-- ===== src/Text/Compare.antt =====
-- `kstrncmp` compares the strings that its arguments hold.
use racoon.Base.{
  ℕ, zero, suc, ◌+◌, ◌<◌, ◌≡◌, ◌≢◌, refl, ◌↔◌, List, [], ◌∷◌, arith, if◌then◌else◌, ◌==◌, inl, inr,
  ◌⊎◌,
}
use racoon.Text.{Buffer, same, compare_names, kstrncmp}

-- The string at offset `i` of a buffer with `k` bytes left: its bytes up to a NUL.
unfoldable pub string_at : ℕ → ℕ → Buffer → List ℕ
string_at zero i s = []
string_at (suc k) i s = let rest = string_at k (i + 1) s in if s i == 0 then [] else (s i ∷ rest)

abbrev pub IsBytes : ℕ → Buffer → Type 0
IsBytes n s = (i : ℕ) → i < n → s i < 256

compare_names_at :
    (k i : ℕ) (s1 s2 : Buffer)
    → IsBytes (i + k) s1
    → IsBytes (i + k) s2
    → ((compare_names k i s1 s2 ≡ same) × (string_at k i s1 ≡ string_at k i s2))
      ⊎ ((compare_names k i s1 s2 ≢ same) × (string_at k i s1 ≢ string_at k i s2))
unfolding compare_names string_at
compare_names_at zero i s1 s2 b1 b2 = inl (refl, refl)
compare_names_at (suc k) i s1 s2 b1 b2 = ground (
  arith,
  compare_names_at k (i + 1) s1 s2 (λ j h. b1 j (omega arith)) (λ j h. b2 j (omega arith)),
  b1 i,
  b2 i,
)

-- Two buffers compare as equal up to `n` bytes exactly if they hold the same string.
pub kstrncmp_lem :
    (n : ℕ) (s1 s2 : Buffer)
    → IsBytes n s1
    → IsBytes n s2
    → (kstrncmp s1 s2 n ≡ same) ↔ (string_at n 0 s1 ≡ string_at n 0 s2)
kstrncmp_lem n s1 s2 b1 b2 =
    elim (compare_names_at n 0 s1 s2 (λ j h. b1 j (omega arith)) (λ j h. b2 j (omega arith))) [
      | inl (e, e') ↦ ((λ _. e'), (λ _. e))
      | inr (ne, ne') ↦ ((λ h. absurd (ne h)), (λ h. absurd (ne' h)))
    ]
