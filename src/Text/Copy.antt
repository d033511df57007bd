-- ===== src/Text/Copy.antt =====
-- What the copies write, and that the loops on strings end.
use racoon.Base.{
  ℕ, zero, suc, ◌+◌, ◌%◌, ◌≤◌, ◌<◌, ◌≡◌, ◌≢◌, refl, ap, ◌∙◌, ◌∷◌, arith, if◌then◌else◌, ◌==◌, ◌&&◌,
  ltb, leb, false, true, update, Bool-cases, inl, inr, ℕ_discrete, ◌⊎◌, some,
}
use racoon.Text.{
  Buffer, copy_bytes, kmemcpy, fill_bytes, kmemset, copy_name, kstrncpy, string_length, kstrlen,
}
use racoon.Text.Compare.{string_at, IsBytes}

copy_bytes_at :
    (k i : ℕ) (s ct : Buffer) (j : ℕ)
    → copy_bytes k i s ct j ≡ (if leb i j && ltb j (i + k) then ct j else s j)
unfolding copy_bytes
copy_bytes_at zero i s ct j = ground arith
copy_bytes_at (suc k) i s ct j = ground (arith, copy_bytes_at k (i + 1) (update s i (ct i)) ct j)

-- `kmemcpy` changes the first `n` bytes, to those of the source.
pub kmemcpy_lem :
    (n : ℕ) (s ct : Buffer) (j : ℕ) → kmemcpy s ct n j ≡ (if ltb j n then ct j else s j)
kmemcpy_lem n s ct j = ground (arith, copy_bytes_at n 0 s ct j)

fill_bytes_at :
    (k i : ℕ) (s : Buffer) (c j : ℕ)
    → fill_bytes k i s c j ≡ (if leb i j && ltb j (i + k) then c % 256 else s j)
unfolding fill_bytes
fill_bytes_at zero i s c j = ground arith
fill_bytes_at (suc k) i s c j = ground (arith, fill_bytes_at k (i + 1) (update s i (c % 256)) c j)

pub kmemset_lem :
    (n c : ℕ) (s : Buffer) (j : ℕ) → kmemset s c n j ≡ (if ltb j n then c % 256 else s j)
kmemset_lem n c s j = ground (arith, fill_bytes_at n 0 s c j)

-- Where the copy of a string starts at `i`, what stands before and behind stays.
copy_name_outside :
    (k i : ℕ) (s ct : Buffer) (j : ℕ)
    → (leb i j && ltb j (i + k)) ≡ false
    → copy_name k i s ct j ≡ s j
unfolding copy_name fill_bytes
copy_name_outside zero i s ct j h = refl
copy_name_outside (suc k) i s ct j h = ground (
  arith,
  copy_name_outside k (i + 1) (update s i (ct i)) ct j,
  fill_bytes_at k (i + 1) (update s i 0) 0 j,
)

copy_name_inside :
    (k i : ℕ) (s ct : Buffer) (j : ℕ)
    → i ≤ j
    → j < i + k
    → (copy_name k i s ct j ≡ ct j) ⊎ (copy_name k i s ct j ≡ 0)
unfolding copy_name fill_bytes
copy_name_inside zero i s ct j l h = absurd (omega arith)
copy_name_inside (suc k) i s ct j l h = elim (ℕ_discrete i j) [
  | yes e ↦ ground (
    arith,
    e,
    fill_bytes_at k (i + 1) (update s i 0) 0 j,
    copy_name_outside k (i + 1) (update s i (ct i)) ct j,
  )
  | no ne ↦ ground (
    arith,
    fill_bytes_at k (i + 1) (update s i 0) 0 j,
    copy_name_inside k (i + 1) (update s i (ct i)) ct j (omega arith) (omega arith),
  )
]

-- The copy of bytes is bytes.
pub kstrncpy-IsBytes : (n : ℕ) (s ct : Buffer) → IsBytes n ct → IsBytes n (kstrncpy s ct n)
kstrncpy-IsBytes n s ct b j h = ground (arith, copy_name_inside n 0 s ct j, b j)

string_at-copy_name :
    (k i : ℕ) (s ct : Buffer) → string_at k i (copy_name k i s ct) ≡ string_at k i ct
unfolding copy_name string_at fill_bytes
string_at-copy_name zero i s ct = refl
string_at-copy_name (suc k) i s ct = elim (Bool-cases (ct i == 0)) [
  | inl ended ↦ rw ended (ground (arith, fill_bytes_at k (i + 1) (update s i 0) 0 i))
  | inr more ↦
      let rest = copy_name k (i + 1) (update s i (ct i)) ct in
      let first : rest i ≡ ct i =
        copy_name_outside k (i + 1) (update s i (ct i)) ct i (ground arith) ∙ ground arith in
      rw (more, first, more)
        (ap (λ xs. ct i ∷ xs) (string_at-copy_name k (i + 1) (update s i (ct i)) ct))
]

-- `kstrncpy` into `n` bytes leaves the string that the source holds in its first `n`, and changes no
-- byte behind them.
pub kstrncpy_lem :
    (n : ℕ) (s ct : Buffer)
    → (string_at n 0 (kstrncpy s ct n) ≡ string_at n 0 ct)
      × ((j : ℕ) → n ≤ j → kstrncpy s ct n j ≡ s j)
kstrncpy_lem n s ct =
    (string_at-copy_name n 0 s ct, (λ j h. copy_name_outside n 0 s ct j (ground arith)))

string_length_at :
    (k i l : ℕ) (cs : Buffer)
    → ((j : ℕ) → j < l → cs (i + j) ≢ 0)
    → cs (i + l) ≡ 0
    → l < k
    → string_length k i cs ≡ some (i + l)
unfolding string_length
string_length_at zero i l cs before end h = absurd (omega arith)
string_length_at (suc k) i zero cs before end h =
    let here : cs i ≡ 0 = ap cs (omega arith) ∙ end in
    let test : (cs i == 0) ≡ true = ground arith in rw test (ap some (omega arith))
string_length_at (suc k) i (suc l) cs before end h =
    let here : cs i ≢ 0 = λ e. before 0 (omega arith) (ap cs (omega arith) ∙ e) in
    let test : (cs i == 0) ≡ false = ground arith in
    rw test (
      string_length_at k (i + 1) l cs
        (λ j lt e. before (suc j) (omega arith) (ap cs (omega arith) ∙ e))
        (ap cs (omega arith) ∙ end) (omega arith)
      ∙ ap some (omega arith))

-- `kstrlen` ends on a string that is terminated, and answers its length.
pub kstrlen_lem :
    (l : ℕ) (cs : Buffer) → ((j : ℕ) → j < l → cs j ≢ 0) → cs l ≡ 0 → kstrlen (l + 1) cs ≡ some l
kstrlen_lem l cs before end =
    string_length_at (l + 1) 0 l cs (λ j h e. before j h (ap cs (omega arith) ∙ e))
      (ap cs (omega arith) ∙ end) (omega arith)
    ∙ ap some (omega arith)
