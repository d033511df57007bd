-- ===== src/Text/Tests.antt =====
-- The string functions on short strings.
use racoon.Base.{◌≡◌, ◌↔◌, refl, arith, get_or, [], ◌∷◌, some, ◌==◌, if◌then◌else◌}
use racoon.Text.{Buffer, same, more, kstrncmp, kstrlen, compare_names, string_length}
use racoon.Text.Compare.{string_at, kstrncmp_lem}

-- "init", and "init" with another byte behind its end.
abbrev init : Buffer
init i = get_or (105 ∷ 110 ∷ 105 ∷ 116 ∷ []) i 0

abbrev init_tail : Buffer
init_tail i = get_or (105 ∷ 110 ∷ 105 ∷ 116 ∷ 0 ∷ 9 ∷ []) i 0

-- `char` is signed, so byte 200 is below `i`.
init_high : kstrncmp init (λ i. 200) 8 ≡ more
unfolding compare_names
init_high = refl

init_len : kstrlen 9 init ≡ some 4
unfolding string_length
init_len = refl

init_same : kstrncmp init init_tail 8 ≡ same
unfolding compare_names
init_same = refl

-- The one-letter string "i", twice.
abbrev short : Buffer
short i = if i == 0 then 105 else 0

abbrev short_tail : Buffer
short_tail i = if i == 0 then 105 else if i == 1 then 0 else 9

kstrncmp_example :
    (kstrncmp short short_tail 8 ≡ same) ↔ (string_at 8 0 short ≡ string_at 8 0 short_tail)
kstrncmp_example = kstrncmp_lem 8 short short_tail (λ i h. ground arith) (λ i h. ground arith)
