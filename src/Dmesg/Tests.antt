-- ===== src/Dmesg/Tests.antt =====
-- The message log on short messages.
use racoon.Base.{ℕ, ◌≡◌, ◌≤◌, ◌^◌, refl, arith, List, [], ◌∷◌, tabulate, ◌-◌}
use racoon.Text.{Buffer}
use racoon.Dmesg.{dmesg_uint, dmesg_int, dmesg_hex, dmesg_string, sdmesg}
use racoon.Dmesg.Bounds.{sdmesg_bounds}
use racoon.Dmesg.Numbers.{read_decimal, dmesg_uint_lem}

abbrev blank : Buffer
blank i = 0

-- 1234
uint_digits : tabulate 5 (dmesg_uint blank 16 1234).1 ≡ (49 ∷ 50 ∷ 51 ∷ 52 ∷ 0 ∷ [])
unfolding dmesg_uint tabulate
uint_digits = refl

-- 2^31, which is printed as an int: "./,),(-*,("
uint_high :
    tabulate 10 (dmesg_uint blank 16 (2 ^ 31)).1
    ≡ (46 ∷ 47 ∷ 44 ∷ 41 ∷ 44 ∷ 40 ∷ 45 ∷ 42 ∷ 44 ∷ 40 ∷ [])
unfolding dmesg_uint tabulate
uint_high = refl

-- -5 in 2 bytes answers 1.
int_full : (dmesg_int blank 2 (2 ^ 32 - 5)).0 ≡ 1
unfolding dmesg_int
int_full = refl

-- 0x2F
hex_digits : tabulate 4 (dmesg_hex blank 16 47).1 ≡ (48 ∷ 120 ∷ 50 ∷ 70 ∷ [])
unfolding dmesg_hex tabulate
hex_digits = refl

-- "%u;" of 7
abbrev args : ℕ → ℕ
args i = 7

abbrev no_string : ℕ → List ℕ
no_string i = []

formatted : tabulate 3 (sdmesg args no_string 8 blank (37 ∷ 117 ∷ 59 ∷ [])).1 ≡ (55 ∷ 59 ∷ 0 ∷ [])
unfolding sdmesg tabulate dmesg_uint dmesg_string
formatted = refl

sdmesg_bounds_example :
    ((sdmesg args no_string 1 blank (37 ∷ 117 ∷ 59 ∷ [])).0 ≤ 1)
    × ((j : ℕ) → 1 ≤ j → (sdmesg args no_string 1 blank (37 ∷ 117 ∷ 59 ∷ [])).1 j ≡ blank j)
sdmesg_bounds_example = sdmesg_bounds args no_string 1 blank (37 ∷ 117 ∷ 59 ∷ [])

dmesg_uint_lem_example :
    ((dmesg_uint blank 16 1234).0 ≤ 10)
    × (read_decimal (dmesg_uint blank 16 1234).0 0 (dmesg_uint blank 16 1234).1 0 ≡ 1234)
dmesg_uint_lem_example = dmesg_uint_lem blank 16 1234 (omega arith) (omega arith)
