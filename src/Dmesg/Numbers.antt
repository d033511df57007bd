-- ===== src/Dmesg/Numbers.antt =====
-- What is printed of a number can be read back.
use racoon.Base.{
  ℕ, zero, suc, ◌+◌, ◌-◌, ◌*◌, ◌/◌, ◌%◌, ◌^◌, ◌≤◌, ◌<◌, ◌≡◌, refl, ap, ◌∙◌, arith, Bool, true,
  false, ltb, leb, if◌then◌else◌, List, [], ◌∷◌, length, update, Bool-cases, inl, inr, ℕ_discrete,
}
use racoon.Text.{Buffer}
use racoon.Dmesg.{print_stack, decimal_stack, dmesg_uint}

-- The number that decimal digits stand for, behind the digits of `n`.
pub value_of : List ℕ → ℕ → ℕ
value_of [] n = n
value_of (c ∷ digits) n = value_of digits (n * 10 + (c - 48))

-- The same of the `k` bytes from `i` on.
pub read_decimal : ℕ → ℕ → Buffer → ℕ → ℕ
read_decimal zero i buffer n = n
read_decimal (suc k) i buffer n = read_decimal k (i + 1) buffer (n * 10 + (buffer i - 48))

decimal_stack_last :
    (k m : ℕ) (number : List ℕ)
    → m / 10 ≡ 0
    → decimal_stack (suc k) false m number ≡ (m % 10 + 48) ∷ number
unfolding decimal_stack
decimal_stack_last k m number h = ground (arith, h)

decimal_stack_more :
    (k m : ℕ) (number : List ℕ)
    → ¬ (m / 10 ≡ 0)
    → decimal_stack (suc k) false m number ≡ decimal_stack k false (m / 10) ((m % 10 + 48) ∷ number)
unfolding decimal_stack
decimal_stack_more k m number h = ground (arith, h)

value_of-decimal_stack :
    (k m : ℕ) (number : List ℕ)
    → m < 10 ^ suc k
    → value_of (decimal_stack (suc k) false m number) 0 ≡ value_of number m
unfolding value_of
value_of-decimal_stack zero m number h =
    let digit : 0 + (m % 10 + 48 - 48) ≡ m = omega (arith, h) in
    rw (decimal_stack_last 0 m number (omega (arith, h))) (ap (value_of number) digit)
value_of-decimal_stack (suc k) m number h =
    let digits : m / 10 * 10 + (m % 10 + 48 - 48) ≡ m = omega arith in
    let ih = value_of-decimal_stack k (m / 10) ((m % 10 + 48) ∷ number) (omega (arith, h)) in
    elim (ℕ_discrete (m / 10) 0) [
      | yes last ↦
          let digit : 0 + (m % 10 + 48 - 48) ≡ m = omega (arith, last) in
          rw (decimal_stack_last (suc k) m number last) (ap (value_of number) digit)
      | no more ↦ rw (decimal_stack_more (suc k) m number more) (ih ∙ ap (value_of number) digits)
    ]

length-decimal_stack :
    (k m : ℕ) (number : List ℕ) → length (decimal_stack k false m number) ≤ k + length number
unfolding decimal_stack
length-decimal_stack zero m number = omega arith
length-decimal_stack (suc k) m number =
    ground (arith, length-decimal_stack k (m / 10) ((m % 10 + 48) ∷ number))

print_stack_before :
    (number : List ℕ) (len count : ℕ) (buffer : Buffer) (j : ℕ)
    → j < count
    → (print_stack number len count buffer).1 j ≡ buffer j
unfolding print_stack
print_stack_before [] len count buffer j h = refl
print_stack_before (c ∷ number) len count buffer j h =
    let before =
      print_stack_before number len (count + 1) (update buffer count c) j (omega (arith, h)) in
    elim (Bool-cases (leb len count)) [
      | inl full ↦ rw full refl
      | inr room ↦ rw room (before ∙ ground (arith, h))
    ]

read_decimal-print_stack :
    (number : List ℕ) (len count : ℕ) (buffer : Buffer) (n : ℕ)
    → count + length number ≤ len
    → ((print_stack number len count buffer).0 ≡ count + length number)
      × (read_decimal (length number) count (print_stack number len count buffer).1 n
          ≡ value_of number n)
unfolding print_stack read_decimal value_of
read_decimal-print_stack [] len count buffer n h = (omega arith, refl)
read_decimal-print_stack (c ∷ number) len count buffer n h =
    let buffer' = update buffer count c in
    let room : leb len count ≡ false = ground (arith, h) in
    let (few, read) =
      read_decimal-print_stack number len (count + 1) buffer' (n * 10 + (c - 48))
        (omega (arith, h)) in
    let first : (print_stack number len (count + 1) buffer').1 count ≡ c =
      print_stack_before number len (count + 1) buffer' count (omega arith) ∙ ground arith in
    let next = λ (d : ℕ).
      read_decimal (length number) (count + 1) (print_stack number len (count + 1) buffer').1
        (n * 10 + (d - 48)) in
    rw room (omega (arith, few), ap next first ∙ read)

dmesg_uint-print_stack :
    (buffer : Buffer) (len num : ℕ)
    → num < 2 ^ 31
    → dmesg_uint buffer len num ≡ print_stack (decimal_stack 10 false num []) len 0 buffer
unfolding dmesg_uint
dmesg_uint-print_stack buffer len num h =
    let small : ltb num (2 ^ 31) ≡ true = ground (arith, h) in
    ap
      (λ (c : Bool).
        print_stack
          (if c then decimal_stack 10 false num [] else decimal_stack 10 true (2 ^ 32 - num) []) len
          0 buffer)
      small

-- Below 2^31, with room for ten digits, `dmesg_uint` answers at most ten bytes, and they read back as
-- the number.
pub dmesg_uint_lem :
    (buffer : Buffer) (len num : ℕ)
    → num < 2 ^ 31
    → 10 ≤ len
    → ((dmesg_uint buffer len num).0 ≤ 10)
      × (read_decimal (dmesg_uint buffer len num).0 0 (dmesg_uint buffer len num).1 0 ≡ num)
unfolding value_of
dmesg_uint_lem buffer len num h room =
    let few = length-decimal_stack 10 num [] in
    let value = value_of-decimal_stack 9 num [] (omega (arith, h)) in
    let (count, read) =
      read_decimal-print_stack (decimal_stack 10 false num []) len 0 buffer 0
        (omega (arith, few, room)) in
    rw (dmesg_uint-print_stack buffer len num h) (
      omega (arith, few, count),
      ap
            (λ (n : ℕ).
              read_decimal n 0 (print_stack (decimal_stack 10 false num []) len 0 buffer).1 0)
            (count ∙ omega arith)
          ∙ read
          ∙ value,
    )
