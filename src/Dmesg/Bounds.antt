-- ===== src/Dmesg/Bounds.antt =====
-- What is printed stays within the length that is given.
use racoon.Base.{
  ℕ, ◌+◌, ◌-◌, ◌^◌, ◌≤◌, ◌≡◌, refl, ap, ◌∙◌, arith, Bool, true, false, Option, none, some, ltb, leb,
  ◌==◌, if◌then◌else◌, List, [], ◌∷◌, update, sub32, Bool-cases, inl, inr,
}
use racoon.Text.{Buffer}
use racoon.Dmesg.{
  Printed, print_stack, dmesg_uint, dmesg_chars, dmesg_string, from_offset, put_back, dmesg_int,
  hex_stack, dmesg_hex, dmesg_bin, Format, advance, convert, format_letter, format_letters, sdmesg,
}

-- At most `len` bytes, and none at or behind `len`.
abbrev pub Fits : ℕ → Buffer → Printed → Type 0
Fits len buffer p = (p.0 ≤ len) × ((j : ℕ) → len ≤ j → p.1 j ≡ buffer j)

print_stack-Fits :
    (number : List ℕ) (len count : ℕ) (buffer : Buffer)
    → count ≤ len
    → Fits len buffer (print_stack number len count buffer)
unfolding print_stack
print_stack-Fits [] len count buffer h = (h, (λ j l. refl))
print_stack-Fits (c ∷ number) len count buffer h = elim (Bool-cases (leb len count)) [
  | inl full ↦ rw full (omega arith, (λ j l. refl))
  | inr room ↦
      let (few, kept) =
        print_stack-Fits number len (count + 1) (update buffer count c) (ground arith) in
      rw room (few, (λ j l. kept j l ∙ ground arith))
]

module _ (buffer : Buffer) (len : ℕ) where
  pub dmesg_uint-Fits : (num : ℕ) → Fits len buffer (dmesg_uint buffer len num)
  unfolding dmesg_uint
  dmesg_uint-Fits num = print_stack-Fits _ len 0 buffer (omega arith)

  pub dmesg_hex-Fits : (num : ℕ) → Fits len buffer (dmesg_hex buffer len num)
  unfolding dmesg_hex
  dmesg_hex-Fits num = print_stack-Fits (48 ∷ 120 ∷ hex_stack 8 num []) len 0 buffer (omega arith)

  pub dmesg_bin-Fits : (num : ℕ) → Fits len buffer (dmesg_bin buffer len num)
  unfolding dmesg_bin
  dmesg_bin-Fits num = print_stack-Fits _ len 0 buffer (omega arith)

  pub dmesg_string-Fits : (s : Option (List ℕ)) → Fits len buffer (dmesg_string buffer len s)
  unfolding dmesg_string dmesg_chars
  dmesg_string-Fits none = print_stack-Fits (78 ∷ 85 ∷ 76 ∷ 76 ∷ []) len 0 buffer (omega arith)
  dmesg_string-Fits (some s) = print_stack-Fits s len 0 buffer (omega arith)

-- Printing at an offset.
put_back-Fits :
    (n len : ℕ) (buffer : Buffer) (p : Printed)
    → Fits (len - n) (from_offset n buffer) p
    → n ≤ len
    → Fits len buffer (n + p.0, put_back n buffer p.1)
put_back-Fits n len buffer p h l = (
  omega (arith, h),
  (λ j lj.
      let back : n + (j - n) ≡ j = omega arith in
      ground (arith, h.1 (j - n) (omega arith), ap buffer back)),
)

if-Fits :
    (len : ℕ) (buffer : Buffer) (c : Bool) (t e : Printed)
    → (c ≡ true → Fits len buffer t)
    → (c ≡ false → Fits len buffer e)
    → Fits len buffer (if c then t else e)
if-Fits len buffer true t e h k = h refl
if-Fits len buffer false t e h k = k refl

pub dmesg_int-Fits : (buffer : Buffer) (len num : ℕ) → Fits len buffer (dmesg_int buffer len num)
unfolding dmesg_int
dmesg_int-Fits buffer len num =
    let p = dmesg_string buffer len (some (45 ∷ [])) in
    let q = dmesg_uint (from_offset 1 p.1) (len - 1) (sub32 0 num) in
    let part = put_back 1 p.1 q.1 in
    let (few, kept) = dmesg_string-Fits buffer len (some (45 ∷ [])) in
    let digits = dmesg_uint-Fits (from_offset 1 p.1) (len - 1) (sub32 0 num) in
    if-Fits len buffer (ltb num (2 ^ 31)) (dmesg_uint buffer len num)
      (if p.0 == len
        then (len, p.1)
        else if leb (len - 1) q.0
        then (q.0, part)
        else (q.0 + 1, part))
      (λ positive. dmesg_uint-Fits buffer len num)
      (λ negative.
        if-Fits len buffer (p.0 == len) (len, p.1)
          (if leb (len - 1) q.0 then (q.0, part) else (q.0 + 1, part)) (λ full. (omega arith, kept))
          (λ room.
            let (fits, same) = put_back-Fits 1 len p.1 q digits (ground (arith, few, room)) in
            if-Fits len buffer (leb (len - 1) q.0) (q.0, part) (q.0 + 1, part)
              (λ last. (omega (arith, fits), (λ j l. same j l ∙ kept j l)))
              (λ more. (omega (arith, fits), (λ j l. same j l ∙ kept j l)))))

-- `sdmesg` between two letters of the format.
abbrev FitsFormat : ℕ → Buffer → Format → Type 0
FitsFormat max_len buffer f =
    (f.position ≤ max_len) × ((j : ℕ) → max_len ≤ j → f.buffer j ≡ buffer j)

if-FitsFormat :
    (max_len : ℕ) (buffer : Buffer) (c : Bool) (t e : Format)
    → FitsFormat max_len buffer t
    → FitsFormat max_len buffer e
    → FitsFormat max_len buffer (if c then t else e)
if-FitsFormat max_len buffer true t e h k = h
if-FitsFormat max_len buffer false t e h k = k

module _ (args : ℕ → ℕ) (string : ℕ → List ℕ) (max_len : ℕ) (buffer : Buffer) where
  advance-FitsFormat :
      (f : Format) (p : Printed)
      → FitsFormat max_len buffer f
      → Fits (max_len - f.position) (from_offset f.position f.buffer) p
      → FitsFormat max_len buffer (advance f p)
  advance-FitsFormat f p h q =
      let (fits, same) = put_back-Fits f.position max_len f.buffer p q h.0 in
      (fits, (λ j l. same j l ∙ h.1 j l))

  convert-FitsFormat :
      (f : Format) (letter : ℕ)
      → FitsFormat max_len buffer f
      → FitsFormat max_len buffer (convert args string max_len f letter)
  unfolding convert
  convert-FitsFormat f letter h =
      let len = max_len - f.position in
      let here = from_offset f.position f.buffer in
      let arg = args f.ap in
      let taken = record f { ap = f.ap + 1 } in
      let named = if arg == 0 then none else some (string arg) in
      let t_p = advance taken (dmesg_hex here len arg) in
      let e_p = if letter == 112 then t_p else f in
      let fit_p =
        if-FitsFormat max_len buffer (letter == 112) t_p f
          (advance-FitsFormat taken (dmesg_hex here len arg) h (dmesg_hex-Fits here len arg)) h in
      let t_x = advance taken (dmesg_hex here len arg) in
      let e_x = if letter == 120 then t_x else e_p in
      let fit_x =
        if-FitsFormat max_len buffer (letter == 120) t_x e_p
          (advance-FitsFormat taken (dmesg_hex here len arg) h (dmesg_hex-Fits here len arg))
          fit_p in
      let t_b = advance taken (dmesg_bin here len arg) in
      let e_b = if letter == 98 then t_b else e_x in
      let fit_b =
        if-FitsFormat max_len buffer (letter == 98) t_b e_x
          (advance-FitsFormat taken (dmesg_bin here len arg) h (dmesg_bin-Fits here len arg))
          fit_x in
      let t_u = advance taken (dmesg_uint here len arg) in
      let e_u = if letter == 117 then t_u else e_b in
      let fit_u =
        if-FitsFormat max_len buffer (letter == 117) t_u e_b
          (advance-FitsFormat taken (dmesg_uint here len arg) h (dmesg_uint-Fits here len arg))
          fit_b in
      let t_i = advance taken (dmesg_int here len arg) in
      let e_i = if letter == 105 then t_i else e_u in
      let fit_i =
        if-FitsFormat max_len buffer (letter == 105) t_i e_u
          (advance-FitsFormat taken (dmesg_int here len arg) h (dmesg_int-Fits here len arg))
          fit_u in
      let t_s = advance taken (dmesg_string here len named) in
      let e_s = if letter == 115 then t_s else e_i in
      let fit_s =
        if-FitsFormat max_len buffer (letter == 115) t_s e_i
          (advance-FitsFormat taken (dmesg_string here len named) h
            (dmesg_string-Fits here len named))
          fit_i in
      if-FitsFormat max_len buffer (letter == 33) (record f { flags = 1 }) e_s h fit_s

  format_letter-FitsFormat :
      (f : Format) (letter : ℕ)
      → FitsFormat max_len buffer f
      → FitsFormat max_len buffer (format_letter args string max_len f letter)
  unfolding format_letter
  format_letter-FitsFormat f letter h =
      let here = from_offset f.position f.buffer in
      let len = max_len - f.position in
      let plain = dmesg_string here len (some (letter ∷ [])) in
      if-FitsFormat max_len buffer f.modifier
        (record (convert args string max_len f letter) { modifier = false })
        (if letter == 37 then record f { modifier = true } else advance f plain)
        (convert-FitsFormat f letter h)
        (if-FitsFormat max_len buffer (letter == 37) (record f { modifier = true })
          (advance f plain) h
          (advance-FitsFormat f plain h (dmesg_string-Fits here len (some (letter ∷ [])))))

  format_letters-FitsFormat :
      (format : List ℕ) (f : Format)
      → FitsFormat max_len buffer f
      → FitsFormat max_len buffer (format_letters args string max_len format f)
  unfolding format_letters
  format_letters-FitsFormat [] f h = h
  format_letters-FitsFormat (letter ∷ format) f h =
      format_letters-FitsFormat format (format_letter args string max_len f letter)
        (format_letter-FitsFormat f letter h)

  -- Whatever the format and its arguments are, `sdmesg` answers a length of at most `max_len` and
  -- writes no byte at or behind `max_len`.
  pub sdmesg_bounds :
      (format : List ℕ)
      → ((sdmesg args string max_len buffer format).0 ≤ max_len)
        × ((j : ℕ) → max_len ≤ j → (sdmesg args string max_len buffer format).1 j ≡ buffer j)
  unfolding sdmesg
  sdmesg_bounds format =
      let (fits, same) =
        format_letters-FitsFormat format
          (record { buffer = buffer; position = 0; modifier = false; flags = 0; ap = 0 })
          (omega arith, (λ j l. refl)) in
      (fits, (λ j l. ground (arith, same j l, fits)))
