-- ===== src/Dmesg.antt =====
-- kernel/dmesg.c: the formatted output of the kernel and the log that it goes to. A `char number[]` that
-- is filled upwards and read downwards is a stack; a string is the list of its bytes. Each function
-- that prints into a buffer answers the number of bytes and the buffer.
pub mod Bounds
pub mod Numbers
mod Tests
use racoon.Base.{
  ℕ, zero, suc, ◌+◌, ◌-◌, ◌*◌, ◌/◌, ◌%◌, ◌^◌, Bool, true, false, Option, none, some, ltb, leb, ◌==◌,
  if◌then◌else◌, List, [], ◌∷◌, ◌++◌, length, update, sub32, u32,
}
use racoon.Text.{Buffer, kmemcpy}

abbrev pub Printed : Type 0
Printed = ℕ × Buffer

-- `while ( i-- > 0 ) { if ( count >= len ) return len; buffer[count++] = number[i]; }`
pub print_stack : List ℕ → ℕ → ℕ → Buffer → Printed
print_stack [] len count buffer = (count, buffer)
print_stack (c ∷ number) len count buffer =
    let rest = print_stack number len (count + 1) (update buffer count c) in
    if leb len count then (len, buffer) else rest

-- `(tmp % 10) + '0'` for an int of which `m` is the absolute value.
abbrev pub decimal_char : Bool → ℕ → ℕ
decimal_char false m = m % 10 + 48
decimal_char true m = 48 - m % 10

-- The loop over the digits, in `k` rounds at most.
pub decimal_stack : ℕ → Bool → ℕ → List ℕ → List ℕ
decimal_stack zero negative m number = number
decimal_stack (suc k) negative m number =
    let rest = decimal_stack k negative (m / 10) (decimal_char negative m ∷ number) in
    if m == 0
    then decimal_char negative m ∷ number
    else if m / 10 == 0
    then decimal_char negative m ∷ number
    else rest

-- `int tmp = num`: from 2^31 on it is negative.
pub dmesg_uint : Buffer → ℕ → ℕ → Printed
unfolding decimal_stack print_stack
dmesg_uint buffer len num =
    let number =
      if ltb num (2 ^ 31)
      then decimal_stack 10 false num []
      else decimal_stack 10 true (2 ^ 32 - num) [] in
    print_stack number len 0 buffer

-- `dmesg_string`, from the pointer on.
pub dmesg_chars : List ℕ → ℕ → ℕ → Buffer → Printed
unfolding print_stack
dmesg_chars s len count buffer = print_stack s len count buffer

-- "NULL" stands for a null pointer.
pub dmesg_string : Buffer → ℕ → Option (List ℕ) → Printed
unfolding dmesg_chars
dmesg_string buffer len none = dmesg_chars (78 ∷ 85 ∷ 76 ∷ 76 ∷ []) len 0 buffer
dmesg_string buffer len (some s) = dmesg_chars s len 0 buffer

-- `buffer + n`, and what is printed there put back.
abbrev pub from_offset : ℕ → Buffer → Buffer
from_offset n buffer j = buffer (n + j)

abbrev pub put_back : ℕ → Buffer → Buffer → Buffer
put_back n buffer part j = if ltb j n then buffer j else part (j - n)

-- `num` is the 32 bits of an int.
pub dmesg_int : Buffer → ℕ → ℕ → Printed
unfolding dmesg_string dmesg_uint
dmesg_int buffer len num =
    let (sign, signed) = dmesg_string buffer len (some (45 ∷ [])) in
    let (val, part) = dmesg_uint (from_offset 1 signed) (len - 1) (sub32 0 num) in
    if ltb num (2 ^ 31)
    then dmesg_uint buffer len num
    else if sign == len
    then (len, signed)
    else if leb (len - 1) val
    then (val, put_back 1 signed part)
    else (val + 1, put_back 1 signed part)

abbrev pub hex_char : ℕ → ℕ
hex_char d = if ltb d 10 then d + 48 else d - 10 + 65

pub hex_stack : ℕ → ℕ → List ℕ → List ℕ
hex_stack zero tmp number = number
hex_stack (suc k) tmp number =
    let rest = hex_stack k (tmp / 16) (hex_char (tmp % 16) ∷ number) in
    if tmp == 0
    then hex_char (tmp % 16) ∷ number
    else if tmp / 16 == 0
    then hex_char (tmp % 16) ∷ number
    else rest

-- The digits behind "0x".
pub dmesg_hex : Buffer → ℕ → ℕ → Printed
unfolding hex_stack print_stack
dmesg_hex buffer len hex = print_stack (48 ∷ 120 ∷ hex_stack 8 hex []) len 0 buffer

abbrev pub dmesg_ptr : Buffer → ℕ → ℕ → Printed
dmesg_ptr = dmesg_hex

-- The bits, with a space behind each group, on a stack of `i` bytes.
pub bin_stack : ℕ → ℕ → ℕ → List ℕ → List ℕ
bin_stack zero tmp i number = number
bin_stack (suc k) tmp i number =
    let number' = (tmp % 2 + 48) ∷ number in
    let spaced = bin_stack k (tmp / 2) (i + 2) (32 ∷ number') in
    let plain = bin_stack k (tmp / 2) (i + 1) number' in
    if tmp == 0 then number else if (i + 1) % 9 == 0 then spaced else plain

pub dmesg_bin : Buffer → ℕ → ℕ → Printed
unfolding bin_stack print_stack
dmesg_bin buffer len num = print_stack (bin_stack 32 num 1 (98 ∷ [])) len 0 buffer

-- The variables of `sdmesg`; `ap` is the number of arguments that have been taken.
pub record Format : Type 0 where
  pub buffer : Buffer
  pub position : ℕ
  pub modifier : Bool
  pub flags : ℕ
  pub ap : ℕ

-- Advance by what was printed at the position.
abbrev pub advance : Format → Printed → Format
advance f p = record f { position = f.position + p.0; buffer = put_back f.position f.buffer p.1 }

-- `args` are the words behind the format, and `string` is the string that a word points to.
module _ (args : ℕ → ℕ) (string : ℕ → List ℕ) (max_len : ℕ) where
  -- A letter behind `%`: ! s i u b x p.
  pub convert : Format → ℕ → Format
  convert f letter =
      let len = max_len - f.position in
      let here = from_offset f.position f.buffer in
      let arg = args f.ap in
      let taken = record f { ap = f.ap + 1 } in
      if letter == 33
      then record f { flags = 1 }
      else if letter == 115
      then advance taken (dmesg_string here len (if arg == 0 then none else some (string arg)))
      else if letter == 105
      then advance taken (dmesg_int here len arg)
      else if letter == 117
      then advance taken (dmesg_uint here len arg)
      else if letter == 98
      then advance taken (dmesg_bin here len arg)
      else if letter == 120
      then advance taken (dmesg_hex here len arg)
      else if letter == 112
      then advance taken (dmesg_ptr here len arg)
      else f

  -- One round of the loop.
  pub format_letter : Format → ℕ → Format
  unfolding convert
  format_letter f letter =
      if f.modifier
      then record (convert f letter) { modifier = false }
      else if letter == 37
      then record f { modifier = true }
      else advance f (
          dmesg_string (from_offset f.position f.buffer) (max_len - f.position)
            (some (letter ∷ [])))

  pub format_letters : List ℕ → Format → Format
  unfolding format_letter
  format_letters [] f = f
  format_letters (letter ∷ format) f = format_letters format (format_letter f letter)

  -- `*flags` is the third result.
  pub sdmesg : Buffer → List ℕ → ℕ × Buffer × ℕ
  unfolding format_letters
  sdmesg buffer format =
      let f =
        format_letters format
          (record { buffer = buffer; position = 0; modifier = false; flags = 0; ap = 0 }) in
      (
        f.position,
        (if ltb f.position max_len then update f.buffer f.position 0 else f.buffer),
        f.flags,
      )

-- `DMESG_TMPSIZE` and `DMESG_BUFSIZE`
abbrev pub tmp_size : ℕ
tmp_size = 512

abbrev pub buf_size : ℕ
buf_size = 16384

-- `dmesg_buffer` and `dmesg_position`
pub record Dmesg : Type 0 where
  pub log : Buffer
  pub position : ℕ

-- The copy into the ring, with `k` bytes left.
pub copy_log : ℕ → ℕ → ℕ → Buffer → Buffer → Buffer
copy_log zero i start buffer log = log
copy_log (suc k) i start buffer log =
    copy_log k (i + 1) start buffer (update log ((start + i) % buf_size) (buffer i))

-- `stack` is what the local buffer held. What goes to the screen is not modelled.
pub dmesg : (ℕ → ℕ) → (ℕ → List ℕ) → Buffer → Dmesg → List ℕ → ℕ × Dmesg
unfolding sdmesg copy_log
dmesg args string stack d format =
    let (rc, buffer, flags) = sdmesg args string tmp_size stack format in
    (
      rc,
      record {
        log = copy_log rc 0 d.position buffer d.log;
        position = (d.position + rc) % buf_size;
      },
    )

-- `get_dmesg` of a `len` that is not negative: the size, and the caller's buffer.
pub get_dmesg : Dmesg → Buffer → ℕ → ℕ × Buffer
get_dmesg d buffer len =
    let size = if ltb len d.position then len else d.position in (size, kmemcpy buffer d.log size)
