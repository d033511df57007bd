-- ===== src/Text.antt =====
-- libsmk/strings.c, the string functions that the kernel and the user library share. Memory from a
-- pointer on is a function of the offset; a char is its byte, below 256.
pub mod Compare
pub mod Copy
mod Tests
use racoon.Base.{
  ℕ, zero, suc, ◌+◌, ◌-◌, ◌%◌, Bool, true, false, not, Option, none, some, ltb, ◌==◌, ◌&&◌,
  if◌then◌else◌, List, [], ◌∷◌, update,
}

abbrev pub Buffer : Type 0
Buffer = ℕ → ℕ

-- `char` is signed: bytes from 128 on are negative.
abbrev pub char_lt : ℕ → ℕ → Bool
char_lt a b = ltb ((a + 128) % 256) ((b + 128) % 256)

-- The results -1, 0 and 1.
pub data Sign : Type 0 where
  less same more : Sign

-- `kmemcpy` with `k` bytes left.
pub copy_bytes : ℕ → ℕ → Buffer → Buffer → Buffer
copy_bytes zero i dest src = dest
copy_bytes (suc k) i dest src = copy_bytes k (i + 1) (update dest i (src i)) src

abbrev pub kmemcpy : Buffer → Buffer → ℕ → Buffer
kmemcpy s ct n = copy_bytes n 0 s ct

pub compare_bytes : ℕ → ℕ → Buffer → Buffer → Sign
compare_bytes zero i s d = same
compare_bytes (suc k) i s d =
    let rest = compare_bytes k (i + 1) s d in
    if char_lt (s i) (d i) then less else if char_lt (d i) (s i) then more else rest

abbrev pub kmemcmp : Buffer → Buffer → ℕ → Sign
kmemcmp s d n = compare_bytes n 0 s d

pub fill_bytes : ℕ → ℕ → Buffer → ℕ → Buffer
fill_bytes zero i s c = s
fill_bytes (suc k) i s c = fill_bytes k (i + 1) (update s i (c % 256)) c

abbrev pub kmemset : Buffer → ℕ → ℕ → Buffer
kmemset s c n = fill_bytes n 0 s c

-- `kstrcpy` with room for `k` rounds; `none` is a run that has not met the end of the string.
pub copy_string : ℕ → ℕ → Buffer → Buffer → Option Buffer
copy_string zero i s ct = none
copy_string (suc k) i s ct =
    let rest = copy_string k (i + 1) (update s i (ct i)) ct in
    if ct i == 0 then some (update s i (ct i)) else rest

abbrev pub kstrcpy : ℕ → Buffer → Buffer → Option Buffer
kstrcpy fuel s ct = copy_string fuel 0 s ct

-- The first loop of `kstrncpy` with `k` rounds left, which goes on with the second.
pub copy_name : ℕ → ℕ → Buffer → Buffer → Buffer
unfolding fill_bytes
copy_name zero i s ct = s
copy_name (suc k) i s ct =
    let rest = copy_name k (i + 1) (update s i (ct i)) ct in
    if ct i == 0 then fill_bytes (suc k) i s 0 else rest

abbrev pub kstrncpy : Buffer → Buffer → ℕ → Buffer
kstrncpy s ct n = copy_name n 0 s ct

-- `kstrlen` with room for `k` rounds.
pub string_length : ℕ → ℕ → Buffer → Option ℕ
string_length zero ans cs = none
string_length (suc k) ans cs =
    let rest = string_length k (ans + 1) cs in if cs ans == 0 then some ans else rest

abbrev pub kstrlen : ℕ → Buffer → Option ℕ
kstrlen fuel cs = string_length fuel 0 cs

unfoldable pub compare_names : ℕ → ℕ → Buffer → Buffer → Sign
compare_names zero i s1 s2 = same
compare_names (suc k) i s1 s2 =
    let rest = compare_names k (i + 1) s1 s2 in
    if char_lt (s1 i) (s2 i)
    then less
    else if char_lt (s2 i) (s1 i)
    then more
    else if s1 i == 0
    then same
    else rest

abbrev pub kstrncmp : Buffer → Buffer → ℕ → Sign
kstrncmp s1 s2 n = compare_names n 0 s1 s2
