-- ===== src/Utils.antt =====
-- src/utils.c: decimal output, BCD, a tokenizer, ASCII to PETSCII.
-- A C string is the list of its bytes before the terminating NUL. A pointer that walks a string is
-- the rest of that list.
pub mod Digits
pub mod Token
mod Tests
use Prim.Native.Nat.{bit_and}
use nodiskemu.Prelude.{
  ℕ, ◌+◌, ◌-◌, ◌*◌, ◌/◌, ◌%◌, Bool, Option, none, some, List, [], ◌∷◌, ◌++◌, ◌&&◌, ltb, leb, not,
  ◌==◌, if◌then◌else◌,
}

-- `*p`: the byte at the pointer, the NUL at the end of the string.
abbrev pub peek : List ℕ → ℕ
peek [] = 0
peek (c ∷ s) = c

-- `p++`. It never leaves the string.
abbrev pub advance : List ℕ → List ℕ
advance [] = []
advance (c ∷ s) = s

-- `isdigit` of the C library, on a byte.
unfoldable pub is_digit : ℕ → Bool
is_digit c = leb b'0' c && leb c b'9'

-- The bytes from `msg` on are written behind what is there already.
unfoldable pub append_number : List ℕ → ℕ → List ℕ
append_number msg value =
    let msg' = if leb 100 value then msg ++ (b'0' + value / 100) ∷ [] else msg in
    let value' = if leb 100 value then value % 100 else value in
    msg' ++ (b'0' + value' / 10) ∷ (b'0' + value' % 10) ∷ []

-- `value >> 4` is the high nibble of the byte.
unfoldable pub bcd2int : ℕ → ℕ
bcd2int value = (bit_and value 0x0f + 10 * (value / 16)) % 256

unfoldable pub int2bcd : ℕ → ℕ
int2bcd value = (value % 10 + 16 * (value / 10)) % 256

skip_delim : ℕ → List ℕ → List ℕ
skip_delim delim [] = []
skip_delim delim (c ∷ s) = let rest = skip_delim delim s in if c == delim then rest else c ∷ s

-- The bytes up to the next delimiter, and the string behind it.
token : ℕ → List ℕ → List ℕ × List ℕ
token delim [] = ([], [])
token delim (c ∷ s) =
    let rest = token delim s in if c == delim then ([], s) else (c ∷ rest.0, rest.1)

some_token : ℕ → List ℕ → List ℕ → Option (List ℕ) × List ℕ
unfolding token
some_token delim saveptr [] = (none, saveptr)
some_token delim saveptr (c ∷ s) = let (t, rest) = token delim (c ∷ s) in (some t, rest)

-- `str` is `none` for NULL. Beside the token comes the new `*saveptr`.
pub ustr1tok : Option (List ℕ) → ℕ → List ℕ → Option (List ℕ) × List ℕ
unfolding skip_delim some_token
ustr1tok none delim saveptr = some_token delim saveptr (skip_delim delim saveptr)
ustr1tok (some str) delim saveptr = some_token delim saveptr (skip_delim delim str)

pub asc2pet_char : ℕ → ℕ
asc2pet_char ch =
    if ltb 64 ch && ltb ch 91
    then ch + 128
    else if ltb 96 ch && ltb ch 123
    then ch - 32
    else if ltb 192 ch && ltb ch 219
    then ch - 128
    else if ch == b'~'
    then 255
    else ch

pub asc2pet : List ℕ → List ℕ
unfolding asc2pet_char
asc2pet [] = []
asc2pet (ch ∷ buf) = asc2pet_char ch ∷ asc2pet buf
