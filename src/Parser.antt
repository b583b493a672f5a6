-- ===== src/Parser.antt =====
-- src/parser.c: names, patterns, numbers and dates in commands. Strings are those of `Utils`.
pub mod Match
pub mod Dates
pub mod Select
mod Tests
use nodiskemu.Prelude.{
  ℕ, ◌+◌, ◌-◌, ◌*◌, ◌%◌, Bool, true, false, Option, none, some, List, [], ◌∷◌, ◌&&◌, ◌||◌, not, ltb,
  leb, ◌==◌, if◌then◌else◌,
}
use nodiskemu.Utils.{peek, advance, is_digit}

-- A name byte that `check_invalid_name` refuses.
unfoldable pub is_reserved : ℕ → Bool
is_reserved c = c == b'=' || c == b'"' || c == b'*' || c == b'?' || c == b','

-- 1 for a name with such a byte.
pub check_invalid_name : List ℕ → ℕ
unfolding is_reserved
check_invalid_name [] = 0
check_invalid_name (c ∷ name) = if is_reserved c then 1 else check_invalid_name name

pub tolower_pet : ℕ → ℕ
tolower_pet c =
    if leb 0x61 c && leb c 0x7a then c - 0x20 else if leb 0xc1 c && leb c 0xda then c - 0x80 else c

-- `while (**str == ' ') (*str)++`
pub skip_spaces : List ℕ → List ℕ
skip_spaces [] = []
skip_spaces (c ∷ s) = let rest = skip_spaces s in if c == b' ' then rest else c ∷ s

-- `res *= 10; res += digit`, in uint16_t.
pub number_loop : ℕ → List ℕ → ℕ × List ℕ
unfolding is_digit
number_loop res [] = (res, [])
number_loop res (c ∷ s) =
    let rest = number_loop ((res * 10 % 65536 + (c - b'0')) % 65536) s in
    if is_digit c then rest else (res, c ∷ s)

-- Beside the number comes the new `*str`.
pub parse_number : List ℕ → ℕ × List ℕ
parse_number str = number_loop 0 (skip_spaces str)

-- The loop of `parse_partition`, in uint8_t: digits count, spaces and '@' are passed over.
pub partition_loop : ℕ → List ℕ → ℕ × List ℕ
unfolding is_digit
partition_loop part [] = (part, [])
partition_loop part (c ∷ s) =
    let digit = partition_loop ((part * 10 + (c - b'0')) % 256) s in
    let other = partition_loop part s in
    if is_digit c then digit else if c == b' ' || c == b'@' then other else (part, c ∷ s)

-- `eefs_partition` is 255 where there is no such partition.
pub parse_partition : ℕ → ℕ → List ℕ → ℕ × List ℕ
unfolding partition_loop
parse_partition eefs_partition current_part buf =
    if not (eefs_partition == 255) && (peek buf == b'!' && peek (advance buf) == b':')
    then (eefs_partition, advance (advance buf))
    else (let (part, rest) = partition_loop 0 buf in
        (if part == 0 then current_part else part - 1, rest))

-- `date_t`, whose fields are uint8_t; the year counts from 1900.
pub record Date : Type 0 where
  pub year : ℕ
  pub month : ℕ
  pub day : ℕ
  pub hour : ℕ
  pub minute : ℕ
  pub second : ℕ

-- From here on `none` stands for a return of 1. The callers then drop the date and the pointer.
pub date_meridiem : Date → List ℕ → Option (Date × List ℕ)
date_meridiem date s =
    if not (peek s == b'A') && not (peek s == b'P')
    then none
    else (let hour = if peek s == b'P' then date.hour + 12 else date.hour in
        if ltb 23 hour
        then none
        else if not (peek (advance s) == b'M')
        then none
        else some (record date { hour = hour }, advance (advance s)))

pub date_second : Date → List ℕ → Option (Date × List ℕ)
date_second date s =
    let (n, s1) = parse_number s in
    let second = n % 256 in
    if ltb 59 second || not (peek s1 == b' ')
    then none
    else date_meridiem (record date { second = second }) (advance s1)

pub date_minute : Date → List ℕ → Option (Date × List ℕ)
date_minute date s =
    let (n, s1) = parse_number s in
    let minute = n % 256 in
    let ch = peek s1 in
    let date' = record date { minute = minute } in
    if ltb 59 minute
    then none
    else if ch == b':' || ch == b'.'
    then date_second date' (advance s1)
    else if ch == b' '
    then date_meridiem (record date' { second = 0 }) (advance s1)
    else if ch == b',' || ch == 0
    then some (record date' { second = 0 }, s1)
    else none

pub date_hour : Date → List ℕ → Option (Date × List ℕ)
date_hour date s =
    let (n, s1) = parse_number s in
    let hour = n % 256 in
    let ch = peek s1 in
    if ltb 23 hour || not (ch == b':') && not (ch == b'.')
    then none
    else date_minute (record date { hour = hour }) (advance s1)

pub date_year : Date → List ℕ → Option (Date × List ℕ)
date_year date s =
    let (n, s1) = parse_number s in
    let short = n % 256 in
    let date' = record date { year = if ltb short 80 then short + 100 else short } in
    if peek s1 == 0 || peek s1 == b','
    then some (record date' { hour = 0; minute = 0; second = 0 }, s1)
    else if not (peek s1 == b' ')
    then none
    else date_hour date' (advance s1)

pub date_day : Date → List ℕ → Option (Date × List ℕ)
date_day date s =
    let (n, s1) = parse_number s in
    let day = n % 256 in
    if ltb 31 day || not (peek s1 == b'/')
    then none
    else date_year (record date { day = day }) (advance s1)

-- The fields that the code leaves alone before it reads them are those of `date`.
pub parse_date : Date → List ℕ → Option (Date × List ℕ)
parse_date date str =
    let (n, s1) = parse_number str in
    let month = n % 256 in
    if ltb 12 month || not (peek s1 == b'/')
    then none
    else date_day (record date { month = month }) (advance s1)
