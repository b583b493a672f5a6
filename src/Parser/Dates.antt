-- ===== src/Parser/Dates.antt =====
-- Numbers and dates, `parse_number` and `parse_date`.
use nodiskemu.Prelude.{
  ℕ, ◌+◌, ◌*◌, ◌-◌, ◌/◌, ◌%◌, ◌<◌, ◌≤◌, ◌≡◌, refl, ap, inl, inr, Bool-cases, ◌&&◌, Bool, true,
  false, Option, none, some, List, [], ◌∷◌, ◌++◌, arith, ltb, leb, if◌then◌else◌,
}
use nodiskemu.Utils.{is_digit, append_number}
use nodiskemu.Parser.{
  skip_spaces, number_loop, parse_number, Date, date_meridiem, date_second, date_minute, date_hour,
  date_year, date_day, parse_date,
}

-- What the fields of an accepted date keep to.
pub record IsInRange (d : Date) : Type 0 where
  pub year_in : (80 ≤ d.year) × (d.year < 256)
  pub month_in : d.month ≤ 12
  pub day_in : d.day ≤ 31
  pub hour_in : d.hour ≤ 23
  pub minute_in : d.minute ≤ 59
  pub second_in : d.second ≤ 59

-- One more digit.
number_loop-digit :
    (res d : ℕ) (s : List ℕ)
    → d < 10
    → res * 10 + d < 65536
    → number_loop res ((b'0' + d) ∷ s) ≡ number_loop (res * 10 + d) s
unfolding number_loop is_digit
number_loop-digit res d s hd h =
    let test : is_digit (48 + d) ≡ true = ground arith in
    let value : (res * 10 % 65536 + (48 + d - 48)) % 65536 ≡ res * 10 + d = omega arith in
    rw (test, value)

number_loop-end :
    (res c : ℕ) (s : List ℕ) → is_digit c ≡ false → number_loop res (c ∷ s) ≡ (res, c ∷ s)
unfolding number_loop
number_loop-end res c s h = rw h

skip_spaces-digit : (d : ℕ) (s : List ℕ) → skip_spaces ((b'0' + d) ∷ s) ≡ (b'0' + d) ∷ s
unfolding skip_spaces
skip_spaces-digit d s = ground arith

pair_of_number : (n v c : ℕ) (s : List ℕ) → n ≡ v → ◌≡◌ {A = ℕ × List ℕ} (n, c ∷ s) (v, c ∷ s)
pair_of_number n v c s e = ap (λ (k : ℕ). (k, c ∷ s)) e

-- `parse_number` reads back what `appendnumber` has written, up to the first byte that is no digit.
pub parse_number-append_number :
    (v c : ℕ) (s : List ℕ)
    → v < 256
    → is_digit c ≡ false
    → parse_number (append_number [] v ++ c ∷ s) ≡ (v, c ∷ s)
unfolding parse_number append_number
parse_number-append_number v c s hv hc = elim (Bool-cases (leb 100 v)) [
  | inl big ↦ rw big (
      rw skip_spaces-digit (
        rw
          (
            number_loop-digit 0 (v / 100) _ (omega arith) (omega arith),
            number_loop-digit (0 * 10 + v / 100) (v % 100 / 10) _ (omega arith) (omega arith),
            number_loop-digit ((0 * 10 + v / 100) * 10 + v % 100 / 10) (v % 100 % 10) _
                (omega arith) (omega arith),
            number_loop-end _ c s hc,
          )
          (pair_of_number _ v c s (omega arith))))
  | inr small ↦
      let below : v < 100 = ground arith in
      rw small (
        rw skip_spaces-digit (
          rw
            (
              number_loop-digit 0 (v / 10) _ (omega arith) (omega arith),
              number_loop-digit (0 * 10 + v / 10) (v % 10) _ (omega arith) (omega arith),
              number_loop-end _ c s hc,
            )
            (pair_of_number _ v c s (omega arith))))
]

module _ (d : Date) (s : List ℕ) {r : Date} {rest : List ℕ} where
  date_meridiem-IsInRange :
      (80 ≤ d.year) × (d.year < 256)
      → d.month ≤ 12
      → d.day ≤ 31
      → d.minute ≤ 59
      → d.second ≤ 59
      → date_meridiem d s ≡ some (r, rest)
      → IsInRange r
  unfolding date_meridiem
  date_meridiem-IsInRange y m dd mi se e = ground arith

module _ (d : Date) (s : List ℕ) {r : Date} {rest : List ℕ} where
  date_second-IsInRange :
      (80 ≤ d.year) × (d.year < 256)
      → d.month ≤ 12
      → d.day ≤ 31
      → d.minute ≤ 59
      → date_second d s ≡ some (r, rest)
      → IsInRange r
  unfolding date_second
  date_second-IsInRange y m dd mi e = grind (arith, date_meridiem-IsInRange)

module _ (d : Date) (s : List ℕ) {r : Date} {rest : List ℕ} where
  date_minute-IsInRange :
      (80 ≤ d.year) × (d.year < 256)
      → d.month ≤ 12
      → d.day ≤ 31
      → d.hour ≤ 23
      → date_minute d s ≡ some (r, rest)
      → IsInRange r
  unfolding date_minute
  date_minute-IsInRange y m dd h e = grind (arith, date_meridiem-IsInRange, date_second-IsInRange)

module _ (d : Date) (s : List ℕ) {r : Date} {rest : List ℕ} where
  date_hour-IsInRange :
      (80 ≤ d.year) × (d.year < 256)
      → d.month ≤ 12
      → d.day ≤ 31
      → date_hour d s ≡ some (r, rest)
      → IsInRange r
  unfolding date_hour
  date_hour-IsInRange y m dd e = grind (arith, date_minute-IsInRange)

module _ (d : Date) (s : List ℕ) {r : Date} {rest : List ℕ} where
  date_year-IsInRange : d.month ≤ 12 → d.day ≤ 31 → date_year d s ≡ some (r, rest) → IsInRange r
  unfolding date_year
  date_year-IsInRange m dd e = grind (arith, date_hour-IsInRange)

-- A date that `parse_date` accepts has each field in its range, whatever the text is.
pub parse_date-IsInRange :
    (d : Date) (s : List ℕ) {r : Date} {rest : List ℕ}
    → parse_date d s ≡ some (r, rest)
    → IsInRange r
unfolding parse_date date_day
parse_date-IsInRange d s e = grind (arith, date_year-IsInRange)

-- The stages of the parser on the text that `appendnumber` writes for the field.
module _ (d : Date) (t : List ℕ) where
  date_second-text :
      (n : ℕ)
      → n ≤ 59
      → date_second d (append_number [] n ++ b' ' ∷ t) ≡ date_meridiem (record d { second = n }) t
  unfolding date_second
  date_second-text n h =
      let e : n % 256 ≡ n = omega arith in
      rw (parse_number-append_number n b' ' t (omega arith) (unfold is_digit in refl), e)
        (ground arith)

  date_minute-text :
      (n : ℕ)
      → n ≤ 59
      → date_minute d (append_number [] n ++ b':' ∷ t) ≡ date_second (record d { minute = n }) t
  unfolding date_minute
  date_minute-text n h =
      let e : n % 256 ≡ n = omega arith in
      rw (parse_number-append_number n b':' t (omega arith) (unfold is_digit in refl), e)
        (ground arith)

  date_hour-text :
      (n : ℕ)
      → n ≤ 23
      → date_hour d (append_number [] n ++ b':' ∷ t) ≡ date_minute (record d { hour = n }) t
  unfolding date_hour
  date_hour-text n h =
      let e : n % 256 ≡ n = omega arith in
      rw (parse_number-append_number n b':' t (omega arith) (unfold is_digit in refl), e)
        (ground arith)

  date_year-text :
      (n : ℕ)
      → n < 256
      → date_year d (append_number [] n ++ b' ' ∷ t)
        ≡ date_hour (record d { year = if ltb n 80 then n + 100 else n }) t
  unfolding date_year
  date_year-text n h =
      let e : n % 256 ≡ n = omega arith in
      rw (parse_number-append_number n b' ' t (omega arith) (unfold is_digit in refl), e)
        (ground arith)

  date_day-text :
      (n : ℕ)
      → n ≤ 31
      → date_day d (append_number [] n ++ b'/' ∷ t) ≡ date_year (record d { day = n }) t
  unfolding date_day
  date_day-text n h =
      let e : n % 256 ≡ n = omega arith in
      rw (parse_number-append_number n b'/' t (omega arith) (unfold is_digit in refl), e)
        (ground arith)

  parse_date-text :
      (n : ℕ)
      → n ≤ 12
      → parse_date d (append_number [] n ++ b'/' ∷ t) ≡ date_day (record d { month = n }) t
  unfolding parse_date
  parse_date-text n h =
      let e : n % 256 ≡ n = omega arith in
      rw (parse_number-append_number n b'/' t (omega arith) (unfold is_digit in refl), e)
        (ground arith)

abbrev pub half_letter : Bool → ℕ
half_letter false = b'A'
half_letter true = b'P'

-- A date in the form `month/day/year hour:minute:second AM`, its numbers by `appendnumber`.
abbrev pub date_text : Date → Bool → List ℕ → List ℕ
date_text d pm rest =
    append_number [] d.month
    ++ b'/'
      ∷ (append_number [] d.day
          ++ b'/'
            ∷ (append_number [] d.year
                ++ b' '
                  ∷ (append_number [] d.hour
                      ++ b':'
                        ∷ (append_number [] d.minute
                            ++ b':'
                              ∷ (append_number [] d.second
                                  ++ b' ' ∷ half_letter pm ∷ b'M' ∷ rest)))))

-- The date that such a text stands for: the year after Y2K, the hour on the 24 hour clock.
abbrev pub read_back : Date → Bool → Date
read_back d pm = record d {
  year = if ltb d.year 80 then d.year + 100 else d.year;
  hour = if pm then d.hour + 12 else d.hour;
}

meridiem-text :
    (d : Date) (pm : Bool) (rest : List ℕ)
    → d.hour ≤ 23
    → date_meridiem d (half_letter pm ∷ b'M' ∷ rest) ≡ (
        if ltb 23 (if pm then d.hour + 12 else d.hour)
        then none
        else some (record d { hour = if pm then d.hour + 12 else d.hour }, rest))
unfolding date_meridiem
meridiem-text d true rest h = ground arith
meridiem-text d false rest h = ground arith

-- Only PM can leave the clock.
noon :
    (d : Date) (pm : Bool) (rest : List ℕ)
    → d.hour ≤ 23
    → ◌≡◌ {A = Option (Date × List ℕ)}
        (if ltb 23 (if pm then d.hour + 12 else d.hour) then none else some (read_back d pm, rest))
        (if pm && leb 12 d.hour then none else some (read_back d pm, rest))
noon d true rest h = ground arith
noon d false rest h = ground arith

-- `parse_date` reads a date text whose numbers are in range as that date, and stops behind the
-- text; it refuses exactly the texts with PM at an hour of 12 or more.
pub parse_date-date_text :
    (old d : Date) (pm : Bool) (rest : List ℕ)
    → d.month ≤ 12
    → d.day ≤ 31
    → d.year < 256
    → d.hour ≤ 23
    → d.minute ≤ 59
    → d.second ≤ 59
    → parse_date old (date_text d pm rest)
      ≡ (if pm && leb 12 d.hour then none else some (read_back d pm, rest))
parse_date-date_text old d pm rest hmo hd hy hh hmi hs =
    rw
      (
        parse_date-text _ _ d.month hmo,
        date_day-text _ _ d.day hd,
        date_year-text _ _ d.year hy,
        date_hour-text _ _ d.hour hh,
        date_minute-text _ _ d.minute hmi,
        date_second-text _ _ d.second hs,
        meridiem-text (record d { year = if ltb d.year 80 then d.year + 100 else d.year }) pm rest
            hh,
      )
      (noon d pm rest hh)
