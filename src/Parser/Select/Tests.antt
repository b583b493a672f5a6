-- ===== src/Parser/Select/Tests.antt =====
-- Examples for `next_match` of src/parser.c.
use nodiskemu.Prelude.{ℕ, [], ◌∷◌, true, none, some, ◌≡◌, refl, test_bit}
use nodiskemu.Parser.{Date}
use nodiskemu.Parser.Select.{
  dxx, DirEntry, entry, stop, no_more, Filter, next_match, accepts, wrong_type, is_hidden,
  name_result, too_early, too_late, date_lt, found, IsFirst, next_match-IsFirst,
}

abbrev day : ℕ → Date
day n = record { year = 112; month = 3; day = n; hour = 11; minute = 5; second = 59 }

abbrev file : (letter n : ℕ) → DirEntry
file letter n = record {
  name = letter ∷ [];
  typeflags = 2;
  blocksize = 1;
  remainder = 0;
  date = day n;
  opstype = dxx;
}

-- The files of type 2 from the 10th on.
abbrev since : Filter
since = record { matchstr = none; start = some (day 10); end = none; type_ = 2 }

next_match-file :
    next_match true (entry (file 65 3) (entry (file 66 12) (stop no_more))) since
    ≡ found (file 66 12) (stop no_more)
unfolding next_match accepts wrong_type is_hidden name_result too_early too_late date_lt test_bit
next_match-file = refl

next_match-IsFirst_example :
    IsFirst true since
      (entry (file 65 3) (entry (file 66 12) (stop no_more)))
      (file 66 12)
      (stop no_more)
next_match-IsFirst_example =
    next_match-IsFirst true since (entry (file 65 3) (entry (file 66 12) (stop no_more)))
      (file 66 12) (stop no_more) next_match-file
