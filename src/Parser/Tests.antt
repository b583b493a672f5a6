-- ===== src/Parser/Tests.antt =====
-- Examples for src/parser.c.
use nodiskemu.Prelude.{[], ◌∷◌, true, false, some, ◌≡◌, ◌↔◌, arith, take}
use nodiskemu.Parser.{Date, parse_date}
use nodiskemu.Parser.Dates.{parse_date-date_text, date_text, read_back}
use nodiskemu.Parser.Match.{match_name}
use nodiskemu.Parser.Match.Spec.{Matches, match_name-eq-one_iff}
use nodiskemu.Parser.Match.Overlap.{match_name-overlap}

abbrev noon : Date
noon = record { year = 12; month = 3; day = 31; hour = 11; minute = 5; second = 59 }

parse_date-date_text_example :
    parse_date noon (date_text noon true []) ≡ some (read_back noon true, [])
parse_date-date_text_example =
    parse_date-date_text noon noon true [] (omega arith) (omega arith) (omega arith) (omega arith)
      (omega arith) (omega arith)

-- The pattern "A?*" and the name "ABC".
match_name-eq-one_iff_example :
    (match_name false (65 ∷ 63 ∷ 42 ∷ []) (65 ∷ 66 ∷ 67 ∷ []) false ≡ some 1)
    ↔ Matches false (take 16 (65 ∷ 63 ∷ 42 ∷ [])) (65 ∷ 66 ∷ 67 ∷ [])
match_name-eq-one_iff_example =
    match_name-eq-one_iff false (65 ∷ 63 ∷ 42 ∷ []) (65 ∷ 66 ∷ 67 ∷ [])
      (omega arith, (omega arith, (omega arith, tt)))
      (omega arith, (omega arith, (omega arith, tt))) (omega arith)

-- The pattern "AB*ABC" and the name "ABC".
match_name-overlap_example :
    match_name true (65 ∷ 66 ∷ 42 ∷ 65 ∷ 66 ∷ 67 ∷ []) (65 ∷ 66 ∷ 67 ∷ []) false ≡ some 1
match_name-overlap_example =
    match_name-overlap false (65 ∷ 66 ∷ []) 67 []
      ((omega arith, omega arith), ((omega arith, omega arith), tt)) (omega arith)
