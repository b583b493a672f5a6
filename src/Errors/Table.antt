-- ===== src/Errors/Table.antt =====
-- The tables of src/errormsg.c: the error texts and the abbreviations in them. A byte of 0x80 and
-- more is the number of a text, a byte below 32 stands for an abbreviation.
use Prim.Native.Char.{code}
use Prim.Native.String.{String}
use nodiskemu.Prelude.{ℕ, ◌+◌, List, [], ◌∷◌, ◌++◌}

abbrev pub ec : ℕ → ℕ
ec x = x + 0x80

abbrev pub codes : String → List ℕ
codes String.[] = []
codes (String.◌∷◌ c s) = code c ∷ codes s

abbrev join : List (List ℕ) → List ℕ
join [] = []
join (r ∷ rows) = r ++ join rows

unfoldable pub abbrevs : List ℕ
abbrevs = join (
    (ec 0 ∷ codes "FILE")
    ∷ (ec 1 ∷ codes "READ")
    ∷ (ec 2 ∷ codes "WRITE")
    ∷ (ec 3 ∷ codes " ERROR")
    ∷ (ec 4 ∷ codes " NOT ")
    ∷ (ec 5 ∷ codes "DISK ")
    ∷ (ec 6 ∷ codes "OPEN")
    ∷ (ec 7 ∷ codes "RECORD")
    ∷ (ec 8 ∷ codes "PARTITION ")
    ∷ (ec 9 ∷ codes "SELECTED")
    ∷ (ec 10 ∷ codes "ILLEGAL")
    ∷ (ec 11 ∷ codes " TOO ")
    ∷ (ec 12 ∷ codes "NO ")
    ∷ (ec 127 ∷ [])
    ∷ [])

unfoldable pub messages : List ℕ
messages = join (
    (ec 0 ∷ codes " OK")
    ∷ (ec 1 ∷ 0 ∷ codes "S SCRATCHED")
    ∷ (ec 2 ∷ 8 ∷ 9 ∷ [])
    ∷ (ec 20 ∷ ec 21 ∷ ec 22 ∷ ec 23 ∷ ec 24 ∷ ec 27 ∷ 1 ∷ 3 ∷ [])
    ∷ (ec 25 ∷ ec 28 ∷ 2 ∷ 3 ∷ [])
    ∷ (ec 26 ∷ 2 ∷ codes " PROTECT ON")
    ∷ (ec 29 ∷ 5 ∷ codes "ID MISMATCH")
    ∷ (ec 30 ∷ ec 31 ∷ ec 32 ∷ ec 33 ∷ ec 34 ∷ (codes "SYNTAX" ++ 3 ∷ []))
    ∷ (ec 39 ∷ ec 62 ∷ 0 ∷ 4 ∷ codes "FOUND")
    ∷ (ec 50 ∷ 7 ∷ 4 ∷ codes "PRESENT")
    ∷ (ec 51 ∷ (codes "OVERFLOW IN " ++ 7 ∷ []))
    ∷ (ec 52 ∷ 0 ∷ 11 ∷ codes "LARGE")
    ∷ (ec 60 ∷ 2 ∷ (codes " " ++ 0 ∷ (codes " " ++ 6 ∷ [])))
    ∷ (ec 61 ∷ 0 ∷ 4 ∷ 6 ∷ [])
    ∷ (ec 63 ∷ 0 ∷ codes " EXISTS")
    ∷ (ec 64 ∷ 0 ∷ codes " TYPE MISMATCH")
    ∷ (ec 65 ∷ 12 ∷ codes "BLOCK")
    ∷ (ec 66 ∷ ec 67 ∷ 10 ∷ codes " TRACK OR SECTOR")
    ∷ (ec 70 ∷ 12 ∷ codes "CHANNEL")
    ∷ (ec 71 ∷ (codes "DIR" ++ 3 ∷ []))
    ∷ (ec 72 ∷ 5 ∷ codes "FULL")
    ∷ (ec 74 ∷ (codes "DRIVE" ++ 4 ∷ 1 ∷ codes "Y"))
    ∷ (ec 77 ∷ 9 ∷ (codes " " ++ 8 ∷ 10 ∷ []))
    ∷ (ec 78 ∷ (codes "BUFFER" ++ 11 ∷ codes "SMALL"))
    ∷ (ec 79 ∷ (codes "IMAGE " ++ 0 ∷ codes " INVALID"))
    ∷ (ec 98 ∷ codes "UNKNOWN DRIVECODE")
    ∷ (ec 99 ∷ codes "CLOCK UNSTABLE")
    ∷ (ec 127 ∷ [])
    ∷ [])
