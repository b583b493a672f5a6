-- ===== src/Parser/Match.antt =====
-- `match_name` of src/parser.c: a pattern with '?' and '*' against a file name.
pub mod Spec
pub mod Overlap
use mathlib.Core.List.{reverse}
use nodiskemu.Prelude.{
  ℕ, zero, suc, Bool, Option, none, some, List, [], ◌∷◌, ◌++◌, ◌&&◌, ◌||◌, not, ◌==◌, if◌then◌else◌,
}
use nodiskemu.Utils.{peek, advance}
use nodiskemu.Parser.{tolower_pet}

-- What is compared of a byte.
pub fold_case : Bool → ℕ → ℕ
fold_case ignorecase c = if ignorecase then tolower_pet c else c

-- The POSTMATCH loop, which walks to the left from the ends of the pattern and of the name. Both
-- are given reversed, the pattern down to the star, the name down to its first byte; `none` is a
-- read in front of the name.
pub match_back : Bool → List ℕ → List ℕ → Option ℕ
match_back ignorecase [] name = some 1
match_back ignorecase (m ∷ tail) [] = none
match_back ignorecase (m ∷ tail) (f ∷ name) =
    let rest = match_back ignorecase tail name in
    if not (fold_case ignorecase m == fold_case ignorecase f)
      && not (fold_case ignorecase m == b'?')
    then some 0
    else rest

-- The return behind the loop.
pub match_end : ℕ → List ℕ → ℕ
match_end chars_remain matchstr =
    if not (peek matchstr == 0) && not (peek matchstr == b'*') && not (chars_remain == 0)
    then 0
    else 1

-- `passed` holds the bytes of the name that are behind the pointer, the last one first.
pub match_loop : Bool → Bool → ℕ → List ℕ → List ℕ → List ℕ → Option ℕ
match_loop postmatch ignorecase chars_remain passed matchstr [] =
    some (match_end chars_remain matchstr)
match_loop postmatch ignorecase zero passed matchstr (f ∷ filename) = some (match_end zero matchstr)
match_loop postmatch ignorecase (suc chars_remain) passed matchstr (f ∷ filename) =
    let m = fold_case ignorecase (peek matchstr) in
    let rest =
      match_loop postmatch ignorecase chars_remain (f ∷ passed) (advance matchstr) filename in
    if m == b'?'
    then rest
    else if m == b'*'
    then (if postmatch
        then match_back ignorecase (reverse (advance matchstr)) (reverse (f ∷ filename) ++ passed)
        else some 1)
    else if not (m == fold_case ignorecase f)
    then some 0
    else rest

-- `postmatch` is the flag POSTMATCH of `globalflags`.
pub match_name : Bool → List ℕ → List ℕ → Bool → Option ℕ
match_name postmatch matchstr name ignorecase = match_loop postmatch ignorecase 16 [] matchstr name
