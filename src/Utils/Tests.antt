-- ===== src/Utils/Tests.antt =====
-- Examples for src/utils.c.
use nodiskemu.Prelude.{ℕ, List, [], ◌∷◌, some, ◌≡◌, refl}
use nodiskemu.Utils.{ustr1tok, skip_delim, token, some_token}

-- ",,AB,C" at the commas.
abbrev listed : List ℕ
listed = 44 ∷ 44 ∷ 65 ∷ 66 ∷ 44 ∷ 67 ∷ []

ustr1tok-listed : ustr1tok (some listed) 44 [] ≡ (some (65 ∷ 66 ∷ []), 67 ∷ [])
unfolding ustr1tok skip_delim token some_token
ustr1tok-listed = refl
