-- ===== src/Utils/Token.antt =====
-- Splitting a string at a delimiter, `ustr1tok`.
use nodiskemu.Prelude.{
  ℕ, ◌≡◌, refl, ap, ◌≢◌, ◌⊎◌, inl, inr, none, some, List, [], ◌∷◌, ◌++◌, arith, Bool-cases, ◌==◌,
  All, ==_iff,
}
use nodiskemu.Utils.{skip_delim, token, some_token, ustr1tok}

-- What is skipped is delimiters.
skip_delim_lem :
    (d : ℕ) (s : List ℕ) → (pre : List ℕ) × All (λ c. c ≡ d) pre × (s ≡ pre ++ skip_delim d s)
unfolding skip_delim
skip_delim_lem d [] = ([], tt, refl)
skip_delim_lem d (c ∷ s) = elim (Bool-cases (c == d)) [
  | inl e ↦ rw e (
      let (pre, all, eq) = skip_delim_lem d s in
      (c ∷ pre, ((==_iff c d).0 e, all), ap (λ (l : List ℕ). c ∷ l) eq))
  | inr e ↦ rw e ([], tt, refl)
]

-- The remainder starts with no delimiter.
skip_delim-head : (d c : ℕ) (s r : List ℕ) → skip_delim d s ≡ c ∷ r → c ≢ d
unfolding skip_delim
skip_delim-head d c [] r e = cc
skip_delim-head d c (x ∷ s) r e = ground (arith, skip_delim-head d c s r)

-- A token has no delimiter, and is followed by the end of the string or by one.
token_lem :
    (d : ℕ) (s : List ℕ)
    → All (λ c. c ≢ d) (token d s).0
      × (((s ≡ (token d s).0) × ((token d s).1 ≡ [])) ⊎ (s ≡ (token d s).0 ++ d ∷ (token d s).1))
unfolding token
token_lem d [] = (tt, inl (refl, refl))
token_lem d (c ∷ s) = ground (arith, token_lem d s)

token-ne-nil : (d c : ℕ) (s : List ℕ) → c ≢ d → (token d (c ∷ s)).0 ≢ []
unfolding token
token-ne-nil d c s h = ground arith

-- What `strtok` promises of the string, of the token and of the rest.
pub record IsToken (d : ℕ) (str t rest : List ℕ) : Type 0 where
  pub skipped : List ℕ
  pub skipped_delim : All (λ c. c ≡ d) skipped
  pub token_clean : All (λ c. c ≢ d) t
  pub token_nonempty : t ≢ []
  pub whole : ((str ≡ skipped ++ t) × (rest ≡ [])) ⊎ (str ≡ skipped ++ (t ++ d ∷ rest))

some_token_lem :
    (d : ℕ) (sp s t rest : List ℕ)
    → ((c : ℕ) (r : List ℕ) → s ≡ c ∷ r → c ≢ d)
    → some_token d sp s ≡ (some t, rest)
    → All (λ c. c ≢ d) t × (t ≢ []) × (((s ≡ t) × (rest ≡ [])) ⊎ (s ≡ t ++ d ∷ rest))
unfolding some_token
some_token_lem d sp [] t rest h e = cc
some_token_lem d sp (c ∷ s) t rest h e =
    let t_eq : t ≡ (token d (c ∷ s)).0 = ground arith in
    let rest_eq : rest ≡ (token d (c ∷ s)).1 = ground arith in
    rw (t_eq, rest_eq)
      ((token_lem d (c ∷ s)).0, token-ne-nil d c s (h c s refl), (token_lem d (c ∷ s)).1)

-- A token that `ustr1tok` finds is not empty and has no delimiter; before it stood delimiters
-- only, and the new save pointer is behind the delimiter that ended it, or at the end.
pub ustr1tok-IsToken :
    (d : ℕ) (sp str t rest : List ℕ)
    → ustr1tok (some str) d sp ≡ (some t, rest)
    → IsToken d str t rest
unfolding ustr1tok
ustr1tok-IsToken d sp str t rest e =
    let (pre, delims, eq) = skip_delim_lem d str in
    let (clean, nonempty, whole) =
      some_token_lem d sp (skip_delim d str) t rest (λ c r. skip_delim-head d c str r) e in
    record {
      skipped = pre;
      skipped_delim = delims;
      token_clean = clean;
      token_nonempty = nonempty;
      whole = ground (arith, eq, whole);
    }

-- It returns NULL for a string of delimiters only, and leaves the save pointer.
pub ustr1tok-none :
    (d : ℕ) (sp str : List ℕ) → All (λ c. c ≡ d) str → ustr1tok (some str) d sp ≡ (none, sp)
unfolding ustr1tok skip_delim some_token
ustr1tok-none d sp [] h = refl
ustr1tok-none d sp (c ∷ s) h = ground (arith, ustr1tok-none d sp s h.1)
