-- ===== src/Parser/Match/Spec.antt =====
-- What it means that a name matches a pattern, and that `match_name` decides it.
use nodiskemu.Prelude.{
  ℕ, zero, suc, ◌≤◌, ◌≡◌, refl, ◌≢◌, ◌⊎◌, ◌↔◌, inl, inr, Bool, false, some, List, [], ◌∷◌, arith,
  ◌==◌, ==_iff, Bool-cases, All, length, take,
}
use nodiskemu.Parser.{tolower_pet}
use nodiskemu.Parser.Match.{fold_case, match_end, match_loop, match_name}

-- A star matches the rest of the name, '?' any byte, any other byte itself, as far as case counts.
pub data Matches (ignorecase : Bool) : List ℕ → List ℕ → Type 0 where
  end : Matches ignorecase [] []
  star : {m : ℕ} {p f : List ℕ} → m ≡ b'*' → Matches ignorecase (m ∷ p) f
  any :
      {m c : ℕ} {p f : List ℕ}
      → m ≡ b'?'
      → Matches ignorecase p f
      → Matches ignorecase (m ∷ p) (c ∷ f)
  same :
      {m c : ℕ} {p f : List ℕ}
      → fold_case ignorecase m ≡ fold_case ignorecase c
      → Matches ignorecase p f
      → Matches ignorecase (m ∷ p) (c ∷ f)

-- Folding the case neither makes nor hides a wildcard or a NUL.
pub fold_case-wild :
    (ic : Bool) (c w : ℕ) → (w ≡ 0) ⊎ (w ≡ b'*') ⊎ (w ≡ b'?') → (fold_case ic c ≡ w) ↔ (c ≡ w)
unfolding fold_case tolower_pet
fold_case-wild ic c w h = ground arith

fold_case-nul : (ic : Bool) → fold_case ic 0 ≡ 0
fold_case-nul ic = (fold_case-wild ic 0 0 (inl refl)).1 refl

-- What a round of the loop that goes on has seen.
match_loop-step :
    (ic : Bool) (r : ℕ) (passed p f : List ℕ) (m c : ℕ)
    → m ≢ b'*'
    → match_loop false ic (suc r) passed (m ∷ p) (c ∷ f) ≡ some 1
    → ((m ≡ b'?') ⊎ (fold_case ic m ≡ fold_case ic c))
      × (match_loop false ic r (c ∷ passed) p f ≡ some 1)
unfolding match_loop
match_loop-step ic r passed p f m c h e =
    ground
      (arith, fold_case-wild ic m b'*' (inr (inl refl)), fold_case-wild ic m b'?' (inr (inr refl)))

match_loop-sound :
    (ic : Bool) (r : ℕ) (passed p f : List ℕ)
    → All (λ c. c ≢ 0) p
    → All (λ c. c ≢ 0) f
    → length f ≤ r
    → match_loop false ic r passed p f ≡ some 1
    → Matches ic (take r p) f
unfolding match_loop match_end
match_loop-sound ic zero passed p [] hp hf hl e = end
match_loop-sound ic (suc r) passed [] [] hp hf hl e = end
match_loop-sound ic (suc r) passed (m ∷ p) [] hp hf hl e = star (ground arith)
match_loop-sound ic zero passed p (c ∷ f) hp hf hl e = absurd (omega arith)
match_loop-sound ic (suc r) passed [] (c ∷ f) hp hf hl e =
    absurd (ground (arith, fold_case-nul ic, fold_case-wild ic c 0 (inl refl)))
match_loop-sound ic (suc r) passed (m ∷ p) (c ∷ f) hp hf hl e = elim (Bool-cases (m == b'*')) [
  | inl s ↦ star ((==_iff _ _).0 s)
  | inr n ↦
      let (seen, more) = match_loop-step ic r passed p f m c (ground arith) e in
      let ih = match_loop-sound ic r (c ∷ passed) p f hp.1 hf.1 (omega arith) more in
      elim seen [ inl q ↦ any q ih | inr q ↦ same q ih ]
]

match_loop_complete :
    (ic : Bool) (r : ℕ) (passed p f : List ℕ)
    → All (λ c. c ≢ 0) p
    → length f ≤ r
    → Matches ic (take r p) f
    → match_loop false ic r passed p f ≡ some 1
unfolding match_loop match_end
match_loop_complete ic zero passed p [] hp hl h = ground arith
match_loop_complete ic zero passed p (c ∷ f) hp hl h = absurd (omega arith)
match_loop_complete ic (suc r) passed [] [] hp hl h = refl
match_loop_complete ic (suc r) passed [] (c ∷ f) hp hl h = elim h [ ]
match_loop_complete ic (suc r) passed (m ∷ p) [] hp hl (star e) = rw e
match_loop_complete ic (suc r) passed (m ∷ p) (c ∷ f) hp hl (star e) =
    ground
      (arith, fold_case-wild ic m b'*' (inr (inl refl)), fold_case-wild ic m b'?' (inr (inr refl)))
match_loop_complete ic (suc r) passed (m ∷ p) (c ∷ f) hp hl (any e h) = ground (
  arith,
  match_loop_complete ic r (c ∷ passed) p f hp.1 (omega arith) h,
  fold_case-wild ic m b'?' (inr (inr refl)),
)
match_loop_complete ic (suc r) passed (m ∷ p) (c ∷ f) hp hl (same e h) =
    ground (arith, match_loop_complete ic r (c ∷ passed) p f hp.1 (omega arith) h)

-- Without POSTMATCH, `match_name` returns 1 exactly if the name, of at most 16 bytes, matches the
-- first 16 bytes of the pattern; neither has a NUL inside.
pub match_name-eq-one_iff :
    (ic : Bool) (p f : List ℕ)
    → All (λ c. c ≢ 0) p
    → All (λ c. c ≢ 0) f
    → length f ≤ 16
    → (match_name false p f ic ≡ some 1) ↔ Matches ic (take 16 p) f
unfolding match_name
match_name-eq-one_iff ic p f hp hf hl =
    (match_loop-sound ic 16 [] p f hp hf hl, match_loop_complete ic 16 [] p f hp hl)
