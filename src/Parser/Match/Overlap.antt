-- ===== src/Parser/Match/Overlap.antt =====
-- With POSTMATCH the end of the pattern is compared with the end of the whole name.
use mathlib.Core.List.{reverse, reverse-cons, reverse-append, append_assoc, append-nil}
use mathlib.Core.Path.{subst}
use nodiskemu.Prelude.{
  ℕ, zero, suc, ◌<◌, ◌≡◌, refl, ◌≢◌, inl, inr, Bool, true, some, List, [], ◌∷◌, ◌++◌, arith, All,
  length,
}
use nodiskemu.Parser.Match.{match_back, match_loop, match_name}
use nodiskemu.Parser.Match.Spec.{fold_case-wild}

abbrev pub IsPlain : List ℕ → Type 0
IsPlain = All (λ c. (c ≢ b'*') × (c ≢ b'?'))

-- A tail that is the end of the name matches.
match_back-append : (ic : Bool) (w z : List ℕ) → match_back ic w (w ++ z) ≡ some 1
unfolding match_back
match_back-append ic [] z = refl
match_back-append ic (c ∷ w) z = ground (arith, match_back-append ic w z)

-- Plain bytes in front of the star are passed over.
match_loop-plain :
    (ic : Bool) (u t : List ℕ) (c : ℕ) (v : List ℕ) (r : ℕ) (passed : List ℕ)
    → IsPlain u
    → length u < r
    → match_loop true ic r passed (u ++ b'*' ∷ t) (u ++ c ∷ v)
      ≡ match_back ic (reverse t) (reverse (c ∷ v) ++ (reverse u ++ passed))
unfolding match_loop
match_loop-plain ic [] t c v zero passed hu hr = absurd (omega arith)
match_loop-plain ic [] t c v (suc r) passed hu hr = ground (
  arith,
  fold_case-wild ic b'*' b'*' (inr (inl refl)),
  fold_case-wild ic b'*' b'?' (inr (inr refl)),
)
match_loop-plain ic (x ∷ u) t c v zero passed hu hr = absurd (omega arith)
match_loop-plain ic (x ∷ u) t c v (suc r) passed hu hr =
    let regroup : reverse (c ∷ v) ++ (reverse u ++ x ∷ passed)
        ≡ reverse (c ∷ v) ++ (reverse (x ∷ u) ++ passed) =
      rw (reverse-cons x u, append_assoc (reverse u) (x ∷ []) passed) in
    ground (
      arith,
      regroup,
      match_loop-plain ic u t c v r (x ∷ passed) hu.1 (omega arith),
      fold_case-wild ic x b'*' (inr (inl refl)),
      fold_case-wild ic x b'?' (inr (inr refl)),
    )

-- A name matches every pattern that puts a star and the whole name behind its own beginning: the
-- bytes in front of the star may be used twice.
pub match_name-overlap :
    (ic : Bool) (u : List ℕ) (c : ℕ) (v : List ℕ)
    → IsPlain u
    → length u < 16
    → match_name true (u ++ b'*' ∷ (u ++ c ∷ v)) (u ++ c ∷ v) ic ≡ some 1
unfolding match_name
match_name-overlap ic u c v hu hl = rw (match_loop-plain ic u (u ++ c ∷ v) c v 16 [] hu hl) (
    rw (append-nil (reverse u), ← reverse-append u (c ∷ v))
      (subst (λ w. match_back ic (reverse (u ++ c ∷ v)) w ≡ some 1) (append-nil _)
        (match_back-append ic _ [])))
