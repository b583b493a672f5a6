-- ===== src/Config/Names.antt =====
-- The name of the ROM file in src/eeprom-conf.c: a text of at most 16 bytes and the zeros after it.

use native.Mathlib.Nat.{zero-add, suc-add}
use nodiskemu.Prelude.{
  ℕ, zero, suc, ◌+◌, ◌-◌, ◌<◌, ◌≤◌, List, [], ◌∷◌, ◌++◌, ◌≡◌, refl, ap, ◌∙◌, arith, take, drop,
  replicate, length, get_or, length-append, length-take, length-replicate,
}
use nodiskemu.Eeprom.{block}
use nodiskemu.Config.{ustrlen, clear_tail}

-- Reading all but the last byte over a text whose last byte is the same gives the text.
pub block-drop :
    (xs : List ℕ)
    → (f : ℕ → ℕ) → (start n : ℕ) → ((k : ℕ) → k < n → f (start + k) ≡ get_or xs k 0)
    → n ≤ length xs
    → block f start n ++ drop n xs ≡ xs
unfolding block
block-drop xs f start zero same le = refl
block-drop [] f start (suc n) same le = absurd (omega arith)
block-drop (x ∷ xs) f start (suc n) same le =
    let first : f start ≡ x = ap f (omega arith) ∙ same 0 (omega arith) in
    let rest =
      block-drop xs f (start + 1) n (λ k below. ap f (omega arith) ∙ same (suc k) (omega arith))
        (omega arith) in
    cc (first, rest)

pub length-clear_tail :
    (text : List ℕ) → ustrlen text < 17 → length text ≡ 17 → length (clear_tail text) ≡ 17
unfolding clear_tail
length-clear_tail text ends sized = omega (
  arith,
  length-append (take (ustrlen text) text) (replicate (17 - ustrlen text) 0),
  length-take (ustrlen text) text,
  length-replicate {A = ℕ} (17 - ustrlen text) 0,
)

pub drop-last : (n : ℕ) → (xs : List ℕ) → length xs ≡ suc n → drop n xs ≡ get_or xs n 0 ∷ []
drop-last zero [] sized = absurd (omega arith)
drop-last zero (x ∷ []) sized = refl
drop-last zero (x ∷ y ∷ xs) sized = absurd (omega arith)
drop-last (suc n) [] sized = absurd (omega arith)
drop-last (suc n) (x ∷ xs) sized = drop-last n xs (omega arith)

get_or-append : (xs ys : List ℕ) → (k : ℕ) → get_or (xs ++ ys) (length xs + k) 0 ≡ get_or ys k 0
get_or-append [] ys k = ap (λ i. get_or ys i 0) (zero-add k)
get_or-append (x ∷ xs) ys k = rw (suc-add (length xs) k) (get_or-append xs ys k)

get_or-replicate : (n k : ℕ) → get_or (replicate {A = ℕ} n 0) k 0 ≡ 0
get_or-replicate zero k = refl
get_or-replicate (suc n) zero = refl
get_or-replicate (suc n) (suc k) = get_or-replicate n k

pub clear_tail-last :
    (text : List ℕ) → ustrlen text < 17 → length text ≡ 17 → get_or (clear_tail text) 16 0 ≡ 0
unfolding clear_tail
clear_tail-last text ends sized =
    let n = ustrlen text in
    let head = length-take n text in
    ap (λ i. get_or (take n text ++ replicate (17 - n) 0) i 0) (omega arith)
    ∙ get_or-append (take n text) (replicate (17 - n) 0) (16 - n)
    ∙ get_or-replicate (17 - n) (16 - n)
