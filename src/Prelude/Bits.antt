-- ===== src/Prelude/Bits.antt =====
-- Bytes and their bits: C's `&`, `|`, `<<` and `~` on a uint8_t, and proofs by a table of all bytes.
use Prim.Native.Nat.{ℕ, zero, suc, ◌-◌, ◌^◌, ◌<◌, bit_and, bit_or}
use mathlib.Core.Path.{◌≡◌, refl}
use mathlib.Core.Bool.{Bool, true, false, not, ◌&&◌}
use native.Mathlib.Omega.{arith}
use nodiskemu.Prelude.Tests.{◌==◌, ltb, if◌then◌else◌}

-- A test of every number below a bound.
unfoldable pub all_below : (bound : ℕ) (test : ℕ → Bool) → Bool
all_below zero test = true
all_below (suc last) test = all_below last test && test last

pub all_below_sound :
    (bound : ℕ) (test : ℕ → Bool) (value : ℕ)
    → all_below bound test ≡ true
    → value < bound
    → test value ≡ true
unfolding all_below
all_below_sound zero test value passed below = absurd (omega arith)
all_below_sound (suc last) test value passed below = grind (arith, all_below_sound last test value)

-- `(b & (1 << k)) != 0`
unfoldable pub test_bit : ℕ → ℕ → Bool
test_bit b k = not (bit_and b (2 ^ k) == 0)

-- `b | (1 << k)`
unfoldable pub raise_bit : ℕ → ℕ → ℕ
raise_bit b k = bit_or b (2 ^ k)

-- `b & (uint8_t)~(1 << k)`
unfoldable pub clear_bit : ℕ → ℕ → ℕ
clear_bit b k = bit_and b (255 - 2 ^ k)

same : Bool → Bool → Bool
same true b = b
same false b = not b

same_sound : (a b : Bool) → same a b ≡ true → a ≡ b
unfolding same
same_sound true true h = refl
same_sound true false h = cc
same_sound false true h = cc
same_sound false false h = refl

-- Every byte against every pair of bit numbers.
each : (ℕ → ℕ → ℕ → Bool) → Bool
unfolding all_below
each p = all_below 256 (λ b. all_below 8 (λ k. all_below 8 (p b k)))

each_sound :
    (p : ℕ → ℕ → ℕ → Bool) (b k j : ℕ) → each p ≡ true → b < 256 → k < 8 → j < 8 → p b k j ≡ true
unfolding each
each_sound p b k j h hb hk hj =
    all_below_sound 8 (p b k) j
      (all_below_sound 8 (λ k. all_below 8 (p b k)) k
        (all_below_sound 256 (λ b. all_below 8 (λ k. all_below 8 (p b k))) b h hb) hk)
      hj

raise_table :
    each (λ b k j. same (test_bit (raise_bit b k) j) (if k == j then true else test_bit b j)) ≡ true
unfolding each same test_bit raise_bit
raise_table = refl

clear_table :
    each (λ b k j. same (test_bit (clear_bit b k) j) (if k == j then false else test_bit b j))
    ≡ true
unfolding each same test_bit clear_bit
clear_table = refl

range_table : each (λ b k j. ltb (raise_bit b k) 256 && ltb (clear_bit b k) 256) ≡ true
unfolding each raise_bit clear_bit
range_table = refl

module _ (b k : ℕ) (hb : b < 256) (hk : k < 8) where
  -- Setting a bit is seen at that bit and nowhere else.
  pub test_bit-raise_bit :
      (j : ℕ) → j < 8 → test_bit (raise_bit b k) j ≡ (if k == j then true else test_bit b j)
  test_bit-raise_bit j hj = same_sound _ _ (each_sound _ b k j raise_table hb hk hj)

  pub test_bit-clear_bit :
      (j : ℕ) → j < 8 → test_bit (clear_bit b k) j ≡ (if k == j then false else test_bit b j)
  test_bit-clear_bit j hj = same_sound _ _ (each_sound _ b k j clear_table hb hk hj)

  pub raise_bit-lt : raise_bit b k < 256
  raise_bit-lt =
      let h =
        each_sound (λ b k j. ltb (raise_bit b k) 256 && ltb (clear_bit b k) 256) b k 0 range_table
          hb hk (omega arith) in
      ground (arith, h)

  pub clear_bit-lt : clear_bit b k < 256
  clear_bit-lt =
      let h =
        each_sound (λ b k j. ltb (raise_bit b k) 256 && ltb (clear_bit b k) 256) b k 0 range_table
          hb hk (omega arith) in
      ground (arith, h)
