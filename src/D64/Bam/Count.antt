-- ===== src/D64/Bam/Count.antt =====
-- The bits that `sectors_free` of src/d64ops.c counts, byte by byte.
use nodiskemu.Prelude.{
  ℕ, zero, suc, ◌+◌, ◌-◌, ◌*◌, ◌/◌, ◌%◌, ◌≤◌, ◌<◌, Bool, true, List, ◌≡◌, refl, ap, ◌∙◌, arith,
  ◌==◌, get_or, test_bit, all_below, all_below_sound, how_many, how_many_add, how_many_cong,
  how_many_le,
}
use nodiskemu.D64.Bam.{count_bits, count_blocks}

-- The bits of a byte, the highest first.
bits_down : ℕ → ℕ → Bool
bits_down b r = test_bit b (7 - r)

count_test : ℕ → Bool
count_test b = count_bits b == how_many (bits_down b) 8

count_table : all_below 256 count_test ≡ true
unfolding all_below count_test count_bits how_many bits_down test_bit
count_table = refl

count_bits_lem : (b : ℕ) → b < 256 → count_bits b ≡ how_many (bits_down b) 8
count_bits_lem b lt =
    let h = all_below_sound 256 count_test b count_table lt in
    unfold count_test in ground (arith, h)

-- The bit of a sector in the bytes from `i` on.
unfoldable pub bit_in : List ℕ → (i r : ℕ) → Bool
bit_in bytes i r = test_bit (get_or bytes (i + r / 8) 0) (7 - r % 8)

bit_in_first :
    (bytes : List ℕ) (i r : ℕ) → r < 8 → bit_in bytes i r ≡ bits_down (get_or bytes i 0) r
unfolding bit_in bits_down
bit_in_first bytes i r lt =
    let zeroth : i + r / 8 ≡ i = ground arith in
    let same : r % 8 ≡ r = ground arith in rw (zeroth, same) refl

bit_in_next : (bytes : List ℕ) (i r : ℕ) → bit_in bytes i (8 + r) ≡ bit_in bytes (i + 1) r
unfolding bit_in
bit_in_next bytes i r =
    let next : i + (8 + r) / 8 ≡ i + 1 + r / 8 = ground arith in
    let same : (8 + r) % 8 ≡ r % 8 = ground arith in rw (next, same) refl

-- The sum over the bytes is the number of bits; it does not overflow.
pub count_blocks_lem :
    (n i : ℕ) (bytes : List ℕ)
    → n ≤ 32
    → ((j : ℕ) → get_or bytes j 0 < 256)
    → count_blocks n i bytes ≡ how_many (bit_in bytes i) (8 * n)
unfolding count_blocks
count_blocks_lem zero i bytes short small = unfold how_many in refl
count_blocks_lem (suc n) i bytes short small =
    let rest = count_blocks_lem n (i + 1) bytes (omega arith) small in
    let split = how_many_add (bit_in bytes i) 8 (8 * n) in
    let here =
      how_many_cong (bits_down (get_or bytes i 0)) (bit_in bytes i) 8 (bit_in_first bytes i) in
    let there =
      how_many_cong (bit_in bytes (i + 1)) (λ r. bit_in bytes i (8 + r)) (8 * n)
        (λ r lt. bit_in_next bytes i r) in
    let eight : 8 * suc n ≡ 8 + 8 * n = omega arith in
    let bound = how_many_le (bit_in bytes i) (8 * suc n) in
    let total : how_many (bit_in bytes i) (8 * suc n)
        ≡ count_bits (get_or bytes i 0) + count_blocks n (i + 1) bytes =
      ap (how_many (bit_in bytes i)) eight
      ∙ split
      ∙ ground (arith, here, there, rest, count_bits_lem (get_or bytes i 0) (small i)) in
    ground (arith, total, bound)
