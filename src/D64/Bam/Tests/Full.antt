-- ===== src/D64/Bam/Tests/Full.antt =====
-- An example for a full image of src/d64ops.c.
use nodiskemu.Prelude.{
  ℕ, zero, suc, ◌<◌, true, false, not, all_below, all_below_sound, none, [], ◌≡◌, refl, sym, ap,
  ◌∙◌, arith, get_or, test_bit, how_many_none,
}
use nodiskemu.D64.{d82param, image_kind, freecount, bam_position, sectors_per_track}
use nodiskemu.D64.Search.{hangs}
use nodiskemu.D64.Bam.{Partition, Bam, fresh_window, kind_of, is_dnp, bit_index, bit_of}
use nodiskemu.D64.Bam.Places.{bam_d82}
use nodiskemu.D64.Bam.Cache.{IsCache, content, behind, holds}
use nodiskemu.D64.Bam.Map.{IsImage, bit, count}
use nodiskemu.D64.Bam.Consistent.{IsConsistent, free_sectors}
use nodiskemu.D64.Bam.Full.{first_sector, get_first_sector-full}
use nodiskemu.D64.Bam.Tests.{
  Disk, first, rest, sector_of, disk, at_disk, disk-IsMachine, disk-IsReliable, few,
}

-- A D82 image whose bytes are all 0: no sector is free.
abbrev partitions : ℕ → Partition
partitions p = record { imagetype = 16; param = d82param }

image : IsImage disk at_disk disk-IsMachine partitions 1 few 0 154
unfolding kind_of image_kind
image = record { mounted = omega arith; has_bam = bam_d82; plain = λ e. absurd (ground (arith, e)) }

abbrev start : Bam Disk
start = record { machine = λ p n. []; bam_buffer = fresh_window []; bam_buffer2 = none }

start-IsCache : IsCache disk at_disk disk-IsMachine partitions 1 few start
unfolding fresh_window
start-IsCache = record {
  first = record {
    home = λ lt. absurd (omega arith);
    bytes_ok = λ lt. absurd (omega arith);
    clean = λ lt flag. absurd (omega arith);
  };
  second = tt;
  apart = tt;
}

sector_of-empty : (n i : ℕ) → get_or (sector_of n []) i 0 ≡ 0
unfolding sector_of first rest
sector_of-empty zero i = refl
sector_of-empty (suc n) zero = refl
sector_of-empty (suc n) (suc i) = sector_of-empty n i

zero_table : all_below 8 (λ k. not (test_bit 0 k)) ≡ true
unfolding all_below test_bit
zero_table = refl

test_bit-zero : (k : ℕ) → k < 8 → test_bit 0 k ≡ false
test_bit-zero k lt = ground (arith, all_below_sound 8 (λ j. not (test_bit 0 j)) k zero_table lt)

bit_of-lt : (r : ℕ) → bit_of (partitions 0) r < 8
unfolding bit_of is_dnp
bit_of-lt r = omega arith

bit-start : (t r : ℕ) → bit disk at_disk disk-IsMachine partitions 1 few 0 start t r ≡ false
unfolding bit content behind holds fresh_window
bit-start t r =
    ap (λ b. test_bit b (bit_of (partitions 0) r))
      (sector_of-empty 256 (bit_index disk partitions 1 0 t r))
    ∙ test_bit-zero (bit_of (partitions 0) r) (bit_of-lt r)

count-start : (t : ℕ) → count disk at_disk disk-IsMachine partitions 1 few 0 start t ≡ 0
unfolding count content behind holds fresh_window
count-start t = sector_of-empty 256 (bam_position (kind_of (partitions 0)) freecount t).pos

start-IsConsistent : IsConsistent disk at_disk disk-IsMachine partitions 1 few 0 154 image start
unfolding free_sectors
start-IsConsistent = record {
  cached = start-IsCache;
  counters = λ plain t h.
      count-start t
      ∙ sym (
          how_many_none (bit disk at_disk disk-IsMachine partitions 1 few 0 start t)
            (sectors_per_track (kind_of (partitions 0)) t) (λ r lt. bit-start t r));
}

is_dnp-d82 : is_dnp (partitions 0) ≡ false
unfolding is_dnp
is_dnp-d82 = refl

get_first_sector-full_example :
    first_sector disk at_disk disk-IsMachine partitions 1 few 0 154 image disk-IsReliable refl 10000
      start
    ≡ hangs
get_first_sector-full_example =
    get_first_sector-full disk at_disk disk-IsMachine partitions 1 few 0 154 image disk-IsReliable
      refl 10000 start is_dnp-d82 (omega arith) start-IsConsistent (λ t r h. bit-start t r)
