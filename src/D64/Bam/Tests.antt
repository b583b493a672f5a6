-- ===== src/D64/Bam/Tests.antt =====
-- Examples for the block map of src/d64ops.c.
mod Full
use nodiskemu.Prelude.{
  ℕ, zero, suc, ◌-◌, ◌*◌, ◌/◌, ◌%◌, ◌≤◌, ◌<◌, Bool, true, false, ◌&&◌, ◌||◌, none, some, List, [],
  ◌∷◌, ◌++◌, ◌≡◌, refl, ap, inl, inr, arith, ◌==◌, if◌then◌else◌, Bool-cases, length, get_or,
  all_below, all_below_sound, how_many, test_bit,
}
use nodiskemu.D64.{
  sector_lba, bam_position, is_bitfield, lba_1541, lba_of, zone_1541, d41param, image_kind,
  sectors_per_track, bitfield,
}
use nodiskemu.D64.Bam.{
  Machine, Partition, Bam, fresh_window, kind_of, is_dnp, allocate_sector, sectors_free,
  move_bam_window, d64_bam_commit, bit_index, bit_of, position,
}
use nodiskemu.D64.Bam.Places.{IsTrack, bam_d41}
use nodiskemu.D64.Bam.Cache.Move.{move_bam_window-IsMoved}
use nodiskemu.D64.Bam.Cache.{
  IsMoved, SameContent, content, behind, holds, place, IsMachine, IsSectorData, IsCache,
}
use nodiskemu.D64.Bam.Map.{IsImage, IsSector, bit, count, home}
use nodiskemu.D64.Bam.Consistent.{IsConsistent, free_sectors}
use nodiskemu.D64.Bam.Reliable.{IsReliable, move_ok, d64_bam_commit-content}
use nodiskemu.D64.Bam.Allocate.{IsMarked}
use nodiskemu.D64.Bam.Allocate.Taken.{allocate_sector-IsMarked}
use nodiskemu.D64.Bam.Totals.{sectors_free_lem}
use nodiskemu.D64.Bam.Runs.{allocates, done, and_then, Run-IsConsistent}
use nodiskemu.D64.Bam.FreeMap.{IsTaken, search, allocate_sector_ok, get_first_sector-IsTaken}

-- The first bytes of the sectors, behind which they are 0.
abbrev pub Disk : Type 0
Disk = (part n : ℕ) → List ℕ

unfoldable pub first : List ℕ → ℕ
first [] = 0
first (b ∷ bytes) = b % 256

unfoldable pub rest : List ℕ → List ℕ
rest [] = []
rest (b ∷ bytes) = bytes

unfoldable pub sector_of : ℕ → List ℕ → List ℕ
sector_of zero bytes = []
sector_of (suc n) bytes = first bytes ∷ sector_of n (rest bytes)

length-sector_of : (n : ℕ) (bytes : List ℕ) → length (sector_of n bytes) ≡ n
unfolding sector_of
length-sector_of zero bytes = refl
length-sector_of (suc n) bytes = ap suc (length-sector_of n (rest bytes))

first-lt : (bytes : List ℕ) → first bytes < 256
unfolding first
first-lt [] = omega arith
first-lt (b ∷ bytes) = omega arith

sector_of-lt : (n i : ℕ) (bytes : List ℕ) → get_or (sector_of n bytes) i 0 < 256
unfolding sector_of
sector_of-lt zero i bytes = omega arith
sector_of-lt (suc n) zero bytes = first-lt bytes
sector_of-lt (suc n) (suc i) bytes = sector_of-lt n i (rest bytes)

sector_of_same :
    (n : ℕ) (bytes : List ℕ)
    → length bytes ≡ n
    → ((i : ℕ) → get_or bytes i 0 < 256)
    → sector_of n bytes ≡ bytes
unfolding sector_of first rest
sector_of_same zero [] same small = refl
sector_of_same zero (b ∷ bytes) same small = absurd (omega (arith, same))
sector_of_same (suc n) [] same small = absurd (omega (arith, same))
sector_of_same (suc n) (b ∷ bytes) same small =
    let byte : b % 256 ≡ b = omega (arith, small 0) in
    let more = sector_of_same n bytes (omega (arith, same)) (λ i. small (suc i)) in
    rw (byte, more) refl

abbrev pub disk : Machine Disk
disk = record {
  image_read = λ d p offset len. (d, 0, sector_of 256 (d p (offset / 256)));
  image_write =
      λ d p offset bytes. (λ q k. if q == p && k == offset / 256 then bytes else d q k, 0);
  alloc_system_buffer = λ d. (d, some []);
  current_error = λ d. 0;
  set_error = λ d e. d;
}

abbrev pub at_disk : Disk → (part n : ℕ) → List ℕ
at_disk d p n = sector_of 256 (d p n)

sector_at : (n : ℕ) → 256 * n / 256 ≡ n
sector_at n = omega arith

whole_sector : (bytes : List ℕ) → IsSectorData (sector_of 256 bytes)
whole_sector bytes = record {
  whole = length-sector_of 256 bytes;
  small = λ i. sector_of-lt 256 i bytes;
}

pub disk-IsMachine : IsMachine disk at_disk
disk-IsMachine = record {
  read_ok = λ d p n ok. (ap (λ k. sector_of 256 (d p k)) (sector_at n), whole_sector (d p n));
  read_keeps = λ d p n q k. refl;
  write_ok = λ d p n bytes data_ok ok q k. elim (Bool-cases (q == p && k == n)) [
    | inl e ↦ rw (sector_at n, e) (sector_of_same 256 bytes data_ok.whole data_ok.small)
    | inr e ↦ rw (sector_at n, e) refl
  ];
  alloc_keeps = λ d q k. refl;
  error_keeps = λ d e q k. refl;
}

pub disk-IsReliable : IsReliable disk 1
disk-IsReliable = record { reads = λ d p offset lt. refl; writes = λ d p offset bytes lt. refl }

abbrev partitions : ℕ → Partition
partitions p = record { imagetype = 2; param = d41param }

pub few : 1 ≤ 255
few = omega arith

image : IsImage disk at_disk disk-IsMachine partitions 1 few 0 35
unfolding kind_of image_kind
image = record { mounted = omega arith; has_bam = bam_d41; plain = λ e. absurd (ground (arith, e)) }

zeros : ℕ → List ℕ
zeros zero = []
zeros (suc n) = 0 ∷ zeros n

-- A disk whose only free sector is sector 2 of track 17.
abbrev one_free : Disk
one_free p n = if n == 357 then zeros 68 ++ (1 ∷ 4 ∷ []) else []

abbrev start : Bam Disk
start = record { machine = one_free; bam_buffer = fresh_window []; bam_buffer2 = none }

start-IsCache : IsCache disk at_disk disk-IsMachine partitions 1 few start
unfolding fresh_window
start-IsCache = record {
  first = record {
    home = λ lt. absurd (omega arith);
    bytes_ok = λ lt. absurd (omega arith);
    clean = λ lt flag. absurd (omega arith);
  };
  second = tt;
  apart = tt;
}

abbrev count_of : ℕ → ℕ
count_of t = count disk at_disk disk-IsMachine partitions 1 few 0 start t

abbrev free_of : ℕ → ℕ
free_of t = free_sectors disk at_disk disk-IsMachine partitions 1 few 0 35 image start t

counter_test : ℕ → Bool
counter_test t = (t == 0) || (count_of t == free_of t)

counters_table : all_below 36 counter_test ≡ true
unfolding all_below counter_test count content behind holds fresh_window sector_of bam_position
    kind_of image_kind first rest home sector_lba zeros free_sectors how_many sectors_per_track
    place bit bit_index bit_of is_dnp position is_bitfield lba_1541 lba_of zone_1541 test_bit
counters_table = refl

start-IsConsistent : IsConsistent disk at_disk disk-IsMachine partitions 1 few 0 35 image start
start-IsConsistent = record {
  cached = start-IsCache;
  counters = λ plain t h.
      let tested = all_below_sound 36 counter_test t counters_table (omega arith) in
      unfold counter_test in ground (arith, tested);
}

IsTrack-17 : IsTrack 35 17
IsTrack-17 = record { first = omega arith; last_ok = omega arith }

IsSector-2 : IsSector disk at_disk disk-IsMachine partitions 1 few 0 35 17 2
unfolding sectors_per_track kind_of image_kind
IsSector-2 = record { on_disk = IsTrack-17; in_track = omega arith }

sector_2_free : bit disk at_disk disk-IsMachine partitions 1 few 0 start 17 2 ≡ true
unfolding content behind holds fresh_window sector_of bam_position kind_of image_kind first rest
    home sector_lba zeros place bit bit_index bit_of is_dnp position is_bitfield lba_1541 lba_of
    test_bit
sector_2_free = refl

get_first_sector-IsTaken_example :
    IsTaken disk at_disk disk-IsMachine partitions 1 few 0 35 image disk-IsReliable refl start (
      search disk at_disk disk-IsMachine partitions 1 few 0 35 image disk-IsReliable refl 256 start)
get_first_sector-IsTaken_example =
    get_first_sector-IsTaken disk at_disk disk-IsMachine partitions 1 few 0 35 image disk-IsReliable
      refl 256 start 17 2 (omega arith) (omega arith) (omega arith) (omega arith) start-IsConsistent
      IsSector-2 (omega arith) sector_2_free

-- The state behind the allocation, whose window is to be flushed.
abbrev taken : Bam Disk
taken = (allocate_sector disk partitions 1 0 17 2 start).0

taken_ok : (allocate_sector disk partitions 1 0 17 2 start).1 ≡ 0
taken_ok =
    allocate_sector_ok disk at_disk disk-IsMachine partitions 1 few 0 35 image disk-IsReliable refl
      start 17 2

allocate_sector-IsMarked_example :
    IsMarked disk at_disk disk-IsMachine partitions 1 few 0 35 image start 17 2 false
      (if bit disk at_disk disk-IsMachine partitions 1 few 0 start 17 2
        then count_of 17 - 1
        else count_of 17)
      taken
allocate_sector-IsMarked_example =
    allocate_sector-IsMarked disk at_disk disk-IsMachine partitions 1 few 0 35 image start 17 2
      start-IsCache IsSector-2 taken_ok

Run-IsConsistent_example :
    IsConsistent disk at_disk disk-IsMachine partitions 1 few 0 35 image taken
Run-IsConsistent_example =
    Run-IsConsistent disk at_disk disk-IsMachine partitions 1 few 0 35 image
      (and_then (done start) (allocates start 17 2 IsSector-2 taken_ok)) start-IsConsistent

move_bam_window-IsMoved_example :
    IsMoved disk at_disk disk-IsMachine partitions 1 few start 0
      (position disk partitions 1 0 17 bitfield).track
      (position disk partitions 1 0 17 bitfield).sector
      (move_bam_window disk partitions 1 0 17 bitfield start).0
move_bam_window-IsMoved_example =
    move_bam_window-IsMoved disk at_disk disk-IsMachine partitions 1 few 0 17 bitfield start
      (omega arith) (omega arith) (omega arith) start-IsCache
      (move_ok disk partitions 1 disk-IsReliable 0 17 bitfield start (omega arith))

sectors_free_lem_example :
    IsConsistent disk at_disk disk-IsMachine partitions 1 few 0 35 image
      (sectors_free disk partitions 1 0 17 start).0
    × SameContent disk at_disk disk-IsMachine partitions 1 few start
        (sectors_free disk partitions 1 0 17 start).0
    × ((sectors_free disk partitions 1 0 17 start).1 ≡ free_of 17)
sectors_free_lem_example =
    sectors_free_lem disk at_disk disk-IsMachine partitions 1 few 0 35 image start 17
      disk-IsReliable refl IsTrack-17 start-IsConsistent

taken-IsMarked :
    IsMarked disk at_disk disk-IsMachine partitions 1 few 0 35 image start 17 2 false
      (if bit disk at_disk disk-IsMachine partitions 1 few 0 start 17 2
        then count_of 17 - 1
        else count_of 17)
      taken
taken-IsMarked =
    allocate_sector-IsMarked disk at_disk disk-IsMachine partitions 1 few 0 35 image start 17 2
      start-IsCache IsSector-2 taken_ok

d64_bam_commit-content_example :
    at_disk (d64_bam_commit disk partitions 1 taken).0.machine 0 357
    ≡ content disk at_disk disk-IsMachine partitions 1 few taken 0 357
d64_bam_commit-content_example =
    d64_bam_commit-content disk at_disk disk-IsMachine partitions 1 few disk-IsReliable taken 0 357
      taken-IsMarked.cached (omega arith)
