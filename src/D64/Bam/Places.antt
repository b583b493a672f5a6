-- ===== src/D64/Bam/Places.antt =====
-- Where the block map of src/d64ops.c keeps the bit of a sector and the counter of a track.

use nodiskemu.Prelude.{
  ℕ, ◌+◌, ◌-◌, ◌*◌, ◌/◌, ◌%◌, ◌≤◌, ◌<◌, Bool, true, ◌&&◌, ◌||◌, ◌≡◌, ◌≢◌, refl, ◌⊎◌, arith, ◌==◌,
  all_below, all_below_sound,
}
use nodiskemu.D64.{
  Kind, d41, d71, d81, dnp, d80, d82, other, sector_lba, sectors_per_track, BamData, bitfield,
  freecount, Position, bam_position, is_bitfield, d80_window,
}

-- The sectors of the block map.
abbrev pub IsHome : Kind → (track sector : ℕ) → Type 0
IsHome d71 t s = ((t ≡ 18) ⊎ (t ≡ 53)) × (s ≡ 0)
IsHome d81 t s = (t ≡ 40) × (s ≤ 2)
IsHome dnp t s = (t ≡ 1) × (s ≤ 33)
IsHome d80 t s = (t ≡ 38) × (s ≤ 15)
IsHome d82 t s = (t ≡ 38) × (s ≤ 15)
IsHome _ t s = (t ≡ 18) × (s ≡ 0)

d80_window_test : ℕ → Bool
d80_window_test t =
    (d80_window 6 0 t).0 == 3 * ((t - 1) / 50)
    && (t == 0 || (d80_window 6 0 t).1 == (t - 1) % 50 + 1)

d80_window_table : all_below 256 d80_window_test ≡ true
unfolding all_below d80_window_test d80_window
d80_window_table = refl

pub d80_window_lem :
    (t : ℕ)
    → 1 ≤ t
    → t < 256
    → ((d80_window 6 0 t).0 ≡ 3 * ((t - 1) / 50)) × ((d80_window 6 0 t).1 ≡ (t - 1) % 50 + 1)
d80_window_lem t pos lt =
    let h = all_below_sound 256 d80_window_test t d80_window_table lt in
    unfold d80_window_test in ground (arith, h)

pub bam_position-IsHome :
    (kind : Kind) (type : BamData) (track : ℕ)
    → 1 ≤ track
    → track < 256
    → IsHome kind (bam_position kind type track).track (bam_position kind type track).sector
unfolding bam_position
bam_position-IsHome d41 type track pos lt = (refl, refl)
bam_position-IsHome d71 bitfield track pos lt = ground arith
bam_position-IsHome d71 freecount track pos lt = ground arith
bam_position-IsHome d81 type track pos lt = ground arith
bam_position-IsHome dnp type track pos lt = ground arith
bam_position-IsHome d80 type track pos lt = ground (arith, d80_window_lem track)
bam_position-IsHome d82 type track pos lt = ground (arith, d80_window_lem track)
bam_position-IsHome other type track pos lt = (refl, refl)

-- Sectors of the block map with one place in the file are one sector.
pub sector_lba-IsHome :
    (kind : Kind) (t s t' s' : ℕ)
    → IsHome kind t s
    → IsHome kind t' s'
    → sector_lba kind t s ≡ sector_lba kind t' s'
    → (t ≡ t') × (s ≡ s')
unfolding sector_lba
sector_lba-IsHome d41 t s t' s' h h' e = ground arith
sector_lba-IsHome d71 t s t' s' h h' e = ground arith
sector_lba-IsHome d81 t s t' s' h h' e = ground arith
sector_lba-IsHome dnp t s t' s' h h' e = ground arith
sector_lba-IsHome d80 t s t' s' h h' e = ground arith
sector_lba-IsHome d82 t s t' s' h h' e = ground arith
sector_lba-IsHome other t s t' s' h h' e = ground arith

-- The kinds of image that have a block map, with the highest track.
pub data HasBam : Kind → ℕ → Type 0 where
  bam_d41 : HasBam d41 35
  bam_d71 : HasBam d71 70
  bam_d81 : HasBam d81 80
  bam_dnp : (last : ℕ) → last < 256 → HasBam dnp last
  bam_d80 : HasBam d80 77
  bam_d82 : HasBam d82 154

pub record IsTrack (last track : ℕ) : Type 0 where
  pub first : 1 ≤ track
  pub last_ok : track ≤ last

-- How many bytes the bits of a track take at most.
pub width : Kind → ℕ
width d81 = 5
width dnp = 32
width d80 = 4
width d82 = 4
width _ = 3

pub sector-lt-width :
    {kind : Kind} {last : ℕ} (z : HasBam kind last) (track sector : ℕ)
    → sector < sectors_per_track kind track
    → sector / 8 < width kind
unfolding sectors_per_track width
sector-lt-width bam_d41 t r lt = ground arith
sector-lt-width bam_d71 t r lt = ground arith
sector-lt-width bam_d81 t r lt = ground arith
sector-lt-width (bam_dnp last small) t r lt = ground arith
sector-lt-width bam_d80 t r lt = ground arith
sector-lt-width bam_d82 t r lt = ground arith

-- Two positions in one sector of the block map.
abbrev pub SameSector : Position → Position → Type 0
SameSector a b = (a.track ≡ b.track) × (a.sector ≡ b.sector)

pub bits_apart :
    {kind : Kind} {last : ℕ} (z : HasBam kind last) (t t' k k' : ℕ)
    → IsTrack last t
    → IsTrack last t'
    → k < width kind
    → k' < width kind
    → SameSector (bam_position kind bitfield t) (bam_position kind bitfield t')
    → (bam_position kind bitfield t).pos + k ≡ (bam_position kind bitfield t').pos + k'
    → (t ≡ t') × (k ≡ k')
unfolding bam_position width is_bitfield
bits_apart bam_d41 t t' k k' h h' lt lt' same e = ground arith
bits_apart bam_d71 t t' k k' h h' lt lt' same e = ground arith
bits_apart bam_d81 t t' k k' h h' lt lt' same e = ground arith
bits_apart (bam_dnp last small) t t' k k' h h' lt lt' same e = ground arith
bits_apart bam_d80 t t' k k' h h' lt lt' same e =
    ground (arith, d80_window_lem t, d80_window_lem t')
bits_apart bam_d82 t t' k k' h h' lt lt' same e =
    ground (arith, d80_window_lem t, d80_window_lem t')

pub counts_apart :
    {kind : Kind} {last : ℕ} (z : HasBam kind last) (t t' : ℕ)
    → IsTrack last t
    → IsTrack last t'
    → kind ≢ dnp
    → SameSector (bam_position kind freecount t) (bam_position kind freecount t')
    → (bam_position kind freecount t).pos ≡ (bam_position kind freecount t').pos
    → t ≡ t'
unfolding bam_position is_bitfield
counts_apart bam_d41 t t' h h' ne same e = ground arith
counts_apart bam_d71 t t' h h' ne same e = ground arith
counts_apart bam_d81 t t' h h' ne same e = ground arith
counts_apart (bam_dnp last small) t t' h h' ne same e = absurd (ne refl)
counts_apart bam_d80 t t' h h' ne same e = ground (arith, d80_window_lem t, d80_window_lem t')
counts_apart bam_d82 t t' h h' ne same e = ground (arith, d80_window_lem t, d80_window_lem t')

pub bit-count_apart :
    {kind : Kind} {last : ℕ} (z : HasBam kind last) (t t' k : ℕ)
    → IsTrack last t
    → IsTrack last t'
    → kind ≢ dnp
    → k < width kind
    → SameSector (bam_position kind bitfield t) (bam_position kind freecount t')
    → (bam_position kind bitfield t).pos + k ≢ (bam_position kind freecount t').pos
unfolding bam_position width is_bitfield
bit-count_apart bam_d41 t t' k h h' ne lt same = ground arith
bit-count_apart bam_d71 t t' k h h' ne lt same = ground arith
bit-count_apart bam_d81 t t' k h h' ne lt same = ground arith
bit-count_apart (bam_dnp last small) t t' k h h' ne lt same = absurd (ne refl)
bit-count_apart bam_d80 t t' k h h' ne lt same = ground (arith, d80_window_lem t, d80_window_lem t')
bit-count_apart bam_d82 t t' k h h' ne lt same = ground (arith, d80_window_lem t, d80_window_lem t')

pub position-lt :
    {kind : Kind} {last : ℕ} (z : HasBam kind last) (t k : ℕ)
    → IsTrack last t
    → k < width kind
    → (bam_position kind bitfield t).pos + k < 256
unfolding bam_position width is_bitfield
position-lt bam_d41 t k h lt = ground arith
position-lt bam_d71 t k h lt = ground arith
position-lt bam_d81 t k h lt = ground arith
position-lt (bam_dnp last small) t k h lt = ground arith
position-lt bam_d80 t k h lt = ground (arith, d80_window_lem t)
position-lt bam_d82 t k h lt = ground (arith, d80_window_lem t)

pub count_position-lt :
    (kind : Kind) (t : ℕ) → kind ≢ dnp → (bam_position kind freecount t).pos < 256
unfolding bam_position is_bitfield
count_position-lt d41 t ne = ground arith
count_position-lt d71 t ne = ground arith
count_position-lt d81 t ne = ground arith
count_position-lt dnp t ne = absurd (ne refl)
count_position-lt d80 t ne = ground arith
count_position-lt d82 t ne = ground arith
count_position-lt other t ne = ground arith

pub HasBam-lt : {kind : Kind} {last : ℕ} (z : HasBam kind last) (t : ℕ) → IsTrack last t → t < 256
HasBam-lt bam_d41 t h = omega arith
HasBam-lt bam_d71 t h = omega arith
HasBam-lt bam_d81 t h = omega arith
HasBam-lt (bam_dnp last small) t h = omega arith
HasBam-lt bam_d80 t h = omega arith
HasBam-lt bam_d82 t h = omega arith
