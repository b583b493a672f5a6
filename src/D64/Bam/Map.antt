-- ===== src/D64/Bam/Map.antt =====
-- The block map of src/d64ops.c as what it stands for: a set of free sectors, and a counter for each
-- track. A write through the window changes one byte of it.
use nodiskemu.Prelude.{
  ℕ, ◌≤◌, ◌<◌, Bool, true, ◌&&◌, List, ◌≡◌, ap, ◌∙◌, arith, ◌==◌, if◌then◌else◌, get_or, set,
  length-set, get_or-set, test_bit,
}
use nodiskemu.D64.{dnp, sector_lba, sectors_per_track, BamData, bitfield, freecount, bam_position}
use nodiskemu.D64.Bam.{
  Machine, Partition, Bam, kind_of, is_dnp, bit_of, change, change_window, bit_index,
}
use nodiskemu.D64.Bam.Places.{HasBam, IsTrack}
use nodiskemu.D64.Bam.Cache.{
  IsMachine, IsSectorData, IsCache, SameContent, content, behind, holds, place,
}

set-IsSectorData :
    (bytes : List ℕ) (i v : ℕ)
    → i < 256
    → v < 256
    → IsSectorData bytes
    → IsSectorData (set bytes i v)
set-IsSectorData bytes i v lt small ok = record {
  whole = length-set bytes i v ∙ ok.whole;
  small = λ j. ground (arith, get_or-set bytes i j v 0, ok.whole, ok.small j);
}

module _ {D : Type 0} (m : Machine D) (at : D → (part n : ℕ) → List ℕ) (law : IsMachine m at)
    (partitions : ℕ → Partition) (max_part : ℕ) (few : max_part ≤ 255) (part : ℕ) where
  -- A partition with an image that has a block map.
  pub record IsImage (last : ℕ) : Type 0 where
    pub mounted : part < max_part
    pub has_bam : HasBam (kind_of (partitions part)) last
    pub plain : kind_of (partitions part) ≡ dnp → is_dnp (partitions part) ≡ true

  pub record IsSector (last track sector : ℕ) : Type 0 where
    pub on_disk : IsTrack last track
    pub in_track : sector < sectors_per_track (kind_of (partitions part)) track

  -- The place in the file of the sector with a track's bits or counter.
  unfoldable pub home : BamData → ℕ → ℕ
  home type track =
      let p = bam_position (kind_of (partitions part)) type track in
      sector_lba (kind_of (partitions part)) p.track p.sector

  abbrev pub view : Bam D → (p n : ℕ) → List ℕ
  view s p n = content m at law partitions max_part few s p n

  -- Whether a sector is free, and the counter of a track.
  unfoldable pub bit : Bam D → (track sector : ℕ) → Bool
  bit s track sector =
      test_bit
        (get_or (view s part (home bitfield track))
          (bit_index m partitions max_part part track sector) 0)
        (bit_of (partitions part) sector)

  unfoldable pub count : Bam D → ℕ → ℕ
  count s track =
      get_or (view s part (home freecount track))
        (bam_position (kind_of (partitions part)) freecount track).pos 0

  abbrev pub IsCached : Bam D → Type 0
  IsCached s = IsCache m at law partitions max_part few s

  abbrev pub Same : Bam D → Bam D → Type 0
  Same s s' = SameContent m at law partitions max_part few s s'

  -- The first window has the sector of the track's bits or counter.
  abbrev pub IsShown : Bam D → BamData → ℕ → Type 0
  IsShown s type track =
      (s.bam_buffer.part ≡ part)
      × (s.bam_buffer.track ≡ (bam_position (kind_of (partitions part)) type track).track)
      × (s.bam_buffer.sector ≡ (bam_position (kind_of (partitions part)) type track).sector)

  shown_place :
      (s : Bam D) (type : BamData) (track : ℕ)
      → IsShown s type track
      → place m at law partitions max_part few s.bam_buffer ≡ home type track
  unfolding place home
  shown_place s type track (same_part, same_track, same_sector) = cc

  shown_holds :
      (s : Bam D) (type : BamData) (track p n : ℕ)
      → IsShown s type track
      → holds m at law partitions max_part few s.bam_buffer p n
        ≡ (p == part && n == home type track)
  unfolding holds
  shown_holds s type track p n shown = ground (arith, shown_place s type track shown)

  pub shown_content :
      (s : Bam D) (type : BamData) (track : ℕ)
      → IsShown s type track
      → view s part (home type track) ≡ s.bam_buffer.bytes
  unfolding content behind
  shown_content s type track shown =
      rw (shown_holds s type track part (home type track) shown) (ground arith)

  -- One byte of one sector is written.
  pub record IsWritten (s : Bam D) (n i v : ℕ) (s' : Bam D) : Type 0 where
    pub cached : IsCached s'
    pub byte :
        (p k j : ℕ)
        → p < max_part
        → get_or (view s' p k) j 0
          ≡ (if p == part && (k == n && j == i) then v else get_or (view s p k) j 0)

  pub write-IsWritten :
      (s : Bam D) (type : BamData) (track i : ℕ) (f : ℕ → ℕ)
      → IsCached s
      → IsShown s type track
      → part < max_part
      → i < 256
      → ((b : ℕ) → b < 256 → f b < 256)
      → IsWritten s
          (home type track)
          i
          (f (get_or (view s part (home type track)) i 0))
          (change_window i f s)
  unfolding change_window change content behind holds place
  write-IsWritten s type track i f c shown lt small keep =
      let here = shown_content s type track shown in
      let data_ok = c.first.bytes_ok (omega (arith, shown.0)) in
      record {
        cached = record {
          first = record {
            home = c.first.home;
            bytes_ok = λ h.
                let data_ok = c.first.bytes_ok h in
                set-IsSectorData s.bam_buffer.bytes i _ small (keep _ (data_ok.small i)) data_ok;
            clean = λ h flag. absurd (ground arith);
          };
          second = c.second;
          apart = c.apart;
        };
        byte = λ p k j h. ground (
          arith,
          shown_holds s type track p k shown,
          get_or-set s.bam_buffer.bytes i j (f (get_or s.bam_buffer.bytes i 0)) 0,
          data_ok.whole,
          ap (λ (b : List ℕ). f (get_or b i 0)) here,
        );
      }
