-- ===== src/D64/Bam/Full.antt =====
-- `get_first_sector` of src/d64ops.c over the block map of a full image.
use nodiskemu.Prelude.{ℕ, ◌≤◌, Bool, false, List, ◌≡◌, sym, how_many_none}
use mathlib.Core.Path.{subst}
use nodiskemu.D64.{sectors_per_track}
use nodiskemu.D64.Search.{Outcome, hangs, get_first_sector}
use nodiskemu.D64.Search.Complete.{IsFreeMap}
use nodiskemu.D64.Search.Full.{get_first_sector-hangs}
use nodiskemu.D64.Bam.{Machine, Partition, Bam, kind_of, is_dnp, bam_ops}
use nodiskemu.D64.Bam.Places.{IsTrack}
use nodiskemu.D64.Bam.Cache.{IsMachine}
use nodiskemu.D64.Bam.Map.{IsImage, IsSector, bit}
use nodiskemu.D64.Bam.Consistent.{IsConsistent}
use nodiskemu.D64.Bam.Reliable.{IsReliable}
use nodiskemu.D64.Bam.FreeMap.{bam_ops-IsFreeMap}

module _ {D : Type 0} (m : Machine D) (at : D → (part n : ℕ) → List ℕ) (law : IsMachine m at)
    (partitions : ℕ → Partition) (max_part : ℕ) (few : max_part ≤ 255) (part last : ℕ)
    (image : IsImage m at law partitions max_part few part last) (sound : IsReliable m max_part)
    (tracks : (partitions part).param.last_track ≡ last) where
  abbrev Consistent : Bam D → Type 0
  Consistent s = IsConsistent m at law partitions max_part few part last image s

  abbrev is_set : Bam D → ℕ → ℕ → Bool
  is_set s t r = bit m at law partitions max_part few part s t r

  -- The search on the image, by its type.
  abbrev pub first_sector : ℕ → Bam D → Outcome (Bam D)
  first_sector fuel s =
      get_first_sector (bam_ops m partitions max_part part) (kind_of (partitions part))
        (partitions part).param fuel (is_dnp (partitions part)) s

  -- On a mounted image that is no DNP and has 128 tracks or more (a D82 has 154), with a
  -- consistent block map in which no sector is free, and whose reads and writes succeed,
  -- get_first_sector over that block map does not return: no fuel is enough.
  pub get_first_sector-full :
      (fuel : ℕ) (s : Bam D)
      → is_dnp (partitions part) ≡ false
      → 128 ≤ last
      → Consistent s
      → ((t r : ℕ) → IsSector m at law partitions max_part few part last t r → is_set s t r ≡ false)
      → first_sector fuel s ≡ hangs
  get_first_sector-full fuel s plain long ok full =
      let ops = bam_ops m partitions max_part part in
      let kind = kind_of (partitions part) in
      let map_law =
        subst (λ n. IsFreeMap ops kind n Consistent is_set) (sym tracks)
          (bam_ops-IsFreeMap m at law partitions max_part few part last image sound tracks) in
      rw plain (
        get_first_sector-hangs ops kind (partitions part).param Consistent is_set map_law fuel s
          (subst (λ n. 128 ≤ n) (sym tracks) long) ok
          (λ t h. how_many_none (is_set s t) (sectors_per_track kind t) (λ r lt.
            full t r (record { on_disk = subst (λ n. IsTrack n t) tracks h; in_track = lt }))))
