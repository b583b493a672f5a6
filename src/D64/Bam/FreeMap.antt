-- ===== src/D64/Bam/FreeMap.antt =====
-- The block map of src/d64ops.c as the interface of the allocation strategies, and get_first_sector
-- and allocate_sector over it.
use nodiskemu.Prelude.{
  ℕ, ◌≤◌, Bool, true, false, ◌&&◌, List, ◌≡◌, ◌≢◌, refl, sym, inl, inr, arith, ◌==◌, if◌then◌else◌,
  Bool-cases,
}
use mathlib.Core.Path.{subst}
use nodiskemu.D64.{bitfield, freecount}
use nodiskemu.D64.Search.{FreeState, failed, used, free, Outcome, found, get_first_sector}
use nodiskemu.D64.Search.Complete.{IsFreeMap}
use nodiskemu.D64.Search.Complete.Tracks.{get_first_sector-IsFound}
use nodiskemu.D64.Bam.{
  Machine, Partition, Bam, kind_of, is_dnp, allocate_count, allocate_bit, allocate_tested,
  allocate_sector, bam_ops,
}
use nodiskemu.D64.Bam.Places.{IsTrack}
use nodiskemu.D64.Bam.Cache.{IsMachine}
use nodiskemu.D64.Bam.Map.{IsImage, IsSector, bit}
use nodiskemu.D64.Bam.Sectors.{Kept-bit}
use nodiskemu.D64.Bam.Sectors.Steps.{is_free_lem}
use nodiskemu.D64.Bam.Allocate.Taken.{allocate_sector-IsMarked}
use nodiskemu.D64.Bam.Consistent.{IsConsistent, free_sectors, allocate_sector-IsConsistent}
use nodiskemu.D64.Bam.Reliable.{IsReliable, move_ok, is_free_ok}
use nodiskemu.D64.Bam.Totals.{Kept-IsConsistent, sectors_free_lem, sectors_free-out_of_range}

module _ {D : Type 0} (m : Machine D) (at : D → (part n : ℕ) → List ℕ) (law : IsMachine m at)
    (partitions : ℕ → Partition) (max_part : ℕ) (few : max_part ≤ 255) (part last : ℕ)
    (image : IsImage m at law partitions max_part few part last) (sound : IsReliable m max_part)
    (tracks : (partitions part).param.last_track ≡ last) where
  abbrev pub Consistent : Bam D → Type 0
  Consistent s = IsConsistent m at law partitions max_part few part last image s

  abbrev pub is_set : Bam D → ℕ → ℕ → Bool
  is_set s t r = bit m at law partitions max_part few part s t r

  allocate_count_ok :
      (s : Bam D) (t : ℕ) (a : Bam D × ℕ)
      → a.1 ≡ 0
      → (allocate_count m partitions max_part part t a).1 ≡ 0
  unfolding allocate_count
  allocate_count_ok s t (s1, res) e = ground arith

  allocate_bit_ok :
      (s : Bam D) (t r : ℕ) (a : Bam D × ℕ)
      → a.1 ≡ 0
      → (allocate_bit m partitions max_part part t r a).1 ≡ 0
  unfolding allocate_bit
  allocate_bit_ok s t r (s1, res) e = elim (Bool-cases (is_dnp (partitions part))) [
    | inl d ↦ rw (e, d) refl
    | inr d ↦
        rw (e, d)
          (allocate_count_ok s t _
            (move_ok m partitions max_part sound part t freecount _ image.mounted))
  ]

  allocate_tested_ok :
      (s : Bam D) (t r : ℕ) (state : FreeState)
      → state ≢ failed
      → (allocate_tested m partitions max_part part t r (s, state)).1 ≡ 0
  unfolding allocate_tested
  allocate_tested_ok s t r failed ne = absurd (ne refl)
  allocate_tested_ok s t r used ne = refl
  allocate_tested_ok s t r free ne =
      allocate_bit_ok s t r _ (move_ok m partitions max_part sound part t bitfield s image.mounted)

  pub allocate_sector_ok :
      (s : Bam D) (t r : ℕ) → (allocate_sector m partitions max_part part t r s).1 ≡ 0
  unfolding allocate_sector
  allocate_sector_ok s t r =
      allocate_tested_ok _ t r _ (is_free_ok m partitions max_part sound part t r s image.mounted)

  pub bam_ops-IsFreeMap :
      IsFreeMap
        (bam_ops m partitions max_part part)
        (kind_of (partitions part))
        last
        Consistent
        is_set
  unfolding bam_ops
  bam_ops-IsFreeMap = record {
    counts = λ s t ok h.
        let (ok1, kept, result) =
          sectors_free_lem m at law partitions max_part few part last image s t sound tracks h ok in
        (
          ok1,
          λ u r. Kept-bit m at law partitions max_part few part last image s _ kept u r,
          unfold free_sectors in result,
        );
    outside = λ s t ok out.
        sectors_free-out_of_range m at law partitions max_part few part last image s t tracks out;
    tests = λ s t r ok h lt.
        let (c, kept, result) =
          is_free_lem m at law partitions max_part few part last image s t r ok.cached
            (record { on_disk = h; in_track = lt })
            (is_free_ok m partitions max_part sound part t r s image.mounted) in
        (
          Kept-IsConsistent m at law partitions max_part few part last image s _ kept c ok,
          λ u q. Kept-bit m at law partitions max_part few part last image s _ kept u q,
          result,
        );
  }

  abbrev pub search : ℕ → Bam D → Outcome (Bam D)
  search fuel s =
      get_first_sector (bam_ops m partitions max_part part) (kind_of (partitions part))
        (partitions part).param fuel false s

  abbrev allocate : ℕ → ℕ → Bam D → Bam D × ℕ
  allocate t r s = allocate_sector m partitions max_part part t r s

  -- A sector that was free has been found, and is allocated: it is the only one that has changed.
  pub record IsTaken (s : Bam D) (o : Outcome (Bam D)) : Type 0 where
    pub state : Bam D
    pub track : ℕ
    pub sector : ℕ
    pub result : o ≡ found state track sector
    pub was_free : is_set s track sector ≡ true
    pub allocated : (allocate track sector state).1 ≡ 0
    pub consistent : Consistent (allocate track sector state).0
    pub bits :
        (t r : ℕ)
        → IsSector m at law partitions max_part few part last t r
        → is_set (allocate track sector state).0 t r
          ≡ (if t == track && r == sector then false else is_set s t r)

  taken :
      (s : Bam D) (o : Outcome (Bam D)) (s1 : Bam D) (t r : ℕ)
      → o ≡ found s1 t r
      → is_set s t r ≡ true
      → Consistent s1
      → IsSector m at law partitions max_part few part last t r
      → ((u q : ℕ) → is_set s1 u q ≡ is_set s u q)
      → IsTaken s o
  taken s o s1 t r result was ok h kept =
      let ends = allocate_sector_ok s1 t r in
      let mark =
        allocate_sector-IsMarked m at law partitions max_part few part last image s1 t r ok.cached h
          ends in
      record {
        state = s1;
        track = t;
        sector = r;
        result = result;
        was_free = was;
        allocated = ends;
        consistent =
            allocate_sector-IsConsistent m at law partitions max_part few part last image s1 t r h
              ok ends;
        bits = λ t' r' h'. ground (arith, mark.bits t' r' h', kept t' r');
      }

  -- On a mounted image with a consistent block map, at most 127 tracks and its directory track
  -- among them, whose reads and writes succeed: where a sector off the directory track is
  -- free, get_first_sector, in the branch for images that are no DNP, returns with fuel for
  -- 256 rounds a sector that was free, the allocate_sector that follows succeeds, leaves the
  -- map consistent, and marks that sector and no other one as used.
  pub get_first_sector-IsTaken :
      (fuel : ℕ) (s : Bam D) (t r : ℕ)
      → 256 ≤ fuel
      → last ≤ 127
      → 1 ≤ (partitions part).param.dir_track
      → (partitions part).param.dir_track ≤ last
      → Consistent s
      → IsSector m at law partitions max_part few part last t r
      → t ≢ (partitions part).param.dir_track
      → is_set s t r ≡ true
      → IsTaken s (search fuel s)
  get_first_sector-IsTaken fuel s t r enough short first dir ok h ne set =
      let p = (partitions part).param in
      let map_law =
        subst
          (λ n.
            IsFreeMap (bam_ops m partitions max_part part) (kind_of (partitions part)) n Consistent
              is_set)
          (sym tracks) bam_ops-IsFreeMap in
      let on_disk = subst (λ n. IsTrack n t) (sym tracks) h.on_disk in
      let f =
        get_first_sector-IsFound (bam_ops m partitions max_part part) (kind_of (partitions part)) p
          Consistent is_set map_law fuel s t r enough (omega (arith, tracks)) first
          (omega (arith, tracks)) ok on_disk ne h.in_track set in
      taken s (search fuel s) f.state f.track f.sector f.result f.is_free f.valid
        (record {
          on_disk = subst (λ n. IsTrack n f.track) tracks f.on_disk;
          in_track = f.in_track;
        })
        f.kept
