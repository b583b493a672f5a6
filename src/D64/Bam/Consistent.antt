-- ===== src/D64/Bam/Consistent.antt =====
-- The invariant of the block map of src/d64ops.c: the counter of a track is the number of its free
-- sectors.
use nodiskemu.Prelude.{
  ℕ, ◌+◌, ◌≤◌, ◌<◌, Bool, true, false, List, ◌≡◌, ◌≢◌, refl, ap, inl, inr, arith, ◌==◌,
  if◌then◌else◌, Bool-cases, how_many, how_many_cong, how_many_change, how_many_le,
}
use nodiskemu.D64.{Kind, d41, d71, d81, dnp, d80, d82, other, sectors_per_track}
use nodiskemu.D64.Bam.{Machine, Partition, Bam, kind_of, allocate_sector, free_sector}
use nodiskemu.D64.Bam.Places.{IsTrack}
use nodiskemu.D64.Bam.Cache.{IsMachine}
use nodiskemu.D64.Bam.Map.{IsImage, IsCached, IsSector, bit, count}
use nodiskemu.D64.Bam.Allocate.{IsMarked}
use nodiskemu.D64.Bam.Allocate.Taken.{allocate_sector-IsMarked}
use nodiskemu.D64.Bam.Allocate.Freed.{free_sector-IsMarked}

few_sectors : (kind : Kind) (t : ℕ) → kind ≢ dnp → sectors_per_track kind t < 255
unfolding sectors_per_track
few_sectors d41 t plain = ground arith
few_sectors d71 t plain = ground arith
few_sectors d81 t plain = ground arith
few_sectors dnp t plain = absurd (plain refl)
few_sectors d80 t plain = ground arith
few_sectors d82 t plain = ground arith
few_sectors other t plain = ground arith

module _ {D : Type 0} (m : Machine D) (at : D → (part n : ℕ) → List ℕ) (law : IsMachine m at)
    (partitions : ℕ → Partition) (max_part : ℕ) (few : max_part ≤ 255) (part last : ℕ)
    (image : IsImage m at law partitions max_part few part last) where
  -- The free sectors of a track in the block map.
  unfoldable pub free_sectors : Bam D → ℕ → ℕ
  free_sectors s t =
      how_many (bit m at law partitions max_part few part s t)
        (sectors_per_track (kind_of (partitions part)) t)

  pub record IsConsistent (s : Bam D) : Type 0 where
    pub cached : IsCached m at law partitions max_part few part s
    pub counters :
        kind_of (partitions part) ≢ dnp
        → (t : ℕ) → IsTrack last t
        → count m at law partitions max_part few part s t ≡ free_sectors s t

  abbrev Marked : Bam D → ℕ → ℕ → Bool → ℕ → Bam D → Type 0
  Marked s t r value v s' =
      IsMarked m at law partitions max_part few part last image s t r value v s'

  on_disk :
      (t r : ℕ)
      → IsTrack last t
      → r < sectors_per_track (kind_of (partitions part)) t
      → IsSector m at law partitions max_part few part last t r
  on_disk t r h lt = record { on_disk = h; in_track = lt }

  -- The numbers of free sectors behind a change of one sector.
  Marked-free_sectors :
      (s s' : Bam D) (t r v : ℕ) (value : Bool)
      → IsSector m at law partitions max_part few part last t r
      → Marked s t r value v s'
      → free_sectors s' t + (if bit m at law partitions max_part few part s t r then 1 else 0)
        ≡ free_sectors s t + (if value then 1 else 0)
  unfolding free_sectors
  Marked-free_sectors s s' t r v value h mark =
      how_many_change _ _ _ r value h.in_track
        (λ i lt. ground (arith, mark.bits t i (on_disk t i h.on_disk lt)))

  other-free_sectors :
      (s s' : Bam D) (t r v t' : ℕ) (value : Bool)
      → Marked s t r value v s'
      → IsTrack last t'
      → (t' == t) ≡ false
      → free_sectors s' t' ≡ free_sectors s t'
  unfolding free_sectors
  other-free_sectors s s' t r v t' value mark h ne =
      how_many_cong _ _ _ (λ i lt. ground (arith, mark.bits t' i (on_disk t' i h lt), ne))

  -- A change that moves the counter with the sector keeps the invariant.
  Marked-IsConsistent :
      (s s' : Bam D) (t r v : ℕ) (value : Bool)
      → IsSector m at law partitions max_part few part last t r
      → IsConsistent s
      → Marked s t r value v s'
      → (kind_of (partitions part) ≢ dnp → v ≡ free_sectors s' t)
      → IsConsistent s'
  Marked-IsConsistent s s' t r v value h ok mark right = record {
    cached = mark.cached;
    counters = λ plain t' h'. elim (Bool-cases (t' == t)) [
      | inl e ↦
          let same : t' ≡ t = ground (arith, e) in
          ground (arith, mark.counts plain t' h', e, right plain, ap (free_sectors s') same)
      | inr e ↦ ground (
        arith,
        mark.counts plain t' h',
        e,
        ok.counters plain t' h',
        other-free_sectors s s' t r v t' value mark h' e,
      )
    ];
  }

  pub allocate_sector-IsConsistent :
      (s : Bam D) (t r : ℕ)
      → IsSector m at law partitions max_part few part last t r
      → IsConsistent s
      → (allocate_sector m partitions max_part part t r s).1 ≡ 0
      → IsConsistent (allocate_sector m partitions max_part part t r s).0
  allocate_sector-IsConsistent s t r h ok done =
      let mark =
        allocate_sector-IsMarked m at law partitions max_part few part last image s t r ok.cached h
          done in
      let s' = (allocate_sector m partitions max_part part t r s).0 in
      Marked-IsConsistent s s' t r _ false h ok mark (λ plain.
        ground (arith, ok.counters plain t h.on_disk, Marked-free_sectors s s' t r _ false h mark))

  pub free_sector-IsConsistent :
      (s : Bam D) (t r : ℕ)
      → IsSector m at law partitions max_part few part last t r
      → IsConsistent s
      → (free_sector m partitions max_part part t r s).1 ≡ 0
      → IsConsistent (free_sector m partitions max_part part t r s).0
  free_sector-IsConsistent s t r h ok done =
      let mark =
        free_sector-IsMarked m at law partitions max_part few part last image s t r ok.cached h
          done in
      let s' = (free_sector m partitions max_part part t r s).0 in
      let bound =
        how_many_le (bit m at law partitions max_part few part s' t)
          (sectors_per_track (kind_of (partitions part)) t) in
      let le : free_sectors s' t ≤ sectors_per_track (kind_of (partitions part)) t =
        unfold free_sectors in bound in
      Marked-IsConsistent s s' t r _ true h ok mark (λ plain. ground (
        arith,
        ok.counters plain t h.on_disk,
        Marked-free_sectors s s' t r _ true h mark,
        few_sectors _ t plain,
      ))
