-- ===== src/D64/Bam/Runs.antt =====
-- Sequences of the calls of src/d64ops.c on the block map of one image.
use nodiskemu.Prelude.{ℕ, ◌≤◌, List, ◌≡◌, ◌≢◌}
use nodiskemu.D64.Search.{failed}
use nodiskemu.D64.Bam.{Machine, Partition, Bam, is_free, allocate_sector, free_sector}
use nodiskemu.D64.Bam.Cache.{IsMachine}
use nodiskemu.D64.Bam.Map.{IsImage, IsSector}
use nodiskemu.D64.Bam.Sectors.Steps.{is_free_lem}
use nodiskemu.D64.Bam.Consistent.{
  IsConsistent, allocate_sector-IsConsistent, free_sector-IsConsistent,
}
use nodiskemu.D64.Bam.Totals.{Kept-IsConsistent}

module _ {D : Type 0} (m : Machine D) (at : D → (part n : ℕ) → List ℕ) (law : IsMachine m at)
    (partitions : ℕ → Partition) (max_part : ℕ) (few : max_part ≤ 255) (part last : ℕ)
    (image : IsImage m at law partitions max_part few part last) where
  abbrev OnDisk : ℕ → ℕ → Type 0
  OnDisk t r = IsSector m at law partitions max_part few part last t r

  -- A call that does not report a failure.
  pub data Step : Bam D → Bam D → Type 0 where
    tests :
        (s : Bam D) (t r : ℕ)
        → OnDisk t r
        → (is_free m partitions max_part part t r s).1 ≢ failed
        → Step s (is_free m partitions max_part part t r s).0
    allocates :
        (s : Bam D) (t r : ℕ)
        → OnDisk t r
        → (allocate_sector m partitions max_part part t r s).1 ≡ 0
        → Step s (allocate_sector m partitions max_part part t r s).0
    frees :
        (s : Bam D) (t r : ℕ)
        → OnDisk t r
        → (free_sector m partitions max_part part t r s).1 ≡ 0
        → Step s (free_sector m partitions max_part part t r s).0

  pub data Run : Bam D → Bam D → Type 0 where
    done : (s : Bam D) → Run s s
    and_then : {s s1 s2 : Bam D} → Run s s1 → Step s1 s2 → Run s s2

  Step-IsConsistent :
      {s s' : Bam D}
      → Step s s'
      → IsConsistent m at law partitions max_part few part last image s
      → IsConsistent m at law partitions max_part few part last image s'
  Step-IsConsistent (tests s t r h ok) c =
      let (cached, kept, result) =
        is_free_lem m at law partitions max_part few part last image s t r c.cached h ok in
      Kept-IsConsistent m at law partitions max_part few part last image s _ kept cached c
  Step-IsConsistent (allocates s t r h ok) c =
      allocate_sector-IsConsistent m at law partitions max_part few part last image s t r h c ok
  Step-IsConsistent (frees s t r h ok) c =
      free_sector-IsConsistent m at law partitions max_part few part last image s t r h c ok

  -- Any sequence of calls of is_free, allocate_sector and free_sector on sectors of a mounted
  -- image, none of which reports a failure, keeps the block map consistent: the windows hold
  -- what they should, and on an image that is no DNP the counter of each track is the number
  -- of its free sectors.
  pub Run-IsConsistent :
      {s s' : Bam D}
      → Run s s'
      → IsConsistent m at law partitions max_part few part last image s
      → IsConsistent m at law partitions max_part few part last image s'
  Run-IsConsistent (done s) c = c
  Run-IsConsistent (and_then run step) c = Step-IsConsistent step (Run-IsConsistent run c)
