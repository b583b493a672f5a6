-- ===== src/D64/Bam/Sectors/Steps.antt =====
-- The changes of a bit and of a counter behind a move of the window, as the functions of src/d64ops.c
-- compose them, and the test of a sector.
use nodiskemu.Prelude.{
  ℕ, ◌≤◌, ◌<◌, Bool, not, List, ◌≡◌, ◌≢◌, refl, ◌∙◌, inl, inr, arith, ◌==◌, if◌then◌else◌, get_or,
  Bool-cases,
}
use mathlib.Core.Path.{subst}
use nodiskemu.D64.{dnp, bitfield, freecount}
use nodiskemu.D64.Search.{failed, used, free}
use nodiskemu.D64.Bam.{Machine, Partition, Bam, change_window, position, bit_index, tested, is_free}
use nodiskemu.D64.Bam.Places.{IsTrack}
use nodiskemu.D64.Bam.Cache.{IsMachine}
use nodiskemu.D64.Bam.Map.{IsImage}
use nodiskemu.D64.Bam.Edit.{IsBitChange}
use nodiskemu.D64.Bam.Sectors.{
  kind, OnDisk, Ok, Kept, bit_at, count_at, BitSet, CountSet, move, moved, Kept-bit, Kept-count,
  BitSet-from, CountSet-from, CountSet-same, write_bit, write_count, shown_count, shown_bit,
}

module _ {D : Type 0} (m : Machine D) (at : D → (part n : ℕ) → List ℕ) (law : IsMachine m at)
    (partitions : ℕ → Partition) (max_part : ℕ) (few : max_part ≤ 255) (part last : ℕ)
    (image : IsImage m at law partitions max_part few part last) where
  -- A change of a counter under a guard.
  unfoldable pub step_count : (guard : ℕ → Bool) (f : ℕ → ℕ) (t : ℕ) → Bam D × ℕ → Bam D × ℕ
  step_count guard f t (s, res) =
      let pos = (position m partitions max_part part t freecount).pos in
      if not (res == 0)
      then (s, 1)
      else if guard (get_or s.bam_buffer.bytes pos 0)
      then (change_window pos f s, 0)
      else (s, 0)

  pub step_count_lem :
      (guard : ℕ → Bool) (f : ℕ → ℕ) (s : Bam D) (t : ℕ)
      → Ok m at law partitions max_part few part last image s
      → IsTrack last t
      → kind m at law partitions max_part few part last image ≢ dnp
      → ((b : ℕ) → b < 256 → f b < 256)
      → (step_count guard f t
          (move m at law partitions max_part few part last image t freecount s)).1
        ≡ 0
      → Ok m at law partitions max_part few part last image
          (step_count guard f t
            (move m at law partitions max_part few part last image t freecount s)).0
        × CountSet m at law partitions max_part few part last image s t
            (if guard (count_at m at law partitions max_part few part last image s t)
              then f (count_at m at law partitions max_part few part last image s t)
              else count_at m at law partitions max_part few part last image s t)
            (step_count guard f t
              (move m at law partitions max_part few part last image t freecount s)).0
  unfolding step_count
  step_count_lem guard f s t c h plain keep ok =
      elim (Bool-cases
        ((move m at law partitions max_part few part last image t freecount s).1 == 0)) [
          | inr e ↦ absurd (ground arith)
          | inl e ↦
              let s1 = (move m at law partitions max_part few part last image t freecount s).0 in
              let (c1, kept, shown) =
                moved m at law partitions max_part few part last image s t freecount h c
                  (ground arith) in
              let same =
                shown_count m at law partitions max_part few part last image s1 t shown
                ∙ Kept-count m at law partitions max_part few part last image s s1 kept t in
              elim (Bool-cases
                (guard (count_at m at law partitions max_part few part last image s t))) [
                  | inr z ↦
                      rw (e, same, z)
                        (
                          c1,
                          CountSet-same m at law partitions max_part few part last image s s1 t
                              kept,
                        )
                  | inl z ↦
                      let (c2, set) =
                        write_count m at law partitions max_part few part last image s1 t f c1 shown
                          h plain keep in
                      let s2 =
                        change_window (position m partitions max_part part t freecount).pos f s1 in
                      rw (e, same, z)
                        (
                          c2,
                          subst
                              (λ v.
                                CountSet m at law partitions max_part few part last image s t (f v)
                                  s2)
                              (Kept-count m at law partitions max_part few part last image s s1 kept
                                t)
                              (CountSet-from m at law partitions max_part few part last image s s1
                                s2 t _ kept set),
                        )
                ]
        ]

  -- A change of a bit.
  pub step_bit_lem :
      (f : ℕ → ℕ) (s : Bam D) (t r : ℕ) (value : Bool)
      → Ok m at law partitions max_part few part last image s
      → OnDisk m at law partitions max_part few part last image t r
      → ((b : ℕ) → b < 256 → f b < 256)
      → ((b : ℕ)
          → b < 256
          → IsBitChange m at law partitions max_part few part last image r value b (f b))
      → (move m at law partitions max_part few part last image t bitfield s).1 ≡ 0
      → Ok m at law partitions max_part few part last image (
          change_window
            (bit_index m partitions max_part part t r)
            f
            (move m at law partitions max_part few part last image t bitfield s).0)
        × BitSet m at law partitions max_part few part last image s t r value (
            change_window
              (bit_index m partitions max_part part t r)
              f
              (move m at law partitions max_part few part last image t bitfield s).0)
  step_bit_lem f s t r value c h keep change ok =
      let (c1, kept, shown) =
        moved m at law partitions max_part few part last image s t bitfield h.on_disk c ok in
      let (c2, set) =
        write_bit m at law partitions max_part few part last image
          (move m at law partitions max_part few part last image t bitfield s).0 t r value f c1
          shown h keep change in
      (c2, BitSet-from m at law partitions max_part few part last image s _ _ t r value kept set)

  -- The test of a sector.
  pub is_free_lem :
      (s : Bam D) (t r : ℕ)
      → Ok m at law partitions max_part few part last image s
      → OnDisk m at law partitions max_part few part last image t r
      → (is_free m partitions max_part part t r s).1 ≢ failed
      → Ok m at law partitions max_part few part last image
          (is_free m partitions max_part part t r s).0
        × Kept m at law partitions max_part few part last image s
            (is_free m partitions max_part part t r s).0
        × ((is_free m partitions max_part part t r s).1 ≡ (
            if bit_at m at law partitions max_part few part last image s t r then free else used))
  unfolding is_free tested
  is_free_lem s t r c h ok =
      elim (Bool-cases
        ((move m at law partitions max_part few part last image t bitfield s).1 == 0)) [
          | inr e ↦ absurd (ground arith)
          | inl e ↦
              let s1 = (move m at law partitions max_part few part last image t bitfield s).0 in
              let (c1, kept, shown) =
                moved m at law partitions max_part few part last image s t bitfield h.on_disk c
                  (ground arith) in
              let same =
                shown_bit m at law partitions max_part few part last image s1 t r shown
                ∙ Kept-bit m at law partitions max_part few part last image s s1 kept t r in
              rw (e, same) (c1, kept, refl)
        ]
