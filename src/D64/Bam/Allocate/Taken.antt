-- ===== src/D64/Bam/Allocate/Taken.antt =====
-- `allocate_sector` of src/d64ops.c.
use nodiskemu.Prelude.{
  ℕ, ◌-◌, ◌≤◌, false, List, ◌≡◌, inl, inr, arith, ltb, if◌then◌else◌, Bool-cases, clear_bit,
  clear_bit-lt,
}
use mathlib.Core.Path.{subst}
use nodiskemu.D64.Search.{FreeState, failed, used, free}
use nodiskemu.D64.Bam.{
  Machine, Partition, Bam, bit_of, is_free, allocate_count, allocate_bit, allocate_tested,
  allocate_sector,
}
use nodiskemu.D64.Bam.Cache.{IsMachine}
use nodiskemu.D64.Bam.Map.{IsImage}
use nodiskemu.D64.Bam.Edit.{bit_of-lt}
use nodiskemu.D64.Bam.Sectors.{Kept, Kept-count}
use nodiskemu.D64.Bam.Sectors.Steps.{step_count, is_free_lem}
use nodiskemu.D64.Bam.Allocate.{
  Valid, Sector, is_set, counter, IsMarked, step_both, step_both_lem, clear_change, IsMarked-from,
  IsMarked-already,
}

module _ {D : Type 0} (m : Machine D) (at : D → (part n : ℕ) → List ℕ) (law : IsMachine m at)
    (partitions : ℕ → Partition) (max_part : ℕ) (few : max_part ≤ 255) (part last : ℕ)
    (image : IsImage m at law partitions max_part few part last) where
  allocate_tested_lem :
      (s s1 : Bam D) (state : FreeState) (t r : ℕ)
      → Valid m at law partitions max_part few part last image s1
      → Kept m at law partitions max_part few part last image s s1
      → Sector m at law partitions max_part few part last image t r
      → state
        ≡ (if is_set m at law partitions max_part few part last image s t r then free else used)
      → (allocate_tested m partitions max_part part t r (s1, state)).1 ≡ 0
      → IsMarked m at law partitions max_part few part last image s t r false
          (if is_set m at law partitions max_part few part last image s t r
            then counter m at law partitions max_part few part last image s t - 1
            else counter m at law partitions max_part few part last image s t)
          (allocate_tested m partitions max_part part t r (s1, state)).0
  unfolding allocate_tested allocate_bit allocate_count step_both step_count
  allocate_tested_lem s s1 failed t r c kept h e ok = absurd (ground arith)
  allocate_tested_lem s s1 used t r c kept h e ok =
      elim (Bool-cases (is_set m at law partitions max_part few part last image s t r)) [
        | inl y ↦ absurd (ground (arith, e, y))
        | inr n ↦ rw n (
            IsMarked-already m at law partitions max_part few part last image s s1 t r false c kept
              n)
      ]
  allocate_tested_lem s s1 free t r c kept h e ok =
      elim (Bool-cases (is_set m at law partitions max_part few part last image s t r)) [
        | inr n ↦ absurd (ground (arith, e, n))
        | inl y ↦
            let done =
              step_both_lem m at law partitions max_part few part last image (ltb 0)
                (λ b. clear_bit b (bit_of (partitions part) r)) (λ n. n - 1) s1 t r false c h
                (λ b lt.
                  clear_bit-lt b _ lt
                    (bit_of-lt m at law partitions max_part few part last image r))
                (clear_change m at law partitions max_part few part last image r)
                (λ b lt. omega arith) ok in
            let s2 = (allocate_tested m partitions max_part part t r (s1, free)).0 in
            let v = counter m at law partitions max_part few part last image s1 t in
            let same : (if ltb 0 v then v - 1 else v)
                ≡ counter m at law partitions max_part few part last image s t - 1 =
              ground
                (arith, Kept-count m at law partitions max_part few part last image s s1 kept t) in
            rw y (
              IsMarked-from m at law partitions max_part few part last image s s1 s2 t r false _
                kept
                (subst
                  (λ v. IsMarked m at law partitions max_part few part last image s1 t r false v s2)
                  same done))
      ]

  -- For a sector of a mounted image, from windows in order, an allocate_sector that succeeds
  -- leaves the sector marked as used and every other sector as it was; on an image that is no
  -- DNP the counter of its track is one less, but not below 0, if the sector was free, and the
  -- other counters are as they were; the other images are as they were.
  pub allocate_sector-IsMarked :
      (s : Bam D) (t r : ℕ)
      → Valid m at law partitions max_part few part last image s
      → Sector m at law partitions max_part few part last image t r
      → (allocate_sector m partitions max_part part t r s).1 ≡ 0
      → IsMarked m at law partitions max_part few part last image s t r false
          (if is_set m at law partitions max_part few part last image s t r
            then counter m at law partitions max_part few part last image s t - 1
            else counter m at law partitions max_part few part last image s t)
          (allocate_sector m partitions max_part part t r s).0
  unfolding allocate_sector allocate_tested
  allocate_sector-IsMarked s t r c h ok =
      let a = is_free m partitions max_part part t r s in
      let (c1, kept, e) =
        is_free_lem m at law partitions max_part few part last image s t r c h (λ f. ground (
          arith,
          subst (λ state. (allocate_tested m partitions max_part part t r (a.0, state)).1 ≡ 0) f ok,
        )) in
      allocate_tested_lem s a.0 a.1 t r c1 kept h e ok
