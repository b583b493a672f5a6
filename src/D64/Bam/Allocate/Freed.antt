-- ===== src/D64/Bam/Allocate/Freed.antt =====
-- `free_sector` of src/d64ops.c.
use nodiskemu.Prelude.{
  ℕ, ◌+◌, ◌%◌, ◌≤◌, true, List, ◌≡◌, ap, inl, inr, arith, ltb, if◌then◌else◌, Bool-cases, raise_bit,
  raise_bit-lt,
}
use mathlib.Core.Path.{subst}
use nodiskemu.D64.{sectors_per_track}
use nodiskemu.D64.Search.{FreeState, failed, used, free}
use nodiskemu.D64.Bam.{
  Machine, Partition, Bam, kind_of, bit_of, is_free, free_count, free_bit, free_tested, free_sector,
}
use nodiskemu.D64.Bam.Cache.{IsMachine}
use nodiskemu.D64.Bam.Map.{IsImage}
use nodiskemu.D64.Bam.Edit.{bit_of-lt}
use nodiskemu.D64.Bam.Sectors.{Kept, Kept-count}
use nodiskemu.D64.Bam.Sectors.Steps.{step_count, is_free_lem}
use nodiskemu.D64.Bam.Allocate.{
  Valid, Sector, is_set, counter, IsMarked, step_both, step_both_lem, raise_change, IsMarked-from,
  IsMarked-already,
}

module _ {D : Type 0} (m : Machine D) (at : D → (part n : ℕ) → List ℕ) (law : IsMachine m at)
    (partitions : ℕ → Partition) (max_part : ℕ) (few : max_part ≤ 255) (part last : ℕ)
    (image : IsImage m at law partitions max_part few part last) where
  -- A counter that is raised below the number of sectors.
  abbrev pub next : (track n : ℕ) → ℕ
  next t n = if ltb n (sectors_per_track (kind_of (partitions part)) t) then (n + 1) % 256 else n

  free_tested_lem :
      (s s1 : Bam D) (state : FreeState) (t r : ℕ)
      → Valid m at law partitions max_part few part last image s1
      → Kept m at law partitions max_part few part last image s s1
      → Sector m at law partitions max_part few part last image t r
      → state
        ≡ (if is_set m at law partitions max_part few part last image s t r then free else used)
      → (free_tested m partitions max_part part t r (s1, state)).1 ≡ 0
      → IsMarked m at law partitions max_part few part last image s t r true
          (if is_set m at law partitions max_part few part last image s t r
            then counter m at law partitions max_part few part last image s t
            else next t (counter m at law partitions max_part few part last image s t))
          (free_tested m partitions max_part part t r (s1, state)).0
  unfolding free_tested free_bit free_count step_both step_count
  free_tested_lem s s1 failed t r c kept h e ok = absurd (ground arith)
  free_tested_lem s s1 free t r c kept h e ok =
      elim (Bool-cases (is_set m at law partitions max_part few part last image s t r)) [
        | inr n ↦ absurd (ground (arith, e, n))
        | inl y ↦ rw y (
            IsMarked-already m at law partitions max_part few part last image s s1 t r true c kept
              y)
      ]
  free_tested_lem s s1 used t r c kept h e ok =
      elim (Bool-cases (is_set m at law partitions max_part few part last image s t r)) [
        | inl y ↦ absurd (ground (arith, e, y))
        | inr n ↦
            let done =
              step_both_lem m at law partitions max_part few part last image
                (λ n. ltb n (sectors_per_track (kind_of (partitions part)) t))
                (λ b. raise_bit b (bit_of (partitions part) r)) (λ n. (n + 1) % 256) s1 t r true c h
                (λ b lt.
                  raise_bit-lt b _ lt
                    (bit_of-lt m at law partitions max_part few part last image r))
                (raise_change m at law partitions max_part few part last image r)
                (λ b lt. omega arith) ok in
            let s2 = (free_tested m partitions max_part part t r (s1, used)).0 in
            let v = counter m at law partitions max_part few part last image s1 t in
            let same : next t v
                ≡ next t (counter m at law partitions max_part few part last image s t) =
              ap (next t)
                (Kept-count m at law partitions max_part few part last image s s1 kept t) in
            rw n (
              IsMarked-from m at law partitions max_part few part last image s s1 s2 t r true _ kept
                (subst
                  (λ v. IsMarked m at law partitions max_part few part last image s1 t r true v s2)
                  same done))
      ]

  pub free_sector-IsMarked :
      (s : Bam D) (t r : ℕ)
      → Valid m at law partitions max_part few part last image s
      → Sector m at law partitions max_part few part last image t r
      → (free_sector m partitions max_part part t r s).1 ≡ 0
      → IsMarked m at law partitions max_part few part last image s t r true
          (if is_set m at law partitions max_part few part last image s t r
            then counter m at law partitions max_part few part last image s t
            else next t (counter m at law partitions max_part few part last image s t))
          (free_sector m partitions max_part part t r s).0
  unfolding free_sector free_tested
  free_sector-IsMarked s t r c h ok =
      let a = is_free m partitions max_part part t r s in
      let (c1, kept, e) =
        is_free_lem m at law partitions max_part few part last image s t r c h (λ f. ground (
          arith,
          subst (λ state. (free_tested m partitions max_part part t r (a.0, state)).1 ≡ 0) f ok,
        )) in
      free_tested_lem s a.0 a.1 t r c1 kept h e ok
