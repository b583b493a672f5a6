-- ===== src/D64/Bam/Allocate.antt =====
-- `allocate_sector` and `free_sector` of src/d64ops.c, on the set of free sectors and the counters
-- of the tracks that the block map stands for.
pub mod Taken
pub mod Freed
use nodiskemu.Prelude.{
  ℕ, ◌+◌, ◌-◌, ◌%◌, ◌≤◌, ◌<◌, Bool, true, false, not, ◌&&◌, List, ◌≡◌, ◌≢◌, refl, ap, ◌∙◌, inl, inr,
  arith, ltb, ◌==◌, if◌then◌else◌, get_or, Bool-cases, test_bit, clear_bit, raise_bit,
  test_bit-clear_bit, test_bit-raise_bit, clear_bit-lt, raise_bit-lt,
}
use mathlib.Core.Path.{subst}
use nodiskemu.D64.{Kind, dnp, image_kind, sectors_per_track, bitfield, freecount}
use nodiskemu.D64.Search.{FreeState, failed, used, free}
use nodiskemu.D64.Bam.{
  Machine, Partition, Bam, kind_of, is_dnp, bit_of, change_window, bit_index, is_free,
  allocate_count, allocate_bit, allocate_tested, allocate_sector, free_count, free_bit, free_tested,
  free_sector,
}
use nodiskemu.D64.Bam.Places.{IsTrack}
use nodiskemu.D64.Bam.Cache.{IsMachine}
use nodiskemu.D64.Bam.Map.{IsImage, view}
use nodiskemu.D64.Bam.Edit.{bit_of-lt}
use nodiskemu.D64.Bam.Sectors.{
  OnDisk, Ok, Kept, BitSet, CountSet, bit_at, count_at, move, Kept-bit, Kept-count,
}
use nodiskemu.D64.Bam.Sectors.Steps.{step_count, step_count_lem, step_bit_lem, is_free_lem}

is_dnp_lem : (p : Partition) → is_dnp p ≡ true → kind_of p ≡ dnp
unfolding is_dnp kind_of image_kind
is_dnp_lem p e = let one : p.imagetype ≡ 1 = ground (arith, e) in rw one refl

module _ {D : Type 0} (m : Machine D) (at : D → (part n : ℕ) → List ℕ) (law : IsMachine m at)
    (partitions : ℕ → Partition) (max_part : ℕ) (few : max_part ≤ 255) (part last : ℕ)
    (image : IsImage m at law partitions max_part few part last) where
  abbrev Valid : Bam D → Type 0
  Valid s = Ok m at law partitions max_part few part last image s

  abbrev Sector : ℕ → ℕ → Type 0
  Sector t r = OnDisk m at law partitions max_part few part last image t r

  abbrev is_set : Bam D → ℕ → ℕ → Bool
  is_set s t r = bit_at m at law partitions max_part few part last image s t r

  abbrev counter : Bam D → ℕ → ℕ
  counter s t = count_at m at law partitions max_part few part last image s t

  abbrev image_kind_of : Kind
  image_kind_of = kind_of (partitions part)

  -- The sector `(t, r)` has become `value` (free or used), and the track's counter `v`.
  pub record IsMarked (s : Bam D) (t r : ℕ) (value : Bool) (v : ℕ) (s' : Bam D) : Type 0 where
    pub cached : Valid s'
    pub bits :
        (t' r' : ℕ)
        → Sector t' r'
        → is_set s' t' r' ≡ (if t' == t && r' == r then value else is_set s t' r')
    pub counts :
        kind_of (partitions part) ≢ dnp
        → (t' : ℕ) → IsTrack last t'
        → counter s' t' ≡ (if t' == t then v else counter s t')
    pub others :
        (p n i : ℕ)
        → p < max_part
        → p ≢ part
        → get_or (view m at law partitions max_part few part s' p n) i 0
          ≡ get_or (view m at law partitions max_part few part s p n) i 0

  IsMarked-both :
      (s s1 s2 : Bam D) (t r : ℕ) (value : Bool) (v : ℕ)
      → Valid s2
      → BitSet m at law partitions max_part few part last image s t r value s1
      → (kind_of (partitions part) ≢ dnp
          → CountSet m at law partitions max_part few part last image s1 t v s2)
      → ((t' r' : ℕ) → Sector t' r' → is_set s2 t' r' ≡ is_set s1 t' r')
      → ((p n i : ℕ)
          → p < max_part
          → p ≢ part
          → get_or (view m at law partitions max_part few part s2 p n) i 0
            ≡ get_or (view m at law partitions max_part few part s1 p n) i 0)
      → IsMarked s t r value v s2
  IsMarked-both s s1 s2 t r value v c set counts same others = record {
    cached = c;
    bits = λ t' r' h. same t' r' h ∙ set.bits t' r' h;
    counts = λ plain t' h. ground (arith, (counts plain).counts t' h, set.counts plain t' h);
    others = λ p n i lt ne. others p n i lt ne ∙ set.others p n i lt ne;
  }

  -- The change of a bit and of a counter, as both functions compose them.
  step_both : (guard : ℕ → Bool) (f g : ℕ → ℕ) (t r : ℕ) → Bam D × ℕ → Bam D × ℕ
  step_both guard f g t r (s, res) =
      let s1 = change_window (bit_index m partitions max_part part t r) f s in
      if not (res == 0)
      then (s, 1)
      else if is_dnp (partitions part)
      then (s1, 0)
      else step_count m at law partitions max_part few part last image guard g t
          (move m at law partitions max_part few part last image t freecount s1)

  step_both_lem :
      (guard : ℕ → Bool) (f g : ℕ → ℕ) (s : Bam D) (t r : ℕ) (value : Bool)
      → Valid s
      → Sector t r
      → ((b : ℕ) → b < 256 → f b < 256)
      → ((b : ℕ)
          → b < 256
          → (j : ℕ) → j < 8
          → test_bit (f b) j ≡ (if bit_of (partitions part) r == j then value else test_bit b j))
      → ((b : ℕ) → b < 256 → g b < 256)
      → (step_both guard f g t r
          (move m at law partitions max_part few part last image t bitfield s)).1
        ≡ 0
      → IsMarked s t r value
          (if guard (counter s t) then g (counter s t) else counter s t)
          (step_both guard f g t r
            (move m at law partitions max_part few part last image t bitfield s)).0
  unfolding step_both
  step_both_lem guard f g s t r value c h keep change small ok =
      let a = move m at law partitions max_part few part last image t bitfield s in
      let s1 = change_window (bit_index m partitions max_part part t r) f a.0 in
      elim (Bool-cases (a.1 == 0)) [
        | inr e ↦ absurd (ground arith)
        | inl e ↦
            let (c1, set) =
              step_bit_lem m at law partitions max_part few part last image f s t r value c h keep
                change (ground (arith, e)) in
            elim (Bool-cases (is_dnp (partitions part))) [
              | inl d ↦
                  rw (e, d)
                    (IsMarked-both s s1 s1 t r value _ c1 set
                      (λ plain. absurd (plain (is_dnp_lem (partitions part) d))) (λ t' r' h'. refl)
                      (λ p n i lt ne. refl))
              | inr d ↦
                  let plain : kind_of (partitions part) ≢ dnp =
                    λ k. ground (arith, image.plain k, d) in
                  let (c2, set2) =
                    step_count_lem m at law partitions max_part few part last image guard g s1 t c1
                      h.on_disk plain small (ground (arith, ok, e, d)) in
                  let same = set.counts plain t h.on_disk in
                  let s2 =
                    (step_count m at law partitions max_part few part last image guard g t
                      (move m at law partitions max_part few part last image t freecount s1)).0 in
                  rw (e, d)
                    (IsMarked-both s s1 s2 t r value _ c2 set
                      (λ k.
                        subst
                          (λ v.
                            CountSet m at law partitions max_part few part last image s1 t
                              (if guard v then g v else v) s2)
                          same set2)
                      set2.bits set2.others)
            ]
      ]

  clear_change :
      (r b : ℕ)
      → b < 256
      → (j : ℕ) → j < 8
      → test_bit (clear_bit b (bit_of (partitions part) r)) j
        ≡ (if bit_of (partitions part) r == j then false else test_bit b j)
  clear_change r b lt =
      test_bit-clear_bit b _ lt (bit_of-lt m at law partitions max_part few part last image r)

  raise_change :
      (r b : ℕ)
      → b < 256
      → (j : ℕ) → j < 8
      → test_bit (raise_bit b (bit_of (partitions part) r)) j
        ≡ (if bit_of (partitions part) r == j then true else test_bit b j)
  raise_change r b lt =
      test_bit-raise_bit b _ lt (bit_of-lt m at law partitions max_part few part last image r)

  -- From the state that the test of the sector has left.
  IsMarked-from :
      (s s1 s2 : Bam D) (t r : ℕ) (value : Bool) (v : ℕ)
      → Kept m at law partitions max_part few part last image s s1
      → IsMarked s1 t r value v s2
      → IsMarked s t r value v s2
  IsMarked-from s s1 s2 t r value v kept mark = record {
    cached = mark.cached;
    bits = λ t' r' h. ground (
      arith,
      mark.bits t' r' h,
      Kept-bit m at law partitions max_part few part last image s s1 kept t' r',
    );
    counts = λ plain t' h. ground (
      arith,
      mark.counts plain t' h,
      Kept-count m at law partitions max_part few part last image s s1 kept t',
    );
    others = λ p n i lt ne. mark.others p n i lt ne ∙ rw (kept p n lt) refl;
  }

  same_bit :
      (s : Bam D) (t r t' r' : ℕ) (value : Bool)
      → is_set s t r ≡ value
      → is_set s t' r' ≡ (if t' == t && r' == r then value else is_set s t' r')
  same_bit s t r t' r' value e = elim (Bool-cases (t' == t && r' == r)) [
    | inr n ↦ rw n refl
    | inl y ↦
        let same_t : t' ≡ t = ground (arith, y) in
        let same_r : r' ≡ r = ground (arith, y) in
        rw y (ap (λ k. is_set s k r') same_t ∙ ap (is_set s t) same_r ∙ e)
  ]

  -- Nothing is left to do.
  IsMarked-already :
      (s s1 : Bam D) (t r : ℕ) (value : Bool)
      → Valid s1
      → Kept m at law partitions max_part few part last image s s1
      → is_set s t r ≡ value
      → IsMarked s t r value (counter s t) s1
  IsMarked-already s s1 t r value c kept e = record {
    cached = c;
    bits = λ t' r' h.
        Kept-bit m at law partitions max_part few part last image s s1 kept t' r'
        ∙ same_bit s t r t' r' value e;
    counts = λ plain t' h.
        Kept-count m at law partitions max_part few part last image s s1 kept t'
        ∙ ground (arith, ap (counter s));
    others = λ p n i lt ne. rw (kept p n lt) refl;
  }
