-- ===== src/D64/Bam/Sectors.antt =====
-- The functions of src/d64ops.c that test, allocate and free a sector, by what they do to the set of
-- free sectors and to the counters of the tracks.
pub mod Steps
use nodiskemu.Prelude.{
  ℕ, ◌≤◌, ◌<◌, Bool, not, List, ◌≡◌, ◌≢◌, refl, sym, ap, ◌∙◌, inl, inr, arith, ◌==◌, if◌then◌else◌,
  get_or, Bool-cases, test_bit,
}
use mathlib.Core.Path.{subst}
use nodiskemu.D64.{Kind, dnp, BamData, bitfield, freecount, bam_position}
use nodiskemu.D64.Search.{failed, used, free}
use nodiskemu.D64.Bam.{
  Machine, Partition, Bam, kind_of, bit_of, change_window, position, bit_index, move_bam_window,
  tested, is_free,
}
use nodiskemu.D64.Bam.Places.{IsTrack, HasBam-lt, count_position-lt}
use nodiskemu.D64.Bam.Cache.{IsMachine}
use nodiskemu.D64.Bam.Cache.Move.{move_bam_window-IsMoved}
use nodiskemu.D64.Bam.Map.{
  IsImage, IsSector, home, view, bit, count, IsCached, Same, IsShown, shown_content,
  write-IsWritten,
}
use nodiskemu.D64.Bam.Edit.{
  IsBitSet, IsCountSet, IsBitChange, bit-IsBitSet, count-IsCountSet, index-lt,
}

module _ {D : Type 0} (m : Machine D) (at : D → (part n : ℕ) → List ℕ) (law : IsMachine m at)
    (partitions : ℕ → Partition) (max_part : ℕ) (few : max_part ≤ 255) (part last : ℕ)
    (image : IsImage m at law partitions max_part few part last) where
  abbrev pub kind : Kind
  kind = kind_of (partitions part)

  abbrev pub OnDisk : ℕ → ℕ → Type 0
  OnDisk t r = IsSector m at law partitions max_part few part last t r

  abbrev pub Ok : Bam D → Type 0
  Ok s = IsCached m at law partitions max_part few part s

  abbrev pub Kept : Bam D → Bam D → Type 0
  Kept s s' = Same m at law partitions max_part few part s s'

  abbrev pub Shows : Bam D → BamData → ℕ → Type 0
  Shows s type t = IsShown m at law partitions max_part few part s type t

  abbrev pub bit_at : Bam D → ℕ → ℕ → Bool
  bit_at s t r = bit m at law partitions max_part few part s t r

  abbrev pub count_at : Bam D → ℕ → ℕ
  count_at s t = count m at law partitions max_part few part s t

  abbrev pub BitSet : Bam D → ℕ → ℕ → Bool → Bam D → Type 0
  BitSet s t r value s' = IsBitSet m at law partitions max_part few part last image s t r value s'

  abbrev pub CountSet : Bam D → ℕ → ℕ → Bam D → Type 0
  CountSet s t v s' = IsCountSet m at law partitions max_part few part last image s t v s'

  abbrev pub move : ℕ → BamData → Bam D → Bam D × ℕ
  move t type s = move_bam_window m partitions max_part part t type s

  pub moved :
      (s : Bam D) (t : ℕ) (type : BamData)
      → IsTrack last t
      → Ok s
      → (move t type s).1 ≡ 0
      → Ok (move t type s).0 × Kept s (move t type s).0 × Shows (move t type s).0 type t
  unfolding position
  moved s t type h c ok =
      let go =
        move_bam_window-IsMoved m at law partitions max_part few part t type s image.mounted h.first
          (HasBam-lt image.has_bam t h) c ok in
      (go.cache, go.same, go.shown)

  -- What two states with the same content have in common.
  pub Kept-bit : (s s' : Bam D) → Kept s s' → (t r : ℕ) → bit_at s' t r ≡ bit_at s t r
  unfolding bit
  Kept-bit s s' kept t r =
      rw (kept part (home m at law partitions max_part few part bitfield t) image.mounted) refl

  pub Kept-count : (s s' : Bam D) → Kept s s' → (t : ℕ) → count_at s' t ≡ count_at s t
  unfolding count
  Kept-count s s' kept t =
      rw (kept part (home m at law partitions max_part few part freecount t) image.mounted) refl

  pub BitSet-from :
      (s s1 s2 : Bam D) (t r : ℕ) (value : Bool)
      → Kept s s1
      → BitSet s1 t r value s2
      → BitSet s t r value s2
  BitSet-from s s1 s2 t r value kept set = record {
    bits = λ t' r' h. ground (arith, set.bits t' r' h, Kept-bit s s1 kept t' r');
    counts = λ plain t' h. set.counts plain t' h ∙ Kept-count s s1 kept t';
    others = λ p n i lt ne. set.others p n i lt ne ∙ rw (kept p n lt) refl;
  }

  CountSet-from : (s s1 s2 : Bam D) (t v : ℕ) → Kept s s1 → CountSet s1 t v s2 → CountSet s t v s2
  CountSet-from s s1 s2 t v kept set = record {
    bits = λ t' r' h. set.bits t' r' h ∙ Kept-bit s s1 kept t' r';
    counts = λ t' h. ground (arith, set.counts t' h, Kept-count s s1 kept t');
    others = λ p n i lt ne. set.others p n i lt ne ∙ rw (kept p n lt) refl;
  }

  CountSet-same : (s s1 : Bam D) (t : ℕ) → Kept s s1 → CountSet s t (count_at s t) s1
  CountSet-same s s1 t kept = record {
    bits = λ t' r' h. Kept-bit s s1 kept t' r';
    counts = λ t' h. Kept-count s s1 kept t' ∙ ground (arith, ap (λ x. count_at s x));
    others = λ p n i lt ne. rw (kept p n lt) refl;
  }

  shown_small :
      (s : Bam D) (type : BamData) (t i : ℕ)
      → Ok s
      → Shows s type t
      → get_or
          (view m at law partitions max_part few part s part
            (home m at law partitions max_part few part type t))
          i
          0
        < 256
  shown_small s type t i c shown =
      let data_ok = c.first.bytes_ok (ground (arith, image.mounted)) in
      rw (shown_content m at law partitions max_part few part s type t shown) (data_ok.small i)

  -- A bit is written, and a counter.
  write_bit :
      (s : Bam D) (t r : ℕ) (value : Bool) (f : ℕ → ℕ)
      → Ok s
      → Shows s bitfield t
      → OnDisk t r
      → ((b : ℕ) → b < 256 → f b < 256)
      → ((b : ℕ)
          → b < 256
          → IsBitChange m at law partitions max_part few part last image r value b (f b))
      → Ok (change_window (bit_index m partitions max_part part t r) f s)
        × BitSet s t r value (change_window (bit_index m partitions max_part part t r) f s)
  write_bit s t r value f c shown h keep change =
      let i = bit_index m partitions max_part part t r in
      let written =
        write-IsWritten m at law partitions max_part few part s bitfield t i f c shown image.mounted
          (index-lt m at law partitions max_part few part last image t r h) keep in
      (
        written.cached,
        bit-IsBitSet m at law partitions max_part few part last image s _ t r _ value h
            (change _ (shown_small s bitfield t i c shown)) written,
      )

  write_count :
      (s : Bam D) (t : ℕ) (f : ℕ → ℕ)
      → Ok s
      → Shows s freecount t
      → IsTrack last t
      → kind ≢ dnp
      → ((b : ℕ) → b < 256 → f b < 256)
      → Ok (change_window (position m partitions max_part part t freecount).pos f s)
        × CountSet s t
            (f (count_at s t))
            (change_window (position m partitions max_part part t freecount).pos f s)
  unfolding position count
  write_count s t f c shown h plain keep =
      let pos = (bam_position kind freecount t).pos in
      let written =
        write-IsWritten m at law partitions max_part few part s freecount t pos f c shown
          image.mounted (count_position-lt kind t plain) keep in
      (
        written.cached,
        count-IsCountSet m at law partitions max_part few part last image s _ t _ h plain written,
      )

  -- The counter that the window shows.
  pub shown_count :
      (s : Bam D) (t : ℕ)
      → Shows s freecount t
      → get_or s.bam_buffer.bytes (position m partitions max_part part t freecount).pos 0
        ≡ count_at s t
  unfolding position count
  shown_count s t shown = sym (
      ap (λ (b : List ℕ). get_or b (bam_position kind freecount t).pos 0)
        (shown_content m at law partitions max_part few part s freecount t shown))

  shown_bit :
      (s : Bam D) (t r : ℕ)
      → Shows s bitfield t
      → test_bit
          (get_or s.bam_buffer.bytes (bit_index m partitions max_part part t r) 0)
          (bit_of (partitions part) r)
        ≡ bit_at s t r
  unfolding bit
  shown_bit s t r shown = sym (
      ap
        (λ (b : List ℕ).
          test_bit (get_or b (bit_index m partitions max_part part t r) 0)
            (bit_of (partitions part) r))
        (shown_content m at law partitions max_part few part s bitfield t shown))
