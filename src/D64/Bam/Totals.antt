-- ===== src/D64/Bam/Totals.antt =====
-- `sectors_free` of src/d64ops.c and the free sectors of a track.
use nodiskemu.Prelude.{
  ℕ, ◌≤◌, ◌<◌, Bool, true, false, ◌||◌, List, ◌≡◌, ◌≢◌, refl, sym, ◌∙◌, ◌⊎◌, inl, inr, arith, ltb,
  how_many_cong,
}
use mathlib.Core.Path.{subst}
use nodiskemu.D64.{
  Kind, d41, d71, d81, dnp, d80, d82, other, sectors_per_track, bitfield, freecount, bam_position,
}
use nodiskemu.D64.Bam.{
  Machine, Partition, Bam, kind_of, bit_of, position, bit_index, move_bam_window, sectors_free,
  counted, count_blocks,
}
use nodiskemu.D64.Bam.Places.{IsTrack}
use nodiskemu.D64.Bam.Cache.{IsMachine}
use nodiskemu.D64.Bam.Map.{IsImage, IsCached, IsShown, Same, home, bit, shown_content}
use nodiskemu.D64.Bam.Count.{bit_in, count_blocks_lem}
use nodiskemu.D64.Bam.Sectors.{moved, shown_count, Kept-count, Kept-bit}
use nodiskemu.D64.Bam.Consistent.{IsConsistent, free_sectors}
use nodiskemu.D64.Bam.Reliable.{IsReliable, move_ok}

dnp_or : (kind : Kind) → (kind ≡ dnp) ⊎ (kind ≢ dnp)
dnp_or d41 = inr (ground arith)
dnp_or d71 = inr (ground arith)
dnp_or d81 = inr (ground arith)
dnp_or dnp = inl refl
dnp_or d80 = inr (ground arith)
dnp_or d82 = inr (ground arith)
dnp_or other = inr (ground arith)

abbrev by_kind : Kind → ℕ → ℕ → ℕ
by_kind kind a b = elim kind [ dnp ↦ a | _ ↦ b ]

by_kind_dnp : (kind : Kind) (a b : ℕ) → kind ≡ dnp → by_kind kind a b ≡ a
by_kind_dnp kind a b e = rw e refl

by_kind_plain : (kind : Kind) (a b : ℕ) → kind ≢ dnp → by_kind kind a b ≡ b
by_kind_plain d41 a b ne = refl
by_kind_plain d71 a b ne = refl
by_kind_plain d81 a b ne = refl
by_kind_plain dnp a b ne = absurd (ne refl)
by_kind_plain d80 a b ne = refl
by_kind_plain d82 a b ne = refl
by_kind_plain other a b ne = refl

module _ {D : Type 0} (m : Machine D) (at : D → (part n : ℕ) → List ℕ) (law : IsMachine m at)
    (partitions : ℕ → Partition) (max_part : ℕ) (few : max_part ≤ 255) (part last : ℕ)
    (image : IsImage m at law partitions max_part few part last) where
  abbrev Consistent : Bam D → Type 0
  Consistent s = IsConsistent m at law partitions max_part few part last image s

  abbrev Kept : Bam D → Bam D → Type 0
  Kept s s' = Same m at law partitions max_part few part s s'

  abbrev total : Bam D → ℕ → ℕ
  total s t = free_sectors m at law partitions max_part few part last image s t

  abbrev is_set : Bam D → ℕ → ℕ → Bool
  is_set s t r = bit m at law partitions max_part few part s t r

  pub Kept-free_sectors : (s s' : Bam D) → Kept s s' → (t : ℕ) → total s' t ≡ total s t
  unfolding free_sectors
  Kept-free_sectors s s' kept t =
      how_many_cong _ _ _
        (λ i lt. Kept-bit m at law partitions max_part few part last image s s' kept t i)

  -- The invariant depends only on what is seen through the windows.
  pub Kept-IsConsistent :
      (s s' : Bam D)
      → Kept s s'
      → IsCached m at law partitions max_part few part s'
      → Consistent s
      → Consistent s'
  Kept-IsConsistent s s' kept c ok = record {
    cached = c;
    counters = λ plain t h.
        Kept-count m at law partitions max_part few part last image s s' kept t
        ∙ ok.counters plain t h
        ∙ sym (Kept-free_sectors s s' kept t);
  }

  -- The counters of a DNP image are counted.
  dnp_bit :
      (s : Bam D) (t r : ℕ)
      → kind_of (partitions part) ≡ dnp
      → IsShown m at law partitions max_part few part s freecount t
      → is_set s t r
        ≡ bit_in s.bam_buffer.bytes (position m partitions max_part part t freecount).pos r
  unfolding bit bit_in bit_index position bit_of bam_position
  dnp_bit s t r k shown =
      let one_home : home m at law partitions max_part few part bitfield t
          ≡ home m at law partitions max_part few part freecount t =
        unfold home in rw k refl in
      let one_pos : (bam_position (kind_of (partitions part)) bitfield t).pos
          ≡ (bam_position (kind_of (partitions part)) freecount t).pos =
        rw k refl in
      rw
        (
          one_home,
          one_pos,
          shown_content m at law partitions max_part few part s freecount t shown,
          image.plain k,
        )
        refl

  dnp_total :
      (s : Bam D) (t : ℕ)
      → kind_of (partitions part) ≡ dnp
      → IsShown m at law partitions max_part few part s freecount t
      → IsCached m at law partitions max_part few part s
      → count_blocks 32 (position m partitions max_part part t freecount).pos s.bam_buffer.bytes
        ≡ total s t
  unfolding free_sectors sectors_per_track
  dnp_total s t k shown c =
      let data_ok = c.first.bytes_ok (ground (arith, image.mounted)) in
      rw k (
        count_blocks_lem 32 _ s.bam_buffer.bytes (omega arith) data_ok.small
        ∙ sym (how_many_cong _ _ 256 (λ i lt. dnp_bit s t i k shown)))

  -- What `counted` reads once the window shows the counter.
  shown_total :
      (s : Bam D) (t : ℕ)
      → IsTrack last t
      → Consistent s
      → IsCached m at law partitions max_part few part s
      → IsShown m at law partitions max_part few part s freecount t
      → (counted m partitions max_part part t (s, 0)).1 ≡ total s t
  unfolding counted
  shown_total s t h ok c shown = elim (dnp_or (kind_of (partitions part))) [
    | inl k ↦ by_kind_dnp (kind_of (partitions part)) _ _ k ∙ dnp_total s t k shown c
    | inr plain ↦
        by_kind_plain (kind_of (partitions part)) _ _ plain
        ∙ shown_count m at law partitions max_part few part last image s t shown
        ∙ ok.counters plain t h
  ]

  -- On a consistent block map of a mounted image whose reads and writes succeed, sectors_free
  -- of a track of the image gives the number of its free sectors, whether it reads the counter
  -- or, on a DNP image, counts the bits of 32 bytes; the map stays as it is.
  pub sectors_free_lem :
      (s : Bam D) (t : ℕ)
      → IsReliable m max_part
      → (partitions part).param.last_track ≡ last
      → IsTrack last t
      → Consistent s
      → Consistent (sectors_free m partitions max_part part t s).0
        × Kept s (sectors_free m partitions max_part part t s).0
        × ((sectors_free m partitions max_part part t s).1 ≡ total s t)
  unfolding sectors_free counted
  sectors_free_lem s t sound tracks h ok =
      let a = move_bam_window m partitions max_part part t freecount s in
      let in_range : (ltb t 1 || ltb (partitions part).param.last_track t) ≡ false =
        ground (arith, tracks) in
      let moves = move_ok m partitions max_part sound part t freecount s image.mounted in
      let (c, kept, shown) =
        moved m at law partitions max_part few part last image s t freecount h ok.cached moves in
      let ok1 = Kept-IsConsistent s a.0 kept c ok in
      let result = shown_total a.0 t h ok1 c shown ∙ Kept-free_sectors s a.0 kept t in
      rw in_range (
        ok1,
        kept,
        subst (λ res. (counted m partitions max_part part t (a.0, res)).1 ≡ total s t) (sym moves)
            result,
      )

  -- A track that the image does not have has no free sectors.
  pub sectors_free-out_of_range :
      (s : Bam D) (t : ℕ)
      → (partitions part).param.last_track ≡ last
      → (t ≡ 0) ⊎ (last < t)
      → sectors_free m partitions max_part part t s ≡ (s, 0)
  unfolding sectors_free counted
  sectors_free-out_of_range s t tracks out =
      let outside : (ltb t 1 || ltb (partitions part).param.last_track t) ≡ true =
        ground (arith, tracks) in
      rw outside refl
