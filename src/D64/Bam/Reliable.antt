-- ===== src/D64/Bam/Reliable.antt =====
-- The block map of src/d64ops.c on a medium whose reads and writes succeed, and `d64_bam_commit`.
use nodiskemu.Prelude.{
  ℕ, ◌≤◌, ◌<◌, ◌&&◌, Option, none, some, List, ◌≡◌, ◌≢◌, refl, inl, inr, arith, ltb, Bool-cases,
}
use nodiskemu.D64.{BamData, bitfield}
use nodiskemu.D64.Search.{failed}
use nodiskemu.D64.Bam.{
  Window, Machine, Partition, Bam, position, bam_buffer_match, offset_of, bam_buffer_flush,
  commit_second, d64_bam_commit, read_window, load_window, other_window, to_window, move_bam_window,
  is_free, tested,
}
use nodiskemu.D64.Bam.Cache.{
  IsMachine, IsCache, IsWindow, IsSecond, AreApart, behind, content, flushed, flush_lem,
  IsSecond-flushed,
}

-- The reads and writes of the mounted images succeed.
pub record IsReliable {D : Type 0} (m : Machine D) (max_part : ℕ) : Type 0 where
  pub reads : (d : D) (p offset : ℕ) → p < max_part → (m.image_read d p offset 256).1 ≡ 0
  pub writes :
      (d : D) (p offset : ℕ) (bytes : List ℕ)
      → p < max_part
      → (m.image_write d p offset bytes).1 ≡ 0

module _ {D : Type 0} (m : Machine D) (partitions : ℕ → Partition) (max_part : ℕ)
    (sound : IsReliable m max_part) where
  flush_ok : (w : Window) (d : D) → (bam_buffer_flush m partitions max_part w d).2 ≡ 0
  unfolding bam_buffer_flush
  flush_ok w d = elim (Bool-cases (w.mustflush && ltb w.part max_part)) [
    | inr e ↦ rw e refl
    | inl e ↦ rw e (sound.writes d w.part _ w.bytes (ground arith))
  ]

  load_ok :
      (part track sector : ℕ) (s : Bam D)
      → part < max_part
      → (load_window m partitions max_part part track sector s).1 ≡ 0
  unfolding load_window read_window
  load_ok part track sector s lt =
      let f = bam_buffer_flush m partitions max_part s.bam_buffer s.machine in
      rw
        (
          flush_ok s.bam_buffer s.machine,
          sound.reads f.1 part (offset_of m partitions max_part part track sector) lt,
        )
        refl

  other_ok :
      (part track sector : ℕ) (o : Option Window) (s : Bam D)
      → part < max_part
      → (other_window m partitions max_part part track sector o s).1 ≡ 0
  unfolding other_window
  other_ok part track sector none s lt = load_ok part track sector _ lt
  other_ok part track sector (some w2) s lt =
      elim (Bool-cases (bam_buffer_match w2 part track sector)) [
        | inl e ↦ rw e refl
        | inr e ↦ rw e (load_ok part track sector _ lt)
      ]

  pub move_ok :
      (part track : ℕ) (type : BamData) (s : Bam D)
      → part < max_part
      → (move_bam_window m partitions max_part part track type s).1 ≡ 0
  unfolding move_bam_window to_window
  move_ok part track type s lt =
      let p = position m partitions max_part part track type in
      elim (Bool-cases (bam_buffer_match s.bam_buffer part p.track p.sector)) [
        | inl e ↦ rw e refl
        | inr e ↦ rw e (other_ok part p.track p.sector s.bam_buffer2 s lt)
      ]

  pub is_free_ok :
      (part t r : ℕ) (s : Bam D)
      → part < max_part
      → (is_free m partitions max_part part t r s).1 ≢ failed
  unfolding is_free tested
  is_free_ok part t r s lt = ground (arith, move_ok part t bitfield s lt)

module _ {D : Type 0} (m : Machine D) (at : D → (part n : ℕ) → List ℕ) (law : IsMachine m at)
    (partitions : ℕ → Partition) (max_part : ℕ) (few : max_part ≤ 255)
    (sound : IsReliable m max_part) where
  flush_at :
      (w : Window) (d : D) (p n : ℕ)
      → IsWindow m at law partitions max_part few d w
      → p < max_part
      → at (bam_buffer_flush m partitions max_part w d).1 p n
        ≡ behind m at law partitions max_part few (some w) p n (at d p n)
  unfolding flushed
  flush_at w d p n ok lt =
      flush_lem m at law partitions max_part few w d ok (flush_ok m partitions max_part sound w d) p
        n lt

  commit_second_at :
      (w : Window) (o : Option Window) (d : D) (a : Window × D × ℕ) (p n : ℕ)
      → p < max_part
      → AreApart m at law partitions max_part few w o
      → IsSecond m at law partitions max_part few a.1 o
      → ((q k : ℕ)
          → q < max_part
          → at a.1 q k ≡ behind m at law partitions max_part few (some w) q k (at d q k))
      → at (commit_second m partitions max_part a o).machine p n
        ≡ behind m at law partitions max_part few
            (some w)
            p
            n
            (behind m at law partitions max_part few o p n (at d p n))
  unfolding commit_second behind
  commit_second_at w none d a p n lt apart ok first = first p n lt
  commit_second_at w (some w2) d a p n lt apart ok first =
      ground (arith, flush_at w2 a.1 p n ok lt, first p n lt, apart p n lt)

  -- On images whose reads and writes succeed, from windows in order, d64_bam_commit brings
  -- every sector of a mounted image file to what was seen through the two buffers.
  pub d64_bam_commit-content :
      (s : Bam D) (p n : ℕ)
      → IsCache m at law partitions max_part few s
      → p < max_part
      → at (d64_bam_commit m partitions max_part s).0.machine p n
        ≡ content m at law partitions max_part few s p n
  unfolding d64_bam_commit content flushed
  d64_bam_commit-content s p n c lt =
      let first = λ (q k : ℕ) (h : q < max_part). flush_at s.bam_buffer s.machine q k c.first h in
      commit_second_at s.bam_buffer s.bam_buffer2 s.machine
        (bam_buffer_flush m partitions max_part s.bam_buffer s.machine) p n lt c.apart
        (IsSecond-flushed m at law partitions max_part few s.bam_buffer s.bam_buffer2 s.machine _
          c.apart c.second first)
        first
