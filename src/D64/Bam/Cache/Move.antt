-- ===== src/D64/Bam/Cache/Move.antt =====
-- `move_bam_window` of src/d64ops.c: the swap of the two windows and the allocation of the second one.
use nodiskemu.Prelude.{
  ℕ, ◌≤◌, ◌<◌, true, false, Option, none, some, List, ◌≡◌, refl, ◌∙◌, inl, inr, arith, ◌==◌,
  Bool-cases,
}
use nodiskemu.D64.{sector_lba, BamData}
use nodiskemu.D64.Bam.{
  Window, Machine, Partition, Bam, kind_of, bam_buffer_match, fresh_window, second_window,
  other_window, to_window, position, move_bam_window,
}
use nodiskemu.D64.Bam.Places.{IsHome, bam_position-IsHome}
use nodiskemu.D64.Bam.Cache.{
  holds, behind, content, IsWindow, AreApart, IsCache, SameContent, swap, swap-IsCache, IsMoved,
  IsMissing, IsSecond-same, IsMachine,
}
use nodiskemu.D64.Bam.Cache.Load.{load-IsMoved, match-holds}

module _ {D : Type 0} (m : Machine D) (at : D → (part n : ℕ) → List ℕ) (law : IsMachine m at)
    (partitions : ℕ → Partition) (max_part : ℕ) (few : max_part ≤ 255) where
  fresh_apart :
      (bytes : List ℕ) (o : Option Window)
      → AreApart m at law partitions max_part few (fresh_window bytes) o
  unfolding holds fresh_window
  fresh_apart bytes none = tt
  fresh_apart bytes (some w) = λ p n lt held. ground arith

  fresh_missing :
      (bytes : List ℕ) (p n : ℕ)
      → p < max_part
      → holds m at law partitions max_part few (fresh_window bytes) p n ≡ false
  unfolding holds fresh_window
  fresh_missing bytes p n lt = ground arith

  fresh-IsWindow :
      (d : D) (bytes : List ℕ) → IsWindow m at law partitions max_part few d (fresh_window bytes)
  unfolding fresh_window
  fresh-IsWindow d bytes = record {
    home = λ lt. absurd (omega arith);
    bytes_ok = λ lt. absurd (omega arith);
    clean = λ lt flag. absurd (omega arith);
  }

  window_same :
      (w : Window) (d d1 : D)
      → ((p n : ℕ) → at d1 p n ≡ at d p n)
      → IsWindow m at law partitions max_part few d w
      → IsWindow m at law partitions max_part few d1 w
  window_same w d d1 h ok = IsSecond-same m at law partitions max_part few (some w) d d1 h ok

  -- The state in which the sector is read, when there was no second window.
  second_window-IsCache :
      (s : Bam D) (a : D × Option (List ℕ)) (part n : ℕ)
      → IsCache m at law partitions max_part few s
      → s.bam_buffer2 ≡ none
      → ((p k : ℕ) → at a.0 p k ≡ at s.machine p k)
      → holds m at law partitions max_part few s.bam_buffer part n ≡ false
      → IsCache m at law partitions max_part few (second_window m partitions max_part s a)
        × SameContent m at law partitions max_part few s (second_window m partitions max_part s a)
        × IsMissing m at law partitions max_part few
            (second_window m partitions max_part s a).bam_buffer2
            part
            n
  unfolding second_window content behind
  second_window-IsCache s (d, none) part n c e keep missing = (
    record {
      first =
          window_same s.bam_buffer s.machine (m.set_error d 0)
            (λ p k. law.error_keeps d 0 p k ∙ keep p k) c.first;
      second = rw e tt;
      apart = rw e tt;
    },
    λ p k lt. rw (e, law.error_keeps d 0 p k, keep p k),
    rw e tt,
  )
  second_window-IsCache s (d, some bytes) part n c e keep missing = (
    record {
      first = fresh-IsWindow d bytes;
      second = window_same s.bam_buffer s.machine d keep c.first;
      apart = fresh_apart bytes (some s.bam_buffer);
    },
    λ p k lt. rw (fresh_missing bytes p k lt, e, keep p k),
    missing,
  )

  -- A move from a state with the same content is a move.
  IsMoved-from :
      (s s1 s2 : Bam D) (part track sector : ℕ)
      → SameContent m at law partitions max_part few s s1
      → IsMoved m at law partitions max_part few s1 part track sector s2
      → IsMoved m at law partitions max_part few s part track sector s2
  IsMoved-from s s1 s2 part track sector same moved = record {
    cache = moved.cache;
    same = λ p n lt. moved.same p n lt ∙ same p n lt;
    shown = moved.shown;
  }

  IsMoved-here :
      (s s1 : Bam D) (part track sector : ℕ)
      → IsCache m at law partitions max_part few s1
      → SameContent m at law partitions max_part few s s1
      → bam_buffer_match s1.bam_buffer part track sector ≡ true
      → IsMoved m at law partitions max_part few s part track sector s1
  unfolding bam_buffer_match
  IsMoved-here s s1 part track sector c same e = record {
    cache = c;
    same = same;
    shown = ground arith;
  }

  other-IsMoved :
      (part track sector : ℕ) (o : Option Window) (s : Bam D)
      → s.bam_buffer2 ≡ o
      → part < max_part
      → IsHome (kind_of (partitions part)) track sector
      → IsCache m at law partitions max_part few s
      → bam_buffer_match s.bam_buffer part track sector ≡ false
      → (other_window m partitions max_part part track sector o s).1 ≡ 0
      → IsMoved m at law partitions max_part few s part track sector
          (other_window m partitions max_part part track sector o s).0
  unfolding other_window swap
  other-IsMoved part track sector none s e lt home c miss ok =
      let n = sector_lba (kind_of (partitions part)) track sector in
      let missing =
        match-holds m at law partitions max_part few s.bam_buffer s.machine part track sector
          c.first lt home miss in
      let (c1, same, absent) =
        second_window-IsCache s (m.alloc_system_buffer s.machine) part n c e
          (law.alloc_keeps s.machine) missing in
      elim (Bool-cases (s.bam_buffer.part == 255)) [
        | inl fresh ↦ rw fresh (
            load-IsMoved m at law partitions max_part few part track sector s lt home c (rw e tt)
              (ground arith))
        | inr in_use ↦ rw in_use (
            IsMoved-from s _ _ part track sector same (
              load-IsMoved m at law partitions max_part few part track sector _ lt home c1 absent
                (ground arith)))
      ]
  other-IsMoved part track sector (some w2) s e lt home c miss ok =
      let (c1, same) = swap-IsCache m at law partitions max_part few w2 s e c in
      elim (Bool-cases (bam_buffer_match w2 part track sector)) [
        | inl found ↦ rw found (
            IsMoved-here s (swap m at law partitions max_part few w2 s) part track sector c1 same
              found)
        | inr lost ↦ rw lost (
            IsMoved-from s (swap m at law partitions max_part few w2 s) _ part track sector same (
              load-IsMoved m at law partitions max_part few part track sector
                (swap m at law partitions max_part few w2 s) lt home c1
                (match-holds m at law partitions max_part few s.bam_buffer s.machine part track
                  sector c.first lt home miss)
                (ground arith)))
      ]

  to_window-IsMoved :
      (part track sector : ℕ) (s : Bam D)
      → part < max_part
      → IsHome (kind_of (partitions part)) track sector
      → IsCache m at law partitions max_part few s
      → (to_window m partitions max_part part track sector s).1 ≡ 0
      → IsMoved m at law partitions max_part few s part track sector
          (to_window m partitions max_part part track sector s).0
  unfolding to_window
  to_window-IsMoved part track sector s lt home c ok =
      elim (Bool-cases (bam_buffer_match s.bam_buffer part track sector)) [
        | inl found ↦ rw found (IsMoved-here s s part track sector c (λ p n h. refl) found)
        | inr lost ↦
            rw lost
              (other-IsMoved part track sector s.bam_buffer2 s refl lt home c lost (ground arith))
      ]

  -- The two BAM buffers are a transparent cache: for a mounted partition and a track from 1 to
  -- 255, from windows in order, a move_bam_window that succeeds leaves them in order, has the
  -- sector that is asked for in the first buffer, and leaves the content of every sector of
  -- every mounted image, as seen through the buffers, as it was.
  pub move_bam_window-IsMoved :
      (part track : ℕ) (type : BamData) (s : Bam D)
      → part < max_part
      → 1 ≤ track
      → track < 256
      → IsCache m at law partitions max_part few s
      → (move_bam_window m partitions max_part part track type s).1 ≡ 0
      → IsMoved m at law partitions max_part few s part
          (position m partitions max_part part track type).track
          (position m partitions max_part part track type).sector
          (move_bam_window m partitions max_part part track type s).0
  unfolding move_bam_window position
  move_bam_window-IsMoved part track type s lt pos small c ok =
      to_window-IsMoved part _ _ s lt
        (bam_position-IsHome (kind_of (partitions part)) type track pos small) c ok
