-- ===== src/D64/Bam/Cache.antt =====
-- The window of two buffers of src/d64ops.c: what is seen through it, and the laws of the image
-- functions under it.
pub mod Load
pub mod Move
use nodiskemu.Prelude.{
  ℕ, ◌*◌, ◌≤◌, ◌<◌, Bool, true, false, ◌&&◌, Option, none, some, List, ◌≡◌, ◌≢◌, refl, sym, ap, ◌∙◌,
  inl, inr, arith, ltb, ◌==◌, if◌then◌else◌, length, get_or, Bool-cases,
}
use mathlib.Core.Path.{subst}
use nodiskemu.D64.{sector_lba, sector_offset, BamData}
use nodiskemu.D64.Bam.{
  Window, Machine, Partition, Bam, kind_of, bam_buffer_match, offset_of, bam_buffer_flush,
  fresh_window, read_window, load_window, second_window, other_window, to_window, position,
  move_bam_window,
}
use nodiskemu.D64.Bam.Places.{IsHome, bam_position-IsHome, sector_lba-IsHome}

-- The data of a sector.
pub record IsSectorData (bytes : List ℕ) : Type 0 where
  pub whole : length bytes ≡ 256
  pub small : (i : ℕ) → get_or bytes i 0 < 256

-- What the image functions promise where they succeed, for whole sectors: `at` is the content of a
-- sector of an image, by its place in the file.
pub record IsMachine {D : Type 0} (m : Machine D) (at : D → (part n : ℕ) → List ℕ) : Type 0 where
  pub read_ok :
      (d : D) (p n : ℕ)
      → (m.image_read d p (256 * n) 256).1 ≡ 0
      → ((m.image_read d p (256 * n) 256).2 ≡ at d p n) × IsSectorData (at d p n)
  pub read_keeps : (d : D) (p n q k : ℕ) → at (m.image_read d p (256 * n) 256).0 q k ≡ at d q k
  pub write_ok :
      (d : D) (p n : ℕ) (bytes : List ℕ)
      → IsSectorData bytes
      → (m.image_write d p (256 * n) bytes).1 ≡ 0
      → (q k : ℕ)
      → at (m.image_write d p (256 * n) bytes).0 q k
        ≡ (if q == p && k == n then bytes else at d q k)
  pub alloc_keeps : (d : D) (q k : ℕ) → at (m.alloc_system_buffer d).0 q k ≡ at d q k
  pub error_keeps : (d : D) (e q k : ℕ) → at (m.set_error d e) q k ≡ at d q k

module _ {D : Type 0} (m : Machine D) (at : D → (part n : ℕ) → List ℕ) (law : IsMachine m at)
    (partitions : ℕ → Partition) (max_part : ℕ) (few : max_part ≤ 255) where
  -- The place in the file of the sector that a window holds.
  unfoldable pub place : Window → ℕ
  place w = sector_lba (kind_of (partitions w.part)) w.track w.sector

  unfoldable pub holds : Window → (p n : ℕ) → Bool
  holds w p n = w.part == p && place w == n

  unfoldable pub behind : Option Window → (p n : ℕ) → List ℕ → List ℕ
  behind none p n bytes = bytes
  behind (some w) p n bytes = if holds w p n then w.bytes else bytes

  -- The content of a sector as the drive sees it.
  unfoldable pub content : Bam D → (p n : ℕ) → List ℕ
  content s p n = behind (some s.bam_buffer) p n (behind s.bam_buffer2 p n (at s.machine p n))

  -- A window that is in use has a sector of the block map, which is the file's if it is clean.
  pub record IsWindow (d : D) (w : Window) : Type 0 where
    pub home : w.part < max_part → IsHome (kind_of (partitions w.part)) w.track w.sector
    pub bytes_ok : w.part < max_part → IsSectorData w.bytes
    pub clean : w.part < max_part → w.mustflush ≡ false → w.bytes ≡ at d w.part (place w)

  abbrev pub IsSecond : D → Option Window → Type 0
  IsSecond d none = Unit {0}
  IsSecond d (some w) = IsWindow d w

  abbrev pub AreApart : Window → Option Window → Type 0
  AreApart w none = Unit {0}
  AreApart w (some w2) = (p n : ℕ) → p < max_part → holds w p n ≡ true → holds w2 p n ≡ false

  pub record IsCache (s : Bam D) : Type 0 where
    pub first : IsWindow s.machine s.bam_buffer
    pub second : IsSecond s.machine s.bam_buffer2
    pub apart : AreApart s.bam_buffer s.bam_buffer2

  -- The same contents.
  abbrev pub SameContent : Bam D → Bam D → Type 0
  SameContent s s' = (p n : ℕ) → p < max_part → content s' p n ≡ content s p n

  swap : Window → Bam D → Bam D
  swap w s = record s { bam_buffer = w; bam_buffer2 = some s.bam_buffer }

  AreApart-swap : (w w2 : Window) → AreApart w (some w2) → AreApart w2 (some w)
  AreApart-swap w w2 apart p n lt held = elim (Bool-cases (holds w p n)) [
    | inl e ↦ ground (arith, apart p n lt e)
    | inr e ↦ e
  ]

  swap-IsCache :
      (w2 : Window) (s : Bam D)
      → s.bam_buffer2 ≡ some w2
      → IsCache s
      → IsCache (swap w2 s) × SameContent s (swap w2 s)
  unfolding swap content behind
  swap-IsCache w2 s e c =
      let second : IsWindow s.machine w2 = subst (IsSecond s.machine) e c.second in
      let apart : AreApart s.bam_buffer (some w2) = subst (AreApart s.bam_buffer) e c.apart in
      (
        record { first = second; second = c.first; apart = AreApart-swap s.bam_buffer w2 apart },
        λ p n lt. rw e (ground (arith, apart p n lt)),
      )

  unfoldable pub flushed : Window → D → Window × D × ℕ
  flushed w d = bam_buffer_flush m partitions max_part w d

  -- A flush that succeeds brings the file up to what the window holds.
  pub flush_lem :
      (w : Window) (d : D)
      → IsWindow d w
      → (flushed w d).2 ≡ 0
      → (p n : ℕ) → p < max_part
      → at (flushed w d).1 p n ≡ behind (some w) p n (at d p n)
  unfolding flushed bam_buffer_flush offset_of sector_offset behind holds place
  flush_lem w d ok res p n lt = elim (Bool-cases (w.mustflush && ltb w.part max_part)) [
    | inl e ↦ ground (
      arith,
      law.write_ok d w.part (place w) w.bytes (ok.bytes_ok (ground arith)) (ground arith) p n,
    )
    | inr e ↦ ground (arith, ok.clean)
  ]

  -- And it leaves the window as it was, but for its flag.
  flush_same :
      (w : Window) (d : D)
      → ((flushed w d).0.part ≡ w.part)
        × ((flushed w d).0.track ≡ w.track)
        × ((flushed w d).0.sector ≡ w.sector)
        × ((flushed w d).0.bytes ≡ w.bytes)
  unfolding flushed bam_buffer_flush
  flush_same w d = ground arith

  -- A move of the window to a sector that succeeded.
  pub record IsMoved (s : Bam D) (part track sector : ℕ) (s' : Bam D) : Type 0 where
    pub cache : IsCache s'
    pub same : SameContent s s'
    pub shown :
        (s'.bam_buffer.part ≡ part)
        × (s'.bam_buffer.track ≡ track)
        × (s'.bam_buffer.sector ≡ sector)

  abbrev IsMissing : Option Window → (p n : ℕ) → Type 0
  IsMissing none p n = Unit {0}
  IsMissing (some w) p n = holds w p n ≡ false

  behind_missing :
      (o : Option Window) (p n : ℕ) (bytes : List ℕ) → IsMissing o p n → behind o p n bytes ≡ bytes
  unfolding behind
  behind_missing none p n bytes missing = refl
  behind_missing (some w) p n bytes missing = ground arith

  -- The layers of two windows that are apart can be exchanged.
  behind_comm :
      (w : Window) (o : Option Window) (p n : ℕ) (bytes : List ℕ)
      → p < max_part
      → AreApart w o
      → behind (some w) p n (behind o p n bytes) ≡ behind o p n (behind (some w) p n bytes)
  unfolding behind
  behind_comm w none p n bytes lt apart = refl
  behind_comm w (some w2) p n bytes lt apart = elim (Bool-cases (holds w p n)) [
    | inl e ↦ ground (arith, apart p n lt e)
    | inr e ↦ ground arith
  ]

  holds_self : (w : Window) → holds w w.part (place w) ≢ false
  unfolding holds
  holds_self w = ground arith

  -- The second window under a flush of the first one.
  pub IsSecond-flushed :
      (w : Window) (o : Option Window) (d d1 : D)
      → AreApart w o
      → IsSecond d o
      → ((p n : ℕ) → p < max_part → at d1 p n ≡ behind (some w) p n (at d p n))
      → IsSecond d1 o
  unfolding behind
  IsSecond-flushed w none d d1 apart ok h = tt
  IsSecond-flushed w (some w2) d d1 apart ok h = record {
    home = ok.home;
    bytes_ok = ok.bytes_ok;
    clean = λ lt flag. elim (Bool-cases (holds w w2.part (place w2))) [
      | inl e ↦ absurd (holds_self w2 (apart w2.part (place w2) lt e))
      | inr e ↦ ground (arith, ok.clean lt flag, h w2.part (place w2) lt)
    ];
  }

  IsSecond-same :
      (o : Option Window) (d d1 : D)
      → ((p n : ℕ) → at d1 p n ≡ at d p n)
      → IsSecond d o
      → IsSecond d1 o
  IsSecond-same none d d1 h ok = tt
  IsSecond-same (some w) d d1 h ok = record {
    home = ok.home;
    bytes_ok = ok.bytes_ok;
    clean = λ lt flag. ok.clean lt flag ∙ sym (h w.part (place w));
  }

  apart_missing : (w : Window) (o : Option Window) → IsMissing o w.part (place w) → AreApart w o
  unfolding holds
  apart_missing w none missing = tt
  apart_missing w (some w2) missing = λ p n lt held. ground arith

  -- A window with what the file has, where no other window holds the sector, changes nothing.
  behind_fresh :
      (w : Window) (o : Option Window) (p n : ℕ) (f : (p n : ℕ) → List ℕ)
      → IsMissing o w.part (place w)
      → w.bytes ≡ f w.part (place w)
      → behind (some w) p n (behind o p n (f p n)) ≡ behind o p n (f p n)
  behind_fresh w o p n f missing eq = elim (Bool-cases (holds w p n)) [
    | inr e ↦ unfold behind in rw e
    | inl e ↦
        let same_p : w.part ≡ p = unfold holds in ground (arith, e) in
        let same_n : place w ≡ n = unfold holds in ground (arith, e) in
        let held : behind (some w) p n (behind o p n (f p n)) ≡ w.bytes = unfold behind in rw e in
        held
        ∙ eq
        ∙ sym (behind_missing o w.part (place w) (f w.part (place w)) missing)
        ∙ ap (λ (k : ℕ). behind o k (place w) (f k (place w))) same_p
        ∙ ap (λ (k : ℕ). behind o p k (f p k)) same_n
  ]
