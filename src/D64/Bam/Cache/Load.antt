-- ===== src/D64/Bam/Cache/Load.antt =====
-- The read of a sector of the block map of src/d64ops.c into the first window.
use nodiskemu.Prelude.{
  ℕ, ◌*◌, ◌≤◌, ◌<◌, false, ◌&&◌, Option, some, List, ◌≡◌, refl, sym, ap, ◌∙◌, inl, inr, arith, ◌==◌,
  Bool-cases,
}
use mathlib.Core.Path.{subst}
use nodiskemu.D64.{sector_lba, sector_offset}
use nodiskemu.D64.Bam.{
  Window, Machine, Partition, Bam, kind_of, bam_buffer_match, offset_of, read_window, load_window,
}
use nodiskemu.D64.Bam.Places.{IsHome, sector_lba-IsHome}
use nodiskemu.D64.Bam.Cache.{
  place, holds, behind, content, IsWindow, IsSecond, AreApart, IsCache, flushed, flush_lem, IsMoved,
  IsMissing, behind_comm, IsSecond-flushed, IsSecond-same, apart_missing, behind_fresh,
  IsSectorData, IsMachine,
}

module _ {D : Type 0} (m : Machine D) (at : D → (part n : ℕ) → List ℕ) (law : IsMachine m at)
    (partitions : ℕ → Partition) (max_part : ℕ) (few : max_part ≤ 255) where
  -- The new content behind a read into the first window.
  read-IsMoved :
      (part track sector : ℕ) (w w0 : Window) (o : Option Window) (d d1 d2 : D) (bytes : List ℕ)
      → part < max_part
      → IsHome (kind_of (partitions part)) track sector
      → AreApart m at law partitions max_part few w o
      → IsSecond m at law partitions max_part few d o
      → IsMissing m at law partitions max_part few o part
          (sector_lba (kind_of (partitions part)) track sector)
      → ((p n : ℕ)
          → p < max_part
          → at d1 p n ≡ behind m at law partitions max_part few (some w) p n (at d p n))
      → ((p n : ℕ) → at d2 p n ≡ at d1 p n)
      → bytes ≡ at d1 part (sector_lba (kind_of (partitions part)) track sector)
      → IsSectorData bytes
      → IsMoved m at law partitions max_part few
          (record { machine = d; bam_buffer = w; bam_buffer2 = o })
          part
          track
          sector
          (record {
            machine = d2;
            bam_buffer = record w0 { part = part; track = track; sector = sector; bytes = bytes };
            bam_buffer2 = o;
          })
  unfolding place content
  read-IsMoved part track sector w w0 o d d1 d2 bytes lt home apart second missing flush read eq
        ok =
      let shown : Window = record w0 {
        part = part;
        track = track;
        sector = sector;
        bytes = bytes;
      } in
      record {
        cache = record {
          first = record {
            home = λ h. home;
            bytes_ok = λ h. ok;
            clean = λ h flag. eq ∙ sym (read part _);
          };
          second =
              IsSecond-same m at law partitions max_part few o d1 d2 read
                (IsSecond-flushed m at law partitions max_part few w o d d1 apart second flush);
          apart = apart_missing m at law partitions max_part few _ o missing;
        };
        same = λ p n h.
            ap
              (λ (b : List ℕ).
                behind m at law partitions max_part few (some shown) p n
                  (behind m at law partitions max_part few o p n b))
              (read p n)
            ∙ behind_fresh m at law partitions max_part few shown o p n (at d1) missing eq
            ∙ ap (behind m at law partitions max_part few o p n) (flush p n h)
            ∙ sym (behind_comm m at law partitions max_part few w o p n (at d p n) h apart);
        shown = (refl, refl, refl);
      }

  pub load-IsMoved :
      (part track sector : ℕ) (s : Bam D)
      → part < max_part
      → IsHome (kind_of (partitions part)) track sector
      → IsCache m at law partitions max_part few s
      → IsMissing m at law partitions max_part few s.bam_buffer2 part
          (sector_lba (kind_of (partitions part)) track sector)
      → (load_window m partitions max_part part track sector s).1 ≡ 0
      → IsMoved m at law partitions max_part few s part track sector
          (load_window m partitions max_part part track sector s).0
  unfolding load_window read_window offset_of sector_offset flushed
  load-IsMoved part track sector s lt home c missing ok =
      let f = flushed m at law partitions max_part few s.bam_buffer s.machine in
      let n = sector_lba (kind_of (partitions part)) track sector in
      let r = m.image_read f.1 part (256 * n) 256 in
      elim (Bool-cases (f.2 == 0)) [
        | inr e ↦ absurd (ground arith)
        | inl e ↦ elim (Bool-cases (r.1 == 0)) [
          | inr e1 ↦ absurd (ground arith)
          | inl e1 ↦
              let got = law.read_ok f.1 part n (ground arith) in
              rw (e, e1)
                (read-IsMoved part track sector s.bam_buffer f.0 s.bam_buffer2 s.machine f.1 r.0 r.2
                  lt home c.apart c.second missing
                  (flush_lem m at law partitions max_part few s.bam_buffer s.machine c.first
                    (ground arith))
                  (law.read_keeps f.1 part n) got.0 (subst IsSectorData (sym got.0) got.1))
        ]
      ]

  -- A window that does not match a sector of the block map does not hold its place.
  pub match-holds :
      (w : Window) (d : D) (part track sector : ℕ)
      → IsWindow m at law partitions max_part few d w
      → part < max_part
      → IsHome (kind_of (partitions part)) track sector
      → bam_buffer_match w part track sector ≡ false
      → holds m at law partitions max_part few w part
          (sector_lba (kind_of (partitions part)) track sector)
        ≡ false
  unfolding holds place
  match-holds w d part track sector ok lt home other =
      elim (Bool-cases (
        w.part == part
        && place m at law partitions max_part few w
          == sector_lba (kind_of (partitions part)) track sector)) [
            | inr e ↦ e
            | inl e ↦
                let same_p : w.part ≡ part = ground (arith, e) in
                let same_home =
                  subst (λ q. IsHome (kind_of (partitions q)) w.track w.sector) same_p
                    (ok.home (omega (arith, same_p))) in
                let same_lba : sector_lba (kind_of (partitions part)) w.track w.sector
                    ≡ sector_lba (kind_of (partitions part)) track sector =
                  ap (λ q. sector_lba (kind_of (partitions q)) w.track w.sector) (sym same_p)
                  ∙ ground (arith, e) in
                let same =
                  sector_lba-IsHome (kind_of (partitions part)) w.track w.sector track sector
                    same_home home same_lba in
                absurd (unfold bam_buffer_match in ground (arith, same, other))
          ]
