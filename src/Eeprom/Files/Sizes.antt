-- ===== src/Eeprom/Files/Sizes.antt =====
-- `eepromfs_write` of src/eeprom-fs.c: how the size of a file follows the bytes written.
use nodiskemu.Prelude.{
  ℕ, zero, suc, ◌+◌, ◌-◌, ◌%◌, ◌≤◌, ◌<◌, Option, none, some, List, [], ◌∷◌, ◌≡◌, refl, sym, ◌∙◌,
  arith, length, drop, take, length-drop, inl, inr, leb, ◌⊎◌, ◌==◌,
}
use mathlib.Core.Path.{subst}
use native.Mathlib.Nat.{mod-lt}
use nodiskemu.Eeprom.{
  Chip, Fs, Layout, scan, claim_entry, max_sectors, read_entry, next_free_sector, next_free_entry,
  sector_count,
}
use nodiskemu.Eeprom.Scan.{scan_total}
use nodiskemu.Eeprom.Write.{if_intro}
use nodiskemu.Eeprom.Directory.{EefsError, error_ok, dirfull, diskfull}
use nodiskemu.Eeprom.Files.{
  Handle, note_sector, extend, link_entry, allocate, prepare, portion, write_part, advance_write,
  write_loop, write_round, write, Written,
}

module _ {M : Type 0} (chip : Chip M) (l : Layout) where
  -- Of a handle and what a write has counted: the sizes have grown by the count.
  abbrev pub IsGrown : (before after : Handle) → ℕ → Type 0
  IsGrown before after written =
      (after.size ≡ (before.size + written) % 65536)
      × (after.cur_offset ≡ (before.cur_offset + written) % 65536)

  -- The places of an open handle exist.
  pub record IsOpen (fh : Handle) : Type 0 where
    pub sector_lt : fh.cur_sector < sector_count l
    pub entry_lt : fh.cur_entry < l.entries
    pub offset_lt : fh.cur_soffset < l.sectorsize

  -- The error that ends a write.
  abbrev pub IsEnd : EefsError → Type 0
  IsEnd error_ok = Unit
  IsEnd dirfull = Unit
  IsEnd diskfull = Unit
  IsEnd _ = ⊥

  -- A sector is there to write to, or an error says why not. The handle stays open, and its sizes
  -- and offsets are those it had.
  abbrev IsReady : Handle → Option (Fs M × Handle × EefsError) → Type 0
  IsReady fh none = ⊥
  IsReady fh (some (s, fh1, e)) =
      IsOpen fh1 × (fh1.size ≡ fh.size) × (fh1.cur_offset ≡ fh.cur_offset) × IsEnd e

  abbrev IsPlace : (count : ℕ) → Option ℕ → Type 0
  IsPlace count none = ⊥
  IsPlace count (some c) = (c < count) ⊎ (c ≡ 255)

  abbrev IsEntry : Option (Fs M × ℕ) → Type 0
  IsEntry none = ⊥
  IsEntry (some (s, c)) = (c < l.entries) ⊎ (c ≡ 255)

  scan-IsPlace :
      (bitmap : List ℕ)
      → (count start : ℕ) → count ≤ 255
      → start < count
      → IsPlace count (scan 256 bitmap count start start)
  scan-IsPlace bitmap count start small lt =
      let (c, eq, answer) = scan_total bitmap count start small lt in
      subst (IsPlace count) (sym eq)
        (elim answer [ inl (below, free) ↦ inl below | inr (full, used) ↦ inr full ])

  claim_entry-IsEntry :
      (s : Fs M) → (o : Option ℕ) → IsPlace l.entries o → IsEntry (claim_entry s o)
  unfolding claim_entry
  claim_entry-IsEntry s none place = place
  claim_entry-IsEntry s (some c) place = place

  note_sector-IsReady :
      (sector : ℕ)
      → (s : Fs M) → (fh : Handle) → IsOpen fh
      → IsReady fh (some (note_sector chip l sector s fh))
  unfolding note_sector
  note_sector-IsReady sector s fh is_open = (is_open, refl, refl, tt)

  link_entry-IsReady :
      (sector : ℕ)
      → (fh : Handle) → IsOpen fh
      → (o : Option (Fs M × ℕ)) → IsEntry o
      → IsReady fh (link_entry chip l sector fh o)
  unfolding link_entry note_sector
  link_entry-IsReady sector fh is_open none place = place
  link_entry-IsReady sector fh is_open (some (s, next)) place =
      if_intro (IsReady fh) (next == 255) (λ full. (is_open, refl, refl, tt))
        (λ free. (
          record {
            sector_lt = is_open.sector_lt;
            entry_lt = elim place [ inl lt ↦ lt | inr eq ↦ absurd (ground arith) ];
            offset_lt = is_open.offset_lt;
          },
          refl,
          refl,
          tt,
        ))

  extend-IsReady :
      (sector : ℕ)
      → (s : Fs M) → (fh : Handle) → l.entries ≤ 255
      → IsOpen fh
      → IsReady fh (extend chip l sector s fh)
  unfolding extend next_free_entry
  extend-IsReady sector s fh small is_open =
      if_intro (IsReady fh) (leb (max_sectors s.buffer) fh.cur_sindex)
        (λ full. link_entry-IsReady sector fh is_open _ (
          claim_entry-IsEntry s _
            (scan-IsPlace s.used_entries l.entries fh.cur_entry small is_open.entry_lt)))
        (λ room. note_sector-IsReady sector s fh is_open)

  allocate-IsReady :
      (s : Fs M)
      → (fh : Handle) → l.entries ≤ 255
      → IsOpen fh
      → (o : Option ℕ) → IsPlace (sector_count l) o
      → IsReady fh (allocate chip l s fh o)
  unfolding allocate
  allocate-IsReady s fh small is_open none place = place
  allocate-IsReady s fh small is_open (some sector) place =
      if_intro (IsReady fh) (sector == 255) (λ full. (is_open, refl, refl, tt))
        (λ free.
          let moved : Handle = record fh {
            cur_sector = sector;
            cur_sindex = (fh.cur_sindex + 1) % 256;
          } in
          extend-IsReady sector (read_entry chip fh.cur_entry s) moved small (record {
            sector_lt = elim place [ inl lt ↦ lt | inr eq ↦ absurd (ground arith) ];
            entry_lt = is_open.entry_lt;
            offset_lt = is_open.offset_lt;
          }))

  prepare-IsReady :
      (s : Fs M)
      → (fh : Handle) → l.entries ≤ 255
      → sector_count l ≤ 255
      → IsOpen fh
      → IsReady fh (prepare chip l s fh)
  unfolding prepare next_free_sector
  prepare-IsReady s fh small few is_open =
      if_intro (IsReady fh) (fh.cur_soffset == 0)
        (λ full.
          allocate-IsReady s fh small is_open _
            (scan-IsPlace s.used_sectors (sector_count l) fh.cur_sector few is_open.sector_lt))
        (λ room. (is_open, refl, refl, tt))

  -- What a write of `total` bytes in all ends with, for the handle that it began with.
  abbrev pub IsDone : Handle → (total : ℕ) → Written chip l → Type 0
  IsDone base total none = ⊥
  IsDone base total (some (s, fh, written, e)) =
      IsGrown base fh written × IsEnd e × (e ≡ error_ok → written ≡ total % 65536)

  -- The conditions on the device.
  pub record IsDevice : Type 0 where
    pub entries_le : l.entries ≤ 255
    pub sectors_le : sector_count l ≤ 255
    pub size_pos : 0 < l.sectorsize
    pub size_le : l.sectorsize ≤ 255

  portion-bounds :
      IsDevice
      → (n : ℕ) → (fh : Handle) → fh.cur_soffset < l.sectorsize
      → 0 < n
      → (0 < portion chip l n fh) × (portion chip l n fh ≤ n)
  unfolding portion
  portion-bounds device n fh lt pos = ground (arith, device.size_le)

  advance_write-IsOpen :
      IsDevice → (n : ℕ) → (fh : Handle) → IsOpen fh → IsOpen (advance_write chip l n fh)
  unfolding advance_write
  advance_write-IsOpen device n fh is_open = record {
    sector_lt = is_open.sector_lt;
    entry_lt = is_open.entry_lt;
    offset_lt = mod-lt (fh.cur_soffset + n) device.size_pos;
  }

  retotal :
      (base : Handle)
      → (total total1 : ℕ) → (o : Written chip l) → total % 65536 ≡ total1 % 65536
      → IsDone base total o
      → IsDone base total1 o
  retotal base total total1 none eq done = done
  retotal base total total1 (some (s, fh, written, e)) eq (grown, end, count) =
      (grown, end, λ ok. count ok ∙ eq)

  -- What `write_round-IsDone` asks of the rounds that follow.
  abbrev IsContinued : (List ℕ → ℕ → Fs M → Handle → Written chip l) → List ℕ → ℕ → Handle → Type 0
  IsContinued rest bytes written base =
      (n written1 : ℕ)
      → (s1 : Fs M) → (fh1 : Handle) → 0 < n
      → n ≤ length bytes
      → written1 ≡ (written + n) % 65536
      → IsOpen fh1
      → IsGrown base fh1 written1
      → IsDone base (written1 + (length bytes - n)) (rest (drop n bytes) written1 s1 fh1)

  write_round-IsDone :
      IsDevice
      → (rest : List ℕ → ℕ → Fs M → Handle → Written chip l) → (bytes : List ℕ) → 0 < length bytes
      → (written : ℕ) → (fh base : Handle) → IsGrown base fh written
      → IsContinued rest bytes written base
      → (o : Option (Fs M × Handle × EefsError)) → IsReady fh o
      → IsDone base (written + length bytes) (write_round chip l rest bytes written o)
  unfolding write_round advance_write
  write_round-IsDone device rest bytes pos written fh base grown next none ready = ready
  write_round-IsDone device rest bytes pos written fh base grown next (some (s1, fh1, error_ok))
        (is_open, size, offset, end) =
      let n = portion chip l (length bytes) fh1 in
      let s2 = write_part chip l (take n bytes) s1 fh1 in
      let fh2 = advance_write chip l n fh1 in
      let (n_pos, n_le) = portion-bounds device (length bytes) fh1 is_open.offset_lt pos in
      retotal base ((written + n) % 65536 + (length bytes - n)) (written + length bytes)
        (rest (drop n bytes) ((written + n) % 65536) s2 fh2) (omega arith)
        (next n ((written + n) % 65536) s2 fh2 n_pos n_le refl
          (advance_write-IsOpen device n fh1 is_open)
          (omega (arith, grown.0, size), omega (arith, grown.1, offset)))
  write_round-IsDone device rest bytes pos written fh base grown next (some (s1, fh1, dirfull))
        (is_open, size, offset, end) =
      ((size ∙ grown.0, offset ∙ grown.1), tt, λ ok. absurd (ground arith))
  write_round-IsDone device rest bytes pos written fh base grown next (some (s1, fh1, diskfull))
        (is_open, size, offset, end) =
      ((size ∙ grown.0, offset ∙ grown.1), tt, λ ok. absurd (ground arith))
  write_round-IsDone device rest bytes pos written fh base grown next (some (s1, fh1, _))
        (is_open, size, offset, end) =
      absurd end

  write_loop-IsDone :
      IsDevice
      → (fuel : ℕ) → (bytes : List ℕ) → length bytes < fuel
      → (written : ℕ) → written < 65536
      → (s : Fs M) → (fh base : Handle) → IsOpen fh
      → IsGrown base fh written
      → IsDone base (written + length bytes) (write_loop chip l fuel bytes written s fh)
  unfolding write_loop
  write_loop-IsDone device zero bytes enough written small s fh base is_open grown = omega arith
  write_loop-IsDone device (suc fuel) [] enough written small s fh base is_open grown =
      (grown, tt, λ ok. omega arith)
  write_loop-IsDone device (suc fuel) (b ∷ bytes) enough written small s fh base is_open grown =
      write_round-IsDone device (write_loop chip l fuel) (b ∷ bytes) (omega arith) written fh base
        grown
        (λ n written1 s1 fh1 pos le eq open1 grown1.
          subst
            (λ k.
              IsDone base (written1 + k)
                (write_loop chip l fuel (drop n (b ∷ bytes)) written1 s1 fh1))
            (length-drop n (b ∷ bytes))
            (write_loop-IsDone device fuel (drop n (b ∷ bytes))
              (omega (arith, length-drop n (b ∷ bytes))) written1 (omega arith) s1 fh1 base open1
              grown1))
        (prepare chip l s fh) (prepare-IsReady s fh device.entries_le device.sectors_le is_open)

  -- On a device of at most 255 entries and 255 sectors of 1 to 255 bytes, a write on a handle that
  -- is open for writing, whose places exist and whose sizes are below 2^16, ends. The size and the
  -- offset have then grown, modulo 2^16, by the count of bytes written; without an error all bytes
  -- are written, modulo 2^16, and the only errors are a full directory and a full disk.
  pub write-IsDone :
      IsDevice
      → (bytes : List ℕ) → (s : Fs M) → (fh : Handle) → IsOpen fh
      → fh.filemode ≡ 1
      → fh.size < 65536
      → fh.cur_offset < 65536
      → IsDone fh (length bytes) (write chip l (suc (length bytes)) bytes s fh)
  unfolding write
  write-IsDone device bytes s fh is_open mode size offset =
      if_intro (IsDone fh (length bytes)) (fh.filemode == 1)
        (λ yes_mode.
          retotal fh (0 + length bytes) (length bytes)
            (write_loop chip l (suc (length bytes)) bytes 0 s fh) (omega arith)
            (write_loop-IsDone device (suc (length bytes)) bytes (omega arith) 0 (omega arith) s fh
              fh is_open (omega arith, omega arith)))
        (λ other. absurd (ground arith))
