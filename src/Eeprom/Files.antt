-- ===== src/Eeprom/Files.antt =====
-- `eepromfs_open`, `eepromfs_write`, `eepromfs_read` and `eepromfs_close` of src/eeprom-fs.c. The
-- operations give `none` when the fuel runs out or a search for a free place does not end.
pub mod Sizes
use nodiskemu.Prelude.{
  ℕ, zero, suc, ◌+◌, ◌-◌, ◌*◌, ◌%◌, Bool, true, false, Option, none, some, List, [], ◌∷◌, ◌++◌, ltb,
  leb, ◌==◌, if◌then◌else◌, get_or, set, length, take, drop, replicate, min,
}
use nodiskemu.Eeprom.{
  Chip, Fs, Layout, block, nextentry, entry_size, put, put_size, max_sectors, read_entry,
  write_entry, mark_sector, next_free_sector, next_free_entry, data_offset,
}
use nodiskemu.Eeprom.Directory.{
  EefsError, error_ok, filenotfound, fileexists, dirfull, diskfull, invalid, find_entry,
}

-- `eefs_fh_t`. The file modes are 0 for reading, 1 for writing.
pub record Handle : Type 0 where
  pub size : ℕ
  pub cur_offset : ℕ
  pub entry : ℕ
  pub cur_sector : ℕ
  pub cur_soffset : ℕ
  pub cur_entry : ℕ
  pub cur_sindex : ℕ
  pub filemode : ℕ

unfoldable pub no_handle : Handle
no_handle = record {
  size = 0;
  cur_offset = 0;
  entry = 0;
  cur_sector = 0;
  cur_soffset = 0;
  cur_entry = 0;
  cur_sindex = 0;
  filemode = 0;
}

-- The search of append mode for the last allocated sector's index.
unfoldable pub last_sector : (rounds i sectoridx : ℕ) → List ℕ → ℕ
last_sector zero i sectoridx entry = sectoridx
last_sector (suc rounds) i sectoridx entry =
    let more = last_sector rounds (i + 1) i entry in
    if get_or entry i 0 == 255 then sectoridx else more

module _ {M : Type 0} (chip : Chip M) (l : Layout) where
  -- The new directory entry, in write mode.
  unfoldable pub create : List ℕ → Option (Fs M × ℕ) → Option (Fs M × Handle × EefsError)
  create name none = none
  create name (some (s, idx)) =
      let entry = set (put_size (put (replicate 32 255) 12 name) 0) 30 0 in
      if idx == 255
      then some (s, record no_handle { entry = 255 }, dirfull)
      else some (
        write_entry chip idx (record s { buffer = entry }),
        record no_handle { entry = idx; cur_entry = idx; cur_sindex = 255; filemode = 1 },
        error_ok,
      )

  -- The last entry of the chain, in append mode, from the one in the buffer.
  unfoldable pub last_entry : ℕ → (diridx : ℕ) → Fs M → Option (Fs M × ℕ)
  last_entry zero diridx s = none
  last_entry (suc fuel) diridx s =
      let next = nextentry s.buffer in
      let more = last_entry fuel next (read_entry chip next s) in
      if next == 255 then some (s, diridx) else more

  -- Append mode: `cur_sindex` keeps its 0.
  unfoldable pub at_end : (entry size : ℕ) → Option (Fs M × ℕ) → Option (Fs M × Handle × EefsError)
  at_end entry size none = none
  at_end entry size (some (s, diridx)) = some (
    s,
    record no_handle {
      entry = entry;
      size = size;
      cur_sector = get_or s.buffer (last_sector (max_sectors s.buffer) 0 0 s.buffer) 0;
      cur_entry = diridx;
      cur_offset = size;
      cur_soffset = size % l.sectorsize;
      filemode = 1;
    },
    error_ok,
  )

  -- `flags` are 0, 1 and 2, to read, to write and to append.
  unfoldable pub open_found :
      ℕ → (flags : ℕ) → List ℕ → Fs M × ℕ → Option (Fs M × Handle × EefsError)
  open_found fuel flags name (s, diridx) =
      let size = entry_size s.buffer in
      if flags == 1
      then (if diridx == 255
          then create name (next_free_entry l 0 s)
          else some (s, no_handle, fileexists))
      else if diridx == 255
      then some (s, no_handle, filenotfound)
      else if flags == 2
      then at_end diridx size (last_entry fuel diridx s)
      else some (
        s,
        record no_handle {
          entry = diridx;
          size = size;
          cur_sector = get_or s.buffer 0 0;
          cur_entry = diridx;
        },
        error_ok,
      )

  unfoldable pub open_file : ℕ → (flags : ℕ) → List ℕ → Fs M → Option (Fs M × Handle × EefsError)
  open_file fuel flags name s = open_found fuel flags name (find_entry chip l name s)

  -- The new sector's number goes into the current entry.
  unfoldable pub note_sector : ℕ → Fs M → Handle → Fs M × Handle × EefsError
  note_sector sector s fh =
      let s1 = mark_sector sector true s in
      (
        write_entry chip fh.cur_entry (record s1 { buffer = set s1.buffer fh.cur_sindex sector }),
        fh,
        error_ok,
      )

  -- A further entry for sectors, linked from the current one.
  unfoldable pub link_entry : ℕ → Handle → Option (Fs M × ℕ) → Option (Fs M × Handle × EefsError)
  link_entry sector fh none = none
  link_entry sector fh (some (s, next)) =
      let linked = write_entry chip fh.cur_entry (record s { buffer = set s.buffer 31 next }) in
      let fresh = record linked { buffer = set (replicate 32 255) 30 2 } in
      if next == 255
      then some (s, fh, dirfull)
      else some (note_sector sector fresh (record fh { cur_entry = next; cur_sindex = 0 }))

  -- The current entry has room for the sector, or a further one is linked.
  unfoldable pub extend : ℕ → Fs M → Handle → Option (Fs M × Handle × EefsError)
  extend sector s fh =
      if leb (max_sectors s.buffer) fh.cur_sindex
      then link_entry sector fh (next_free_entry l fh.cur_entry s)
      else some (note_sector sector s fh)

  -- `eepromfs_write` allocates a sector.
  unfoldable pub allocate : Fs M → Handle → Option ℕ → Option (Fs M × Handle × EefsError)
  allocate s fh none = none
  allocate s fh (some sector) =
      if sector == 255
      then some (s, fh, diskfull)
      else extend sector (read_entry chip fh.cur_entry s)
          (record fh { cur_sector = sector; cur_sindex = (fh.cur_sindex + 1) % 256 })

  unfoldable pub prepare : Fs M → Handle → Option (Fs M × Handle × EefsError)
  prepare s fh =
      if fh.cur_soffset == 0
      then allocate s fh (next_free_sector l fh.cur_sector s)
      else some (s, fh, error_ok)

  -- The address of the handle's place in the data area.
  unfoldable pub place : Handle → ℕ
  place fh = data_offset l + l.sectorsize * fh.cur_sector + fh.cur_soffset

  -- How many of `n` bytes one round moves, as a uint8_t.
  unfoldable pub portion : ℕ → Handle → ℕ
  portion n fh = min n (l.sectorsize - fh.cur_soffset) % 256

  -- What a round writes, and the handle behind it.
  unfoldable pub write_part : List ℕ → Fs M → Handle → Fs M
  write_part bytes s fh = record s { eeprom = chip.write_block s.eeprom (place fh) bytes }

  unfoldable pub advance_write : ℕ → Handle → Handle
  advance_write n fh = record fh {
    size = (fh.size + n) % 65536;
    cur_offset = (fh.cur_offset + n) % 65536;
    cur_soffset = (fh.cur_soffset + n) % l.sectorsize;
  }

  -- A result with the number of bytes written.
  abbrev pub Written : Type 0
  Written = Option (Fs M × Handle × ℕ × EefsError)

  -- One round of `eepromfs_write`, behind the allocation; `rest` is the loop.
  unfoldable pub write_round :
      (List ℕ → ℕ → Fs M → Handle → Written)
      → List ℕ
      → (written : ℕ) → Option (Fs M × Handle × EefsError)
      → Written
  write_round rest bytes written none = none
  write_round rest bytes written (some (s, fh, error_ok)) =
      let n = portion (length bytes) fh in
      rest (drop n bytes) ((written + n) % 65536) (write_part (take n bytes) s fh)
        (advance_write n fh)
  write_round rest bytes written (some (s, fh, error)) = some (s, fh, written, error)

  unfoldable pub write_loop : ℕ → List ℕ → (written : ℕ) → Fs M → Handle → Written
  write_loop zero bytes written s fh = none
  write_loop (suc fuel) [] written s fh = some (s, fh, written, error_ok)
  write_loop (suc fuel) (b ∷ bytes) written s fh =
      write_round (write_loop fuel) (b ∷ bytes) written (prepare s fh)

  unfoldable pub write : ℕ → List ℕ → Fs M → Handle → Written
  write fuel bytes s fh =
      if fh.filemode == 1 then write_loop fuel bytes 0 s fh else some (s, fh, 0, invalid)

  -- `eepromfs_read` moves to the next sector.
  unfoldable pub next_sector : Fs M → Handle → Fs M × Handle
  next_sector s fh =
      let s1 = read_entry chip fh.cur_entry s in
      let index = (fh.cur_sindex + 1) % 256 in
      let next = nextentry s1.buffer in
      let s2 = read_entry chip next s1 in
      if leb (max_sectors s1.buffer) index
      then (s2, record fh { cur_entry = next; cur_sindex = 0; cur_sector = get_or s2.buffer 0 0 })
      else (s1, record fh { cur_sindex = index; cur_sector = get_or s1.buffer index 0 })

  unfoldable pub advance_read : ℕ → Fs M → Handle → Fs M × Handle
  advance_read n s fh =
      let fh1 = record fh {
        cur_offset = (fh.cur_offset + n) % 65536;
        cur_soffset = (fh.cur_soffset + n) % l.sectorsize;
      } in
      if fh1.cur_offset == fh1.size
      then (s, fh1)
      else if fh1.cur_soffset == 0
      then next_sector s fh1
      else (s, fh1)

  -- The loop of `eepromfs_read`, for `n` bytes more.
  unfoldable pub read_loop : ℕ → (n : ℕ) → List ℕ → Fs M × Handle → Option (Fs M × Handle × List ℕ)
  read_loop zero n bytes (s, fh) = none
  read_loop (suc fuel) n bytes (s, fh) =
      let m = portion n fh in
      let part = block (chip.byte_at s.eeprom) (place fh) m in
      let more = read_loop fuel (n - m) (bytes ++ part) (advance_read m s fh) in
      if n == 0 then some (s, fh, bytes) else more

  -- The bytes that are left of the file bound the length; `size - cur_offset` is an int, never below
  -- 0 where the offset is at most the size.
  unfoldable pub read : ℕ → (n : ℕ) → Fs M → Handle → Option (Fs M × Handle × List ℕ) × EefsError
  read fuel n s fh =
      if fh.filemode == 0
      then (read_loop fuel (min n (fh.size - fh.cur_offset)) [] (s, fh), error_ok)
      else (some (s, fh, []), invalid)

  unfoldable pub close : Fs M → Handle → Fs M × Handle
  close s fh =
      let s1 = read_entry chip fh.entry s in
      let s2 = write_entry chip fh.entry (record s1 { buffer = put_size s1.buffer fh.size }) in
      (if fh.filemode == 0 then s else s2, record fh { filemode = 0 })
