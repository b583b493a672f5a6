-- ===== src/Eeprom.antt =====
-- src/eeprom-fs.c: the directory entries, the bitmaps and the searches of the small file system in
-- the EEPROM. An entry is its 32 bytes: 30 sector numbers, or 12 of them, 16 of the name and 2 of
-- the size; then the flags and the next entry. Addresses count from EEPROMFS_OFFSET.
pub mod Write
pub mod Scan
pub mod Directory
pub mod Files
pub mod Tests
use Prim.Native.Nat.{bit_and}
use nodiskemu.Prelude.{
  ℕ, zero, suc, ◌+◌, ◌-◌, ◌*◌, ◌/◌, ◌%◌, Bool, true, false, Option, none, some, List, [], ◌∷◌, ◌&&◌,
  not, ltb, leb, ◌==◌, if◌then◌else◌, get_or, set, replicate, test_bit, raise_bit, clear_bit,
}

-- `eeprom_read_block` and `eeprom_write_block`, which belong to the processor.
pub record Chip (M : Type 0) : Type 0 where
  pub byte_at : M → ℕ → ℕ
  pub write_block : M → ℕ → List ℕ → M

-- EEPROMFS_ENTRIES, EEPROMFS_SIZE and EEPROMFS_SECTORSIZE of the hardware's configuration.
pub record Layout : Type 0 where
  pub entries : ℕ
  pub size : ℕ
  pub sectorsize : ℕ

unfoldable pub data_offset : Layout → ℕ
data_offset l = l.entries * 32

-- The division is that of the compiler, for a sector size that is not 0.
unfoldable pub sector_count : Layout → ℕ
sector_count l = (l.size - l.entries * 32) / l.sectorsize

-- The static variables, the EEPROM and the buffer that `nameptr` and `listptr` point at.
pub record Fs (M : Type 0) : Type 0 where
  pub eeprom : M
  pub buffer : List ℕ
  pub used_sectors : List ℕ
  pub used_entries : List ℕ
  pub free_sectors : ℕ

unfoldable pub block : (ℕ → ℕ) → (start n : ℕ) → List ℕ
block byte start zero = []
block byte start (suc n) = byte start ∷ block byte (start + 1) n

unfoldable pub set_bit : List ℕ → ℕ → Bool → List ℕ
set_bit bitmap bit true = set bitmap (bit / 8) (raise_bit (get_or bitmap (bit / 8) 0) (bit % 8))
set_bit bitmap bit false = set bitmap (bit / 8) (clear_bit (get_or bitmap (bit / 8) 0) (bit % 8))

unfoldable pub get_bit : List ℕ → ℕ → Bool
get_bit bitmap bit = test_bit (get_or bitmap (bit / 8) 0) (bit % 8)

unfoldable pub flags : List ℕ → ℕ
flags entry = get_or entry 30 0

unfoldable pub nextentry : List ℕ → ℕ
nextentry entry = get_or entry 31 0

unfoldable pub entry_name : List ℕ → List ℕ
entry_name entry = block (λ i. get_or entry i 0) 12 16

unfoldable pub entry_size : List ℕ → ℕ
entry_size entry = get_or entry 28 0 + 256 * get_or entry 29 0

-- `memcpy` into the entry at a position.
unfoldable pub put : List ℕ → ℕ → List ℕ → List ℕ
put entry at [] = entry
put entry at (b ∷ bytes) = put (set entry at b) (at + 1) bytes

unfoldable pub put_size : List ℕ → ℕ → List ℕ
put_size entry size = put entry 28 (size % 256 ∷ size / 256 % 256 ∷ [])

unfoldable pub is_listentry : List ℕ → Bool
is_listentry entry = not (bit_and (flags entry) 2 == 0)

unfoldable pub max_sectors : List ℕ → ℕ
max_sectors entry = if is_listentry entry then 30 else 12

module _ {M : Type 0} (chip : Chip M) where
  unfoldable pub read_entry : ℕ → Fs M → Fs M
  read_entry index s = record s { buffer = block (chip.byte_at s.eeprom) (32 * index) 32 }

  -- The loop of `write_entry`: the rounds left, `i`, and `nonmatch_start` while `cur_nonmatching`.
  unfoldable pub write_changed : (buffer orig : List ℕ) → (base rounds i : ℕ) → Option ℕ → M → M
  write_changed buffer orig base zero i none m = m
  write_changed buffer orig base zero i (some start) m =
      chip.write_block m (base + start) (block (λ k. get_or buffer k 0) start (i - start))
  write_changed buffer orig base (suc rounds) i none m =
      let same = write_changed buffer orig base rounds (i + 1) none m in
      let differs = write_changed buffer orig base rounds (i + 1) (some i) m in
      if get_or buffer i 0 == get_or orig i 0 then same else differs
  write_changed buffer orig base (suc rounds) i (some start) m =
      let written =
        chip.write_block m (base + start) (block (λ k. get_or buffer k 0) start (i - start)) in
      let same = write_changed buffer orig base rounds (i + 1) none written in
      let differs = write_changed buffer orig base rounds (i + 1) (some start) m in
      if get_or buffer i 0 == get_or orig i 0 then same else differs

  -- With EEPROMFS_MINIMIZE_WRITES, which the file defines.
  unfoldable pub write_entry : ℕ → Fs M → Fs M
  write_entry index s =
      let orig = block (chip.byte_at s.eeprom) (32 * index) 32 in
      record s { eeprom = write_changed s.buffer orig (32 * index) 32 0 none s.eeprom }

  -- The other branch of the `#ifdef`.
  unfoldable pub write_whole_entry : ℕ → Fs M → Fs M
  write_whole_entry index s = record s {
    eeprom = chip.write_block s.eeprom (32 * index) (block (λ k. get_or s.buffer k 0) 0 32);
  }

-- The counter is a uint8_t; `assert` is empty under NDEBUG.
unfoldable pub mark_sector : {M : Type 0} → ℕ → Bool → Fs M → Fs M
mark_sector sector used s = record s {
  used_sectors = set_bit s.used_sectors sector used;
  free_sectors = (if used then s.free_sectors + 255 else s.free_sectors + 1) % 256;
}

-- The loop of `next_free_sector` and `next_free_entry`: 255 when it is back at its start, `none`
-- when the rounds run out.
unfoldable pub scan : (rounds : ℕ) → List ℕ → (count start cur : ℕ) → Option ℕ
scan zero bitmap count start cur = none
scan (suc rounds) bitmap count start cur =
    let up = (cur + 1) % 256 in
    let next = if up == count then 0 else up in
    let more = scan rounds bitmap count start next in
    if get_bit bitmap cur then (if next == start then some 255 else more) else some cur

unfoldable pub next_free_sector : {M : Type 0} → Layout → ℕ → Fs M → Option ℕ
next_free_sector l start s = scan 256 s.used_sectors (sector_count l) start start

-- What `next_free_entry` does behind its loop.
unfoldable pub claim_entry : {M : Type 0} → Fs M → Option ℕ → Option (Fs M × ℕ)
claim_entry s none = none
claim_entry s (some cur) =
    some
      (if cur == 255 then s else record s { used_entries = set_bit s.used_entries cur true }, cur)

unfoldable pub next_free_entry : {M : Type 0} → Layout → ℕ → Fs M → Option (Fs M × ℕ)
next_free_entry l start s = claim_entry s (scan 256 s.used_entries l.entries start start)
