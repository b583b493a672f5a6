-- ===== src/Eeprom/Directory.antt =====
-- The directory operations of src/eeprom-fs.c: `find_entry`, `eepromfs_init`, `eepromfs_format`,
-- `eepromfs_readdir`, `eepromfs_rename` and `eepromfs_delete`.
pub mod Find
use Prim.Native.Nat.{bit_and}
use nodiskemu.Prelude.{
  ℕ, zero, suc, ◌+◌, ◌-◌, ◌*◌, ◌/◌, Bool, true, false, Option, none, some, List, [], ◌∷◌, ◌&&◌, ltb,
  leb, ◌==◌, if◌then◌else◌, get_or, replicate,
}
use nodiskemu.Eeprom.{
  Chip, Fs, Layout, block, flags, nextentry, entry_name, entry_size, put, is_listentry, max_sectors,
  read_entry, write_entry, mark_sector, set_bit, sector_count,
}

-- `eefs_error_t`, as far as the file returns it.
pub data EefsError : Type 0 where
  error_ok filenotfound fileexists dirfull diskfull invalid : EefsError

-- `!memcmp(...)` on names of one length.
unfoldable pub same_bytes : List ℕ → List ℕ → Bool
same_bytes [] [] = true
same_bytes (x ∷ xs) (y ∷ ys) = (x == y) && same_bytes xs ys
same_bytes _ _ = false

-- An entry that `find_entry` returns for a name.
unfoldable pub is_named : List ℕ → List ℕ → Bool
is_named name entry = (bit_and (flags entry) 3 == 0) && same_bytes (entry_name entry) name

-- `eefs_dirent_t`
pub record DirEntry : Type 0 where
  pub name : List ℕ
  pub flags : ℕ
  pub size : ℕ

module _ {M : Type 0} (chip : Chip M) where
  -- The loop of `find_entry`: the entries left, and the next index.
  unfoldable pub find_from : (rounds idx : ℕ) → List ℕ → Fs M → Fs M × ℕ
  find_from zero idx name s = (s, 255)
  find_from (suc rounds) idx name s =
      let s1 = read_entry chip idx s in
      let more = find_from rounds (idx + 1) name s1 in
      if is_named name s1.buffer then (s1, idx) else more

  unfoldable pub find_entry : Layout → List ℕ → Fs M → Fs M × ℕ
  find_entry l name s = find_from l.entries 0 name s

  -- The sectors of the entry in the buffer, in `eepromfs_init`: those in use are marked.
  unfoldable pub mark_all : (rounds j : ℕ) → Fs M → Fs M
  mark_all zero j s = s
  mark_all (suc rounds) j s =
      let sector = get_or s.buffer j 0 in
      mark_all rounds (j + 1) (if sector == 255 then s else mark_sector sector true s)

  unfoldable pub init_from : (rounds i : ℕ) → Fs M → Fs M
  init_from zero i s = s
  init_from (suc rounds) i s =
      let s1 = read_entry chip i s in
      let s2 = record s1 { used_entries = set_bit s1.used_entries i true } in
      init_from rounds (i + 1)
        (if bit_and (flags s1.buffer) 1 == 0 then mark_all (max_sectors s2.buffer) 0 s2 else s1)

  unfoldable pub init : Layout → Fs M → Fs M
  init l s = init_from l.entries 0 (record s {
    free_sectors = sector_count l;
    used_sectors = replicate ((sector_count l + 7) / 8) 0;
    used_entries = replicate ((l.entries + 7) / 8) 0;
  })

  -- The words of 4 bytes that are not erased are written.
  unfoldable pub format_from : (rounds addr : ℕ) → M → M
  format_from zero addr m = m
  format_from (suc rounds) addr m =
      let erased = replicate 4 255 in
      format_from rounds (addr + 4) (
        if same_bytes (block (chip.byte_at m) addr 4) erased
        then m
        else chip.write_block m addr erased)

  unfoldable pub format : Layout → Fs M → Fs M
  format l s = init l (record s { eeprom = format_from ((l.size + 3) / 4) 0 s.eeprom })

  -- The loop of `eepromfs_readdir`: the state, the handle's index and the entry, if there is one.
  unfoldable pub readdir_from : (rounds idx : ℕ) → Fs M → Fs M × ℕ × Option DirEntry
  readdir_from zero idx s = (s, idx, none)
  readdir_from (suc rounds) idx s =
      let s1 = read_entry chip idx s in
      let more = readdir_from rounds (idx + 1) s1 in
      let entry : DirEntry = record {
        name = entry_name s1.buffer;
        flags = nodiskemu.Eeprom.flags s1.buffer;
        size = entry_size s1.buffer;
      } in
      if bit_and (nodiskemu.Eeprom.flags s1.buffer) 3 == 0 then (s1, idx + 1, some entry) else more

  unfoldable pub readdir : Layout → ℕ → Fs M → Fs M × ℕ × Option DirEntry
  readdir l idx s = readdir_from (l.entries - idx) idx s

  -- What `eepromfs_rename` does behind its second search.
  unfoldable pub rename_found : List ℕ → Fs M × ℕ → Fs M × EefsError
  rename_found newname (s, diridx) =
      if diridx == 255
      then (s, filenotfound)
      else (write_entry chip diridx (record s { buffer = put s.buffer 12 newname }), error_ok)

  -- And behind its first.
  unfoldable pub rename_checked : Layout → (oldname newname : List ℕ) → Fs M × ℕ → Fs M × EefsError
  rename_checked l oldname newname (s, diridx) =
      if diridx == 255 then rename_found newname (find_entry l oldname s) else (s, fileexists)

  unfoldable pub rename : Layout → (oldname newname : List ℕ) → Fs M → Fs M × EefsError
  rename l oldname newname s = rename_checked l oldname newname (find_entry l newname s)

  -- The sectors of the entry in the buffer, in `eepromfs_delete`: up to the first free one.
  unfoldable pub release_all : (rounds i : ℕ) → Fs M → Fs M
  release_all zero i s = s
  release_all (suc rounds) i s =
      let sector = get_or s.buffer i 0 in
      let rest = release_all rounds (i + 1) (mark_sector sector false s) in
      if sector == 255 then s else rest

  -- The chain of entries; `none` when the fuel runs out.
  unfoldable pub delete_chain : ℕ → (diridx : ℕ) → Fs M → Option (Fs M)
  delete_chain zero diridx s = none
  delete_chain (suc fuel) diridx s =
      let s1 = release_all (max_sectors s.buffer) 0 s in
      let next = nextentry s1.buffer in
      let s2 = write_entry chip diridx (record s1 { buffer = replicate 32 255 }) in
      let rest = delete_chain fuel next (read_entry chip next s2) in
      if next == 255 then some s2 else rest

  unfoldable pub delete_found : ℕ → Fs M × ℕ → Option (Fs M × EefsError)
  delete_found fuel (s, diridx) =
      if diridx == 255
      then some (s, filenotfound)
      else elim (delete_chain fuel diridx s) [ none ↦ none | some s1 ↦ some (s1, error_ok) ]

  unfoldable pub delete : ℕ → Layout → List ℕ → Fs M → Option (Fs M × EefsError)
  delete fuel l name s = delete_found fuel (find_entry l name s)
