-- ===== src/Eeprom/Tests.antt =====
-- Examples for src/eeprom-fs.c, on an EEPROM that is a function from addresses to bytes.
use nodiskemu.Prelude.{
  ℕ, ◌+◌, ◌-◌, ◌≤◌, ◌<◌, ◌≡◌, refl, arith, length, replicate, get_or, ltb, leb, ◌&&◌, if◌then◌else◌,
  some,
}
use nodiskemu.Eeprom.{
  Chip, Layout, Fs, write_entry, write_whole_entry, next_free_sector, sector_count,
}
use nodiskemu.Eeprom.Write.{IsEeprom, write_entry-whole}
use nodiskemu.Eeprom.Scan.{next_free_sector-IsAnswer}
use nodiskemu.Eeprom.Scan
use nodiskemu.Eeprom.Directory.{find_entry}
use nodiskemu.Eeprom.Directory.Find.{find_entry-IsAnswer}
use nodiskemu.Eeprom.Directory.Find
use nodiskemu.Eeprom.Files.{Handle, write}
use nodiskemu.Eeprom.Files.Sizes.{IsDone, IsDevice, IsOpen, write-IsDone}

abbrev pub chip : Chip (ℕ → ℕ)
chip = record {
  byte_at = λ m a. m a;
  write_block = λ m at bytes a.
      if leb at a && ltb a (at + length bytes) then get_or bytes (a - at) 0 else m a;
}

pub chip-IsEeprom : IsEeprom chip
chip-IsEeprom m at bytes a = refl

-- The configuration of the AVR boards.
abbrev layout : Layout
layout = record { entries = 8; size = 3584; sectorsize = 64 }

-- An erased EEPROM, and an entry of zeros in the buffer.
abbrev blank : Fs (ℕ → ℕ)
blank = record {
  eeprom = λ a. 255;
  buffer = replicate 32 0;
  used_sectors = replicate 7 0;
  used_entries = replicate 1 0;
  free_sectors = 52;
}

write_entry-whole_example :
    (write_entry chip 3 blank).eeprom 100 ≡ (write_whole_entry chip 3 blank).eeprom 100
write_entry-whole_example = write_entry-whole chip chip-IsEeprom 3 blank 100

sector_count_le : sector_count layout ≤ 255
unfolding sector_count
sector_count_le = omega arith

sector_count_gt : 51 < sector_count layout
unfolding sector_count
sector_count_gt = omega arith

next_free_sector-IsAnswer_example :
    (c : ℕ) × (next_free_sector layout 51 blank ≡ some c)
    × Scan.IsAnswer blank.used_sectors (sector_count layout) 51 c
next_free_sector-IsAnswer_example =
    next_free_sector-IsAnswer layout 51 blank sector_count_le sector_count_gt

find_entry-IsAnswer_example :
    Find.IsAnswer chip
      (replicate 16 65)
      blank
      0
      8
      (find_entry chip layout (replicate 16 65) blank).0
      (find_entry chip layout (replicate 16 65) blank).1
find_entry-IsAnswer_example = find_entry-IsAnswer chip layout (replicate 16 65) blank

abbrev handle : Handle
handle = record {
  size = 0;
  cur_offset = 0;
  entry = 2;
  cur_sector = 51;
  cur_soffset = 0;
  cur_entry = 2;
  cur_sindex = 255;
  filemode = 1;
}

layout-IsDevice : IsDevice chip layout
layout-IsDevice = record {
  entries_le = omega arith;
  sectors_le = sector_count_le;
  size_pos = omega arith;
  size_le = omega arith;
}

handle-IsOpen : IsOpen chip layout handle
handle-IsOpen = record {
  sector_lt = sector_count_gt;
  entry_lt = omega arith;
  offset_lt = omega arith;
}

write-IsDone_example :
    IsDone chip layout handle 100 (write chip layout 101 (replicate 100 65) blank handle)
write-IsDone_example =
    write-IsDone chip layout layout-IsDevice (replicate 100 65) blank handle handle-IsOpen refl
      (omega arith) (omega arith)
