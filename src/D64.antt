-- ===== src/D64.antt =====
-- src/d64ops.c: the geometry of the Dxx disk images and of their block maps (BAM).
pub mod Geometry
pub mod Collisions
pub mod Mount
pub mod Bam
pub mod Read
pub mod Files
pub mod Delete
pub mod Search
mod Tests
use Prim.Native.Nat.{bit_and}
use nodiskemu.Prelude.{
  ℕ, zero, suc, ◌+◌, ◌-◌, ◌*◌, ◌/◌, ◌%◌, Bool, true, false, Option, none, some, ltb, leb, ◌==◌,
  if◌then◌else◌,
}

-- What the switches on `imagetype & D64_TYPE_MASK` tell apart.
pub data Kind : Type 0 where
  d41 d71 d81 dnp d80 d82 other : Kind

-- The values D64_TYPE_* of src/d64ops.h, behind the mask.
unfoldable pub image_kind : ℕ → Kind
image_kind imagetype =
    let masked = bit_and imagetype 0x7f in
    if masked == 1
    then dnp
    else if masked == 2
    then d41
    else if masked == 3
    then d71
    else if masked == 4
    then d81
    else if masked == 8
    then d80
    else if masked == 16
    then d82
    else other

-- `struct param_s`, but for the pointer to the format function.
pub record Param : Type 0 where
  pub dir_track : ℕ
  pub dir_start_sector : ℕ
  pub last_track : ℕ
  pub label_offset : ℕ
  pub id_offset : ℕ
  pub file_interleave : ℕ
  pub dir_interleave : ℕ

abbrev param : (dir_track dir_start last label id file_il dir_il : ℕ) → Param
param dir_track dir_start last label id file_il dir_il = record {
  dir_track = dir_track;
  dir_start_sector = dir_start;
  last_track = last;
  label_offset = label;
  id_offset = id;
  file_interleave = file_il;
  dir_interleave = dir_il;
}

abbrev pub d41param : Param
d41param = param 18 1 35 0x90 0xa2 10 3

abbrev pub d71param : Param
d71param = param 18 1 70 0x90 0xa2 6 3

abbrev pub d81param : Param
d81param = param 40 3 80 0x04 0x16 1 1

-- `last_track` is set when the image is mounted.
abbrev pub dnpparam : Param
dnpparam = param 1 1 0 4 22 1 1

abbrev pub d80param : Param
d80param = param 39 1 77 6 0x18 5 3

abbrev pub d82param : Param
d82param = param 39 1 154 6 0x18 5 3

-- The 1541 zones; `track` counts from 0, `offset` is that of the disk's side.
unfoldable pub lba_1541 : (track sector offset : ℕ) → ℕ
lba_1541 track sector offset =
    if ltb track 17
    then track * 21 + sector + offset
    else if ltb track 24
    then 17 * 21 + (track - 17) * 19 + sector + offset
    else if ltb track 30
    then 17 * 21 + 7 * 19 + (track - 24) * 18 + sector + offset
    else 17 * 21 + 7 * 19 + 6 * 18 + (track - 30) * 17 + sector + offset

-- The 8050 zones, as the source has them.
unfoldable pub lba_8050 : (track sector offset : ℕ) → ℕ
lba_8050 track sector offset =
    if ltb track 39
    then track * 29 + sector + offset
    else if ltb track 53
    then 39 * 29 + (track - 39) * 27 + sector + offset
    else if ltb track 64
    then 39 * 29 + 14 * 27 + (track - 53) * 25 + sector + offset
    else 39 * 29 + 14 * 27 + 11 * 25 + (track - 64) + sector + offset

-- `sector_lba` behind `track--`.
unfoldable pub lba_of : Kind → (track sector : ℕ) → ℕ
unfolding lba_1541 lba_8050
lba_of d81 track sector = track * 40 + sector
lba_of dnp track sector = track * 256 + sector
lba_of d80 track sector =
    if leb 78 track then lba_8050 (track - 77) sector 2083 else lba_8050 track sector 0
lba_of d82 track sector =
    if leb 78 track then lba_8050 (track - 77) sector 2083 else lba_8050 track sector 0
lba_of _ track sector =
    if leb 35 track then lba_1541 (track - 35) sector 683 else lba_1541 track sector 0

-- The result is a uint16_t, the decrement one of a uint8_t.
unfoldable pub sector_lba : Kind → (track sector : ℕ) → ℕ
unfolding lba_of
sector_lba kind track sector = lba_of kind ((track + 255) % 256) sector % 65536

unfoldable pub sector_offset : Kind → (track sector : ℕ) → ℕ
sector_offset kind track sector = 256 * sector_lba kind track sector

unfoldable pub zone_8050 : ℕ → ℕ
zone_8050 track =
    if ltb track 40 then 29 else if ltb track 54 then 27 else if ltb track 65 then 25 else 23

unfoldable pub zone_1541 : ℕ → ℕ
zone_1541 track =
    if ltb track 18 then 21 else if ltb track 25 then 19 else if ltb track 31 then 18 else 17

unfoldable pub sectors_per_track : Kind → ℕ → ℕ
unfolding zone_8050 zone_1541
sectors_per_track d81 track = 40
sectors_per_track dnp track = 256
sectors_per_track d80 track = zone_8050 (if ltb 77 track then track - 77 else track)
sectors_per_track d82 track = zone_8050 (if ltb 77 track then track - 77 else track)
sectors_per_track _ track = zone_1541 (if ltb 35 track then track - 35 else track)

-- `bamdata_t`
pub data BamData : Type 0 where
  bitfield freecount : BamData

pub is_bitfield : BamData → ℕ
is_bitfield bitfield = 1
is_bitfield freecount = 0

pub record Position : Type 0 where
  pub track : ℕ
  pub sector : ℕ
  pub pos : ℕ

-- `while (track > 50) { s += 3; track -= 50; }`, with rounds for every uint8_t.
pub d80_window : ℕ → (s track : ℕ) → ℕ × ℕ
d80_window zero s track = (s, track)
d80_window (suc rounds) s track =
    let more = d80_window rounds (s + 3) (track - 50) in if ltb 50 track then more else (s, track)

-- The switch of `move_bam_window`; `pos` is a uint8_t.
unfoldable pub bam_position : Kind → BamData → ℕ → Position
unfolding is_bitfield d80_window
bam_position d71 type track =
    if ltb 35 track
    then elim type [
      | bitfield ↦ record { track = 53; sector = 0; pos = (track - 36) * 3 % 256 }
      | freecount ↦ record { track = 18; sector = 0; pos = (track - 36 + 0xdd) % 256 }
    ]
    else record { track = 18; sector = 0; pos = (4 * track + is_bitfield type) % 256 }
bam_position d81 type track = record {
  track = 40;
  sector = if ltb track 41 then 1 else 2;
  pos = (10 + (if ltb 40 track then track - 40 else track) * 6 + is_bitfield type) % 256;
}
bam_position dnp type track = record { track = 1; sector = 2 + track / 8; pos = track % 8 * 32 }
bam_position d80 type track =
    let (s, t) = d80_window 6 0 track in
    record { track = 38; sector = s; pos = (1 + 5 * t + is_bitfield type) % 256 }
bam_position d82 type track =
    let (s, t) = d80_window 6 0 track in
    record { track = 38; sector = s; pos = (1 + 5 * t + is_bitfield type) % 256 }
bam_position _ type track = record {
  track = 18;
  sector = 0;
  pos = (4 * track + is_bitfield type) % 256;
}
