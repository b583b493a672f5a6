-- ===== src/Config.antt =====
-- src/eeprom-conf.c: the settings that are kept in the first 34 bytes of the EEPROM.
pub mod Stored
pub mod Checksum
pub mod Names
pub mod Storable
pub mod RoundTrip
pub mod Damage
pub mod Addresses
mod Tests
use Prim.Native.Nat.{bit_and, bit_or}
use nodiskemu.Prelude.{
  ℕ, zero, suc, ◌+◌, ◌-◌, ◌*◌, ◌/◌, ◌%◌, Bool, false, List, [], ◌∷◌, ◌++◌, not, ltb, ◌==◌,
  if◌then◌else◌, take, drop, replicate, get_or,
}
use nodiskemu.Eeprom.{Chip, block}

-- The macros NEED_DISKMUX, HAVE_DUAL_INTERFACE, CONFIG_HW_ADDR_OR_BUTTONS, CONFIG_ONBOARD_DISPLAY.
pub record Build : Type 0 where
  pub need_diskmux : Bool
  pub have_dual_interface : Bool
  pub hw_addr_or_buttons : Bool
  pub onboard_display : Bool

-- The hardware: the EEPROM, the address jumpers, whose reading depends on `menu_system_enabled`, the
-- drives of this board, and the two calls of the display.
pub record Board (M D : Type 0) : Type 0 where
  pub chip : Chip M
  pub device_hw_address : ℕ → ℕ
  pub get_default_driveconfig : ℕ
  pub lcd_set_contrast : ℕ → D → D
  pub lcd_set_brightness : ℕ → D → D

-- The EEPROM, the display and the variables that are stored.
pub record Settings (M D : Type 0) : Type 0 where
  pub eeprom : M
  pub display : D
  pub globalflags : ℕ
  pub device_address : ℕ
  pub file_extension_mode : ℕ
  pub drive_config : ℕ
  pub image_as_dir : ℕ
  pub rom_filename : List ℕ
  pub active_bus : ℕ
  pub menu_system_enabled : ℕ
  pub lcd_contrast : ℕ
  pub lcd_brightness : ℕ

-- ROM_NAME_LENGTH, and `sizeof(rom_filename)`.
abbrev pub rom_name_length : ℕ
rom_name_length = 16

unfoldable pub ustrlen : List ℕ → ℕ
ustrlen [] = 0
ustrlen (zero ∷ text) = 0
ustrlen (suc c ∷ text) = suc (ustrlen text)

-- The `memset` from the end of the text on.
unfoldable pub clear_tail : List ℕ → List ℕ
clear_tail text = take (ustrlen text) text ++ replicate (rom_name_length + 1 - ustrlen text) 0

-- The loops over the bytes from `i` on, in a uint8_t.
unfoldable pub add_bytes : (ℕ → ℕ) → (rounds i checksum : ℕ) → ℕ
add_bytes byte zero i checksum = checksum
add_bytes byte (suc rounds) i checksum = add_bytes byte rounds (i + 1) ((checksum + byte i) % 256)

module _ {M : Type 0} (chip : Chip M) where
  unfoldable pub read_word : M → ℕ → ℕ
  read_word m at = chip.byte_at m at + 256 * chip.byte_at m (at + 1)

  unfoldable pub write_byte : M → ℕ → ℕ → M
  write_byte m at value = chip.write_block m at (value % 256 ∷ [])

  unfoldable pub write_word : M → ℕ → ℕ → M
  write_word m at value = chip.write_block m at (value % 256 ∷ value / 256 % 256 ∷ [])

  -- Whether the checksum over `size` bytes is the one that is stored.
  unfoldable pub is_checksum_right : M → ℕ → Bool
  is_checksum_right m size = add_bytes (chip.byte_at m) (size - 2) 2 0 == chip.byte_at m 1

module _ {M D : Type 0} (build : Build) (board : Board M D) where
  -- `write_configuration` up to the names, with POSTMATCH | EXTENSION_HIDING = 24.
  unfoldable pub write_drives : Settings M D → M → M
  write_drives s m =
      let sized = write_word board.chip m 2 34 in
      let flagged = write_byte board.chip sized 5 (bit_and s.globalflags 24) in
      let addressed = write_byte board.chip flagged 6 s.device_address in
      let jumpers = board.device_hw_address s.menu_system_enabled in
      let wired = write_byte board.chip addressed 7 jumpers in
      let extended = write_byte board.chip wired 8 s.file_extension_mode in
      let low = write_word board.chip extended 9 (s.drive_config % 65536) in
      let high = write_word board.chip low 11 (s.drive_config / 65536 % 65536) in
      if build.need_diskmux then high else extended

  -- The rest, up to the checksum.
  unfoldable pub write_names : Settings M D → M → M
  write_names s m =
      let listed = write_byte board.chip m 13 s.image_as_dir in
      let name = block (λ i. get_or (clear_tail s.rom_filename) i 0) 0 rom_name_length in
      let named = board.chip.write_block listed 14 name in
      let bus = write_byte board.chip named 30 s.active_bus in
      let menu = write_byte board.chip bus 31 s.menu_system_enabled in
      let buttons = if build.hw_addr_or_buttons then menu else bus in
      let contrast = write_byte board.chip buttons 32 s.lcd_contrast in
      let brightness = write_byte board.chip contrast 33 s.lcd_brightness in
      if build.onboard_display then brightness else buttons

  unfoldable pub write_configuration : Settings M D → Settings M D
  write_configuration s =
      let m = write_names s (write_drives s s.eeprom) in
      let checksum = add_bytes (board.chip.byte_at m) 32 2 0 in
      record s {
        eeprom = write_byte board.chip m 1 checksum;
        rom_filename = clear_tail s.rom_filename;
      }

  -- `set_drive_config`, which is empty without NEED_DISKMUX.
  unfoldable pub set_drive_config : ℕ → Settings M D → Settings M D
  set_drive_config config s = record s {
    drive_config = if build.need_diskmux then config else s.drive_config;
  }

  unfoldable pub set_default_values : Settings M D → Settings M D
  set_default_values s = set_drive_config board.get_default_driveconfig (record s {
    globalflags = bit_or s.globalflags 16;
    file_extension_mode = 0;
    rom_filename = replicate (rom_name_length + 1) 0;
  })

  -- Under NEED_DISKMUX.
  unfoldable pub read_drives : ℕ → Settings M D → Settings M D
  read_drives size s =
      let low = read_word board.chip s.eeprom 9 in
      let high = read_word board.chip s.eeprom 11 in
      let drives = if ltb 9 size then low + 65536 * high else s.drive_config in
      let config = if drives == 4294967295 then board.get_default_driveconfig else drives in
      set_drive_config config s

  -- Under CONFIG_ONBOARD_DISPLAY.
  unfoldable pub read_display : ℕ → Settings M D → Settings M D
  read_display size s =
      let contrast = board.chip.byte_at s.eeprom 32 in
      let brightness = board.chip.byte_at s.eeprom 33 in
      let shown = board.lcd_set_brightness brightness (board.lcd_set_contrast contrast s.display) in
      let here = if build.onboard_display then ltb 32 size else false in
      record s {
        lcd_contrast = if here then contrast else s.lcd_contrast;
        lcd_brightness = if here then brightness else s.lcd_brightness;
        display = if here then shown else s.display;
      }

  -- `read_configuration` from "Read data from EEPROM" on, up to the rewrite.
  unfoldable pub read_settings : ℕ → Settings M D → Settings M D
  read_settings size s =
      let byte = board.chip.byte_at s.eeprom in
      let menu =
        if build.hw_addr_or_buttons
        then (if ltb 31 size then byte 31 else s.menu_system_enabled)
        else s.menu_system_enabled in
      let jumpers = board.device_hw_address menu in
      let drives = read_drives size (record s {
        menu_system_enabled = menu;
        globalflags = bit_or (bit_and s.globalflags 231) (byte 5);
        device_address = if jumpers == byte 7 then byte 6 else jumpers;
        file_extension_mode = byte 8;
      }) in
      read_display size (record drives {
        image_as_dir = if ltb 13 size then byte 13 else s.image_as_dir;
        rom_filename =
            if ltb 29 size
            then block byte 14 rom_name_length ++ drop rom_name_length s.rom_filename
            else s.rom_filename;
        active_bus =
            if build.have_dual_interface
            then (if ltb 30 size then byte 30 else s.active_bus)
            else s.active_bus;
      })

  unfoldable pub read_configuration : Settings M D → Settings M D
  read_configuration s =
      let defaults = set_default_values s in
      let size = read_word board.chip s.eeprom 2 in
      let settings = read_settings size defaults in
      let jumpers = board.device_hw_address settings.menu_system_enabled in
      let loaded =
        if jumpers == board.chip.byte_at s.eeprom 7
        then settings
        else write_configuration settings in
      if size == 65535
      then write_configuration defaults
      else if is_checksum_right board.chip s.eeprom size
      then loaded
      else write_configuration defaults
