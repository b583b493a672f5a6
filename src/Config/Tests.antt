-- ===== src/Config/Tests.antt =====
-- Examples for src/eeprom-conf.c: a board with all its options, at jumper address 8.
use nodiskemu.Prelude.{
  ℕ, ◌<◌, ◌≡◌, ◌≢◌, refl, arith, replicate, true, ◌==◌, if◌then◌else◌, List, [], ◌∷◌,
}
use nodiskemu.Eeprom.Tests.{chip, chip-IsEeprom}
use nodiskemu.Eeprom.{block}
use nodiskemu.Config.{
  Build, Board, Settings, ustrlen, write_byte, write_word, write_drives, write_names,
  write_configuration, set_default_values, read_configuration,
}
use nodiskemu.Config.Checksum.{IsValid, write_configuration-IsValid}
use nodiskemu.Config.Storable.{IsStorable}
use nodiskemu.Config.RoundTrip.{restored, read_configuration-write_configuration}
use nodiskemu.Config.Damage.{read_configuration-IsValid, changed_byte_detected}
use nodiskemu.Config.Addresses.{IsAddressed, read_configuration-IsAddressed}

abbrev build : Build
build = record {
  need_diskmux = true;
  have_dual_interface = true;
  hw_addr_or_buttons = true;
  onboard_display = true;
}

-- The display is the list of what it was told.
abbrev board : Board (ℕ → ℕ) (List ℕ)
board = record {
  chip = chip;
  device_hw_address = λ menu. if menu == 0 then 8 else 9;
  get_default_driveconfig = 305419896;
  lcd_set_contrast = λ c shown. c ∷ shown;
  lcd_set_brightness = λ b shown. b ∷ shown;
}

abbrev settings : Settings (ℕ → ℕ) (List ℕ)
settings = record {
  eeprom = λ a. 255;
  display = [];
  globalflags = 24;
  device_address = 10;
  file_extension_mode = 2;
  drive_config = 4275878552;
  image_as_dir = 1;
  rom_filename = 82 ∷ 79 ∷ 77 ∷ replicate 14 0;
  active_bus = 1;
  menu_system_enabled = 1;
  lcd_contrast = 100;
  lcd_brightness = 200;
}

-- After a reset the variables are zero.
abbrev reset : Settings (ℕ → ℕ) (List ℕ)
reset = record settings {
  globalflags = 0;
  device_address = 8;
  file_extension_mode = 0;
  drive_config = 0;
  image_as_dir = 0;
  rom_filename = replicate 17 0;
  active_bus = 0;
  menu_system_enabled = 0;
  lcd_contrast = 0;
  lcd_brightness = 0;
}

settings-IsStorable : IsStorable board settings
unfolding ustrlen
settings-IsStorable = record {
  flags_lt = omega arith;
  address_lt = omega arith;
  jumpers_lt = omega arith;
  fileexts_lt = omega arith;
  drives_lt = omega arith;
  imagedirs_lt = omega arith;
  bus_lt = omega arith;
  menu_lt = omega arith;
  contrast_lt = omega arith;
  brightness_lt = omega arith;
  name_terminated = omega arith;
  name_sized = refl;
}

read_configuration-write_configuration_example :
    read_configuration build board
      (record reset { eeprom = (write_configuration build board settings).eeprom })
    ≡ restored build board chip-IsEeprom settings reset settings-IsStorable refl
read_configuration-write_configuration_example =
    read_configuration-write_configuration build board chip-IsEeprom settings reset
      settings-IsStorable refl (omega arith)

read_configuration-IsValid_example : IsValid chip (read_configuration build board reset).eeprom
read_configuration-IsValid_example = read_configuration-IsValid build board chip-IsEeprom reset

jumpers_lt : (menu : ℕ) → (if menu == 0 then 8 else 9) < 256
jumpers_lt menu = ground arith

read_configuration-IsAddressed_example :
    IsAddressed build board
      (read_configuration build board
        (record reset { eeprom = (write_configuration build board settings).eeprom }))
      (write_configuration build board settings).eeprom
read_configuration-IsAddressed_example =
    read_configuration-IsAddressed build board chip-IsEeprom
      (record reset { eeprom = (write_configuration build board settings).eeprom })
      (write_configuration-IsValid build board chip-IsEeprom settings) jumpers_lt

-- The settings as they are stored, with another device address.
abbrev damaged : Settings (ℕ → ℕ) (List ℕ)
damaged = record reset {
  eeprom = λ a. if a == 6 then 11 else (write_configuration build board settings).eeprom a;
}

damaged_elsewhere :
    (k : ℕ)
    → k ≢ 6
    → (if k == 6 then 11 else (write_configuration build board settings).eeprom k)
      ≡ (write_configuration build board settings).eeprom k
damaged_elsewhere k other = ground arith

address_stored : (write_configuration build board settings).eeprom 6 ≡ 10
unfolding write_configuration write_names write_drives write_byte write_word block
address_stored = refl

changed_byte_detected_example :
    read_configuration build board damaged
    ≡ write_configuration build board (set_default_values build board damaged)
changed_byte_detected_example =
    changed_byte_detected build board chip-IsEeprom settings damaged 6 (omega arith) (omega arith)
      (omega arith) (omega arith) damaged_elsewhere (omega arith) (omega (arith, address_stored))
      (omega (arith, address_stored))
