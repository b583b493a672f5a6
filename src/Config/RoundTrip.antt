-- ===== src/Config/RoundTrip.antt =====
-- What `read_configuration` finds after `write_configuration`.
use Prim.Native.Nat.{bit_and, bit_or}
use native.Mathlib.Nat.{zero-add}
use nodiskemu.Prelude.{
  ℕ, ◌+◌, ◌*◌, ◌%◌, ◌<◌, true, false, [], ◌∷◌, ◌++◌, ◌≡◌, ◌≢◌, refl, ap, sym, ◌∙◌, arith, ◌==◌,
  ==_refl, if◌then◌else◌, drop, replicate, get_or,
}
use nodiskemu.Eeprom.{block}
use nodiskemu.Eeprom.Write.{IsEeprom}
use nodiskemu.Config.{
  Build, Board, Settings, clear_tail, read_word, read_drives, read_display, read_settings,
  read_configuration, write_configuration, set_drive_config, set_default_values,
}
use nodiskemu.Config.Names.{block-drop, length-clear_tail, drop-last, clear_tail-last}
use nodiskemu.Config.Stored.{image}
use nodiskemu.Config.Checksum.{
  IsValid, block_cong, field-written, size-written, write_configuration-IsValid,
}
use nodiskemu.Config.Storable.{IsStorable, stored_flags, other_flags, if_cong, if_eta, drives_case}

module _ {M D : Type 0} (build : Build) (board : Board M D) where
  pub read_configuration-valid :
      (t : Settings M D)
      → IsValid board.chip t.eeprom
      → let settings =
          read_settings build board
            (read_word board.chip t.eeprom 2)
            (set_default_values build board t) in
        board.device_hw_address settings.menu_system_enabled ≡ board.chip.byte_at t.eeprom 7
        → read_configuration build board t ≡ settings
  unfolding read_configuration
  read_configuration-valid t (sized, right) same =
      let unset : (read_word board.chip t.eeprom 2 == 65535) ≡ false = ground arith in
      rw (unset, right, same, ==_refl (board.chip.byte_at t.eeprom 7)) refl

  module _ (is_eeprom : IsEeprom board.chip) (s t : Settings M D) (storable : IsStorable board s)
      (same_jumpers : board.device_hw_address
          (if build.hw_addr_or_buttons then s.menu_system_enabled else t.menu_system_enabled)
        ≡ board.device_hw_address s.menu_system_enabled) where
    written : M
    written = (write_configuration build board s).eeprom

    abbrev pub restored : Settings M D
    restored = record t {
      eeprom = (write_configuration build board s).eeprom;
      display =
          if build.onboard_display
          then board.lcd_set_brightness s.lcd_brightness
              (board.lcd_set_contrast s.lcd_contrast t.display)
          else t.display;
      globalflags = bit_or (bit_and t.globalflags 231) (bit_and s.globalflags 24);
      device_address = s.device_address;
      file_extension_mode = s.file_extension_mode;
      drive_config = if build.need_diskmux then s.drive_config else t.drive_config;
      image_as_dir = s.image_as_dir;
      rom_filename = clear_tail s.rom_filename;
      active_bus = if build.have_dual_interface then s.active_bus else t.active_bus;
      menu_system_enabled =
          if build.hw_addr_or_buttons then s.menu_system_enabled else t.menu_system_enabled;
      lcd_contrast = if build.onboard_display then s.lcd_contrast else t.lcd_contrast;
      lcd_brightness = if build.onboard_display then s.lcd_brightness else t.lcd_brightness;
    }

    byte : ℕ → ℕ
    unfolding written
    byte = board.chip.byte_at written

    field :
        (k value : ℕ)
        → k < 34
        → k ≢ 1
        → get_or (image build board is_eeprom s s.eeprom) k 0 ≡ value % 256
        → value < 256
        → byte k ≡ value
    unfolding byte written
    field k value below other at small =
        field-written build board is_eeprom s k below other ∙ at ∙ omega arith

    menu_field : build.hw_addr_or_buttons ≡ true → byte 31 ≡ s.menu_system_enabled
    unfolding block
    menu_field here =
        field 31 _ (omega arith) (omega arith)
          (ap (λ b. if b then s.menu_system_enabled % 256 else board.chip.byte_at s.eeprom 31) here)
          (storable.menu_lt)

    contrast_field : build.onboard_display ≡ true → byte 32 ≡ s.lcd_contrast
    unfolding block
    contrast_field here =
        field 32 _ (omega arith) (omega arith)
          (ap (λ b. if b then s.lcd_contrast % 256 else board.chip.byte_at s.eeprom 32) here)
          (storable.contrast_lt)

    brightness_field : build.onboard_display ≡ true → byte 33 ≡ s.lcd_brightness
    unfolding block
    brightness_field here =
        field 33 _ (omega arith) (omega arith)
          (ap (λ b. if b then s.lcd_brightness % 256 else board.chip.byte_at s.eeprom 33) here)
          (storable.brightness_lt)

    bus_field : byte 30 ≡ s.active_bus
    unfolding block
    bus_field = field 30 _ (omega arith) (omega arith) refl storable.bus_lt

    flags_field : byte 5 ≡ bit_and s.globalflags 24
    unfolding byte written
    flags_field =
        field-written build board is_eeprom s 5 (omega arith) (omega arith)
        ∙ stored_flags s.globalflags storable.flags_lt

    jumpers_field : byte 7 ≡ board.device_hw_address s.menu_system_enabled
    jumpers_field = field 7 _ (omega arith) (omega arith) refl storable.jumpers_lt

    drives_field :
        build.need_diskmux ≡ true
        → byte 9 + 256 * byte 10 + 65536 * (byte 11 + 256 * byte 12) ≡ s.drive_config
    unfolding byte written
    drives_field here =
        let at = λ (k : ℕ) (below : k < 34) (other : k ≢ 1).
          field-written build board is_eeprom s k below other in
        let keep =
          λ (value k : ℕ). ap (λ b. if b then value else board.chip.byte_at s.eeprom k) here in
        omega (
          arith,
          storable.drives_lt,
          at 9 (omega arith) (omega arith) ∙ keep _ 9,
          at 10 (omega arith) (omega arith) ∙ keep _ 10,
          at 11 (omega arith) (omega arith) ∙ keep _ 11,
          at 12 (omega arith) (omega arith) ∙ keep _ 12,
        )

    name_field : block byte 14 16 ++ drop 16 (replicate 17 0) ≡ clear_tail s.rom_filename
    unfolding byte written block
    name_field =
        let name = clear_tail s.rom_filename in
        let sized = length-clear_tail s.rom_filename storable.name_terminated storable.name_sized in
        let last = clear_tail-last s.rom_filename storable.name_terminated storable.name_sized in
        let bytes : block byte 14 16 ≡ block (λ k. get_or name k 0) 0 16 =
          block_cong byte (λ k. get_or (image build board is_eeprom s s.eeprom) k 0) 14 16
            (λ k above below.
              field-written build board is_eeprom s k (omega arith) (omega arith)) in
        let end_zero : 0 ∷ [] ≡ drop 16 name =
          ap (λ b. b ∷ []) (sym last) ∙ sym (drop-last 16 name sized) in
        ap (λ text. text ++ 0 ∷ []) bytes
        ∙ ap (λ text. block (λ k. get_or name k 0) 0 16 ++ text) end_zero
        ∙ block-drop name (λ k. get_or name k 0) 0 16
            (λ k below. ap (λ i. get_or name i 0) (zero-add k)) (omega (arith, sized))

    abbrev pub loaded : Settings M D
    loaded = record t { eeprom = (write_configuration build board s).eeprom }

    menu_restored :
        (if build.hw_addr_or_buttons then byte 31 else t.menu_system_enabled)
        ≡ (if build.hw_addr_or_buttons then s.menu_system_enabled else t.menu_system_enabled)
    menu_restored = if_cong build.hw_addr_or_buttons t.menu_system_enabled menu_field

    read_settings-restored :
        t.globalflags < 256
        → read_settings build board 34 (set_default_values build board loaded) ≡ restored
    unfolding read_settings read_drives read_display set_drive_config set_default_values byte
        written read_word
    read_settings-restored small =
        let shown = if_cong build.onboard_display t.display (λ here.
          ap (λ (c, b). board.lcd_set_brightness b (board.lcd_set_contrast c t.display))
            (λ i. (contrast_field here i, brightness_field here i))) in
        rw
          (
            if_eta,
            field 6 s.device_address (omega arith) (omega arith) refl storable.address_lt,
            field 8 s.file_extension_mode (omega arith) (omega arith) refl storable.fileexts_lt,
            field 13 s.image_as_dir (omega arith) (omega arith) refl storable.imagedirs_lt,
            menu_restored,
            same_jumpers,
            jumpers_field,
            flags_field,
            name_field,
            bus_field,
            drives_case build.need_diskmux _ s.drive_config board.get_default_driveconfig
                t.drive_config drives_field storable.drives_lt,
            if_cong build.onboard_display t.lcd_contrast contrast_field,
            if_cong build.onboard_display t.lcd_brightness brightness_field,
            shown,
            ==_refl (board.device_hw_address s.menu_system_enabled),
            other_flags t.globalflags small,
          )
          refl

    read_size :
        read_settings build board
          (read_word board.chip (write_configuration build board s).eeprom 2)
          (set_default_values build board loaded)
        ≡ read_settings build board 34 (set_default_values build board loaded)
    read_size =
        ap (λ size. read_settings build board size (set_default_values build board loaded))
          (size-written build board is_eeprom s)

    -- For settings whose values fit their variables, whose drives are not all off and whose
    -- ROM name ends, and a board whose jumpers read as they did: when the EEPROM is as
    -- write_configuration left it, read_configuration from any state whose flags are a byte
    -- restores every stored setting of the configuration options that are built, the two
    -- stored flags, and the name with zeros behind its end; it shows the contrast and
    -- brightness and does not write the EEPROM.
    pub read_configuration-write_configuration :
        t.globalflags < 256 → read_configuration build board loaded ≡ restored
    unfolding byte written
    read_configuration-write_configuration small =
        let settings = read_size ∙ read_settings-restored small in
        read_configuration-valid loaded (write_configuration-IsValid build board is_eeprom s) (
          ap (λ (x : Settings M D). board.device_hw_address x.menu_system_enabled) settings
          ∙ same_jumpers
          ∙ sym jumpers_field)
        ∙ settings
