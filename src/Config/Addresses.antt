-- ===== src/Config/Addresses.antt =====
-- The device's address in src/eeprom-conf.c when the jumpers have changed.

use nodiskemu.Prelude.{
  ℕ, ◌<◌, false, ◌≡◌, ◌≢◌, refl, ap, sym, ◌∙◌, arith, ◌==◌, if◌then◌else◌, Bool-cases, inl, inr,
  ◌⊎◌,
}
use nodiskemu.Eeprom.Write.{IsEeprom}
use nodiskemu.Config.{
  Build, Board, Settings, read_word, read_settings, read_configuration, write_configuration,
  set_default_values, set_drive_config, read_drives, read_display,
}
use nodiskemu.Config.Checksum.{IsValid, field-written}
use nodiskemu.Config.Damage.{eeprom-read_settings}
use nodiskemu.Config.RoundTrip.{read_configuration-valid}

module _ {M D : Type 0} (build : Build) (board : Board M D) where
  device_address-read_settings :
      (size : ℕ)
      → (t : Settings M D)
      → let settings = read_settings build board size (set_default_values build board t) in
        let jumpers = board.device_hw_address settings.menu_system_enabled in
        settings.device_address ≡ (
          if jumpers == board.chip.byte_at t.eeprom 7
          then board.chip.byte_at t.eeprom 6
          else jumpers)
  unfolding read_settings set_default_values set_drive_config read_drives read_display
  device_address-read_settings size t = refl

  abbrev pub IsAddressed : Settings M D → M → Type 0
  IsAddressed s old =
      (board.chip.byte_at s.eeprom 7 ≡ board.device_hw_address s.menu_system_enabled)
      × (board.chip.byte_at s.eeprom 6 ≡ s.device_address)
      × ((board.chip.byte_at old 7 ≡ board.device_hw_address s.menu_system_enabled)
          ⊎ (s.device_address ≡ board.device_hw_address s.menu_system_enabled))

  read_configuration-rewritten :
      (t : Settings M D)
      → IsValid board.chip t.eeprom
      → let settings =
          read_settings build board
            (read_word board.chip t.eeprom 2)
            (set_default_values build board t) in
        board.device_hw_address settings.menu_system_enabled ≢ board.chip.byte_at t.eeprom 7
        → read_configuration build board t ≡ write_configuration build board settings
  unfolding read_configuration
  read_configuration-rewritten t (sized, right) other =
      let settings =
        read_settings build board (read_word board.chip t.eeprom 2)
          (set_default_values build board t) in
      let unset : (read_word board.chip t.eeprom 2 == 65535) ≡ false = ground arith in
      let changed : (board.device_hw_address settings.menu_system_enabled
            == board.chip.byte_at t.eeprom 7)
          ≡ false =
        ground arith in
      rw (unset, right, changed) refl

  kept-write_configuration :
      (s : Settings M D)
      → ((write_configuration build board s).device_address ≡ s.device_address)
        × ((write_configuration build board s).menu_system_enabled ≡ s.menu_system_enabled)
  unfolding write_configuration
  kept-write_configuration s = (refl, refl)

  write_configuration-IsAddressed :
      IsEeprom board.chip
      → (s : Settings M D) → (old : M)
      → s.device_address ≡ board.device_hw_address s.menu_system_enabled
      → board.device_hw_address s.menu_system_enabled < 256
      → IsAddressed (write_configuration build board s) old
  write_configuration-IsAddressed is_eeprom s old address small =
      let (same_address, same_menu) = kept-write_configuration s in
      let seven = field-written build board is_eeprom s 7 (omega arith) (omega arith) in
      let six = field-written build board is_eeprom s 6 (omega arith) (omega arith) in
      rw (same_address, same_menu) (seven ∙ omega arith, six ∙ omega (arith, address), inr address)

  -- When the EEPROM is valid and the jumpers read as a byte: after read_configuration the
  -- stored hardware address is that of the jumpers, the stored address is the address of the
  -- device, and the device has the address of the jumpers unless the stored hardware address
  -- already was that.
  pub read_configuration-IsAddressed :
      IsEeprom board.chip
      → (t : Settings M D) → IsValid board.chip t.eeprom
      → ((menu : ℕ) → board.device_hw_address menu < 256)
      → IsAddressed (read_configuration build board t) t.eeprom
  read_configuration-IsAddressed is_eeprom t valid small =
      let size = read_word board.chip t.eeprom 2 in
      let settings = read_settings build board size (set_default_values build board t) in
      let jumpers = board.device_hw_address settings.menu_system_enabled in
      let address = device_address-read_settings size t in
      let kept = eeprom-read_settings build board size t in
      elim (Bool-cases (jumpers == board.chip.byte_at t.eeprom 7)) [
        | inl same ↦
            let e : jumpers ≡ board.chip.byte_at t.eeprom 7 = ground arith in
            rw (read_configuration-valid build board t valid e) (
              ap (λ m. board.chip.byte_at m 7) kept ∙ sym e,
              ap (λ m. board.chip.byte_at m 6) kept ∙ sym (rw same at address),
              inl (sym e),
            )
        | inr other ↦
            let ne : jumpers ≢ board.chip.byte_at t.eeprom 7 = ground arith in
            rw (read_configuration-rewritten t valid ne) (
              write_configuration-IsAddressed is_eeprom settings t.eeprom (rw other at address)
                (small _))
      ]
