-- ===== src/Config/Stored.antt =====
-- The bytes that `write_configuration` leaves in the EEPROM.
use Prim.Native.Nat.{bit_and}
use nodiskemu.Prelude.{
  List, ℕ, ◌+◌, ◌/◌, ◌%◌, Bool, true, false, ◌≡◌, refl, arith, get_or, ◌==◌, if◌then◌else◌, [], ◌∷◌,
  ◌++◌,
}
use nodiskemu.Eeprom.{Chip, block}
use nodiskemu.Eeprom.Write.{IsEeprom}
use nodiskemu.Config.{
  Build, Board, Settings, write_byte, write_word, write_drives, write_names, clear_tail,
}

pub if_same {ℓ} : {A : Type ℓ} → (b : Bool) → {x : A} → (if b then x else x) ≡ x
if_same true = refl
if_same false = refl

module _ {M : Type 0} (chip : Chip M) (is_eeprom : IsEeprom chip) where
  pub byte_at_if :
      (b : Bool)
      → (x y : M) → (k : ℕ)
      → chip.byte_at (if b then x else y) k ≡ (if b then chip.byte_at x k else chip.byte_at y k)
  byte_at_if true x y k = refl
  byte_at_if false x y k = refl

  pub byte_at-write_byte :
      (m : M)
      → (at value k : ℕ)
      → chip.byte_at (write_byte chip m at value) k
        ≡ (if k == at then value % 256 else chip.byte_at m k)
  unfolding write_byte
  byte_at-write_byte m at value k = ground (arith, is_eeprom m at (value % 256 ∷ []) k)

  pub byte_at-write_word :
      (m : M)
      → (at value k : ℕ)
      → chip.byte_at (write_word chip m at value) k ≡ (
          if k == at
          then value % 256
          else if k == at + 1
          then value / 256 % 256
          else chip.byte_at m k)
  unfolding write_word
  byte_at-write_word m at value k =
      ground (arith, is_eeprom m at (value % 256 ∷ value / 256 % 256 ∷ []) k)

pub ruleset writes = (byte_at-write_byte, byte_at-write_word, byte_at_if, if_same)

module _ {M D : Type 0} (build : Build) (board : Board M D) (is_eeprom : IsEeprom board.chip)
    (s : Settings M D) (m : M) where
  abbrev pub stored : ℕ → ℕ
  stored k = board.chip.byte_at (write_names build board s (write_drives build board s m)) k

  abbrev pub kept : (b : Bool) → (value k : ℕ) → ℕ
  kept b value k = if b then value else board.chip.byte_at m k

  -- The structure in the EEPROM, field by field.
  abbrev pub image : List ℕ
  image =
      board.chip.byte_at m 0
      ∷ board.chip.byte_at m 1
      ∷ 34
      ∷ 0
      ∷ board.chip.byte_at m 4
      ∷ bit_and s.globalflags 24 % 256
      ∷ s.device_address % 256
      ∷ board.device_hw_address s.menu_system_enabled % 256
      ∷ s.file_extension_mode % 256
      ∷ kept build.need_diskmux (s.drive_config % 65536 % 256) 9
      ∷ kept build.need_diskmux (s.drive_config % 65536 / 256 % 256) 10
      ∷ kept build.need_diskmux (s.drive_config / 65536 % 65536 % 256) 11
      ∷ kept build.need_diskmux (s.drive_config / 65536 % 65536 / 256 % 256) 12
      ∷ s.image_as_dir % 256
      ∷ (block (λ i. get_or (clear_tail s.rom_filename) i 0) 0 16
          ++ (s.active_bus % 256
              ∷ kept build.hw_addr_or_buttons (s.menu_system_enabled % 256) 31
              ∷ kept build.onboard_display (s.lcd_contrast % 256) 32
              ∷ kept build.onboard_display (s.lcd_brightness % 256) 33
              ∷ []))

  pub block-stored : block stored 0 34 ≡ image
  unfolding write_names write_drives block
  block-stored = simp (writes, is_eeprom)
