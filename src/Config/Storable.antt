-- ===== src/Config/Storable.antt =====
-- The settings that src/eeprom-conf.c can keep, and what its masks and tests do with them.
use Prim.Native.Nat.{bit_and, bit_or}
use nodiskemu.Prelude.{
  ℕ, ◌%◌, ◌<◌, Bool, true, false, ◌≡◌, refl, arith, ◌==◌, if◌then◌else◌, length, all_below,
  all_below_sound,
}
use nodiskemu.Config.{Board, Settings, ustrlen}

-- A C string, and values that fit their variables; drives that are not all off.
pub record IsStorable {M D : Type 0} (board : Board M D) (s : Settings M D) : Type 0 where
  pub flags_lt : s.globalflags < 256
  pub address_lt : s.device_address < 256
  pub jumpers_lt : board.device_hw_address s.menu_system_enabled < 256
  pub fileexts_lt : s.file_extension_mode < 256
  pub drives_lt : s.drive_config < 4294967295
  pub imagedirs_lt : s.image_as_dir < 256
  pub bus_lt : s.active_bus < 256
  pub menu_lt : s.menu_system_enabled < 256
  pub contrast_lt : s.lcd_contrast < 256
  pub brightness_lt : s.lcd_brightness < 256
  pub name_terminated : ustrlen s.rom_filename < 17
  pub name_sized : length s.rom_filename ≡ 17

-- The two stored flags of a byte, and the others.
flags_table : all_below 256 (λ b. bit_and b 24 % 256 == bit_and b 24) ≡ true
unfolding all_below
flags_table = refl

defaults_table : all_below 256 (λ b. bit_and (bit_or b 16) 231 == bit_and b 231) ≡ true
unfolding all_below
defaults_table = refl

pub stored_flags : (b : ℕ) → b < 256 → bit_and b 24 % 256 ≡ bit_and b 24
stored_flags b below = ground (arith, all_below_sound 256 _ b flags_table below)

pub other_flags : (b : ℕ) → b < 256 → bit_and (bit_or b 16) 231 ≡ bit_and b 231
other_flags b below = ground (arith, all_below_sound 256 _ b defaults_table below)

pub if_cong {ℓ} :
    {A : Type ℓ}
    → (b : Bool) → {x y : A} → (z : A) → (b ≡ true → x ≡ y)
    → (if b then x else z) ≡ (if b then y else z)
if_cong true z same = same refl
if_cong false z same = refl

pub if_eta : (b : Bool) → (if b then true else false) ≡ b
if_eta true = refl
if_eta false = refl

pub drives_case :
    (b : Bool)
    → (config value other old : ℕ) → (b ≡ true → config ≡ value)
    → value < 4294967295
    → (if b then (if config == 4294967295 then other else config) else (if b then other else old))
      ≡ (if b then value else old)
drives_case true config value other old same small =
    let present : (config == 4294967295) ≡ false = ground (arith, same refl) in
    rw present (same refl)
drives_case false config value other old same small = refl
