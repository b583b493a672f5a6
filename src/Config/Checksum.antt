-- ===== src/Config/Checksum.antt =====
-- The checksum of src/eeprom-conf.c, which guards the stored settings.
use nodiskemu.Prelude.{
  ==_refl, ℕ, zero, suc, ◌+◌, ◌%◌, ◌<◌, ◌≤◌, true, List, [], ◌∷◌, ◌≡◌, ◌≢◌, refl, ap, sym, ◌∙◌,
  arith, drop, get_or,
}
use native.Mathlib.Nat.{zero-add}
use nodiskemu.Eeprom.{Chip, block}
use nodiskemu.Eeprom.Write.{IsEeprom, get_or-block}
use nodiskemu.Config.{
  Build, Board, Settings, add_bytes, read_word, write_configuration, is_checksum_right,
}
use nodiskemu.Config.Stored.{byte_at-write_byte, image, stored, block-stored}

unfoldable pub sum : List ℕ → ℕ
sum [] = 0
sum (b ∷ bytes) = b + sum bytes

pub add_bytes-sum :
    (byte : ℕ → ℕ)
    → (rounds i checksum : ℕ) → checksum < 256
    → add_bytes byte rounds i checksum ≡ (checksum + sum (block byte i rounds)) % 256
unfolding add_bytes sum block
add_bytes-sum byte zero i checksum below = omega arith
add_bytes-sum byte (suc rounds) i checksum below =
    omega (arith, add_bytes-sum byte rounds (i + 1) ((checksum + byte i) % 256) (omega arith))

pub block_cong :
    (f g : ℕ → ℕ)
    → (start n : ℕ) → ((k : ℕ) → start ≤ k → k < start + n → f k ≡ g k)
    → block f start n ≡ block g start n
unfolding block
block_cong f g start zero same = refl
block_cong f g start (suc n) same = cc (
  same start (omega arith) (omega arith),
  block_cong f g (start + 1) n (λ k above below. same k (omega arith) (omega arith)),
)

pub drop-block : (f : ℕ → ℕ) → drop 2 (block f 0 34) ≡ block f 2 32
unfolding block
drop-block f = refl

-- What `read_configuration` asks for before it uses the contents.
abbrev pub IsValid : {M : Type 0} → Chip M → M → Type 0
IsValid chip m =
    (read_word chip m 2 ≢ 65535) × (is_checksum_right chip m (read_word chip m 2) ≡ true)

module _ {M D : Type 0} (build : Build) (board : Board M D) (is_eeprom : IsEeprom board.chip)
    (s : Settings M D) where
  written : M
  written = (write_configuration build board s).eeprom

  -- Everything but the checksum is as `write_names` left it.
  pub byte_at-written :
      (k : ℕ)
      → k ≢ 1
      → board.chip.byte_at (write_configuration build board s).eeprom k
        ≡ stored build board is_eeprom s s.eeprom k
  unfolding write_configuration
  byte_at-written k other = rw (byte_at-write_byte board.chip is_eeprom) (ground arith)

  -- Without its first two bytes the structure is the image, and its checksum is their sum.
  image_bytes :
      block (stored build board is_eeprom s s.eeprom) 0 34 ≡ image build board is_eeprom s s.eeprom
  image_bytes = block-stored build board is_eeprom s s.eeprom

  pub block-written :
      block (board.chip.byte_at (write_configuration build board s).eeprom) 2 32
      ≡ drop 2 (image build board is_eeprom s s.eeprom)
  block-written =
      block_cong _ _ 2 32 (λ k above below. byte_at-written k (omega arith))
      ∙ sym (drop-block _)
      ∙ ap (drop 2) image_bytes

  pub checksum-written :
      board.chip.byte_at (write_configuration build board s).eeprom 1
      ≡ sum (drop 2 (image build board is_eeprom s s.eeprom)) % 256
  unfolding write_configuration block
  checksum-written =
      let plain = stored build board is_eeprom s s.eeprom in
      let total : sum (block plain 2 32) ≡ sum (drop 2 (image build board is_eeprom s s.eeprom)) =
        ap (λ bytes. sum (drop 2 bytes)) image_bytes in
      let added = add_bytes-sum plain 32 2 0 (omega arith) in
      rw (byte_at-write_byte board.chip is_eeprom)
        (ap (λ n. n % 256) added ∙ omega arith ∙ ap (λ n. n % 256) total)

  -- The bytes by their offsets, but for the checksum.
  pub field-written :
      (k : ℕ)
      → k < 34
      → k ≢ 1
      → board.chip.byte_at (write_configuration build board s).eeprom k
        ≡ get_or (image build board is_eeprom s s.eeprom) k 0
  field-written k below other =
      byte_at-written k other
      ∙ ap (stored build board is_eeprom s s.eeprom) (sym (zero-add k))
      ∙ sym (get_or-block (stored build board is_eeprom s s.eeprom) 0 34 k below)
      ∙ ap (λ bytes. get_or bytes k 0) image_bytes

  pub size-written : read_word board.chip (write_configuration build board s).eeprom 2 ≡ 34
  unfolding read_word
  size-written =
      rw (field-written 2 (omega arith) (omega arith), field-written 3 (omega arith) (omega arith))
        refl

  pub write_configuration-IsValid : IsValid board.chip (write_configuration build board s).eeprom
  unfolding is_checksum_right
  write_configuration-IsValid =
      let byte = board.chip.byte_at (write_configuration build board s).eeprom in
      let total =
        simp zero-add at (add_bytes-sum byte 32 2 0 (omega arith))
        ∙ ap (λ bytes. sum bytes % 256) block-written in
      (
        λ e. absurd (omega (arith, e, size-written)),
        rw (size-written, total, checksum-written) (==_refl _),
      )
