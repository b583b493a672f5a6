-- ===== src/Config/Damage.antt =====
-- What `read_configuration` of src/eeprom-conf.c does with contents that are not what was written.
use mathlib.Core.Path.{subst}
use nodiskemu.Prelude.{
  ℕ, zero, suc, ◌+◌, ◌<◌, ◌≤◌, true, false, ◌≡◌, ◌≢◌, refl, ap, sym, ◌∙◌, arith, ◌==◌, Bool-cases,
  inl, inr,
}
use nodiskemu.Eeprom.{Chip, block}
use nodiskemu.Eeprom.Write.{IsEeprom}
use nodiskemu.Config.{
  Build, Board, Settings, add_bytes, read_word, read_settings, read_configuration,
  write_configuration, set_default_values, is_checksum_right, set_drive_config, read_drives,
  read_display,
}
use nodiskemu.Config.Checksum.{
  IsValid, sum, add_bytes-sum, block_cong, size-written, write_configuration-IsValid,
}

-- One byte that is another changes the sum by the difference of the two.
sum-changed :
    (f g : ℕ → ℕ)
    → (start n at : ℕ) → start ≤ at
    → at < start + n
    → ((k : ℕ) → k ≢ at → f k ≡ g k)
    → sum (block f start n) + g at ≡ sum (block g start n) + f at
unfolding sum block
sum-changed f g start zero at above below same = absurd (omega arith)
sum-changed f g start (suc n) at above below same = elim (Bool-cases (start == at)) [
  | inl here ↦
      let e : start ≡ at = ground arith in
      let rest =
        block_cong f g (start + 1) n (λ k past last. same k (λ e2. absurd (omega arith))) in
      omega (arith, ap f e, ap g e, ap sum rest)
  | inr later ↦
      let ne : start ≢ at = ground arith in
      omega (
        arith,
        same start ne,
        sum-changed f g (start + 1) n at (omega (arith, ne)) (omega arith) same,
      )
]

-- A right checksum is wrong when one byte, or the checksum, is another.
checksums_differ :
    (f g : ℕ → ℕ)
    → (at : ℕ) → at ≢ 0
    → at < 34
    → ((k : ℕ) → k ≢ at → f k ≡ g k)
    → f at < 256
    → g at < 256
    → f at ≢ g at
    → (add_bytes g 32 2 0 == g 1) ≡ true
    → (add_bytes f 32 2 0 == f 1) ≡ false
checksums_differ f g at ne below same small_f small_g other right =
    let sum_f = add_bytes-sum f 32 2 0 (omega arith) in
    let sum_g = add_bytes-sum g 32 2 0 (omega arith) in
    let equal : add_bytes g 32 2 0 ≡ g 1 = ground arith in
    elim (Bool-cases (1 == at)) [
      | inl here ↦
          let e : 1 ≡ at = ground arith in
          let blocks = block_cong f g 2 32 (λ k above past. same k (λ x. absurd (omega arith))) in
          let sums = ap sum blocks in
          let differ : add_bytes f 32 2 0 ≢ f 1 =
            λ x. other (ap f (sym e) ∙ omega arith ∙ ap g e) in
          ground (arith, differ)
      | inr later ↦
          let e : 1 ≢ at = ground arith in
          let above : 2 ≤ at = omega arith in
          let changed = sum-changed f g 2 32 at above (omega arith) same in
          let kept = same 1 e in
          let differ : add_bytes f 32 2 0 ≢ f 1 = λ x. other (omega arith) in ground (arith, differ)
    ]

word_cong :
    {M : Type 0}
    → (chip : Chip M) → (m1 m2 : M) → chip.byte_at m1 2 ≡ chip.byte_at m2 2
    → chip.byte_at m1 3 ≡ chip.byte_at m2 3
    → read_word chip m1 2 ≡ read_word chip m2 2
unfolding read_word
word_cong chip m1 m2 low high = cc (low, high)

module _ {M D : Type 0} (build : Build) (board : Board M D) where
  pub eeprom-read_settings :
      (size : ℕ)
      → (t : Settings M D)
      → (read_settings build board size (set_default_values build board t)).eeprom ≡ t.eeprom
  unfolding read_settings set_default_values set_drive_config read_drives read_display
  eeprom-read_settings size t = refl

  pub read_configuration-invalid :
      (t : Settings M D)
      → is_checksum_right board.chip t.eeprom (read_word board.chip t.eeprom 2) ≡ false
      → read_configuration build board t
        ≡ write_configuration build board (set_default_values build board t)
  unfolding read_configuration
  read_configuration-invalid t wrong =
      elim (Bool-cases (read_word board.chip t.eeprom 2 == 65535)) [
        | inl e ↦ rw e refl
        | inr e ↦ rw (e, wrong) refl
      ]

  -- Whatever the EEPROM held, after read_configuration its size bytes are set and its checksum
  -- is the sum of its bytes.
  pub read_configuration-IsValid :
      IsEeprom board.chip
      → (t : Settings M D) → IsValid board.chip (read_configuration build board t).eeprom
  unfolding read_configuration
  read_configuration-IsValid is_eeprom t =
      let size = read_word board.chip t.eeprom 2 in
      let defaults = set_default_values build board t in
      let settings = read_settings build board size defaults in
      let written = λ (s : Settings M D). write_configuration-IsValid build board is_eeprom s in
      elim (Bool-cases (size == 65535)) [
        | inl unset ↦ rw unset (written defaults)
        | inr sized ↦ elim (Bool-cases (is_checksum_right board.chip t.eeprom size)) [
          | inl right ↦
              let kept : IsValid board.chip t.eeprom = (ground (arith, sized), right) in
              elim (Bool-cases (
                board.device_hw_address settings.menu_system_enabled
                == board.chip.byte_at t.eeprom 7)) [
                  | inl same ↦
                      rw (sized, right, same)
                        (subst (IsValid board.chip) (sym (eeprom-read_settings size t)) kept)
                  | inr other ↦ rw (sized, right, other) (written settings)
                ]
          | inr wrong ↦ rw (sized, wrong) (written defaults)
        ]
      ]

  -- When one byte of the EEPROM, other than the first one and the two of the size, differs
  -- from what write_configuration wrote, read_configuration takes nothing from the EEPROM: it
  -- writes the default settings and ends with them.
  pub changed_byte_detected :
      IsEeprom board.chip
      → (s t : Settings M D) → (at : ℕ) → at < 34
      → at ≢ 0
      → at ≢ 2
      → at ≢ 3
      → ((k : ℕ)
          → k ≢ at
          → board.chip.byte_at t.eeprom k
            ≡ board.chip.byte_at (write_configuration build board s).eeprom k)
      → board.chip.byte_at t.eeprom at < 256
      → board.chip.byte_at (write_configuration build board s).eeprom at < 256
      → board.chip.byte_at t.eeprom at
        ≢ board.chip.byte_at (write_configuration build board s).eeprom at
      → read_configuration build board t
        ≡ write_configuration build board (set_default_values build board t)
  unfolding is_checksum_right
  changed_byte_detected is_eeprom s t at below ne0 ne2 ne3 same small small2 other =
      let f = board.chip.byte_at t.eeprom in
      let g = board.chip.byte_at (write_configuration build board s).eeprom in
      let size = size-written build board is_eeprom s in
      let size_f : read_word board.chip t.eeprom 2 ≡ 34 =
        word_cong board.chip _ _ (same 2 (λ e. ne2 (sym e))) (same 3 (λ e. ne3 (sym e))) ∙ size in
      let right = rw size at (write_configuration-IsValid build board is_eeprom s).1 in
      read_configuration-invalid t
        (rw size_f (checksums_differ f g at ne0 below same small small2 other right))
