-- ===== src/Eeprom/Write.antt =====
-- `write_entry` of src/eeprom-fs.c: writing the bytes that changed is writing all of them.
use nodiskemu.Prelude.{
  ℕ, zero, suc, ◌+◌, ◌-◌, ◌*◌, ◌≤◌, ◌<◌, Bool, true, false, Option, none, some, List, ◌&&◌, ltb,
  leb, ◌==◌, if◌then◌else◌, get_or, length, ◌≡◌, refl, ap, ◌∙◌, arith, Bool-cases, inl, inr,
}
use mathlib.Core.Path.{subst}
use nodiskemu.Eeprom.{Chip, Fs, block, write_changed, write_entry, write_whole_entry}

pub if_intro :
    {M : Type 0}
    → (P : M → Type 0) → {x y : M} → (b : Bool) → (b ≡ true → P x)
    → (b ≡ false → P y)
    → P (if b then x else y)
if_intro P true if_true if_false = if_true refl
if_intro P false if_true if_false = if_false refl

-- A byte of a block is the byte at its place.
pub get_or-block :
    (f : ℕ → ℕ) → (start n k : ℕ) → k < n → get_or (block f start n) k 0 ≡ f (start + k)
unfolding block
get_or-block f start zero k below = absurd (omega arith)
get_or-block f start (suc n) zero below = ap f (omega arith)
get_or-block f start (suc n) (suc k) below =
    get_or-block f (start + 1) n k (omega arith) ∙ ap f (omega arith)

pub length-block : (f : ℕ → ℕ) → (start n : ℕ) → length (block f start n) ≡ n
unfolding block
length-block f start zero = refl
length-block f start (suc n) = ap suc (length-block f (start + 1) n)

-- What the documentation of the processor's library says of a written block.
abbrev pub IsEeprom : {M : Type 0} → Chip M → Type 0
IsEeprom {M} chip =
    (m : M)
    → (at : ℕ) → (bytes : List ℕ) → (a : ℕ)
    → chip.byte_at (chip.write_block m at bytes) a ≡ (
        if leb at a && ltb a (at + length bytes) then get_or bytes (a - at) 0 else chip.byte_at m a)

module _ {M : Type 0} (chip : Chip M) (is_eeprom : IsEeprom chip) (buffer : List ℕ) (base : ℕ)
    (m0 : M) where
  -- The bytes of the first `n` places are the buffer's, all others are still those of `m0`.
  abbrev IsWritten : ℕ → M → Type 0
  IsWritten n m =
      (a : ℕ)
      → chip.byte_at m a
        ≡ (if leb base a && ltb a (base + n) then get_or buffer (a - base) 0 else chip.byte_at m0 a)

  pending : (start i : ℕ) → List ℕ
  pending start i = block (λ k. get_or buffer k 0) start (i - start)

  get_or-pending :
      (start i a : ℕ)
      → base + start ≤ a
      → a < base + i
      → get_or (pending start i) (a - (base + start)) 0 ≡ get_or buffer (a - base) 0
  unfolding pending
  get_or-pending start i a above below =
      get_or-block (λ k. get_or buffer k 0) start (i - start) (a - (base + start)) (omega arith)
      ∙ ap (λ k. get_or buffer k 0) (omega arith)

  length-pending : (start i : ℕ) → length (pending start i) ≡ i - start
  unfolding pending
  length-pending start i = length-block (λ k. get_or buffer k 0) start (i - start)

  write_block-IsWritten :
      (start i : ℕ)
      → start ≤ i
      → (m : M) → IsWritten start m
      → IsWritten i (chip.write_block m (base + start) (pending start i))
  write_block-IsWritten start i le m written a = ground (
    arith,
    is_eeprom m (base + start) (pending start i) a,
    length-pending start i,
    written a,
    get_or-pending start i a,
  )

  -- One byte more that is the same in the buffer and in `m0`.
  keep-IsWritten :
      (i : ℕ)
      → (m : M) → get_or buffer i 0 ≡ chip.byte_at m0 (base + i)
      → IsWritten i m
      → IsWritten (i + 1) m
  keep-IsWritten i m same written a = elim (Bool-cases (a == base + i)) [
    | inl eq ↦
        let at_end : a ≡ base + i = ground arith in
        let back : a - base ≡ i = omega arith in
        ground
          (arith, written a, same, ap (chip.byte_at m0) at_end, ap (λ k. get_or buffer k 0) back)
    | inr ne ↦ ground (arith, written a)
  ]

  open_block : Option ℕ → ℕ → ℕ
  open_block none i = i
  open_block (some start) i = start

  -- `orig` is what the entry's place holds in `m0`.
  abbrev IsOriginal : ℕ → List ℕ → Type 0
  IsOriginal n orig = (k : ℕ) → k < n → get_or orig k 0 ≡ chip.byte_at m0 (base + k)

  write_changed-IsWritten :
      (n : ℕ)
      → (orig : List ℕ) → IsOriginal n orig
      → (rounds i : ℕ) → i + rounds ≡ n
      → (pending : Option ℕ) → open_block pending i ≤ i
      → (m : M) → IsWritten (open_block pending i) m
      → IsWritten n (write_changed chip buffer orig base rounds i pending m)
  unfolding write_changed pending open_block
  write_changed-IsWritten n orig same zero i e none le m written =
      subst (λ k. IsWritten k m) (omega arith) written
  write_changed-IsWritten n orig same zero i e (some start) le m written =
      subst (λ k. IsWritten k (chip.write_block m (base + start) (pending start i))) (omega arith)
        (write_block-IsWritten start i le m written)
  write_changed-IsWritten n orig same (suc rounds) i e none le m written =
      if_intro (IsWritten n) (get_or buffer i 0 == get_or orig i 0)
        (λ eq.
          write_changed-IsWritten n orig same rounds (i + 1) (omega arith) none (omega arith) m
            (keep-IsWritten i m (ground arith ∙ same i (omega arith)) written))
        (λ ne.
          write_changed-IsWritten n orig same rounds (i + 1) (omega arith) (some i) (omega arith) m
            written)
  write_changed-IsWritten n orig same (suc rounds) i e (some start) le m written =
      let flushed = write_block-IsWritten start i le m written in
      if_intro (IsWritten n) (get_or buffer i 0 == get_or orig i 0)
        (λ eq.
          write_changed-IsWritten n orig same rounds (i + 1) (omega arith) none (omega arith)
            (chip.write_block m (base + start) (pending start i))
            (keep-IsWritten i _ (ground arith ∙ same i (omega arith)) flushed))
        (λ ne.
          write_changed-IsWritten n orig same rounds (i + 1) (omega arith) (some start)
            (omega arith) m written)

-- On an EEPROM that keeps what is written, writing only the changed bytes of an entry leaves every byte of the EEPROM as writing the
-- whole entry does.
pub write_entry-whole :
    {M : Type 0}
    → (chip : Chip M) → IsEeprom chip
    → (index : ℕ) → (s : Fs M) → (a : ℕ)
    → chip.byte_at (write_entry chip index s).eeprom a
      ≡ chip.byte_at (write_whole_entry chip index s).eeprom a
unfolding write_entry write_whole_entry open_block
write_entry-whole chip is_eeprom index s a =
    let base = 32 * index in
    let orig = block (chip.byte_at s.eeprom) base 32 in
    let byte = λ (k : ℕ). get_or s.buffer k 0 in
    let changed =
      write_changed-IsWritten chip is_eeprom s.buffer base s.eeprom 32 orig
        (λ k lt. get_or-block (chip.byte_at s.eeprom) base 32 k lt) 32 0 refl none (omega arith)
        s.eeprom (λ b. ground arith) a in
    changed
    ∙ ground (
      arith,
      is_eeprom s.eeprom base (block byte 0 32) a,
      length-block byte 0 32,
      get_or-block byte 0 32 (a - base),
    )
