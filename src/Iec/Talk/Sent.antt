-- ===== src/Iec/Talk/Sent.antt =====
-- `iec_talk_handler` of src/iec.c with a computer that takes the bytes of a file's last buffer.
use mathlib.Core.List.{append_assoc, append-nil}
use nodiskemu.Prelude.{
  ℕ, zero, suc, ◌+◌, ◌%◌, ◌<◌, Bool, true, false, some, List, [], ◌∷◌, ◌++◌, ltb, ◌==◌, get_elem?,
  get_or, Bool-cases, inl, inr, ◌≡◌, ◌≢◌, refl, ◌∙◌, arith,
}
use nodiskemu.System.{Buffer}
use nodiskemu.Buffers.{find_buffer}
use nodiskemu.Eeprom.{block}
use nodiskemu.Iec.{Iec, Sample, answer, atn_changed}
use nodiskemu.Iec.Send.Heard.{Pace, hearing, bits_of, iec_putc-hearing}
use nodiskemu.Iec.Listen.{Drive, Setup}
use nodiskemu.Iec.Talk.{
  Senders, put_on_bus, drop_eoi, with_dropped, send_byte, finished, after_byte, send_buffer,
  put_buffer, after_buffer, talk_buffer, talk_loop, talk_channel, iec_talk_handler,
}

-- The computer takes `n` bytes and one more, which ends with EOI.
unfoldable pub audience : (ℕ → Pace) → (n k : ℕ) → List Sample → List Sample
audience pace zero k rest = hearing (pace k) true rest
audience pace (suc n) k rest = hearing (pace k) false (audience pace n (k + 1) rest)

unfoldable pub all_bits : List ℕ → List Bool
all_bits [] = []
all_bits (c ∷ cs) = bits_of c ++ all_bits cs

-- A transfer without a fast protocol.
abbrev pub plainly : Iec → Iec
plainly s = record s { jiffy_active = false; jiffy_load = false; dolphin_active = false }

abbrev pub sent : Iec → List Bool → Iec
sent s bits = record (plainly s) { set_clock = false; set_data = true; edges = s.edges ++ bits }

-- The bytes of a buffer from its position on, `n` and one more.
abbrev pub contents : Buffer → (n : ℕ) → List ℕ
contents b n = block (λ k. get_or b.bytes k 0) b.position (suc n)

module _ (t : Senders) where
  send_byte-hearing :
      (b : Buffer)
      → (s : Iec) → (p : Pace) → (rest : List Sample) → b.sendeoi ≡ true
      → atn_changed s.bus_state true ≡ false
      → send_byte t b (plainly s) (hearing p (b.position == b.lastused) rest)
        ≡ answer 0 (sent s (bits_of (get_or b.bytes b.position 0))) rest
  unfolding send_byte put_on_bus with_dropped drop_eoi
  send_byte-hearing b s p rest eoi quiet =
      let c = get_or b.bytes b.position 0 in
      let taken = λ (final : Bool).
        iec_putc-hearing c rest (t.jiffy_send c final) (plainly s) p final quiet in
      elim (Bool-cases (b.position == b.lastused)) [
        | inl last ↦ rw (last, eoi, taken true) refl
        | inr more ↦ rw (more, taken false) refl
      ]

  send_buffer-audience :
      (n fuel : ℕ)
      → (b : Buffer) → (s : Iec) → (pace : ℕ → Pace) → (k : ℕ) → (rest : List Sample)
      → b.sendeoi ≡ true
      → atn_changed s.bus_state true ≡ false
      → b.position + n ≡ b.lastused
      → b.lastused < 256
      → n < fuel
      → send_buffer t fuel b (plainly s) (audience pace n k rest)
        ≡ finished ((b.position + n + 1) % 256) (sent s (all_bits (contents b n))) rest
  unfolding audience send_buffer all_bits block after_byte
  send_buffer-audience n zero b s pace k rest eoi quiet ends byte enough = absurd (omega arith)
  send_buffer-audience zero (suc fuel) b s pace k rest eoi quiet ends byte enough =
      let last : (b.position == b.lastused) ≡ true = ground arith in
      let over : ltb b.position b.lastused ≡ false = ground arith in
      let heard = rw last at (send_byte-hearing b s (pace k) rest eoi quiet) in
      let at : b.position + 1 ≡ b.position + zero + 1 = omega arith in
      let bits = bits_of (get_or b.bytes b.position 0) in
      rw (heard, over, append-nil) (λ j. finished (at j % 256) (sent s bits) rest)
  send_buffer-audience (suc n) (suc fuel) b s pace k rest eoi quiet ends byte enough =
      let early : (b.position == b.lastused) ≡ false = ground arith in
      let more : ltb b.position b.lastused ≡ true = ground arith in
      let next : (b.position + 1) % 256 ≡ b.position + 1 = omega arith in
      let heard =
        rw early at (send_byte-hearing b s (pace k) (audience pace n (k + 1) rest) eoi quiet) in
      let s1 = sent s (bits_of (get_or b.bytes b.position 0)) in
      let at : b.position + 1 + n + 1 ≡ b.position + suc n + 1 = omega arith in
      let joined =
        append_assoc s.edges (bits_of (get_or b.bytes b.position 0))
          (all_bits (block (λ c. get_or b.bytes c 0) (b.position + 1) (suc n))) in
      let b1 = record b { position = b.position + 1 } in
      rw (heard, more, next)
        (send_buffer-audience n fuel b1 s1 pace (k + 1) rest eoi quiet (omega arith) byte
            (omega arith)
          ∙ (λ j. finished (at j % 256) (record s1 { edges = joined j }) rest))

  -- For a channel that is not 15, whose buffer is to be read with EOI and is neither a record
  -- nor refilled directly, without a fast protocol and while ATN stays high: to a computer
  -- that takes each byte in its own time iec_talk_handler sends the bytes from the position to
  -- lastused, each once, in order and lowest bit first, the last one with EOI; then the
  -- position is behind lastused, the buffer is no longer to be read, and the handler returns
  -- 0.
  pub iec_talk_handler-audience :
      (e : Setup)
      → (cmd i n fuel : ℕ) → (b : Buffer) → (d : Drive) → (s : Iec) → (pace : ℕ → Pace)
      → (rest : List Sample) → find_buffer (cmd % 16) d.system ≡ some i
      → get_elem? d.system.buffers i ≡ some b
      → cmd % 16 ≢ 15
      → b.read ≡ true
      → b.sendeoi ≡ true
      → b.recordlen ≡ 0
      → t.is_directbuffer_refill b.refill ≡ false
      → atn_changed s.bus_state true ≡ false
      → b.position + n ≡ b.lastused
      → b.lastused < 256
      → iec_talk_handler e t cmd (suc fuel) (record d { iec = plainly s }) (audience pace n 0 rest)
        ≡ some (
          false,
          put_buffer i
              (record b { position = (b.lastused + 1) % 256; read = false })
              (sent s (all_bits (contents b n)))
              d,
          rest,
        )
  unfolding iec_talk_handler talk_channel talk_loop talk_buffer after_buffer put_buffer
  iec_talk_handler-audience e cmd i n fuel b d s pace rest found at channel reads eoi sequential
        indirect quiet ends byte =
      let spoken = send_buffer-audience n 256 b s pace 0 rest eoi quiet ends byte (omega arith) in
      let other : (cmd % 16 == 15) ≡ false = ground arith in
      let plain_file : (b.recordlen == 0) ≡ true = ground arith in
      rw (found, at, spoken) (rw (reads, eoi, other, plain_file, indirect, ends) refl)
