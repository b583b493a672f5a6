-- ===== src/Iec/Receive/Bytes.antt =====
-- What `_iec_getc` of src/iec.c receives from a sender of one byte.
use Prim.Native.Nat.{bit_and}
use nodiskemu.Prelude.{
  ℕ, ◌+◌, ◌/◌, ◌%◌, ◌<◌, Bool, true, false, not, ◌&&◌, ◌||◌, or_false, or_true, List, [], ◌∷◌, ◌++◌,
  ltb, ◌==◌, if◌then◌else◌, replicate, test_bit, all_below, all_below_sound, ◌≡◌, refl, ap, ◌∙◌,
  arith, Bool-cases, inl, inr,
}
use nodiskemu.Iec.{Iec, Sample, answer, is_atnactive, atn_changed}
use nodiskemu.Iec.Receive.{and_then, offer_jiffy, shift_in, receive_bits, receive_eoi, iec_getc}
use nodiskemu.Iec.Receive.Waveform.{
  Pulse, shift_bits, low, high, train, await-replicate, await_atn-replicate, at_edge, at_edges,
  receive_bits-train,
}

-- The eight pulses of a byte, with phases of any length; the last edge may be late.
module _ (length_before length_after : ℕ → ℕ) where
  abbrev pub pulse_of : (c i : ℕ) → (late : Bool) → Pulse
  pulse_of c i late = record {
    before = length_before i;
    after = length_after i;
    one = test_bit c i;
    late = late;
  }

  abbrev pub pulses_of : (c : ℕ) → (late : Bool) → List Pulse
  pulses_of c late =
      pulse_of c 0 false
      ∷ pulse_of c 1 false
      ∷ pulse_of c 2 false
      ∷ pulse_of c 3 false
      ∷ pulse_of c 4 false
      ∷ pulse_of c 5 false
      ∷ pulse_of c 6 false
      ∷ pulse_of c 7 late
      ∷ []

seven : ℕ → ℕ
unfolding shift_in test_bit
seven c =
    shift_in
      (shift_in
        (shift_in
          (shift_in (shift_in (shift_in (shift_in 0 (test_bit c 0)) (test_bit c 1)) (test_bit c 2))
            (test_bit c 3))
          (test_bit c 4))
        (test_bit c 5))
      (test_bit c 6)

byte_table : all_below 256 (λ c. shift_in (seven c) (test_bit c 7) == c) ≡ true
unfolding all_below seven shift_in test_bit
byte_table = refl

seven_table : all_below 256 (λ c. seven c / 2 == c % 128) ≡ true
unfolding all_below seven shift_in test_bit
seven_table = refl

-- The phases of the sender: before it is ready, until the other devices are, and of the announcement.
pub record Phases : Type 0 where
  pub not_ready : ℕ
  pub not_released : ℕ
  pub held : ℕ
  pub announced : ℕ
  pub before : ℕ → ℕ
  pub after : ℕ → ℕ

unfoldable pub signal :
    (level : Bool) → Phases → (c : ℕ) → (eoi late : Bool) → List Sample → List Sample
signal level p c eoi late rest =
    let bits = train level (pulses_of p.before p.after c late) rest in
    let last =
      replicate p.held (high level true false)
      ++ (high level true true
          ∷ (replicate p.announced (high level true false) ++ (low level false ∷ bits))) in
    let plain = replicate p.held (high level true false) ++ (low level false ∷ bits) in
    replicate p.not_ready (low level false)
    ++ (high level false false
        ∷ (replicate p.not_released (high level false false)
            ++ (high level true false ∷ (if eoi then last else plain))))

module _ (device : ℕ) (level late : Bool) (p : Phases) (c : ℕ) (small : c < 256) where
  bits : List Pulse
  bits = pulses_of p.before p.after c late

  -- JiffyDOS is offered when the last bit of a command for this device is late.
  abbrev pub offered : Iec → Bool
  offered s =
      is_atnactive s.bus_state && (late && (ltb (c % 128) 96 && (bit_and (c % 128) 31 == device)))

  at_edges_early :
      (i val : ℕ)
      → (q : Pulse) → (pulses : List Pulse) → (s : Iec) → (i == 7) ≡ false
      → at_edges level device i val (q ∷ pulses) s
        ≡ at_edges level device (i + 1) (shift_in val q.one) pulses s
  unfolding at_edges at_edge
  at_edges_early i val q pulses s early = elim (Bool-cases (is_atnactive s.bus_state)) [
    | inl commanded ↦ rw (commanded, early) refl
    | inr plain ↦ rw plain refl
  ]

  at_edges_one :
      (i val : ℕ)
      → (q : Pulse) → (s : Iec)
      → at_edges level device i val (q ∷ []) s ≡ at_edge level device i val q s
  unfolding at_edges
  at_edges_one i val q s = refl

  shift_bits-bits : shift_bits 0 bits ≡ c
  unfolding shift_bits bits seven
  shift_bits-bits = ground (arith, all_below_sound 256 _ c byte_table small)

  seven-bits : seven c / 2 ≡ c % 128
  seven-bits = ground (arith, all_below_sound 256 _ c seven_table small)

  at_edges-last :
      (s : Iec)
      → at_edges level device 0 0 bits s
        ≡ at_edge level device 7 (seven c) (pulse_of p.before p.after c 7 late) s
  unfolding bits seven
  at_edges-last s =
      at_edges_early 0 _ _ _ s refl
      ∙ at_edges_early 1 _ _ _ s refl
      ∙ at_edges_early 2 _ _ _ s refl
      ∙ at_edges_early 3 _ _ _ s refl
      ∙ at_edges_early 4 _ _ _ s refl
      ∙ at_edges_early 5 _ _ _ s refl
      ∙ at_edges_early 6 _ _ _ s refl
      ∙ at_edges_one 7 _ _ s

  at_edge-offered :
      (s : Iec)
      → record (at_edge level device 7 (seven c) (pulse_of p.before p.after c 7 late) s) {
        set_data = false;
      }
        ≡ record s { jiffy_active = s.jiffy_active || offered s; set_data = false }
  unfolding at_edge offer_jiffy
  at_edge-offered s =
      let ours = late && (ltb (c % 128) 96 && (bit_and (c % 128) 31 == device)) in
      rw seven-bits (elim (Bool-cases (is_atnactive s.bus_state)) [
        | inl commanded ↦ elim (Bool-cases s.jiffy_active) [
          | inl on ↦ rw (commanded, on) refl
          | inr off ↦ elim (Bool-cases ours) [
            | inl yes_ours ↦ rw (commanded, off, yes_ours) refl
            | inr not_ours ↦ rw (commanded, off, not_ours) refl
          ]
        ]
        | inr plain ↦ rw (plain, or_false s.jiffy_active) refl
      ])

  receive_bits-bits :
      (s : Iec)
      → (rest : List Sample) → atn_changed s.bus_state level ≡ false
      → receive_bits device 8 0 0 s (train level bits rest)
        ≡ answer c (at_edges level device 0 0 bits s) rest
  unfolding bits
  receive_bits-bits s rest quiet =
      receive_bits-train level bits device 0 0 s rest quiet
      ∙ ap (λ val. answer val (at_edges level device 0 0 bits s) rest) shift_bits-bits

  received :
      (s : Iec)
      → (rest : List Sample) → atn_changed s.bus_state level ≡ false
      → and_then
          (receive_bits device 8 0 0 s (train level bits rest))
          (λ val s1 samples. answer val (record s1 { set_data = false }) samples)
        ≡ answer c (record s { jiffy_active = s.jiffy_active || offered s; set_data = false }) rest
  unfolding and_then
  received s rest quiet = rw (receive_bits-bits s rest quiet) (
      ap (λ s1. answer c s1 rest)
        (ap (λ (x : Iec). record x { set_data = false }) (at_edges-last s) ∙ at_edge-offered s))

  -- Whatever the length of the phases, a byte that a sender puts on the bus, with or without
  -- EOI, is what _iec_getc returns while ATN does not change; EOI_RECVD is set when EOI was
  -- signalled, and JIFFY_ACTIVE exactly when it was set before or, under ATN, the edge of the
  -- last bit came late and the command is a LISTEN or TALK for this device.
  pub iec_getc-signal :
      (s : Iec)
      → (eoi : Bool) → (rest : List Sample) → atn_changed s.bus_state level ≡ false
      → iec_getc device s (signal level p c eoi late rest)
        ≡ answer c
            (record s {
              eoi_recvd = s.eoi_recvd || eoi;
              jiffy_active = s.jiffy_active || offered s;
              set_data = false;
            })
            rest
  unfolding iec_getc signal and_then receive_eoi bits
  iec_getc-signal s true rest quiet =
      let s1 = record s { set_data = true } in
      rw
        (
          await_atn-replicate level s (λ x. x.clock) (low level false) (high level false false)
              p.not_ready _ quiet quiet refl refl,
          await-replicate level (λ x. x.data_line) s1 (high level false false)
              (high level true false) p.not_released _ refl refl,
          await_atn-replicate level s1 (λ x. not (x.clock && not x.timed_out))
              (high level true false) (high level true true) p.held _ quiet quiet refl refl,
          await_atn-replicate level s1 (λ x. not x.clock) (high level true false) (low level false)
              p.announced _ quiet quiet refl refl,
          or_true s.eoi_recvd,
        )
        (received (record s1 { eoi_recvd = true }) rest quiet)
  iec_getc-signal s false rest quiet =
      let s1 = record s { set_data = true } in
      rw
        (
          await_atn-replicate level s (λ x. x.clock) (low level false) (high level false false)
              p.not_ready _ quiet quiet refl refl,
          await-replicate level (λ x. x.data_line) s1 (high level false false)
              (high level true false) p.not_released _ refl refl,
          await_atn-replicate level s1 (λ x. not (x.clock && not x.timed_out))
              (high level true false) (low level false) p.held _ quiet quiet refl refl,
          or_false s.eoi_recvd,
        )
        (received s1 rest quiet)
