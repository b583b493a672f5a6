-- ===== src/Iec/Receive/Waveform.antt =====
-- `_iec_getc` of src/iec.c against the signal of a sender, whatever the length of its phases.
use Prim.Native.Nat.{bit_and}
use nodiskemu.Prelude.{
  ℕ, zero, suc, ◌+◌, ◌/◌, Bool, true, false, not, ◌&&◌, List, [], ◌∷◌, ◌++◌, ltb, ◌==◌,
  if◌then◌else◌, replicate, length, ◌≡◌, refl, ap, ◌∙◌, Bool-cases, inl, inr,
}
use nodiskemu.Iec.{Iec, Sample, answer, is_atnactive, atn_changed}
use nodiskemu.Iec.Receive.{
  and_then, await, await_atn, offer_jiffy, await_jiffy, await_bit, shift_in, receive_bits,
}

-- One bit: the samples before the edge and behind it, the bit, and whether the edge was late.
pub record Pulse : Type 0 where
  pub before : ℕ
  pub after : ℕ
  pub one : Bool
  pub late : Bool

unfoldable pub shift_bits : ℕ → List Pulse → ℕ
shift_bits val [] = val
shift_bits val (p ∷ pulses) = shift_bits (shift_in val p.one) pulses

module _ (level : Bool) where
  abbrev pub low : (late : Bool) → Sample
  low late = record {
    atn = level;
    clock = false;
    data_line = false;
    timed_out = late;
    rxflag = false;
  }

  abbrev pub high : (one late : Bool) → Sample
  high one late = record {
    atn = level;
    clock = true;
    data_line = one;
    timed_out = late;
    rxflag = false;
  }

  -- One bit on the bus, with what comes behind it.
  unfoldable pub pulse : Pulse → List Sample → List Sample
  pulse p rest =
      replicate p.before (low p.late)
      ++ (high p.one p.late ∷ (replicate p.after (high p.one false) ++ (low false ∷ rest)))

  unfoldable pub train : List Pulse → List Sample → List Sample
  train [] rest = rest
  train (p ∷ pulses) rest = pulse p (train pulses rest)

  pub await-replicate :
      (ends : Sample → Bool)
      → (s : Iec) → (x y : Sample) → (n : ℕ) → (rest : List Sample) → ends x ≡ false
      → ends y ≡ true
      → await ends s (replicate n x ++ (y ∷ rest)) ≡ answer y s rest
  unfolding await
  await-replicate ends s x y zero rest no_x yes_y = rw yes_y refl
  await-replicate ends s x y (suc n) rest no_x yes_y =
      rw no_x (await-replicate ends s x y n rest no_x yes_y)

  module _ (s : Iec) where
    pub await_atn-replicate :
        (ends : Sample → Bool)
        → (x y : Sample) → (n : ℕ) → (rest : List Sample) → atn_changed s.bus_state x.atn ≡ false
        → atn_changed s.bus_state y.atn ≡ false
        → ends x ≡ false
        → ends y ≡ true
        → await_atn ends s (replicate n x ++ (y ∷ rest)) ≡ answer y s rest
    unfolding await_atn
    await_atn-replicate ends x y zero rest at_x at_y no_x yes_y = rw (at_y, yes_y) refl
    await_atn-replicate ends x y (suc n) rest at_x at_y no_x yes_y =
        rw (at_x, no_x) (await_atn-replicate ends x y n rest at_x at_y no_x yes_y)

  offer_jiffy-twice :
      (device val : ℕ)
      → (x y : Sample) → (s : Iec) → x.timed_out ≡ y.timed_out
      → offer_jiffy device val x (offer_jiffy device val y s) ≡ offer_jiffy device val y s
  unfolding offer_jiffy
  offer_jiffy-twice device val x y s same =
      let ours = ltb (val / 2) 96 && (bit_and (val / 2) 31 == device) in
      elim (Bool-cases (not s.jiffy_active && y.timed_out && ours)) [
        | inl offered ↦ rw offered refl
        | inr kept ↦ rw (same, kept) (rw kept refl)
      ]

  await_jiffy-pulse :
      (device val : ℕ)
      → (p : Pulse) → (n : ℕ) → (s : Iec) → (rest : List Sample)
      → await_jiffy device val s (replicate n (low p.late) ++ (high p.one p.late ∷ rest))
        ≡ answer (high p.one p.late) (offer_jiffy device val (high p.one p.late) s) rest
  unfolding await_jiffy offer_jiffy
  await_jiffy-pulse device val p zero s rest = refl
  await_jiffy-pulse device val p (suc n) s rest =
      await_jiffy-pulse device val p n (offer_jiffy device val (low p.late) s) rest
      ∙ ap (λ s1. answer (high p.one p.late) s1 rest)
          (offer_jiffy-twice device val (high p.one p.late) (low p.late) s refl)

  -- What the edge of a bit does to the state: only the last bit of a command counts.
  unfoldable pub at_edge : (device i val : ℕ) → Pulse → Iec → Iec
  at_edge device i val p s =
      if is_atnactive s.bus_state && (i == 7)
      then offer_jiffy device val (high p.one p.late) s
      else s

  await_bit-pulse :
      (device i val : ℕ)
      → (p : Pulse) → (s : Iec) → (rest : List Sample)
      → await_bit device i val s (replicate p.before (low p.late) ++ (high p.one p.late ∷ rest))
        ≡ answer (high p.one p.late) (at_edge device i val p s) rest
  unfolding await_bit at_edge
  await_bit-pulse device i val p s rest = elim (Bool-cases (is_atnactive s.bus_state && (i == 7))) [
    | inl last ↦ rw last (await_jiffy-pulse device val p p.before s rest)
    | inr plain ↦
        rw plain (
          await-replicate (λ x. x.clock) s (low p.late) (high p.one p.late) p.before rest refl refl)
  ]

  bus_state-at_edge :
      (device i val : ℕ)
      → (p : Pulse) → (s : Iec) → (at_edge device i val p s).bus_state ≡ s.bus_state
  unfolding at_edge offer_jiffy
  bus_state-at_edge device i val p s =
      let ours = ltb (val / 2) 96 && (bit_and (val / 2) 31 == device) in
      elim (Bool-cases (is_atnactive s.bus_state && (i == 7))) [
        | inl last ↦ elim (Bool-cases (not s.jiffy_active && p.late && ours)) [
          | inl offered ↦ rw (last, offered) refl
          | inr kept ↦ rw (last, kept) refl
        ]
        | inr plain ↦ rw plain refl
      ]

  unfoldable pub at_edges : (device i val : ℕ) → List Pulse → Iec → Iec
  at_edges device i val [] s = s
  at_edges device i val (p ∷ pulses) s =
      at_edges device (i + 1) (shift_in val p.one) pulses (at_edge device i val p s)

  pub receive_bits-train :
      (pulses : List Pulse)
      → (device i val : ℕ) → (s : Iec) → (rest : List Sample)
      → atn_changed s.bus_state level ≡ false
      → receive_bits device (length pulses) i val s (train pulses rest)
        ≡ answer (shift_bits val pulses) (at_edges device i val pulses s) rest
  unfolding receive_bits shift_bits at_edges train pulse and_then
  receive_bits-train [] device i val s rest quiet = refl
  receive_bits-train (p ∷ pulses) device i val s rest quiet =
      let s1 = at_edge device i val p s in
      let quiet1 : atn_changed s1.bus_state level ≡ false =
        ap (λ b. atn_changed b level) (bus_state-at_edge device i val p s) ∙ quiet in
      rw
        (
          await_bit-pulse device i val p s
              (replicate p.after (high p.one false) ++ (low false ∷ train pulses rest)),
          await_atn-replicate s1 (λ x. not x.clock) (high p.one false) (low false) p.after
              (train pulses rest) quiet1 quiet1 refl refl,
        )
        (receive_bits-train pulses device (i + 1) (shift_in val p.one) s1 rest quiet1)
