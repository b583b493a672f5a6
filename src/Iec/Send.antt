-- ===== src/Iec/Send.antt =====
-- `iec_putc` of src/iec.c, which sends one byte.
pub mod Heard
use nodiskemu.Prelude.{
  ℕ, zero, suc, ◌+◌, Bool, true, false, not, ◌||◌, List, [], ◌∷◌, ◌++◌, if◌then◌else◌, test_bit,
}
use nodiskemu.Iec.{Iec, Sample, Outcome, starved, changed, answer, cleanup}
use nodiskemu.Iec.Receive.{and_then, await, await_atn}

-- One sample that is read in any case.
unfoldable pub read_sample : Iec → List Sample → Outcome Sample
read_sample s [] = starved
read_sample s (sample ∷ samples) = answer sample s samples

-- A bit at a time, while a listener is there.
unfoldable pub send_bits : (c rounds i : ℕ) → Iec → List Sample → Outcome ℕ
send_bits c zero i s samples = answer 0 s samples
send_bits c (suc rounds) i s samples = and_then (read_sample s samples) (λ here s1 samples1.
    let gone = changed (record s1 { bus_state = cleanup }) samples1 in
    let bit = test_bit c i in
    let sent = record s1 { set_clock = false; set_data = true; edges = s1.edges ++ (bit ∷ []) } in
    let rest = send_bits c rounds (i + 1) sent samples1 in if here.data_line then rest else gone)

-- The end of the last byte is announced by waiting for the listener's pulse.
unfoldable pub send_eoi : Bool → Iec → List Sample → Outcome ℕ
send_eoi announced s samples =
    let pulse = and_then (await_atn (λ x. x.data_line) s samples) (λ high s1 samples1.
      and_then (await_atn (λ x. not x.data_line) s1 samples1)
        (λ low s2 samples2. answer 0 s2 samples2)) in
    if announced then pulse else answer 0 s samples

-- From the clock's fall on: the bits, and the listener's answer.
unfoldable pub send_clocked : (c : ℕ) → Iec → List Sample → Outcome ℕ
send_clocked c s samples =
    and_then (await_atn (λ x. x.data_line) (record s { set_clock = false }) samples)
      (λ high s1 samples1. and_then (send_bits c 8 0 s1 samples1) (λ bits s2 samples2.
        and_then (await_atn (λ x. not x.data_line) s2 samples2) (λ taken s3 samples3.
          and_then (await (λ x. x.data_line || (not x.atn || x.timed_out)) s3 samples3)
            (λ last s4 samples4. answer 0 s4 samples4))))

-- `jiffy` is `jiffy_send` without a load; the result is 0, or the bus has changed.
unfoldable pub iec_putc :
    (jiffy : Iec → List Sample → Outcome ℕ)
    → (c : ℕ) → (with_eoi : Bool) → Iec
    → List Sample
    → Outcome ℕ
iec_putc jiffy c with_eoi s samples =
    and_then (await_atn (λ x. true) s samples) (λ start s1 samples1.
      let serial = and_then (read_sample s1 samples1) (λ i s2 samples2.
        and_then (await_atn (λ x. x.data_line) (record s2 { set_clock = true }) samples2)
          (λ ready s3 samples3.
            and_then (send_eoi (with_eoi || i.data_line) s3 samples3)
              (λ told s4 samples4. send_clocked c s4 samples4))) in
      if s1.jiffy_active then jiffy s1 samples1 else serial)
