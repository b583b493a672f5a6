-- ===== src/Iec/Receive.antt =====
-- `_iec_getc` of src/iec.c, which receives one byte.
pub mod Waveform
pub mod Bytes
use Prim.Native.Nat.{bit_and}
use nodiskemu.Prelude.{
  ℕ, zero, suc, ◌+◌, ◌*◌, ◌/◌, Bool, true, false, not, ◌&&◌, List, [], ◌∷◌, ltb, ◌==◌,
  if◌then◌else◌,
}
use nodiskemu.Iec.{
  BusState, Iec, Sample, Outcome, starved, changed, answer, is_atnactive, atn_changed, atn_state,
}

unfoldable pub and_then :
    {A B : Type 0} → Outcome A → (A → Iec → List Sample → Outcome B) → Outcome B
and_then starved go = starved
and_then (changed s samples) go = changed s samples
and_then (answer a s samples) go = go a s samples

-- A loop that only waits for a line.
unfoldable pub await : (Sample → Bool) → Iec → List Sample → Outcome Sample
await ends s [] = starved
await ends s (sample ∷ samples) =
    let more = await ends s samples in if ends sample then answer sample s samples else more

-- A loop that gives up when `iec_check_atn` does.
unfoldable pub await_atn : (Sample → Bool) → Iec → List Sample → Outcome Sample
await_atn ends s [] = starved
await_atn ends s (sample ∷ samples) =
    let more = await_atn ends s samples in
    let stop = if ends sample then answer sample s samples else more in
    let aborted = changed (record s { bus_state = atn_state s.bus_state }) samples in
    if atn_changed s.bus_state sample.atn then aborted else stop

-- The test for JiffyDOS in a round of the wait for the last bit.
unfoldable pub offer_jiffy : (device_address val : ℕ) → Sample → Iec → Iec
offer_jiffy device_address val sample s =
    let ours = ltb (val / 2) 96 && (bit_and (val / 2) 31 == device_address) in
    if not s.jiffy_active && sample.timed_out && ours
    then record s { jiffy_active = true; set_data = true }
    else s

unfoldable pub await_jiffy : (device_address val : ℕ) → Iec → List Sample → Outcome Sample
await_jiffy device_address val s [] = starved
await_jiffy device_address val s (sample ∷ samples) =
    let s1 = offer_jiffy device_address val sample s in
    let more = await_jiffy device_address val s1 samples in
    if sample.clock then answer sample s1 samples else more

-- The wait for a bit: its rising edge.
unfoldable pub await_bit : (device_address i val : ℕ) → Iec → List Sample → Outcome Sample
await_bit device_address i val s samples =
    let plain = await (λ sample. sample.clock) s samples in
    let last = await_jiffy device_address val s samples in
    if is_atnactive s.bus_state && (i == 7) then last else plain

-- `(val >> 1) | (!!(tmp & IEC_BIT_DATA) << 7)` on a uint8_t.
unfoldable pub shift_in : ℕ → Bool → ℕ
shift_in val one = val / 2 + (if one then 128 else 0)

unfoldable pub receive_bits : (device_address rounds i val : ℕ) → Iec → List Sample → Outcome ℕ
receive_bits device_address zero i val s samples = answer val s samples
receive_bits device_address (suc rounds) i val s samples =
    and_then (await_bit device_address i val s samples) (λ bit s1 samples1.
      and_then (await_atn (λ sample. not sample.clock) s1 samples1) (λ low s2 samples2.
        receive_bits device_address rounds (i + 1) (shift_in val bit.data_line) s2 samples2))

-- The answer to a timeout while the clock stays high: the sender announces its last byte.
unfoldable pub receive_eoi : Sample → Iec → List Sample → Outcome Sample
receive_eoi sample s samples =
    let noted =
      and_then (await_atn (λ x. not x.clock) (record s { set_data = true }) samples)
        (λ low s1 samples1. answer low (record s1 { eoi_recvd = true }) samples1) in
    if sample.timed_out then noted else answer sample s samples

unfoldable pub iec_getc : (device_address : ℕ) → Iec → List Sample → Outcome ℕ
iec_getc device_address s samples =
    and_then (await_atn (λ x. x.clock) s samples) (λ ready s1 samples1.
      and_then (await (λ x. x.data_line) (record s1 { set_data = true }) samples1)
        (λ released s2 samples2.
          and_then (await_atn (λ x. not (x.clock && not x.timed_out)) s2 samples2)
            (λ edge s3 samples3. and_then (receive_eoi edge s3 samples3) (λ start s4 samples4.
              and_then (receive_bits device_address 8 0 0 s4 samples4)
                (λ val s5 samples5. answer val (record s5 { set_data = false }) samples5)))))
