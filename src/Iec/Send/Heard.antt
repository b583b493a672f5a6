-- ===== src/Iec/Send/Heard.antt =====
-- `iec_putc` of src/iec.c against a listener that answers, however long it takes.
use nodiskemu.Prelude.{
  ℕ, ◌<◌, Bool, true, false, not, ◌||◌, List, [], ◌∷◌, ◌++◌, if◌then◌else◌, replicate, test_bit,
  all_below, all_below_sound, ◌==◌, ◌≡◌, refl, arith,
}
use mathlib.Core.List.{append_assoc}
use nodiskemu.Iec.{Iec, Sample, Outcome, answer, atn_changed}
use nodiskemu.Iec.Receive.{and_then, await_atn, shift_in}
use nodiskemu.Iec.Receive.Waveform.{await-replicate, await_atn-replicate}
use nodiskemu.Iec.Send.{read_sample, send_bits, send_eoi, send_clocked, iec_putc}

-- A sample with ATN high: the listener's data line.
abbrev pub line : Bool → Sample
line high = record {
  atn = true;
  clock = false;
  data_line = high;
  timed_out = false;
  rxflag = false;
}

-- How long the listener takes: to be ready, to answer the announcement and to end its answer, and to
-- take the byte and release the line again.
pub record Pace : Type 0 where
  pub ready : ℕ
  pub answering : ℕ
  pub answered : ℕ
  pub taking : ℕ
  pub releasing : ℕ

unfoldable pub hearing : Pace → (eoi : Bool) → List Sample → List Sample
hearing p eoi rest =
    let ends =
      replicate p.taking (line true)
      ++ (line false ∷ (replicate p.releasing (line false) ++ (line true ∷ rest))) in
    let bits =
      line true
      ∷ line true
      ∷ line true
      ∷ line true
      ∷ line true
      ∷ line true
      ∷ line true
      ∷ line true
      ∷ ends in
    let clocked = replicate p.answered (line false) ++ (line true ∷ bits) in
    let pulse = line true ∷ (replicate p.answering (line true) ++ (line false ∷ clocked)) in
    line false
    ∷ line false
    ∷ (replicate p.ready (line false) ++ (line true ∷ (if eoi then pulse else clocked)))

-- The bits of a byte as they go over the line, and a byte put together from them.
unfoldable pub bits_of : ℕ → List Bool
bits_of c =
    test_bit c 0
    ∷ test_bit c 1
    ∷ test_bit c 2
    ∷ test_bit c 3
    ∷ test_bit c 4
    ∷ test_bit c 5
    ∷ test_bit c 6
    ∷ test_bit c 7
    ∷ []

unfoldable pub shift_all : ℕ → List Bool → ℕ
shift_all val [] = val
shift_all val (one ∷ bits) = shift_all (shift_in val one) bits

bits_table : all_below 256 (λ c. shift_all 0 (bits_of c) == c) ≡ true
unfolding all_below shift_all shift_in bits_of test_bit
bits_table = refl

pub shift_all-bits_of : (c : ℕ) → c < 256 → shift_all 0 (bits_of c) ≡ c
shift_all-bits_of c small = ground (arith, all_below_sound 256 _ c bits_table small)

await_atn-first :
    (s : Iec)
    → (x : Sample) → (rest : List Sample) → atn_changed s.bus_state x.atn ≡ false
    → await_atn (λ x. true) s (x ∷ rest) ≡ answer x s rest
unfolding await_atn
await_atn-first s x rest quiet = rw quiet refl

module _ (c : ℕ) (rest : List Sample) where
  send_bits-line :
      (rest : List Sample)
      → (s : Iec)
      → send_bits c 8 0 s (
          line true
          ∷ line true
          ∷ line true
          ∷ line true
          ∷ line true
          ∷ line true
          ∷ line true
          ∷ line true
          ∷ rest)
        ≡ answer 0
            (record s { set_clock = false; set_data = true; edges = s.edges ++ bits_of c })
            rest
  unfolding send_bits and_then read_sample bits_of
  send_bits-line rest s = simp append_assoc

  abbrev pub serial : Iec → Iec
  serial s = record s { jiffy_active = false }

  -- The tail behind the announcement.
  clocked :
      (s : Iec)
      → (p : Pace) → atn_changed s.bus_state true ≡ false
      → send_clocked c s (
          replicate p.answered (line false)
          ++ (line true
              ∷ (line true
                  ∷ line true
                  ∷ line true
                  ∷ line true
                  ∷ line true
                  ∷ line true
                  ∷ line true
                  ∷ line true
                  ∷ (replicate p.taking (line true)
                      ++ (line false
                          ∷ (replicate p.releasing (line false) ++ (line true ∷ rest)))))))
        ≡ answer 0
            (record s { set_clock = false; set_data = true; edges = s.edges ++ bits_of c })
            rest
  unfolding send_clocked and_then
  clocked s p quiet =
      let s1 = record s { set_clock = false } in
      let s2 = record s { set_clock = false; set_data = true; edges = s.edges ++ bits_of c } in
      rw
        (
          await_atn-replicate true s1 (λ x. x.data_line) (line false) (line true) p.answered _ quiet
              quiet refl refl,
          send_bits-line _ s1,
          await_atn-replicate true s2 (λ x. not x.data_line) (line true) (line false) p.taking _
              quiet quiet refl refl,
          await-replicate true (λ x. x.data_line || (not x.atn || x.timed_out)) s2 (line false)
              (line true) p.releasing rest refl refl,
        )
        refl

  -- Without JiffyDOS and while ATN does not change, to a listener that answers, however long
  -- each of its phases is, and that answers the announcement when EOI is asked for, iec_putc
  -- sends the eight bits of the byte, the lowest first, and returns 0 with the clock pulled
  -- and the data line released.
  pub iec_putc-hearing :
      (jiffy : Iec → List Sample → Outcome ℕ)
      → (s : Iec) → (p : Pace) → (eoi : Bool) → atn_changed s.bus_state true ≡ false
      → iec_putc jiffy c eoi (serial s) (hearing p eoi rest)
        ≡ answer 0
            (record (serial s) { set_clock = false; set_data = true; edges = s.edges ++ bits_of c })
            rest
  unfolding iec_putc hearing and_then read_sample send_eoi
  iec_putc-hearing jiffy s p true quiet =
      let s1 = record (serial s) { set_clock = true } in
      rw
        (
          await_atn-first (serial s) (line false) _ quiet,
          await_atn-replicate true s1 (λ x. x.data_line) (line false) (line true) p.ready _ quiet
              quiet refl refl,
          await_atn-replicate true s1 (λ x. x.data_line) (line false) (line true) 0 _ quiet quiet
              refl refl,
          await_atn-replicate true s1 (λ x. not x.data_line) (line true) (line false) p.answering _
              quiet quiet refl refl,
        )
        (clocked s1 p quiet)
  iec_putc-hearing jiffy s p false quiet =
      let s1 = record (serial s) { set_clock = true } in
      rw
        (
          await_atn-first (serial s) (line false) _ quiet,
          await_atn-replicate true s1 (λ x. x.data_line) (line false) (line true) p.ready _ quiet
              quiet refl refl,
        )
        (clocked s1 p quiet)
