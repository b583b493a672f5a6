-- ===== src/Iec/Talk.antt =====
-- `iec_talk_handler` of src/iec.c, which sends the buffer of a channel to the computer.
pub mod Sent
use nodiskemu.Prelude.{
  ℕ, zero, suc, ◌+◌, ◌%◌, Bool, true, false, not, ◌&&◌, ◌||◌, Option, none, some, List, [], ◌∷◌,
  ltb, ◌==◌, if◌then◌else◌, get_elem?, get_or, set,
}
use nodiskemu.System.{Callback, Buffer, System}
use nodiskemu.Buffers.{find_buffer}
use nodiskemu.Iec.{Iec, Sample, Outcome, starved, changed, answer, cleanup}
use nodiskemu.Iec.Receive.{and_then, await, await_atn}
use nodiskemu.Iec.Send.{iec_putc}
use nodiskemu.Iec.Listen.{Drive, Setup}

-- The senders of the fast protocols, which answer 0 or find the bus changed; the Boolean is EOI, or
-- the mark of the last byte of a load. The last field tells `directbuffer_refill`.
pub record Senders : Type 0 where
  pub jiffy_send : (c : ℕ) → Bool → Iec → List Sample → Outcome ℕ
  pub jiffy_load_send : (c : ℕ) → Bool → Iec → List Sample → Outcome ℕ
  pub dolphin_putc : (c : ℕ) → Bool → Iec → List Sample → Outcome ℕ
  pub is_directbuffer_refill : Callback → Bool

unfoldable pub put_on_bus : Senders → (c : ℕ) → (with_eoi : Bool) → Iec → List Sample → Outcome ℕ
put_on_bus t c with_eoi s samples =
    let dolphin = t.dolphin_putc c with_eoi s samples in
    let plain = iec_putc (t.jiffy_send c with_eoi) c with_eoi s samples in
    if s.dolphin_active then dolphin else plain

-- JiffyDOS drops the announcement of the end.
unfoldable pub drop_eoi : Iec → Iec
drop_eoi s = if s.jiffy_active then record s { set_data = true; set_clock = false } else s

unfoldable pub with_dropped : Outcome ℕ → Outcome ℕ
with_dropped starved = starved
with_dropped (changed s samples) = changed (drop_eoi s) samples
with_dropped (answer res s samples) = answer res (drop_eoi s) samples

-- The body of the loop over the bytes of a buffer.
unfoldable pub send_byte : Senders → Buffer → Iec → List Sample → Outcome ℕ
send_byte t b s samples =
    let c = get_or b.bytes b.position 0 in
    let finalbyte = b.position == b.lastused in
    let ends = finalbyte && b.sendeoi in
    let load = and_then (t.jiffy_load_send c finalbyte s samples) (λ res s1 samples1.
      answer 0 (if ends then record s1 { set_clock = true } else s1) samples1) in
    let last = with_dropped (put_on_bus t c true s samples) in
    let plain = put_on_bus t c false s samples in
    if s.jiffy_load then load else (if ends then last else plain)

-- How the bytes of a buffer end, with its position.
pub data Spoken : Type 0 where
  waiting : Spoken
  aborted : (position : ℕ) → Iec → List Sample → Spoken
  finished : (position : ℕ) → Iec → List Sample → Spoken

unfoldable pub after_byte :
    (again : Buffer → Iec → List Sample → Spoken) → Buffer → Outcome ℕ → Spoken
after_byte again b starved = waiting
after_byte again b (changed s samples) = aborted b.position s samples
after_byte again b (answer res s samples) =
    let next = (b.position + 1) % 256 in
    let more = again (record b { position = next }) s samples in
    if ltb b.position b.lastused then more else finished next s samples

unfoldable pub send_buffer : Senders → (fuel : ℕ) → Buffer → Iec → List Sample → Spoken
send_buffer t zero b s samples = waiting
send_buffer t (suc fuel) b s samples = after_byte (send_buffer t fuel) b (send_byte t b s samples)

-- The answer of the handler, whether it is not 0, with what it leaves.
abbrev pub Talked : Type 0
Talked = Option (Bool × Drive × List Sample)

unfoldable pub put_buffer : (i : ℕ) → Buffer → Iec → Drive → Drive
put_buffer i b s d = record d {
  iec = s;
  system = record d.system { buffers = set d.system.buffers i b };
}

-- Between two buffers of a load.
unfoldable pub next_block :
    (again : Option ℕ → Drive → List Sample → Talked) → Option ℕ → Drive → Outcome Sample → Talked
next_block again i d starved = none
next_block again i d (changed s samples) = some (true, record d { iec = s }, samples)
next_block again i d (answer sample s samples) =
    again i (record d { iec = record s { set_data = false; set_clock = true } }) samples

unfoldable pub refilled :
    Setup
    → (cmd : ℕ) → (again : Option ℕ → Drive → List Sample → Talked) → Drive
    → List Sample
    → ℕ
    → Talked
refilled e cmd again d samples res =
    let i = find_buffer (cmd % 16) d.system in
    let released =
      and_then (await (λ x. x.data_line || x.timed_out) d.iec samples)
        (λ high s samples1. await_atn (λ x. true) s samples1) in
    let load = next_block again i d released in
    let plain = again i d samples in
    let failed = some (true, record d { iec = record d.iec { bus_state = cleanup } }, samples) in
    if res == 0 then (if d.iec.jiffy_load then load else plain) else failed

-- The end of a file leaves the loop; any other buffer is filled again.
unfoldable pub after_buffer :
    Setup
    → Senders
    → (cmd i : ℕ) → Buffer
    → (again : Option ℕ → Drive → List Sample → Talked) → Drive
    → Spoken
    → Talked
after_buffer e t cmd i b again d waiting = none
after_buffer e t cmd i b again d (aborted position s samples) =
    some (true, put_buffer i (record b { position = position }) s d, samples)
after_buffer e t cmd i b again d (finished position s samples) =
    let sent = record b { position = position } in
    let ended = some (false, put_buffer i (record sent { read = false }) s d, samples) in
    let d1 = put_buffer i sent s d in
    let (sys, res) = e.call b.refill i d1.system in
    let more = refilled e cmd again (record d1 { system = sys }) samples res in
    let leaves =
      b.sendeoi
      && (not (cmd % 16 == 15)
          && ((b.recordlen == 0) && not (t.is_directbuffer_refill b.refill))) in
    if leaves then ended else more

unfoldable pub talk_buffer :
    Setup
    → Senders
    → (cmd i : ℕ) → (again : Option ℕ → Drive → List Sample → Talked) → Option Buffer
    → Drive
    → List Sample
    → Talked
talk_buffer e t cmd i again none d samples = none
talk_buffer e t cmd i again (some b) d samples =
    let spoken = after_buffer e t cmd i b again d (send_buffer t 256 b d.iec samples) in
    if b.read then spoken else some (false, d, samples)

unfoldable pub talk_loop :
    Setup → Senders → (cmd fuel : ℕ) → Option ℕ → Drive → List Sample → Talked
talk_loop e t cmd zero i d samples = none
talk_loop e t cmd (suc fuel) none d samples = none
talk_loop e t cmd (suc fuel) (some i) d samples =
    talk_buffer e t cmd i (talk_loop e t cmd fuel) (get_elem? d.system.buffers i) d samples

-- Before a load: the position is set behind the two bytes that were read before.
unfoldable pub start_load :
    (go : Drive → List Sample → Talked) → (i : ℕ) → Option Buffer → Drive → Outcome Sample → Talked
start_load go i found d starved = none
start_load go i found d (changed s samples) = some (true, record d { iec = s }, samples)
start_load go i none d (answer sample s samples) = none
start_load go i (some b) d (answer sample s samples) =
    let s1 = record s { set_data = false; set_clock = true } in
    go (put_buffer i (record b { position = 4 }) s1 d) samples

unfoldable pub talk_channel :
    Setup → Senders → (cmd fuel : ℕ) → Option ℕ → Drive → List Sample → Talked
talk_channel e t cmd fuel none d samples = some (false, d, samples)
talk_channel e t cmd fuel (some i) d samples =
    let released = await_atn (λ x. x.data_line) d.iec samples in
    let load =
      start_load (talk_loop e t cmd fuel (some i)) i (get_elem? d.system.buffers i) d released in
    let plain = talk_loop e t cmd fuel (some i) d samples in
    if d.iec.jiffy_load then load else plain

unfoldable pub iec_talk_handler : Setup → Senders → (cmd fuel : ℕ) → Drive → List Sample → Talked
iec_talk_handler e t cmd fuel d samples =
    talk_channel e t cmd fuel (find_buffer (cmd % 16) d.system) d samples
