-- ===== src/Iec/Loop.antt =====
-- `iec_mainloop` of src/iec.c: one function for each state of the bus, without HAVE_HOTPLUG.
pub mod Transfer
use nodiskemu.Prelude.{
  ℕ, zero, suc, ◌+◌, ◌/◌, ◌%◌, Bool, true, false, not, ◌&&◌, Option, none, some, List, [], ◌∷◌,
  ◌==◌, if◌then◌else◌, get_elem?,
}
use nodiskemu.System.{Buffer, System}
use nodiskemu.Buffers.{find_buffer, free_buffer, free_multiple_buffers}
use nodiskemu.Iec.{
  BusState, idle, atnactive, foundatn, forme, notforme, atnfinish, atnprocess, cleanup, sleep,
  DeviceState, device_idle, device_listen, device_talk, Iec, Sample, Outcome, starved, changed,
  answer,
}
use nodiskemu.Iec.Receive.{iec_getc}
use nodiskemu.Iec.Listen.{Drive, Setup, iec_listen_handler}
use nodiskemu.Iec.Talk.{Senders, iec_talk_handler}

-- What the loop calls: `parse_doscommand` on the bytes in the command buffer, `file_open` with the
-- secondary address, `d64_bam_commit`, and `handle_buttons`, which can put the bus to sleep.
pub record Calls : Type 0 where
  pub parse_doscommand : List ℕ → System → System
  pub file_open : ℕ → List ℕ → System → System
  pub d64_bam_commit : System → System
  pub handle_buttons : Iec → Iec × Bool

-- The parameters, with CONFIG_BUFFER_COUNT and the fuel of the two handlers' loops.
pub record Machine : Type 0 where
  pub setup : Setup
  pub calls : Calls
  pub buffer_count : ℕ
  pub listen_fuel : ℕ
  pub senders : Senders
  pub talk_fuel : ℕ

-- The loop with its variables `cmd` and `switch_to_ieee488`.
pub record Loop : Type 0 where
  pub cmd : ℕ
  pub drive : Drive
  pub switch_to_ieee488 : Bool
  pub samples : List Sample

unfoldable pub set_bus : BusState → Drive → Drive
set_bus state d = record d { iec = record d.iec { bus_state = state } }

unfoldable pub set_device : DeviceState → Drive → Drive
set_device state d = record d { iec = record d.iec { device_state = state } }

unfoldable pub is_listening : DeviceState → Bool
is_listening device_listen = true
is_listening _ = false

unfoldable pub is_talking : DeviceState → Bool
is_talking device_talk = true
is_talking _ = false

-- The close of one channel: the state of the bus behind it.
unfoldable pub close_found : Machine → Option ℕ → Option Buffer → System → System × BusState
close_found b none found sys = (sys, forme)
close_found b (some i) none sys = (sys, forme)
close_found b (some i) (some buf) sys =
    let (s1, res) = b.setup.call buf.cleanup i sys in
    (free_buffer (some i) s1, if res == 0 then forme else cleanup)

unfoldable pub find_elem? : Option ℕ → System → Option Buffer
find_elem? none sys = none
find_elem? (some i) sys = get_elem? sys.buffers i

-- FMB_USER_CLEAN is 5.
unfoldable pub close_channel : Machine → (cmd : ℕ) → Drive → Drive
close_channel b cmd d =
    let (all, res) = free_multiple_buffers b.setup.call 5 b.buffer_count d.system in
    let every = set_bus (if res == 0 then forme else cleanup) (record d { system = all }) in
    let i = find_buffer d.iec.secondary_address d.system in
    let (sys, state) = close_found b i (find_elem? i d.system) d.system in
    let one = set_bus state (record d { system = sys }) in if cmd == 239 then every else one

-- OPEN, CLOSE and DATA: the command, 0x61 made 0x60 for JiffyDOS, and the drive.
unfoldable pub secondary : Machine → (cmd : ℕ) → Drive → ℕ × Drive
secondary b cmd d =
    let load = (cmd == 97) && is_talking d.iec.device_state in
    let command = if load then 96 else cmd in
    let d1 = record d {
      iec = record d.iec {
        jiffy_load = if load then true else d.iec.jiffy_load;
        secondary_address = command % 16;
      };
    } in
    let closed = close_channel b command d1 in
    (command, if command / 16 == 14 then closed else set_bus atnfinish d1)

-- BUS_ATNACTIVE, when a byte has come.
unfoldable pub atn_command : Machine → (cmd : ℕ) → Drive → ℕ × Drive
atn_command b cmd d =
    let device = d.iec.device_state in
    let unlisten =
      set_bus atnfinish (set_device (if is_listening device then device_idle else device) d) in
    let untalk =
      set_bus atnfinish (set_device (if is_talking device then device_idle else device) d) in
    let other = if cmd / 32 % 4 == 3 then secondary b cmd d else (cmd, set_bus notforme d) in
    if cmd == 63
    then (cmd, unlisten)
    else if cmd == 95
    then (cmd, untalk)
    else if cmd == 64 + b.setup.device_address
    then (cmd, set_bus forme (set_device device_talk d))
    else if cmd == 32 + b.setup.device_address
    then (cmd, set_bus forme (set_device device_listen d))
    else other

unfoldable pub atn_received : Machine → Loop → Outcome ℕ → Option Loop
atn_received b l starved = none
atn_received b l (changed s samples) =
    some (record l { drive = record l.drive { iec = s }; samples = samples })
atn_received b l (answer c s samples) =
    let (cmd, d) = atn_command b c (record l.drive { iec = s }) in
    some (record l { cmd = cmd; drive = d; samples = samples })

-- The two waits of BUS_FOUNDATN.
unfoldable pub wait_low : Loop → List Sample → Option Loop
wait_low l [] = none
wait_low l (sample ∷ samples) =
    let released = if sample.atn then record l { drive = set_bus atnprocess l.drive } else l in
    let more = wait_low released samples in
    if sample.clock then some (record l { samples = samples }) else more

unfoldable pub wait_clock : Loop → List Sample → Option Loop
wait_clock l [] = none
wait_clock l (sample ∷ samples) =
    let released = if sample.atn then record l { drive = set_bus atnprocess l.drive } else l in
    let more = wait_clock released samples in
    let low = wait_low l samples in if sample.clock && not sample.timed_out then more else low

unfoldable pub found_atn : Loop → Option Loop
found_atn l =
    let s = l.drive.iec in
    let cleared = record s {
      set_clock = true;
      set_data = false;
      device_state = device_idle;
      bus_state = atnactive;
      eoi_recvd = false;
      jiffy_active = false;
      jiffy_load = false;
    } in
    wait_clock (record l { drive = record l.drive { iec = cleared } }) l.samples

-- BUS_IDLE; a round of the wait handles the buttons.
unfoldable pub wait_atn : Machine → Loop → List Sample → Option Loop
wait_atn b l [] = none
wait_atn b l (sample ∷ samples) =
    let pressed = (b.calls.handle_buttons l.drive.iec).0 in
    let more = wait_atn b (record l { drive = record l.drive { iec = pressed } }) samples in
    let state = elim l.drive.iec.bus_state as (λ x. BusState) [ sleep ↦ sleep | _ ↦ foundatn ] in
    if sample.atn
    then more
    else some (record l { drive = set_bus state l.drive; samples = samples })

-- BUS_ATNFINISH: a byte on the parallel port is DolphinDOS.
unfoldable pub wait_release : Loop → List Sample → Option Loop
wait_release l [] = none
wait_release l (sample ∷ samples) =
    let here = (is_listening l.drive.iec.device_state) in
    let ours = if here then true else is_talking l.drive.iec.device_state in
    let parallel = record l.drive { iec = record l.drive.iec { dolphin_active = true } } in
    let noted = if ours && sample.rxflag then record l { drive = parallel } else l in
    let more = wait_release noted samples in
    if sample.atn
    then some (record l { drive = set_bus atnprocess l.drive; samples = samples })
    else more

unfoldable pub for_me : Loop → List Sample → Option Loop
for_me l [] = none
for_me l (sample ∷ samples) =
    let state = if sample.atn then atnprocess else atnactive in
    some (record l { drive = set_bus state l.drive; samples = samples })

unfoldable pub talked : Loop → Option (Bool × Drive × List Sample) → Option Loop
talked l none = none
talked l (some (moved, d, samples)) =
    some (record l { drive = if moved then d else set_bus cleanup d; samples = samples })

unfoldable pub listened : Loop → Option (Drive × List Sample) → Option Loop
listened l none = none
listened l (some (d, samples)) = some (record l { drive = d; samples = samples })

unfoldable pub atn_process : Machine → DeviceState → Loop → Option Loop
atn_process b device_idle l = some (record l { drive = set_bus cleanup l.drive })
atn_process b device_listen l =
    listened l (iec_listen_handler b.setup l.cmd b.listen_fuel l.drive l.samples)
atn_process b device_talk l =
    let ready = record l.drive {
      iec = record l.drive.iec { set_data = true; set_clock = false };
    } in
    talked l (iec_talk_handler b.setup b.senders l.cmd b.talk_fuel ready l.samples)

-- BUS_CLEANUP: a command or a file name is handed over, and forgotten.
unfoldable pub hand_over : Machine → Drive → Drive
hand_over b d =
    let parsed = b.calls.parse_doscommand d.command_buffer d.system in
    let opened = b.calls.file_open d.iec.secondary_address d.command_buffer d.system in
    let handed = record d {
      system = if d.iec.secondary_address == 15 then parsed else opened;
      command_buffer = [];
      iec = record d.iec { command_recvd = false };
    } in
    if d.iec.command_recvd then handed else d

-- FMB_UNSTICKY is 2.
unfoldable pub clean_up : Machine → Drive → Drive
clean_up b d =
    let d1 = hand_over b (record d { iec = record d.iec { set_clock = true; set_data = true } }) in
    let (freed, res) = free_multiple_buffers b.setup.call 2 b.buffer_count d1.system in
    set_bus idle (record d1 { system = b.calls.d64_bam_commit freed })

-- One round of the loop; `none` while it waits for the bus.
unfoldable pub round : Machine → BusState → Loop → Option Loop
round b sleep l =
    let (s, switch) = b.calls.handle_buttons l.drive.iec in
    some (record l { drive = record l.drive { iec = s }; switch_to_ieee488 = switch })
round b idle l = wait_atn b l l.samples
round b foundatn l = found_atn l
round b atnactive l = atn_received b l (iec_getc b.setup.device_address l.drive.iec l.samples)
round b forme l = for_me l l.samples
round b notforme l = some (record l {
  drive =
      set_bus atnfinish
        (record l.drive { iec = record l.drive.iec { set_clock = true; set_data = true } });
})
round b atnfinish l =
    let serial = record l.drive { iec = record l.drive.iec { dolphin_active = false } } in
    wait_release (record l { drive = serial }) l.samples
round b atnprocess l = atn_process b l.drive.iec.device_state l
round b cleanup l = some (record l { drive = clean_up b l.drive })

unfoldable pub run_on : (Loop → Option Loop) → Option Loop → Option Loop
run_on go none = none
run_on go (some l) = go l

-- Rounds of the loop.
unfoldable pub run : Machine → (rounds : ℕ) → Loop → Option Loop
run b zero l = some l
run b (suc rounds) l = run_on (run b rounds) (round b l.drive.iec.bus_state l)
