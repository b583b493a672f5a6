-- ===== src/Iec/Loop/Transfer.antt =====
-- A whole transfer in `iec_mainloop`: the bytes of a command or a file name, and UNLISTEN.
use nodiskemu.Prelude.{
  ℕ, zero, suc, ◌%◌, ◌<◌, Bool, true, false, ◌||◌, some, List, [], ◌∷◌, ◌++◌, ◌==◌, if◌then◌else◌,
  length, take, replicate, All, ◌≡◌, ◌≢◌, refl, and_false, ap, ◌∙◌, arith,
}
use nodiskemu.System.{System}
use nodiskemu.Buffers.{find_buffer, free_multiple_buffers}
use nodiskemu.Iec.{
  idle, atnactive, foundatn, atnfinish, atnprocess, cleanup, device_idle, device_listen, Iec,
  Sample, is_atnactive, atn_changed,
}
use nodiskemu.Iec.Receive.Waveform.{low, high}
use nodiskemu.Iec.Receive.Bytes.{Phases, signal, iec_getc-signal}
use nodiskemu.Iec.Listen.{is_command, is_open, is_writable}
use nodiskemu.Iec.Listen.Sentence.{IsListening, sentence}
use nodiskemu.Iec.Listen.Command.{iec_listen_handler-sentence}
use nodiskemu.Iec.Loop.{
  Machine, Loop, set_bus, set_device, is_listening, atn_command, atn_received, wait_low, wait_clock,
  found_atn, wait_release, atn_process, listened, hand_over, clean_up, round, run, run_on,
}

-- ATN low: the phases before and after the controller pulls the clock line, the command, and the
-- end of ATN.
pub record Command : Type 0 where
  pub not_low : ℕ
  pub not_high : ℕ
  pub phases : Phases
  pub not_over : ℕ

unfoldable pub under_atn : Command → (cmd : ℕ) → List Sample → List Sample
under_atn k cmd rest =
    let finish = replicate k.not_over (low false false) ++ (low true false ∷ rest) in
    replicate k.not_low (high false false false)
    ++ (low false false
        ∷ (replicate k.not_high (low false false)
            ++ (high false false false ∷ signal false k.phases cmd false false finish)))

-- The drive while it takes a command or a file name.
abbrev pub listener : Iec → Iec
listener s = record s {
  eoi_recvd = false;
  jiffy_active = false;
  dolphin_active = false;
  bus_state = atnprocess;
  device_state = device_listen;
}

-- The drive when the transfer is over.
abbrev pub rested : Iec → Iec
rested s = record s {
  eoi_recvd = false;
  command_recvd = false;
  jiffy_active = false;
  jiffy_load = false;
  dolphin_active = false;
  bus_state = idle;
  device_state = device_idle;
  set_clock = true;
  set_data = true;
}

wait_low-replicate :
    (l : Loop)
    → (n : ℕ) → (rest : List Sample)
    → wait_low l (replicate n (low false false) ++ (high false false false ∷ rest))
      ≡ some (record l { samples = rest })
unfolding wait_low
wait_low-replicate l zero rest = refl
wait_low-replicate l (suc n) rest = wait_low-replicate l n rest

wait_clock-replicate :
    (l : Loop)
    → (n m : ℕ) → (rest : List Sample)
    → wait_clock l (
        replicate n (high false false false)
        ++ (low false false ∷ (replicate m (low false false) ++ (high false false false ∷ rest))))
      ≡ some (record l { samples = rest })
unfolding wait_clock
wait_clock-replicate l zero m rest = wait_low-replicate l m rest
wait_clock-replicate l (suc n) m rest = wait_clock-replicate l n m rest

wait_release-replicate :
    (l : Loop)
    → (n : ℕ) → (rest : List Sample)
    → wait_release l (replicate n (low false false) ++ (low true false ∷ rest))
      ≡ some (record l { drive = set_bus atnprocess l.drive; samples = rest })
unfolding wait_release
wait_release-replicate l zero rest = refl
wait_release-replicate l (suc n) rest = rw and_false (wait_release-replicate l n rest)

-- What becomes of the buffers and the disk.
abbrev pub executed : Machine → (secondary_address : ℕ) → System → (command : List ℕ) → System
executed b secondary_address sys command =
    let parsed = b.calls.parse_doscommand command sys in
    let opened = b.calls.file_open secondary_address command sys in
    let handed = if secondary_address == 15 then parsed else opened in
    b.calls.d64_bam_commit (free_multiple_buffers b.setup.call 2 b.buffer_count handed).0

module _ (b : Machine) (cmd : ℕ) (s : Iec) (sys : System) (switch : Bool) where
  -- The loop in a transfer, at a state of the bus.
  at_state : Iec → (command : ℕ) → List ℕ → List Sample → Loop
  at_state iec command buffer samples = record {
    cmd = command;
    drive = record { iec = iec; system = sys; command_buffer = buffer };
    switch_to_ieee488 = switch;
    samples = samples;
  }

  heard : Iec
  heard = record (listener s) {
    eoi_recvd = true;
    command_recvd = true;
    set_data = false;
    bus_state = foundatn;
  }

  pulled : Iec
  pulled = record (listener s) {
    command_recvd = true;
    set_clock = true;
    set_data = false;
    device_state = device_idle;
    bus_state = atnactive;
    jiffy_load = false;
  }

  module _ (cs : List ℕ) (k : Command) (rest : List Sample) where
    found :
        (n m : ℕ)
        → (buffer : List ℕ) → (later : List Sample)
        → round b foundatn (
            at_state heard cmd buffer (
              replicate n (high false false false)
              ++ (low false false
                  ∷ (replicate m (low false false) ++ (high false false false ∷ later)))))
          ≡ some (at_state pulled cmd buffer later)
    unfolding round found_atn at_state heard pulled
    found n m buffer later = wait_clock-replicate _ n m later

    finish : List Sample
    finish = replicate k.not_over (low false false) ++ (low true false ∷ rest)

    commanded :
        (buffer : List ℕ)
        → round b atnactive
            (at_state pulled cmd buffer (signal false k.phases 63 false false finish))
          ≡ some (at_state (record pulled { bus_state = atnfinish }) 63 buffer finish)
    unfolding round atn_received atn_command set_bus set_device is_listening at_state pulled
        is_atnactive atn_changed
    commanded buffer =
        rw
          (iec_getc-signal b.setup.device_address false false k.phases 63 (omega arith) pulled false
            finish refl)
          refl

    finished :
        (buffer : List ℕ)
        → round b atnfinish (at_state (record pulled { bus_state = atnfinish }) 63 buffer finish)
          ≡ some (at_state (record pulled { bus_state = atnprocess }) 63 buffer rest)
    unfolding round at_state pulled finish set_bus
    finished buffer = wait_release-replicate _ k.not_over rest

    idled :
        (buffer : List ℕ)
        → round b atnprocess (at_state (record pulled { bus_state = atnprocess }) 63 buffer rest)
          ≡ some (at_state (record pulled { bus_state = cleanup }) 63 buffer rest)
    unfolding round atn_process at_state pulled set_bus
    idled buffer = refl

    cleaned :
        (buffer : List ℕ)
        → round b cleanup (at_state (record pulled { bus_state = cleanup }) 63 buffer rest)
          ≡ some (record {
            cmd = 63;
            drive = record {
              iec = rested s;
              system = executed b s.secondary_address sys buffer;
              command_buffer = [];
            };
            switch_to_ieee488 = switch;
            samples = rest;
          })
    unfolding round clean_up hand_over set_bus at_state pulled
    cleaned buffer = refl

    abbrev size : ℕ
    size = b.setup.command_buffer_size

    taken :
        (phases : ℕ → Phases)
        → (later : List Sample) → is_command cmd ≡ true
        → (is_writable (find_buffer (cmd % 16) sys) sys || is_open cmd) ≡ true
        → All (λ c. c < 256) cs
        → cs ≢ []
        → length cs < b.listen_fuel
        → round b atnprocess (at_state (listener s) cmd [] (sentence phases 0 cs later))
          ≡ some (at_state heard cmd (take size cs) later)
    unfolding round atn_process listened at_state heard
    taken phases later command writable small ne enough =
        let listening : IsListening (listener s) = record {
          plain = refl;
          serial = refl;
          unfinished = refl;
          processing = refl;
        } in
        ap (listened (at_state (listener s) cmd [] (sentence phases 0 cs later))) (
          iec_listen_handler-sentence b.setup cmd (find_buffer (cmd % 16) sys) command cs phases
            b.listen_fuel (record { iec = listener s; system = sys; command_buffer = [] }) later
            writable refl listening small ne enough (omega arith))

    -- A command is executed once, with its bytes: when the drive listens for a command or a
    -- file name on a channel that takes one, with an empty command buffer, and the computer
    -- sends a sentence of bytes of one or more, each with phases of any length and the last
    -- with EOI, and then UNLISTEN under ATN, six rounds of iec_mainloop end in BUS_IDLE with
    -- the bytes, cut to the size of the command buffer, given once to parse_doscommand for
    -- channel 15 or to file_open for another, the command buffer empty, no command pending and
    -- the lines released.
    pub run-sentence :
        (phases : ℕ → Phases)
        → is_command cmd ≡ true
        → (is_writable (find_buffer (cmd % 16) sys) sys || is_open cmd) ≡ true
        → All (λ c. c < 256) cs
        → cs ≢ []
        → length cs < b.listen_fuel
        → run b 6 (record {
          cmd = cmd;
          drive = record { iec = listener s; system = sys; command_buffer = [] };
          switch_to_ieee488 = switch;
          samples = sentence phases 0 cs (under_atn k 63 rest);
        })
          ≡ some (record {
            cmd = 63;
            drive = record {
              iec = rested s;
              system = executed b s.secondary_address sys (take b.setup.command_buffer_size cs);
              command_buffer = [];
            };
            switch_to_ieee488 = switch;
            samples = rest;
          })
    unfolding run run_on at_state heard pulled finish under_atn
    run-sentence phases command writable small ne enough =
        let buffer = take size cs in
        ap (run_on (run b 5)) (taken phases (under_atn k 63 rest) command writable small ne enough)
        ∙ ap (run_on (run b 4)) (found k.not_low k.not_high buffer _)
        ∙ ap (run_on (run b 3)) (commanded buffer)
        ∙ ap (run_on (run b 2)) (finished buffer)
        ∙ ap (run_on (run b 1)) (idled buffer)
        ∙ ap (run_on (run b 0)) (cleaned buffer)
