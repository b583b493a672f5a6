-- ===== src/Iec/Tests.antt =====
-- Examples for src/iec.c: device 8, and a computer that sends the name "AB" for channel 2.
use nodiskemu.Prelude.{
  replicate, get_elem?, ◌%◌, ℕ, ◌<◌, true, false, ◌||◌, or_true, some, List, [], ◌∷◌, All, ◌≡◌,
  refl, arith,
}
use mathlib.Core.List.{cons≢nil}
use nodiskemu.System.{null, callback_dummy, zeroed, Buffer, System}
use nodiskemu.Buffers.{find_buffer}
use nodiskemu.Buffers
use nodiskemu.Iec.{
  Iec, starved, answer, atnactive, device_listen, foundatn, atn_changed, is_atnactive,
}
use nodiskemu.Iec.Receive.{iec_getc}
use nodiskemu.Iec.Receive.Bytes.{Phases, signal, iec_getc-signal}
use nodiskemu.Iec.Listen.{Drive, Setup, is_command, is_open, is_writable, iec_listen_handler}
use nodiskemu.Iec.Listen.Sentence.{IsListening, sentence}
use nodiskemu.Iec.Listen.Filled.{IsRoom, filled}
use nodiskemu.Iec.Listen.Data.{iec_listen_handler-file}
use nodiskemu.Iec.Talk.{Senders, iec_talk_handler, put_buffer}
use nodiskemu.Iec.Talk.Sent.{audience, sent, plainly, contents, all_bits, iec_talk_handler-audience}
use nodiskemu.Iec.Send.{iec_putc}
use nodiskemu.Iec.Send.Heard.{Pace, hearing, bits_of, iec_putc-hearing}
use nodiskemu.Iec.Loop.{Machine, run}
use nodiskemu.Iec.Loop.Transfer.{Command, under_atn, listener, rested, executed, run-sentence}

abbrev system : System
system = record {
  buffers = [];
  active_buffers = 0;
  led_state = record { error = false; busy = false; dirty = false };
  current_error = 0;
  settings = record {
    file_extension_mode = 0;
    globalflags = 0;
    image_as_dir = 0;
    rom_filename = [];
    map_drive = λ part. part;
    versionstr = [];
    longverstr = [];
  };
}

abbrev setup : Setup
setup = record {
  device_address = 8;
  command_buffer_size = 120;
  call = λ callback i sys. (sys, 0);
  jiffy_getc = λ s samples. starved;
  dolphin_getc = λ s samples. starved;
}

abbrev senders : Senders
senders = record {
  jiffy_send = λ c eoi s samples. starved;
  jiffy_load_send = λ c final s samples. starved;
  dolphin_putc = λ c eoi s samples. starved;
  is_directbuffer_refill = λ callback. false;
}

-- Opening a file shows in the count of buffers.
abbrev build : Machine
build = record {
  setup = setup;
  calls = record {
    parse_doscommand = λ command sys. sys;
    file_open = λ secondary name sys. record sys { active_buffers = 1 };
    d64_bam_commit = λ sys. sys;
    handle_buttons = λ s. (s, false);
  };
  buffer_count = 0;
  listen_fuel = 10;
  senders = senders;
  talk_fuel = 2;
}

abbrev phases : Phases
phases = record {
  not_ready = 2;
  not_released = 1;
  held = 3;
  announced = 2;
  before = λ i. i;
  after = λ i. 1;
}

abbrev serial : Iec
serial = record {
  eoi_recvd = false;
  command_recvd = false;
  jiffy_active = false;
  jiffy_load = false;
  dolphin_active = false;
  bus_state = atnactive;
  device_state = device_listen;
  secondary_address = 2;
  set_clock = true;
  set_data = false;
  edges = [];
}

-- LISTEN to device 8 with a late last bit.
iec_getc-signal_example :
    iec_getc 8 serial (signal false phases 40 false true [])
    ≡ answer 40 (record serial { jiffy_active = true; set_data = false }) []
unfolding is_atnactive atn_changed
iec_getc-signal_example = iec_getc-signal 8 false true phases 40 (omega arith) serial false [] refl

abbrev name : List ℕ
name = 65 ∷ 66 ∷ []

abbrev taking : Drive
taking = record { iec = listener serial; system = system; command_buffer = [] }

listener-IsListening : IsListening (listener serial)
listener-IsListening = record { plain = refl; serial = refl; unfinished = refl; processing = refl }

opens : is_open 242 ≡ true
unfolding is_open
opens = refl

takes_command : is_command 242 ≡ true
unfolding is_command is_open
takes_command = refl

writable : (is_writable (find_buffer 2 system) system || is_open 242) ≡ true
unfolding is_open
writable = or_true (is_writable (find_buffer 2 system) system)

name_small : All (λ c. c < 256) name
name_small = (omega arith, (omega arith, tt))

abbrev unlisten : Command
unlisten = record { not_low = 1; not_high = 2; phases = phases; not_over = 1 }

run-sentence_example :
    run build 6 (record {
      cmd = 242;
      drive = taking;
      switch_to_ieee488 = false;
      samples = sentence (λ i. phases) 0 name (under_atn unlisten 63 []);
    })
    ≡ some (record {
      cmd = 63;
      drive = record {
        iec = rested serial;
        system = executed build 2 system name;
        command_buffer = [];
      };
      switch_to_ieee488 = false;
      samples = [];
    })
run-sentence_example =
    run-sentence build 242 serial system false name unlisten [] (λ i. phases) takes_command writable
      name_small (λ e. cons≢nil e) (omega arith)

abbrev pace : Pace
pace = record { ready = 1; answering = 2; answered = 3; taking = 1; releasing = 0 }

iec_putc-hearing_example :
    iec_putc (λ s samples. starved) 65 true (listener serial) (hearing pace true [])
    ≡ answer 0
        (record (listener serial) { set_clock = false; set_data = true; edges = bits_of 65 })
        []
unfolding atn_changed
iec_putc-hearing_example =
    iec_putc-hearing 65 [] (λ s samples. starved) (listener serial) pace true refl

-- A buffer with the bytes "ABC" behind the two that link it.
abbrev buffer : Buffer
buffer = record {
  bytes = 0 ∷ 4 ∷ 65 ∷ 66 ∷ 67 ∷ [];
  lastused = 4;
  position = 2;
  secondary = 2;
  recordlen = 0;
  fptr = 0;
  allocated = true;
  mustflush = false;
  read = true;
  write = false;
  dirty = false;
  sendeoi = true;
  sticky = false;
  seek = null;
  refill = callback_dummy;
  cleanup = callback_dummy;
  pvt = zeroed;
}

abbrev talking : Drive
talking = record {
  iec = plainly (listener serial);
  system = record system { buffers = buffer ∷ [] };
  command_buffer = [];
}

found : find_buffer (98 % 16) talking.system ≡ some 0
unfolding find_buffer Buffers.find_from
found = refl

iec_talk_handler-audience_example :
    iec_talk_handler setup senders 98 1 talking (audience (λ k. pace) 2 0 [])
    ≡ some (
      false,
      put_buffer 0
          (record buffer { position = 5; read = false })
          (sent (listener serial) (all_bits (contents buffer 2)))
          talking,
      [],
    )
unfolding atn_changed
iec_talk_handler-audience_example =
    iec_talk_handler-audience senders setup 98 0 2 0 buffer talking (listener serial) (λ k. pace) []
      found refl (omega arith) refl refl refl refl refl (omega arith) (omega arith)

-- The same channel for writing, with room behind the two bytes that link the buffer.
abbrev target : Buffer
target = record buffer { bytes = replicate 256 0; lastused = 1; read = false; write = true }

abbrev storing : Drive
storing = record {
  iec = listener serial;
  system = record system { buffers = target ∷ [] };
  command_buffer = [];
}

stores : find_buffer (98 % 16) storing.system ≡ some 0
unfolding find_buffer Buffers.find_from
stores = refl

is_data : is_command 98 ≡ false
unfolding is_command is_open
is_data = refl

room : IsRoom target 2
room = record { fits = omega arith; unflushed = refl; sequential = refl }

iec_listen_handler-file_example :
    (d : Drive) × (iec_listen_handler setup 98 5 storing (sentence (λ i. phases) 0 name [])
      ≡ some (d, []))
    × (get_elem? d.system.buffers 0 ≡ some (filled name target))
    × (d.iec
        ≡ record (listener serial) { eoi_recvd = true; set_data = false; bus_state = foundatn })
iec_listen_handler-file_example =
    iec_listen_handler-file setup 98 0 is_data name (λ i. phases) 5 storing target [] stores refl
      refl room listener-IsListening name_small (λ e. cons≢nil e) (omega arith)
