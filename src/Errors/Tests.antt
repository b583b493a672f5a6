-- ===== src/Errors/Tests.antt =====
-- Examples for src/errormsg.c.
use nodiskemu.Prelude.{◌+◌, ◌≤◌, [], ◌∷◌, length, replicate, false, arith}
use nodiskemu.System.{Settings, System, Buffer, null, zeroed}
use nodiskemu.Errors.{message_text, error_buffer_size}
use nodiskemu.Errors.Channel.{IsShort, length-message_text}

abbrev pub settings : Settings
settings = record {
  file_extension_mode = 1;
  globalflags = 0;
  image_as_dir = 0;
  rom_filename = [];
  map_drive = λ d. d;
  versionstr = 86 ∷ [];
  longverstr = 49 ∷ [];
}

settings-IsShort : IsShort settings
settings-IsShort = record { rom_short = omega arith; version_short = omega arith }

abbrev channel : Buffer
channel = record {
  bytes = replicate error_buffer_size 0;
  lastused = 0;
  position = 7;
  secondary = 15;
  recordlen = 0;
  fptr = 0;
  allocated = false;
  mustflush = false;
  read = false;
  write = false;
  dirty = false;
  sendeoi = false;
  sticky = false;
  seek = null;
  refill = null;
  cleanup = null;
  pvt = zeroed;
}

abbrev sys : System
sys = record {
  buffers = channel ∷ [];
  active_buffers = 0;
  led_state = record { error = false; busy = false; dirty = false };
  current_error = 0;
  settings = settings;
}

length-message_text_example : length (message_text settings 73 0 0) + 1 ≤ error_buffer_size
length-message_text_example = length-message_text settings 73 0 0 (omega arith) settings-IsShort
