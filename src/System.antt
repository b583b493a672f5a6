-- ===== src/System.antt =====
-- The state that src/buffers.c, src/led.c and src/errormsg.c share. A pointer to a buffer is its
-- index in the array `buffers`; the last one belongs to the error channel.
use nodiskemu.Prelude.{ℕ, Bool, Option, List}

-- What the callback pointers of a buffer hold: NULL, the two functions of these files, or one of
-- the file operations.
pub data Callback : Type 0 where
  null : Callback
  callback_dummy : Callback
  set_ok_message : Callback
  file_op : ℕ → Callback

-- The union `pvt`, as far as these files use it.
pub data Pvt : Type 0 where
  zeroed : Pvt
  chain : (size : ℕ) → (first next : Option ℕ) → Pvt
  bam : (part track sector : ℕ) → Pvt

-- `buffer_t`. The bytes that `data` points to stand in the buffer, since no two buffers share them.
pub record Buffer : Type 0 where
  pub bytes : List ℕ
  pub lastused : ℕ
  pub position : ℕ
  pub secondary : ℕ
  pub recordlen : ℕ
  pub fptr : ℕ
  pub allocated : Bool
  pub mustflush : Bool
  pub read : Bool
  pub write : Bool
  pub dirty : Bool
  pub sendeoi : Bool
  pub sticky : Bool
  pub seek : Callback
  pub refill : Callback
  pub cleanup : Callback
  pub pvt : Pvt

-- The three bits of `led_state`.
pub record Leds : Type 0 where
  pub error : Bool
  pub busy : Bool
  pub dirty : Bool

-- What the status and version messages show.
pub record Settings : Type 0 where
  pub file_extension_mode : ℕ
  pub globalflags : ℕ
  pub image_as_dir : ℕ
  pub rom_filename : List ℕ
  pub map_drive : ℕ → ℕ
  pub versionstr : List ℕ
  pub longverstr : List ℕ

pub record System : Type 0 where
  pub buffers : List Buffer
  pub active_buffers : ℕ
  pub led_state : Leds
  pub current_error : ℕ
  pub settings : Settings
