-- ===== src/Errors/Channel.antt =====
-- The error channel of src/errormsg.c: what its buffer holds, that the message fits the buffer, and that it is
-- read back.

use nodiskemu.Prelude.{
  ℕ, zero, suc, ◌+◌, ◌*◌, ◌%◌, ◌<◌, ◌≤◌, ◌≡◌, ◌≢◌, ◌⊎◌, refl, inl, inr, some, List, [], ◌∷◌, ◌++◌,
  map, arith, length, length-append, length-map, get_elem?, set, get_elem?-set_ne, Option-cases,
}
use nodiskemu.Utils.{append_number, is_digit}
use nodiskemu.Utils.Digits.{length-append_number-le}
use nodiskemu.Parser.{parse_number}
use nodiskemu.Parser.Dates.{parse_number-append_number}
use nodiskemu.System.{Settings, System, Buffer}
use nodiskemu.Errors.{
  error_buffer_size, append_bool, append_drives, append_status, append_body, message_text,
  fill_buffer, write_channel, set_error_ts, toupper,
}
use nodiskemu.Errors.Text.{append_message-bounds}
use nodiskemu.Errors.Layout.{message_text_lem}
use nodiskemu.Errors.Message.{message}

length-append_drives :
    (k : ℕ) (f : ℕ → ℕ) (i : ℕ) (msg : List ℕ)
    → length (append_drives k f i msg) ≤ length msg + 8 * k
unfolding append_drives
length-append_drives zero f i msg = omega arith
length-append_drives (suc k) f i msg = ground (
  arith,
  length-append_drives k f (i + 1) msg,
  length-append_drives k f (i + 1) (drive msg),
  length-append_number-le (append_number (msg ++ b':' ∷ []) i ++ b'=' ∷ []) (f i),
  length-append_number-le (msg ++ b':' ∷ []) i,
  length-append {0} (append_number (msg ++ b':' ∷ []) i) (b'=' ∷ []),
  length-append {0} msg (b':' ∷ []),
)
  where
    drive : List ℕ → List ℕ
    drive m = append_number (append_number (m ++ b':' ∷ []) i ++ b'=' ∷ []) (f i)

-- For an error number below 256, reading the number at the head of the error channel's message gives the error number.
pub parse_number-message_text :
    (s : Settings) (e track sector : ℕ)
    → e < 256
    → (parse_number (message_text s e track sector)).0 ≡ e
parse_number-message_text s e track sector h =
    rw (message_text_lem, parse_number-append_number e b',' _ h (unfold is_digit in refl))

length-append_status :
    (s : Settings) (msg : List ℕ)
    → length (append_status s msg) ≤ length msg + 16 + length s.rom_filename
unfolding append_status append_bool
length-append_status s msg = omega (arith, length-append {0}, length-append_number-le)

-- What is asked of the settings and of the build's version strings, so that a message fits.
pub record IsShort (s : Settings) : Type 0 where
  pub rom_short : length s.rom_filename ≤ 16
  pub version_short : length s.versionstr + length s.longverstr ≤ 80

length-append_body :
    (s : Settings) (e sector : ℕ) → e < 256 → IsShort s → length (append_body s e sector []) ≤ 80
unfolding append_body
length-append_body s e sector h short = ground (
  arith,
  length-append_drives 8 s.map_drive 0 (b'D' ∷ []),
  length-append_status s [],
  length-append {0} s.versionstr (map toupper s.longverstr),
  length-map s.longverstr toupper,
  append_message-bounds e h,
)

-- For an error number below 256 and settings whose texts are short, the message with its CR fits
-- the error buffer.
pub length-message_text :
    (s : Settings) (e track sector : ℕ)
    → e < 256
    → IsShort s
    → length (message_text s e track sector) + 1 ≤ error_buffer_size
unfolding message_text
length-message_text s e track sector h short = rw message_text_lem (
    omega
      (arith, length-append {0}, length-append_number-le, length-append_body s e sector h short))

-- What a call of `set_error_ts` leaves: the whole buffer holds the message, a CR and more, the
-- length of the message without the CR is noted, and reading starts over.
pub record HoldsMessage (sys : System) (e track sector : ℕ) (b : Buffer) : Type 0 where
  pub text : (rest : List ℕ) × (b.bytes ≡ message sys.settings e track sector ++ 13 ∷ rest)
  pub filled : length b.bytes ≡ error_buffer_size
  pub last : b.lastused ≡ length (message sys.settings e track sector)
  pub start : b.position ≡ 0

-- No other buffer changes.
pub set_error_ts-other :
    (n i : ℕ) (sys : System) (e track sector : ℕ)
    → n ≢ i
    → get_elem? (set_error_ts n sys e track sector).buffers i ≡ get_elem? sys.buffers i
unfolding set_error_ts
set_error_ts-other n i sys e track sector h = elim (Option-cases (get_elem? sys.buffers n)) [
  | inl q ↦ rw (q, write_channel)
  | inr (b, q) ↦ rw (q, write_channel) (get_elem?-set_ne sys.buffers _ h)
]

-- The flags of a buffer that the counter of active buffers reads.
abbrev pub SameUse : Buffer → Buffer → Type 0
SameUse b c = (c.allocated ≡ b.allocated) × (c.secondary ≡ b.secondary) × (c.dirty ≡ b.dirty)

pub set_error_ts-SameUse :
    (n : ℕ) (sys : System) (e track sector : ℕ)
    → ((set_error_ts n sys e track sector).buffers ≡ sys.buffers)
      ⊎ ((b c : Buffer) × (get_elem? sys.buffers n ≡ some b)
          × ((set_error_ts n sys e track sector).buffers ≡ set sys.buffers n c)
          × SameUse b c)
unfolding set_error_ts
set_error_ts-SameUse n sys e track sector = elim (Option-cases (get_elem? sys.buffers n)) [
  | inl q ↦ inl (rw (q, write_channel))
  | inr (b, q) ↦
      let text = message_text sys.settings e track sector in
      let c = record b { bytes = fill_buffer text; lastused = length text % 256; position = 0 } in
      inr (b, c, q, rw (q, write_channel), (refl, refl, refl))
]

pub active_buffers-set_error_ts :
    (n : ℕ) (sys : System) (e track sector : ℕ)
    → (set_error_ts n sys e track sector).active_buffers ≡ sys.active_buffers
unfolding set_error_ts
active_buffers-set_error_ts n sys e track sector = refl

pub current_error-set_error_ts :
    (n : ℕ) (sys : System) (e track sector : ℕ)
    → (set_error_ts n sys e track sector).current_error ≡ e
unfolding set_error_ts
current_error-set_error_ts n sys e track sector = refl
