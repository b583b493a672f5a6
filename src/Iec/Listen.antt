-- ===== src/Iec/Listen.antt =====
-- `iec_listen_handler` of src/iec.c, which takes what the computer sends: a command or a file name
-- for the command buffer, or bytes for a file's buffer. A pointer to a buffer is its index.
pub mod Sentence
pub mod Command
pub mod Filled
pub mod Data
use nodiskemu.Prelude.{
  ℕ, zero, suc, ◌+◌, ◌/◌, ◌%◌, Bool, true, false, not, ◌&&◌, ◌||◌, Option, none, some, List, [],
  ◌∷◌, ◌++◌, ltb, ◌==◌, if◌then◌else◌, length, get_elem?, set,
}
use nodiskemu.System.{Callback, Buffer, System}
use nodiskemu.Buffers.{find_buffer, mark_buffer_dirty}
use nodiskemu.Iec.{Iec, Sample, Outcome, starved, changed, answer, cleanup}
use nodiskemu.Iec.Receive.{iec_getc}

-- The bus, the buffers and the `command_length` bytes of `command_buffer`.
pub record Drive : Type 0 where
  pub iec : Iec
  pub system : System
  pub command_buffer : List ℕ

-- The address, CONFIG_COMMAND_BUFFER_SIZE, the callbacks of the buffers, and the two receivers of the
-- fast protocols, which answer as `iec_getc` does.
pub record Setup : Type 0 where
  pub device_address : ℕ
  pub command_buffer_size : ℕ
  pub call : Callback → ℕ → System → System × ℕ
  pub jiffy_getc : Iec → List Sample → Outcome ℕ
  pub dolphin_getc : Iec → List Sample → Outcome ℕ

unfoldable pub is_open : (cmd : ℕ) → Bool
is_open cmd = cmd / 16 % 16 == 15

unfoldable pub is_command : (cmd : ℕ) → Bool
is_command cmd = (cmd % 16 == 15) || is_open cmd

unfoldable pub get_byte : Setup → Iec → List Sample → Outcome ℕ
get_byte e s samples =
    let dolphin = e.dolphin_getc s samples in
    let plain = iec_getc e.device_address s samples in
    let jiffy = e.jiffy_getc s samples in
    if s.jiffy_active then jiffy else (if s.dolphin_active then dolphin else plain)

unfoldable pub add_command : (size : ℕ) → (c : ℕ) → Drive → Drive
add_command size c d = record d {
  command_buffer =
      if ltb (length d.command_buffer) size then d.command_buffer ++ (c ∷ []) else d.command_buffer;
  iec = record d.iec { command_recvd = if d.iec.eoi_recvd then true else d.iec.command_recvd };
}

unfoldable pub put_found : (c i : ℕ) → Option Buffer → System → System
put_found c i none sys = sys
put_found c i (some b) sys =
    let next = (b.position + 1) % 256 in
    record sys {
      buffers = set sys.buffers i (record b {
        bytes = set b.bytes b.position c;
        lastused = if ltb b.lastused b.position then b.position else b.lastused;
        position = next;
        mustflush = if next == 0 then true else b.mustflush;
      });
    }

-- The buffer is marked first, since that changes no other field of it.
unfoldable pub put_byte : (c i : ℕ) → System → System
put_byte c i sys =
    let marked = mark_buffer_dirty i sys in put_found c i (get_elem? marked.buffers i) marked

-- After a byte: the handler returns, or the buffer to go on with. There is no buffer behind a NULL
-- pointer to store to.
pub data Stored : Type 0 where
  undefined : Stored
  failed : System → Stored
  kept : (i : ℕ) → System → Stored

unfoldable pub found_again : Option ℕ → System → Stored
found_again none sys = undefined
found_again (some i) sys = kept i sys

unfoldable pub flush_full : Setup → (cmd i : ℕ) → Option Buffer → System → Stored
flush_full e cmd i none sys = undefined
flush_full e cmd i (some b) sys =
    let (s1, res) = e.call b.refill i sys in
    let flushed = found_again (find_buffer (cmd % 16) s1) s1 in
    let tried = if res == 0 then flushed else failed s1 in if b.mustflush then tried else kept i sys

-- REL files are written at each EOI.
unfoldable pub sync_record : Setup → (eoi : Bool) → (i : ℕ) → Option Buffer → System → Stored
sync_record e eoi i none sys = undefined
sync_record e eoi i (some b) sys =
    let (s1, res) = e.call b.refill i sys in
    let tried = if res == 0 then kept i s1 else failed s1 in
    if not (b.recordlen == 0) && eoi then tried else kept i sys

unfoldable pub put_and_sync : Setup → (eoi : Bool) → (c : ℕ) → Stored → Stored
put_and_sync e eoi c undefined = undefined
put_and_sync e eoi c (failed sys) = failed sys
put_and_sync e eoi c (kept i sys) =
    let s1 = put_byte c i sys in sync_record e eoi i (get_elem? s1.buffers i) s1

unfoldable pub store_byte : Setup → (cmd : ℕ) → (eoi : Bool) → (c i : ℕ) → System → Stored
store_byte e cmd eoi c i sys =
    put_and_sync e eoi c (flush_full e cmd i (get_elem? sys.buffers i) sys)

-- How the handler returns, always with 1: `none` while it waits for the bus.
abbrev pub Listened : Type 0
Listened = Option (Drive × List Sample)

unfoldable pub listen_stored :
    (again : Option ℕ → Drive → List Sample → Listened) → Drive → List Sample → Stored → Listened
listen_stored again d samples undefined = none
listen_stored again d samples (failed sys) = some (record d { system = sys }, samples)
listen_stored again d samples (kept i sys) = again (some i) (record d { system = sys }) samples

unfoldable pub listen_data :
    Setup
    → (cmd : ℕ) → (again : Option ℕ → Drive → List Sample → Listened) → (c : ℕ) → Option ℕ
    → Drive
    → List Sample
    → Listened
listen_data e cmd again c none d samples = none
listen_data e cmd again c (some i) d samples =
    listen_stored again d samples (store_byte e cmd d.iec.eoi_recvd c i d.system)

unfoldable pub listen_byte :
    Setup
    → (cmd : ℕ) → (again : Option ℕ → Drive → List Sample → Listened) → Option ℕ
    → Drive
    → Outcome ℕ
    → Listened
listen_byte e cmd again i d starved = none
listen_byte e cmd again i d (changed s samples) = some (record d { iec = s }, samples)
listen_byte e cmd again i d (answer c s samples) =
    let d1 = record d { iec = s } in
    let added = again i (add_command e.command_buffer_size c d1) samples in
    let stored = listen_data e cmd again c i d1 samples in if is_command cmd then added else stored

unfoldable pub listen_loop :
    Setup → (cmd fuel : ℕ) → (i : Option ℕ) → Drive → List Sample → Listened
listen_loop e cmd zero i d samples = none
listen_loop e cmd (suc fuel) i d samples =
    listen_byte e cmd (listen_loop e cmd fuel) i d (get_byte e d.iec samples)

unfoldable pub can_write : Option Buffer → Bool
can_write none = false
can_write (some b) = b.write

unfoldable pub is_writable : Option ℕ → System → Bool
is_writable none sys = false
is_writable (some i) sys = can_write (get_elem? sys.buffers i)

unfoldable pub iec_listen_handler : Setup → (cmd fuel : ℕ) → Drive → List Sample → Listened
iec_listen_handler e cmd fuel d samples =
    let i = find_buffer (cmd % 16) d.system in
    let refused = some (record d { iec = record d.iec { bus_state = cleanup } }, samples) in
    let taken = listen_loop e cmd fuel i d samples in
    if not (is_writable i d.system) && not (is_open cmd) then refused else taken
