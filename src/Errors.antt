-- ===== src/Errors.antt =====
-- src/errormsg.c: the text of the error channel, and the error LED.
pub mod Table
pub mod Text
pub mod Layout
pub mod Message
pub mod Channel
mod Tests
use mathlib.Core.Option
use nodiskemu.Prelude.{
  ℕ, zero, suc, ◌+◌, ◌-◌, ◌%◌, Bool, true, false, Option, none, some, List, [], ◌∷◌, ◌++◌, ◌&&◌,
  ◌||◌, not, map, ltb, leb, ◌==◌, if◌then◌else◌, length, get_elem?, set, take, replicate, test_bit,
}
use nodiskemu.Utils.{append_number}
use nodiskemu.System.{Buffer, Leds, Settings, System}
use Table.{ec, abbrevs, messages}

-- CONFIG_ERROR_BUFFER_SIZE of every configuration.
abbrev pub error_buffer_size : ℕ
error_buffer_size = 100

-- The first loop of `appendmsg`: what follows the number `entry` in the table, `none` at its end.
pub seek_entry : ℕ → List ℕ → Option (List ℕ)
seek_entry entry [] = none
seek_entry entry (tmp ∷ table) =
    if tmp == ec 127 then none else if tmp == ec entry then some table else seek_entry entry table

-- `while (byte >= EC(0)) i++`
pub skip_numbers : List ℕ → List ℕ
skip_numbers [] = []
skip_numbers (tmp ∷ table) =
    let rest = skip_numbers table in if leb (ec 0) tmp then rest else tmp ∷ table

-- The copying loop; `expand` is the recursive call for an abbreviation.
pub copy_text : (List ℕ → ℕ → List ℕ) → List ℕ → List ℕ → List ℕ
copy_text expand msg [] = msg
copy_text expand msg (tmp ∷ table) =
    let short = copy_text expand (expand msg tmp) table in
    let plain = copy_text expand (msg ++ tmp ∷ []) table in
    if ltb tmp 32 then short else if ltb tmp (ec 0) then plain else msg

-- The first argument bounds the depth of the recursion.
pub append_msg : ℕ → List ℕ → List ℕ → ℕ → List ℕ
unfolding seek_entry skip_numbers copy_text
append_msg zero msg table entry = msg
append_msg (suc depth) msg table entry =
    let expand = λ (m : List ℕ) (e : ℕ). append_msg depth m abbrevs e in
    elim (seek_entry entry table) [
      | none ↦ msg ++ b'?' ∷ []
      | some rest ↦ copy_text expand msg (skip_numbers rest)
    ]

-- The text of an error number. The abbreviations hold no abbreviations.
pub append_message : List ℕ → ℕ → List ℕ
unfolding append_msg
append_message msg errornum = append_msg 2 msg messages errornum

append_bool : List ℕ → ℕ → Bool → List ℕ
append_bool msg ch value =
    (if ch == 0 then msg else msg ++ ch ∷ []) ++ (if value then b'+' else b'-') ∷ b':' ∷ []

-- `toupper` of the C library.
toupper : ℕ → ℕ
toupper c = if leb b'a' c && leb c b'z' then c - 32 else c

-- The loop over the drives from `i` on, with the rounds that are left.
pub append_drives : ℕ → (ℕ → ℕ) → ℕ → List ℕ → List ℕ
append_drives zero map_drive i msg = msg
append_drives (suc rounds) map_drive i msg = append_drives rounds map_drive (i + 1) (
    if map_drive i == 0x0f
    then msg
    else append_number (append_number (msg ++ b':' ∷ []) i ++ b'=' ∷ []) (map_drive i))

append_status : Settings → List ℕ → List ℕ
unfolding append_bool
append_status s msg =
    let m1 = append_number (msg ++ b'E' ∷ []) s.file_extension_mode in
    let m2 = append_bool m1 0 (test_bit s.globalflags 3) in
    let m3 = append_bool m2 b'*' (test_bit s.globalflags 4) in
    append_number (m3 ++ b'I' ∷ []) s.image_as_dir ++ b':' ∷ b'R' ∷ s.rom_filename

-- What stands between the first comma and the second.
pub append_body : Settings → ℕ → ℕ → List ℕ → List ℕ
unfolding append_status append_drives toupper append_message
append_body s errornum sector msg =
    if errornum == 3
    then (if sector == 1
        then append_drives 8 s.map_drive 0 (msg ++ b'D' ∷ [])
        else append_status s msg)
    else if errornum == 9
    then msg ++ (s.versionstr ++ map toupper s.longverstr)
    else if errornum == 73
    then msg ++ s.versionstr
    else append_message msg errornum

-- The whole message, without the CR behind it.
pub message_text : Settings → ℕ → ℕ → ℕ → List ℕ
message_text s errornum track sector =
    let msg = append_body s errornum sector (append_number [] errornum ++ b',' ∷ []) in
    append_number (append_number (msg ++ b',' ∷ []) track ++ b',' ∷ []) sector

-- The error buffer, cleared and then written. What does not fit would run over its end in memory.
pub fill_buffer : List ℕ → List ℕ
fill_buffer text = text ++ 13 ∷ replicate (error_buffer_size - (length text + 1)) 0

pub write_channel : List ℕ → Option Buffer → List Buffer → ℕ → List Buffer
unfolding fill_buffer
write_channel text none bs i = bs
write_channel text (some b) bs i =
    set bs i (record b { bytes = fill_buffer text; lastused = length text % 256; position = 0 })

-- `n` is CONFIG_BUFFER_COUNT, the index of the error channel's buffer. The LEDs are those of a
-- board with SINGLE_LED.
pub set_error_ts : ℕ → System → ℕ → ℕ → ℕ → System
unfolding message_text write_channel
set_error_ts n sys errornum track sector = record sys {
  current_error = errornum;
  buffers =
      write_channel (message_text sys.settings errornum track sector) (get_elem? sys.buffers n)
        sys.buffers n;
  led_state = record sys.led_state { error = leb 20 errornum && not (errornum == 73) };
}

unfoldable pub set_error : ℕ → System → ℕ → System
set_error n sys errornum = set_error_ts n sys errornum 0 0

-- The refill callback of the error channel.
pub ok_message : ℕ → System → System × ℕ
ok_message n sys = (set_error n sys 0, 0)
