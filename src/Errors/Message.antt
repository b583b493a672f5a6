-- ===== src/Errors/Message.antt =====
-- The messages of src/errormsg.c as they are read on the error channel, with no table of
-- abbreviations and no buffer.
use mathlib.Core.List.{append_assoc}
use nodiskemu.Prelude.{
  ℕ, zero, suc, ◌+◌, ◌/◌, ◌%◌, ◌<◌, Bool, true, false, List, [], ◌∷◌, ◌++◌, ◌&&◌, ◌||◌, map, leb,
  ◌==◌, if◌then◌else◌, test_bit, ◌≡◌, refl, ap, ◌∙◌, inl, inr, arith, Bool-cases, all_below,
  all_below_sound,
}
use nodiskemu.Utils.{append_number}
use nodiskemu.Utils.Digits.{append_number-prefix}
use nodiskemu.System.{Settings}
use nodiskemu.Errors.{
  toupper, seek_entry, skip_numbers, copy_text, append_msg, append_message, append_bool,
  append_drives, append_status, append_body, message_text,
}
use nodiskemu.Errors.Table.{codes, messages, abbrevs}
use nodiskemu.Errors.Layout.{append_drives-prefix, message_text_lem}

-- A byte in decimal, with two digits, from 100 on with three.
pub decimal : ℕ → List ℕ
decimal n =
    let low = (b'0' + n % 100 / 10) ∷ (b'0' + n % 10) ∷ [] in
    if leb 100 n then (b'0' + n / 100) ∷ low else low

-- Each text, with the numbers that have it.
error_texts : List (List ℕ × List ℕ)
error_texts =
    (0 ∷ [], codes " OK")
    ∷ (1 ∷ [], codes "FILES SCRATCHED")
    ∷ (2 ∷ [], codes "PARTITION SELECTED")
    ∷ (20 ∷ 21 ∷ 22 ∷ 23 ∷ 24 ∷ 27 ∷ [], codes "READ ERROR")
    ∷ (25 ∷ 28 ∷ [], codes "WRITE ERROR")
    ∷ (26 ∷ [], codes "WRITE PROTECT ON")
    ∷ (29 ∷ [], codes "DISK ID MISMATCH")
    ∷ (30 ∷ 31 ∷ 32 ∷ 33 ∷ 34 ∷ [], codes "SYNTAX ERROR")
    ∷ (39 ∷ 62 ∷ [], codes "FILE NOT FOUND")
    ∷ (50 ∷ [], codes "RECORD NOT PRESENT")
    ∷ (51 ∷ [], codes "OVERFLOW IN RECORD")
    ∷ (52 ∷ [], codes "FILE TOO LARGE")
    ∷ (60 ∷ [], codes "WRITE FILE OPEN")
    ∷ (61 ∷ [], codes "FILE NOT OPEN")
    ∷ (63 ∷ [], codes "FILE EXISTS")
    ∷ (64 ∷ [], codes "FILE TYPE MISMATCH")
    ∷ (65 ∷ [], codes "NO BLOCK")
    ∷ (66 ∷ 67 ∷ [], codes "ILLEGAL TRACK OR SECTOR")
    ∷ (70 ∷ [], codes "NO CHANNEL")
    ∷ (71 ∷ [], codes "DIR ERROR")
    ∷ (72 ∷ [], codes "DISK FULL")
    ∷ (74 ∷ [], codes "DRIVE NOT READY")
    ∷ (77 ∷ [], codes "SELECTED PARTITION ILLEGAL")
    ∷ (78 ∷ [], codes "BUFFER TOO SMALL")
    ∷ (79 ∷ [], codes "IMAGE FILE INVALID")
    ∷ (98 ∷ [], codes "UNKNOWN DRIVECODE")
    ∷ (99 ∷ [], codes "CLOCK UNSTABLE")
    ∷ []

is_among : ℕ → List ℕ → Bool
is_among e [] = false
is_among e (n ∷ ns) = e == n || is_among e ns

text_among : ℕ → List (List ℕ × List ℕ) → List ℕ
unfolding is_among
text_among e [] = codes "?"
text_among e ((ns, text) ∷ rows) = if is_among e ns then text else text_among e rows

error_text : ℕ → List ℕ
error_text e = text_among e error_texts

abbrev sign : Bool → List ℕ
sign value = if value then codes "+:" else codes "-:"

-- The drives that are in use, of `k` from drive `i` on.
drive_list : (ℕ → ℕ) → (k i : ℕ) → List ℕ
drive_list f zero i = []
drive_list f (suc k) i =
    (if f i == 15 then [] else b':' ∷ decimal i ++ b'=' ∷ decimal (f i)) ++ drive_list f k (i + 1)

-- The settings, as they are sent for the status.
status : Settings → List ℕ
status s =
    b'E' ∷ decimal s.file_extension_mode
    ++ sign (test_bit s.globalflags 3)
    ++ b'*' ∷ sign (test_bit s.globalflags 4)
    ++ b'I' ∷ decimal s.image_as_dir
    ++ b':' ∷ b'R' ∷ s.rom_filename

-- What the error channel tells, by the number and, for the status, by the sector.
body : Settings → (e sector : ℕ) → List ℕ
body s e sector =
    if e == 3 && sector == 1
    then b'D' ∷ drive_list s.map_drive 8 0
    else if e == 3
    then status s
    else if e == 9
    then s.versionstr ++ map toupper s.longverstr
    else if e == 73
    then s.versionstr
    else error_text e

-- The whole message: the number, the text, the track and the sector, with commas between them.
pub message : Settings → (e track sector : ℕ) → List ℕ
message s e track sector =
    decimal e ++ b',' ∷ (body s e sector ++ b',' ∷ (decimal track ++ b',' ∷ decimal sector))

same_text : List ℕ → List ℕ → Bool
same_text [] [] = true
same_text [] (d ∷ t) = false
same_text (c ∷ s) [] = false
same_text (c ∷ s) (d ∷ t) = c == d && same_text s t

same_text_sound : (s t : List ℕ) → same_text s t ≡ true → s ≡ t
unfolding same_text
same_text_sound [] [] h = refl
same_text_sound [] (d ∷ t) h = absurd (ground arith)
same_text_sound (c ∷ s) [] h = absurd (ground arith)
same_text_sound (c ∷ s) (d ∷ t) h = ground (arith, same_text_sound s t)

text_table : all_below 256 (λ e. same_text (append_message [] e) (error_text e)) ≡ true
unfolding all_below same_text error_text text_among is_among error_texts append_message append_msg
    seek_entry skip_numbers copy_text messages abbrevs
text_table = refl

append_message_lem : (e : ℕ) → e < 256 → append_message [] e ≡ error_text e
append_message_lem e h =
    same_text_sound _ _
      (all_below_sound 256 (λ k. same_text (append_message [] k) (error_text k)) e text_table h)

append_number_lem : (n : ℕ) → append_number [] n ≡ decimal n
unfolding append_number decimal
append_number_lem n = ground arith

append_drive_lem :
    (f : ℕ → ℕ) (i : ℕ)
    → append_number (append_number (b':' ∷ []) i ++ b'=' ∷ []) (f i)
      ≡ b':' ∷ decimal i ++ b'=' ∷ decimal (f i)
append_drive_lem f i = simp (append_number-prefix, append_number_lem, append_assoc)

append_drives_lem : (k : ℕ) (f : ℕ → ℕ) (i : ℕ) → append_drives k f i [] ≡ drive_list f k i
unfolding append_drives drive_list
append_drives_lem zero f i = refl
append_drives_lem (suc k) f i = elim (Bool-cases (f i == 15)) [
  | inl e ↦ rw e (append_drives_lem k f (i + 1))
  | inr e ↦
      rw
        (
          e,
          append_drives-prefix k f (i + 1)
              (append_number (append_number (b':' ∷ []) i ++ b'=' ∷ []) (f i)),
          append_drives_lem k f (i + 1),
          append_drive_lem f i,
        )
        refl
]

append_drives_from : (f : ℕ → ℕ) → append_drives 8 f 0 (b'D' ∷ []) ≡ b'D' ∷ drive_list f 8 0
append_drives_from f =
    append_drives-prefix 8 f 0 (b'D' ∷ []) ∙ ap (λ (l : List ℕ). b'D' ∷ l) (append_drives_lem 8 f 0)

append_status_lem : (s : Settings) → append_status s [] ≡ status s
unfolding append_status append_bool status
append_status_lem s = elim (Bool-cases (test_bit s.globalflags 3)) [
  | inl e ↦ elim (Bool-cases (test_bit s.globalflags 4)) [
    | inl e4 ↦ rw (e, e4) (simp (append_number-prefix, append_number_lem, append_assoc))
    | inr e4 ↦ rw (e, e4) (simp (append_number-prefix, append_number_lem, append_assoc))
  ]
  | inr e ↦ elim (Bool-cases (test_bit s.globalflags 4)) [
    | inl e4 ↦ rw (e, e4) (simp (append_number-prefix, append_number_lem, append_assoc))
    | inr e4 ↦ rw (e, e4) (simp (append_number-prefix, append_number_lem, append_assoc))
  ]
]

append_body_lem :
    (s : Settings) (e sector : ℕ) → e < 256 → append_body s e sector [] ≡ body s e sector
unfolding append_body body status
append_body_lem s e sector h =
    ground (arith, append_drives_from s.map_drive, append_status_lem s, append_message_lem e h)

-- The text that `set_error_ts` writes is the message.
pub message_text-message :
    (s : Settings) (e track sector : ℕ)
    → e < 256
    → message_text s e track sector ≡ message s e track sector
unfolding message
message_text-message s e track sector h =
    rw
      (
        message_text_lem s e track sector,
        append_body_lem s e sector h,
        append_number_lem e,
        append_number_lem track,
        append_number_lem sector,
      )
      refl
