-- ===== src/Errors/Layout.antt =====
-- The error channel of src/errormsg.c: the parts of the text that `set_error_ts` puts together.
use mathlib.Core.List.{append_assoc, append-nil}
use nodiskemu.Prelude.{
  ℕ, zero, suc, ◌+◌, ◌≡◌, sym, inl, inr, Bool-cases, List, [], ◌∷◌, ◌++◌, arith, ◌==◌,
}
use nodiskemu.Utils.{append_number}
use nodiskemu.Utils.Digits.{append_number-append, append_number-cons}
use nodiskemu.System.{Settings}
use nodiskemu.Errors.{
  append_bool, append_drives, append_status, append_body, append_message, message_text,
}
use nodiskemu.Errors.Table.{messages}
use nodiskemu.Errors.Text.{append_msg-prefix}

append_message-prefix : (msg : List ℕ) (e : ℕ) → append_message msg e ≡ msg ++ append_message [] e
unfolding append_message
append_message-prefix msg e = append_msg-prefix 2 msg messages e

pub append_drives-prefix :
    (k : ℕ) (f : ℕ → ℕ) (i : ℕ) (msg : List ℕ)
    → append_drives k f i msg ≡ msg ++ append_drives k f i []
unfolding append_drives
append_drives-prefix zero f i msg = sym (append-nil msg)
append_drives-prefix (suc k) f i msg = elim (Bool-cases (f i == 0x0f)) [
  | inl e ↦ rw e (append_drives-prefix k f (i + 1) msg)
  | inr e ↦
      let drive =
        λ (m : List ℕ). append_number (append_number (m ++ b':' ∷ []) i ++ b'=' ∷ []) (f i) in
      let rest = append_drives k f (i + 1) [] in
      let pulled : drive msg ≡ msg ++ drive [] = simp (append_number-append, append_assoc) in
      rw e (
        rw (
          append_drives-prefix k f (i + 1) (drive msg),
          append_drives-prefix k f (i + 1) (drive []),
          pulled,
          append_assoc msg (drive []) rest,
        ))
]

append_status-prefix :
    (s : Settings) (msg : List ℕ) → append_status s msg ≡ msg ++ append_status s []
unfolding append_status append_bool
append_status-prefix s msg = simp (append_number-append, append_assoc)

append_body-prefix :
    (s : Settings) (e sector : ℕ) (msg : List ℕ)
    → append_body s e sector msg ≡ msg ++ append_body s e sector []
unfolding append_body
append_body-prefix s e sector msg = ground (
  arith,
  append_drives-prefix 8 s.map_drive 0 (msg ++ b'D' ∷ []),
  append_drives-prefix 8 s.map_drive 0 (b'D' ∷ []),
  append_assoc msg (b'D' ∷ []) (append_drives 8 s.map_drive 0 []),
  append_status-prefix s msg,
  append_message-prefix msg e,
)

-- The message is the number, the text, the track and the sector, with commas between them.
pub message_text_lem :
    (s : Settings) (e track sector : ℕ)
    → message_text s e track sector
      ≡ append_number [] e
        ++ b','
          ∷ (append_body s e sector []
              ++ b',' ∷ (append_number [] track ++ b',' ∷ append_number [] sector))
unfolding message_text
message_text_lem s e track sector =
    rw append_body-prefix (simp (append_number-append, append_number-cons, append_assoc))
