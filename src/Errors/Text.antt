-- ===== src/Errors/Text.antt =====
-- The texts of the error numbers, `appendmsg`.
use mathlib.Core.Path.{fun_ext}
use mathlib.Core.List.{append_assoc, append-nil}
use nodiskemu.Prelude.{
  ℕ, zero, suc, ◌<◌, ◌≤◌, ◌≡◌, refl, sym, inl, inr, Bool, true, some, List, [], ◌∷◌, ◌++◌, ◌&&◌,
  arith, ltb, leb, Option-cases, All, length, all_below, all_below_sound,
}
use nodiskemu.Errors.{seek_entry, skip_numbers, copy_text, append_msg, append_message}
use nodiskemu.Errors.Table.{abbrevs, messages}

copy_text-prefix :
    (expand : List ℕ → ℕ → List ℕ)
    → ((m : List ℕ) (e : ℕ) → expand m e ≡ m ++ expand [] e)
    → (msg t : List ℕ) → copy_text expand msg t ≡ msg ++ copy_text expand [] t
unfolding copy_text
copy_text-prefix expand h msg [] = sym (append-nil msg)
copy_text-prefix expand h msg (c ∷ t) =
    let short : copy_text expand (expand msg c) t ≡ msg ++ copy_text expand (expand [] c) t = rw (
      copy_text-prefix expand h (expand msg c) t,
      copy_text-prefix expand h (expand [] c) t,
      h msg c,
      append_assoc msg (expand [] c) (copy_text expand [] t),
    ) in
    let plain : copy_text expand (msg ++ c ∷ []) t ≡ msg ++ copy_text expand (c ∷ []) t = rw (
      copy_text-prefix expand h (msg ++ c ∷ []) t,
      copy_text-prefix expand h (c ∷ []) t,
      append_assoc msg (c ∷ []) (copy_text expand [] t),
    ) in
    ground (arith, short, plain, append-nil msg)

-- The text goes behind what is there.
pub append_msg-prefix :
    (depth : ℕ) (msg table : List ℕ) (entry : ℕ)
    → append_msg depth msg table entry ≡ msg ++ append_msg depth [] table entry
unfolding append_msg
append_msg-prefix zero msg table entry = sym (append-nil msg)
append_msg-prefix (suc d) msg table entry = elim (Option-cases (seek_entry entry table)) [
  | inl e ↦ rw (e, append_msg)
  | inr (t, e) ↦
      rw (e, append_msg)
        (copy_text-prefix (λ m k. append_msg d m abbrevs k) (λ m k. append_msg-prefix d m abbrevs k)
          msg (skip_numbers t))
]

-- Without abbreviations the copying loop makes no recursive call.
copy_text-no_expand :
    (f g : List ℕ → ℕ → List ℕ) (msg t : List ℕ)
    → All (λ c. 32 ≤ c) t
    → copy_text f msg t ≡ copy_text g msg t
unfolding copy_text
copy_text-no_expand f g msg [] h = refl
copy_text-no_expand f g msg (c ∷ t) h =
    ground (arith, copy_text-no_expand f g (msg ++ c ∷ []) t h.1)

All-skip_numbers : (t : List ℕ) → All (λ c. 32 ≤ c) t → All (λ c. 32 ≤ c) (skip_numbers t)
unfolding skip_numbers
All-skip_numbers [] h = tt
All-skip_numbers (c ∷ t) h = ground (arith, All-skip_numbers t h.1)

All-seek_entry :
    (e : ℕ) (t r : List ℕ) → All (λ c. 32 ≤ c) t → seek_entry e t ≡ some r → All (λ c. 32 ≤ c) r
unfolding seek_entry
All-seek_entry e [] r h q = cc
All-seek_entry e (c ∷ t) r h q = ground (arith, All-seek_entry e t r h.1)

abbrevs-plain : All (λ c. 32 ≤ c) abbrevs
unfolding abbrevs
abbrevs-plain = omega arith

append_msg-abbrevs :
    (d : ℕ) (msg : List ℕ) (e : ℕ) → append_msg (suc d) msg abbrevs e ≡ append_msg 1 msg abbrevs e
unfolding append_msg
append_msg-abbrevs d msg e = elim (Option-cases (seek_entry e abbrevs)) [
  | inl q ↦ rw (q, append_msg)
  | inr (t, q) ↦
      rw (q, append_msg)
        (copy_text-no_expand (λ m k. append_msg d m abbrevs k) (λ m k. m) msg (skip_numbers t)
          (All-skip_numbers t (All-seek_entry e abbrevs t abbrevs-plain q)))
]

copy_text_cong :
    (f g : List ℕ → ℕ → List ℕ)
    → ((m : List ℕ) (e : ℕ) → f m e ≡ g m e)
    → (msg t : List ℕ) → copy_text f msg t ≡ copy_text g msg t
unfolding copy_text
copy_text_cong f g h msg t = rw (fun_ext (λ m. fun_ext (λ e. h m e)))

-- Two levels are enough: with any more, `appendmsg` writes the same text.
pub append_message-depth :
    (d : ℕ) (msg : List ℕ) (e : ℕ) → append_msg (suc (suc d)) msg messages e ≡ append_message msg e
unfolding append_message append_msg
append_message-depth d msg e = elim (Option-cases (seek_entry e messages)) [
  | inl q ↦ rw (q, append_msg)
  | inr (t, q) ↦
      rw (q, append_msg)
        (copy_text_cong (λ m k. append_msg (suc d) m abbrevs k) (λ m k. append_msg 1 m abbrevs k)
          (λ m k. append_msg-abbrevs d m k) msg (skip_numbers t))
]

-- A printable ASCII byte.
abbrev pub is_printable : ℕ → Bool
is_printable c = leb 32 c && ltb c 127

abbrev pub every : (ℕ → Bool) → List ℕ → Bool
every p [] = true
every p (c ∷ s) = p c && every p s

message_table :
    all_below 256
      (λ e. ltb (length (append_message [] e)) 28 && every is_printable (append_message [] e))
    ≡ true
unfolding all_below append_message append_msg seek_entry skip_numbers copy_text messages abbrevs
message_table = refl

-- The text of every error number below 256 is shorter than 28 bytes, and all of it is printable.
pub append_message-bounds :
    (e : ℕ)
    → e < 256
    → (length (append_message [] e) < 28) × (every is_printable (append_message [] e) ≡ true)
append_message-bounds e h = ground (
  arith,
  all_below_sound 256
      (λ e. ltb (length (append_message [] e)) 28 && every is_printable (append_message [] e)) e
      message_table h,
)
