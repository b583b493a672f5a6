-- ===== src/Iec/Listen/Command.antt =====
-- A command or a file name that the computer sends, byte by byte, to `iec_listen_handler`.
use mathlib.Core.List.{append_assoc, append-nil, cons≢nil}
use nodiskemu.Prelude.{
  ℕ, zero, suc, ◌+◌, ◌<◌, ◌≤◌, Bool, true, false, not, ◌||◌, Option, some, List, [], ◌∷◌, ◌++◌, ◌%◌,
  and_false, or_false, ltb, if◌then◌else◌, length, take, All, ◌≡◌, ◌≢◌, refl, ap, sym, ◌∙◌, arith,
  Bool-cases, inl, inr, length-append, ltb→lt,
}
use nodiskemu.Iec.{Sample, foundatn}
use nodiskemu.Buffers.{find_buffer}
use nodiskemu.Iec.Receive.Bytes.{Phases, signal}
use nodiskemu.Iec.Listen.{
  is_open, is_writable, iec_listen_handler, Drive, Setup, is_command, add_command, listen_byte,
  listen_loop,
}
use nodiskemu.Iec.Listen.Sentence.{sentence, IsListening, get_byte-signal, listen_loop-end}

take-append_length : (xs ys : List ℕ) → take (length xs) (xs ++ ys) ≡ xs
take-append_length [] ys = refl
take-append_length (x ∷ xs) ys = ap (λ l. x ∷ l) (take-append_length xs ys)

added_take :
    (size c : ℕ)
    → (buffer cs : List ℕ) → length buffer ≤ size
    → take size ((if ltb (length buffer) size then buffer ++ (c ∷ []) else buffer) ++ cs)
      ≡ take size (buffer ++ (c ∷ cs))
added_take size c buffer cs fits = elim (Bool-cases (ltb (length buffer) size)) [
  | inl room ↦ rw room (ap (take size) (append_assoc buffer (c ∷ []) cs))
  | inr full ↦
      let same : size ≡ length buffer = ground arith in
      rw (full, same) (take-append_length buffer cs ∙ sym (take-append_length buffer (c ∷ cs)))
]

abbrev added : (size c : ℕ) → List ℕ → List ℕ
added size c buffer = if ltb (length buffer) size then buffer ++ (c ∷ []) else buffer

length-added :
    (size c : ℕ) → (buffer : List ℕ) → length buffer ≤ size → length (added size c buffer) ≤ size
length-added size c buffer fits = elim (Bool-cases (ltb (length buffer) size)) [
  | inl room ↦
      rw room (omega (arith, length-append buffer (c ∷ []), ltb→lt (length buffer) size room))
  | inr full ↦ rw full fits
]

take_fits : (size : ℕ) → (xs : List ℕ) → length xs ≤ size → take size xs ≡ xs
take_fits zero [] fits = refl
take_fits zero (x ∷ xs) fits = absurd (omega arith)
take_fits (suc size) [] fits = refl
take_fits (suc size) (x ∷ xs) fits = ap (λ l. x ∷ l) (take_fits size xs (omega arith))

added_last :
    (size c : ℕ)
    → (buffer : List ℕ) → length buffer ≤ size
    → added size c buffer ≡ take size (buffer ++ (c ∷ []))
added_last size c buffer fits =
    sym (take_fits size (added size c buffer) (length-added size c buffer fits))
    ∙ ap (take size) (sym (append-nil (added size c buffer)))
    ∙ added_take size c buffer [] fits

module _ (e : Setup) (cmd : ℕ) (i : Option ℕ) (command : is_command cmd ≡ true) where
  abbrev heard : (c : ℕ) → (eoi : Bool) → Drive → Drive
  heard c eoi d =
      add_command e.command_buffer_size c
        (record d { iec = record d.iec { eoi_recvd = eoi; set_data = false } })

  listen_loop-signal :
      (fuel : ℕ)
      → (d : Drive) → IsListening d.iec
      → (p : Phases) → (c : ℕ) → c < 256
      → (eoi : Bool) → (rest : List Sample)
      → listen_loop e cmd (suc fuel) i d (signal true p c eoi false rest)
        ≡ listen_loop e cmd fuel i (heard c eoi d) rest
  unfolding listen_loop listen_byte
  listen_loop-signal fuel d listening p c small eoi rest =
      rw (get_byte-signal e d.iec listening p c small eoi rest, command) refl

  listen_loop-sentence :
      (cs : List ℕ)
      → (phases : ℕ → Phases) → (k fuel : ℕ) → (d : Drive) → (rest : List Sample)
      → IsListening d.iec
      → All (λ c. c < 256) cs
      → cs ≢ []
      → length cs < fuel
      → length d.command_buffer ≤ e.command_buffer_size
      → listen_loop e cmd fuel i d (sentence phases k cs rest)
        ≡ some (
          record d {
            command_buffer = take e.command_buffer_size (d.command_buffer ++ cs);
            iec = record d.iec {
              eoi_recvd = true;
              command_recvd = true;
              set_data = false;
              bus_state = foundatn;
            };
          },
          rest,
        )
  unfolding sentence add_command
  listen_loop-sentence [] phases k fuel d rest listening small ne enough fits = absurd (ne refl)
  listen_loop-sentence (c ∷ cs) phases k zero d rest listening small ne enough fits =
      absurd (omega arith)
  listen_loop-sentence (c ∷ []) phases k (suc zero) d rest listening small ne enough fits =
      absurd (omega arith)
  listen_loop-sentence (c ∷ []) phases k (suc (suc fuel)) d rest listening small ne enough fits =
      listen_loop-signal (suc fuel) d listening (phases k) c small.0 true _
      ∙ listen_loop-end e cmd i fuel (heard c true d) rest listening.plain listening.serial
          listening.processing
      ∙ ap
          (λ buffer. some (
            record d {
              command_buffer = buffer;
              iec = record d.iec {
                eoi_recvd = true;
                command_recvd = true;
                set_data = false;
                bus_state = foundatn;
              };
            },
            rest,
          ))
          (added_last e.command_buffer_size c d.command_buffer fits)
  listen_loop-sentence (c ∷ c2 ∷ cs) phases k (suc fuel) d rest listening small ne enough fits =
      let again : IsListening (heard c false d).iec = record {
        plain = listening.plain;
        serial = listening.serial;
        unfinished = refl;
        processing = listening.processing;
      } in
      listen_loop-signal fuel d listening (phases k) c small.0 false _
      ∙ listen_loop-sentence (c2 ∷ cs) phases (k + 1) fuel (heard c false d) rest again small.1
          (λ x. cons≢nil x) (omega arith)
          (length-added e.command_buffer_size c d.command_buffer fits)
      ∙ ap
          (λ buffer. some (
            record d {
              command_buffer = buffer;
              iec = record d.iec {
                eoi_recvd = true;
                command_recvd = true;
                set_data = false;
                bus_state = foundatn;
              };
            },
            rest,
          ))
          (added_take e.command_buffer_size c d.command_buffer (c2 ∷ cs) fits)

  -- For a command or OPEN on a channel that takes it, without a fast protocol: from a sentence
  -- of bytes, the last with EOI, and the fall of ATN behind it, iec_listen_handler puts the
  -- bytes in order behind those in the command buffer as far as there is room, sets
  -- COMMAND_RECVD and returns in BUS_FOUNDATN.
  pub iec_listen_handler-sentence :
      (cs : List ℕ)
      → (phases : ℕ → Phases) → (fuel : ℕ) → (d : Drive) → (rest : List Sample)
      → (is_writable i d.system || is_open cmd) ≡ true
      → find_buffer (cmd % 16) d.system ≡ i
      → IsListening d.iec
      → All (λ c. c < 256) cs
      → cs ≢ []
      → length cs < fuel
      → length d.command_buffer ≤ e.command_buffer_size
      → iec_listen_handler e cmd fuel d (sentence phases 0 cs rest)
        ≡ some (
          record d {
            command_buffer = take e.command_buffer_size (d.command_buffer ++ cs);
            iec = record d.iec {
              eoi_recvd = true;
              command_recvd = true;
              set_data = false;
              bus_state = foundatn;
            };
          },
          rest,
        )
  unfolding iec_listen_handler
  iec_listen_handler-sentence cs phases fuel d rest writable found listening small ne enough fits =
      let all = listen_loop-sentence cs phases 0 fuel d rest listening small ne enough fits in
      elim (Bool-cases (is_open cmd)) [
        | inl opens ↦ rw (found, opens, and_false (not (is_writable i d.system))) all
        | inr closed ↦
            let open_for : is_writable i d.system ≡ true =
              sym (or_false _) ∙ rw closed at writable in
            rw (found, open_for) all
      ]
