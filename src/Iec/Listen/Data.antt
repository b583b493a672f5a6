-- ===== src/Iec/Listen/Data.antt =====
-- The bytes of a file that the computer sends to `iec_listen_handler`, up to the end of the buffer.
use mathlib.Core.List.{cons≢nil}
use nodiskemu.Prelude.{
  ℕ, zero, suc, ◌+◌, ◌%◌, ◌<◌, Bool, true, false, some, List, [], ◌∷◌, ◌==◌, length, get_elem?,
  get_elem?-set_self, get_elem?-lt, All, ◌≡◌, ◌≢◌, refl, ap, ◌∙◌, arith,
}
use nodiskemu.System.{Buffer, System}
use nodiskemu.Buffers.{find_buffer}
use nodiskemu.Buffers.Marked.{mark_buffer_dirty-get_elem?}
use nodiskemu.Iec.{Sample, foundatn}
use nodiskemu.Iec.Receive.Bytes.{Phases, signal}
use nodiskemu.Iec.Listen.Sentence.{sentence, IsListening, get_byte-signal, listen_loop-end}
use nodiskemu.Iec.Listen.{
  is_writable, can_write, iec_listen_handler, Drive, Setup, is_command, put_found, put_byte, kept,
  flush_full, sync_record, put_and_sync, store_byte, listen_stored, listen_data, listen_byte,
  listen_loop,
}
use nodiskemu.Iec.Listen.Filled.{
  with_byte, with_bytes, IsRoom, with_byte-IsRoom, filled, with_bytes-filled,
}

module _ (e : Setup) (cmd i : ℕ) (file : is_command cmd ≡ false) where
  put_byte-get_elem? :
      (c : ℕ)
      → (sys : System) → (b : Buffer) → get_elem? sys.buffers i ≡ some b
      → get_elem? (put_byte c i sys).buffers i ≡ some (with_byte c b)
  unfolding put_byte put_found
  put_byte-get_elem? c sys b at =
      let marked = mark_buffer_dirty-get_elem? i sys b at in
      rw marked (get_elem?-set_self _ i _ (get_elem?-lt _ i marked))

  store_byte-kept :
      (eoi : Bool)
      → (c : ℕ) → (sys : System) → (b : Buffer) → get_elem? sys.buffers i ≡ some b
      → b.mustflush ≡ false
      → b.recordlen ≡ 0
      → store_byte e cmd eoi c i sys ≡ kept i (put_byte c i sys)
  unfolding store_byte flush_full put_and_sync sync_record
  store_byte-kept eoi c sys b at unflushed sequential =
      let zero_length : (b.recordlen == 0) ≡ true = ground arith in
      rw (at, unflushed, put_byte-get_elem? c sys b at, zero_length) refl

  listen_loop-data :
      (fuel : ℕ)
      → (d : Drive) → (b : Buffer) → (p : Phases) → (c : ℕ) → (eoi : Bool) → (rest : List Sample)
      → IsListening d.iec
      → c < 256
      → get_elem? d.system.buffers i ≡ some b
      → b.mustflush ≡ false
      → b.recordlen ≡ 0
      → listen_loop e cmd (suc fuel) (some i) d (signal true p c eoi false rest)
        ≡ listen_loop e cmd fuel
            (some i)
            (record d {
              iec = record d.iec { eoi_recvd = eoi; set_data = false };
              system = put_byte c i d.system;
            })
            rest
  unfolding listen_loop listen_byte listen_data listen_stored
  listen_loop-data fuel d b p c eoi rest listening small at unflushed sequential =
      rw
        (
          get_byte-signal e d.iec listening p c small eoi rest,
          file,
          store_byte-kept eoi c d.system b at unflushed sequential,
        )
        refl

  listen_loop-sentence :
      (cs : List ℕ)
      → (phases : ℕ → Phases) → (k fuel : ℕ) → (d : Drive) → (b : Buffer) → (rest : List Sample)
      → IsListening d.iec
      → All (λ c. c < 256) cs
      → cs ≢ []
      → length cs < fuel
      → get_elem? d.system.buffers i ≡ some b
      → IsRoom b (length cs)
      → (d1 : Drive) × (listen_loop e cmd fuel (some i) d (sentence phases k cs rest)
          ≡ some (d1, rest))
        × (get_elem? d1.system.buffers i ≡ some (with_bytes cs b))
        × (d1.iec ≡ record d.iec { eoi_recvd = true; set_data = false; bus_state = foundatn })
  unfolding sentence
  listen_loop-sentence [] phases k fuel d b rest listening small ne enough at room =
      absurd (ne refl)
  listen_loop-sentence (c ∷ cs) phases k zero d b rest listening small ne enough at room =
      absurd (omega arith)
  listen_loop-sentence (c ∷ []) phases k (suc zero) d b rest listening small ne enough at room =
      absurd (omega arith)
  listen_loop-sentence (c ∷ []) phases k (suc (suc fuel)) d b rest listening small ne enough at
        room =
      let d1 = record d {
        iec = record d.iec { eoi_recvd = true; set_data = false };
        system = put_byte c i d.system;
      } in
      (
        record d1 { iec = record d1.iec { bus_state = foundatn } },
        listen_loop-data (suc fuel) d b (phases k) c true _ listening small.0 at room.unflushed
              room.sequential
            ∙ listen_loop-end e cmd (some i) fuel d1 rest listening.plain listening.serial
                listening.processing,
        put_byte-get_elem? c d.system b at,
        refl,
      )
  listen_loop-sentence (c ∷ c2 ∷ cs) phases k (suc fuel) d b rest listening small ne enough at
        room =
      let d1 = record d {
        iec = record d.iec { eoi_recvd = false; set_data = false };
        system = put_byte c i d.system;
      } in
      let again : IsListening d1.iec = record {
        plain = listening.plain;
        serial = listening.serial;
        unfinished = refl;
        processing = listening.processing;
      } in
      let later : IsRoom (with_byte c b) (length (c2 ∷ cs)) =
        with_byte-IsRoom c (length cs) b room in
      let (d2, runs, holds, ends) =
        listen_loop-sentence (c2 ∷ cs) phases (k + 1) fuel d1 (with_byte c b) rest again small.1
          (λ x. cons≢nil x) (omega arith) (put_byte-get_elem? c d.system b at) later in
      (
        d2,
        listen_loop-data fuel d b (phases k) c false _ listening small.0 at room.unflushed
              room.sequential
            ∙ runs,
        holds,
        ends,
      )

  -- For a channel whose buffer is open for writing and is no record, without a fast protocol:
  -- from a sentence of bytes that fit into the rest of the buffer, the last with EOI, and the
  -- fall of ATN behind it, iec_listen_handler stores the bytes in order from the position on,
  -- marks the buffer as dirty, moves position and lastused, asks for a flush exactly when the
  -- buffer is full, and returns in BUS_FOUNDATN.
  pub iec_listen_handler-file :
      (cs : List ℕ)
      → (phases : ℕ → Phases) → (fuel : ℕ) → (d : Drive) → (b : Buffer) → (rest : List Sample)
      → find_buffer (cmd % 16) d.system ≡ some i
      → get_elem? d.system.buffers i ≡ some b
      → b.write ≡ true
      → IsRoom b (length cs)
      → IsListening d.iec
      → All (λ c. c < 256) cs
      → cs ≢ []
      → length cs < fuel
      → (d1 : Drive) × (iec_listen_handler e cmd fuel d (sentence phases 0 cs rest)
          ≡ some (d1, rest))
        × (get_elem? d1.system.buffers i ≡ some (filled cs b))
        × (d1.iec ≡ record d.iec { eoi_recvd = true; set_data = false; bus_state = foundatn })
  unfolding iec_listen_handler is_writable can_write
  iec_listen_handler-file cs phases fuel d b rest found at writes room listening small ne enough =
      let (d1, runs, holds, ends) =
        listen_loop-sentence cs phases 0 fuel d b rest listening small ne enough at room in
      let open_for : is_writable (some i) d.system ≡ true = ap can_write at ∙ writes in
      (d1, rw (found, open_for) runs, holds ∙ ap some (with_bytes-filled cs b ne room), ends)
