-- ===== src/Iec/Listen/Sentence.antt =====
-- What the computer sends to a listener: bytes with phases of any length, and the fall of ATN.

use nodiskemu.Prelude.{ℕ, suc, ◌+◌, ◌<◌, Bool, true, false, Option, some, List, [], ◌∷◌, ◌≡◌, refl}
use nodiskemu.Iec.{Iec, Sample, answer, atnprocess, foundatn, is_atnactive, atn_changed, atn_state}
use nodiskemu.Iec.Receive.{iec_getc, and_then, await_atn}
use nodiskemu.Iec.Receive.Bytes.{Phases, signal, iec_getc-signal}
use nodiskemu.Iec.Listen.{Drive, Setup, get_byte, listen_byte, listen_loop}

-- The computer sends the bytes, the last one with EOI, and pulls ATN low.
unfoldable pub sentence : (ℕ → Phases) → ℕ → List ℕ → List Sample → List Sample
sentence phases i [] rest =
    record { atn = false; clock = false; data_line = false; timed_out = false; rxflag = false }
    ∷ rest
sentence phases i (c ∷ []) rest =
    signal true (phases i) c true false (sentence phases (i + 1) [] rest)
sentence phases i (c ∷ d ∷ cs) rest =
    signal true (phases i) c false false (sentence phases (i + 1) (d ∷ cs) rest)

-- Before the first byte: a transfer without a fast protocol, whose end has not come.
pub record IsListening (s : Iec) : Type 0 where
  pub plain : s.jiffy_active ≡ false
  pub serial : s.dolphin_active ≡ false
  pub unfinished : s.eoi_recvd ≡ false
  pub processing : s.bus_state ≡ atnprocess

module _ (e : Setup) where
  pub get_byte-signal :
      (s : Iec)
      → IsListening s
      → (p : Phases) → (c : ℕ) → c < 256
      → (eoi : Bool) → (rest : List Sample)
      → get_byte e s (signal true p c eoi false rest)
        ≡ answer c (record s { eoi_recvd = eoi; set_data = false }) rest
  unfolding get_byte atn_changed is_atnactive
  get_byte-signal s listening p c small eoi rest =
      let arrives =
        iec_getc-signal e.device_address true false p c small s eoi rest
          (rw listening.processing refl) in
      rw (listening.plain, listening.serial, listening.unfinished, listening.processing)
        (rw (listening.plain, listening.serial, listening.unfinished, listening.processing) at
          arrives)

module _ (e : Setup) (cmd : ℕ) (i : Option ℕ) where
  pub listen_loop-end :
      (fuel : ℕ)
      → (d : Drive) → (rest : List Sample) → d.iec.jiffy_active ≡ false
      → d.iec.dolphin_active ≡ false
      → d.iec.bus_state ≡ atnprocess
      → listen_loop e cmd (suc fuel) i d (
          record {
            atn = false;
            clock = false;
            data_line = false;
            timed_out = false;
            rxflag = false;
          }
          ∷ rest)
        ≡ some (record d { iec = record d.iec { bus_state = foundatn } }, rest)
  unfolding listen_loop listen_byte get_byte iec_getc and_then await_atn atn_changed atn_state
  listen_loop-end fuel d rest plain serial processing = rw (plain, serial, processing) refl
