-- ===== src/Iec/Listen/Filled.antt =====
-- A buffer of a file that takes bytes in `iec_listen_handler`, one after the other and in closed form.
use mathlib.Core.List.{cons≢nil}
use nodiskemu.Prelude.{
  ℕ, suc, ◌+◌, ◌-◌, ◌%◌, ◌≤◌, true, false, List, [], ◌∷◌, ltb, ◌==◌, if◌then◌else◌, length, set,
  ◌≡◌, ◌≢◌, refl, ◌∙◌, arith,
}
use nodiskemu.Eeprom.{put}
use nodiskemu.System.{Buffer}

-- The buffer behind one byte more, and behind all.
abbrev pub with_byte : (c : ℕ) → Buffer → Buffer
with_byte c b = record b {
  dirty = true;
  bytes = set b.bytes b.position c;
  lastused = if ltb b.lastused b.position then b.position else b.lastused;
  position = (b.position + 1) % 256;
  mustflush = if (b.position + 1) % 256 == 0 then true else b.mustflush;
}

abbrev pub with_bytes : List ℕ → Buffer → Buffer
with_bytes [] b = b
with_bytes (c ∷ cs) b = with_bytes cs (with_byte c b)

-- No record to write, and room up to the end of the buffer.
pub record IsRoom (b : Buffer) (n : ℕ) : Type 0 where
  pub fits : b.position + n ≤ 256
  pub unflushed : b.mustflush ≡ false
  pub sequential : b.recordlen ≡ 0

pub with_byte-IsRoom :
    (c n : ℕ) → (b : Buffer) → IsRoom b (suc (suc n)) → IsRoom (with_byte c b) (suc n)
with_byte-IsRoom c n b room =
    let next : (b.position + 1) % 256 ≡ b.position + 1 = omega (arith, room.fits) in
    let inside : ((b.position + 1) % 256 == 0) ≡ false = ground (arith, next) in
    record {
      fits = omega (arith, next, room.fits);
      unflushed = rw inside room.unflushed;
      sequential = room.sequential;
    }

-- The closed form: the bytes stand in order, and the buffer must be flushed when it is full.
abbrev pub filled : List ℕ → Buffer → Buffer
filled cs b =
    let past = b.position + length cs in
    record b {
      dirty = true;
      bytes = put b.bytes b.position cs;
      lastused = if ltb b.lastused (past - 1) then past - 1 else b.lastused;
      position = past % 256;
      mustflush = past == 256;
    }

later_last :
    (l p n : ℕ)
    → (if ltb (if ltb l p then p else l) (p + 1 + suc n - 1)
        then p + 1 + suc n - 1
        else (if ltb l p then p else l))
      ≡ (if ltb l (p + suc (suc n) - 1) then p + suc (suc n) - 1 else l)
later_last l p n = ground arith

pub with_bytes-filled :
    (cs : List ℕ) → (b : Buffer) → cs ≢ [] → IsRoom b (length cs) → with_bytes cs b ≡ filled cs b
unfolding put
with_bytes-filled [] b ne room = absurd (ne refl)
with_bytes-filled (c ∷ []) b ne room =
    let flush : (if (b.position + 1) % 256 == 0 then true else b.mustflush)
        ≡ (b.position + 1 == 256) =
      ground (arith, room.fits, room.unflushed) in
    let last : (if ltb b.lastused b.position then b.position else b.lastused)
        ≡ (if ltb b.lastused (b.position + 1 - 1) then b.position + 1 - 1 else b.lastused) =
      ground arith in
    λ j. record (with_byte c b) { lastused = last j; mustflush = flush j }
with_bytes-filled (c ∷ c2 ∷ cs) b ne room =
    let next : (b.position + 1) % 256 ≡ b.position + 1 = omega (arith, room.fits) in
    let later =
      with_bytes-filled (c2 ∷ cs) (with_byte c b) (λ x. cons≢nil x)
        (with_byte-IsRoom c (length cs) b room) in
    let past : b.position + 1 + suc (length cs) ≡ b.position + suc (suc (length cs)) =
      omega arith in
    later
    ∙ rw next (λ j. record b {
      dirty = true;
      bytes = put (set (set b.bytes b.position c) (b.position + 1) c2) (b.position + 1 + 1) cs;
      lastused = later_last b.lastused b.position (length cs) j;
      position = past j % 256;
      mustflush = past j == 256;
    })
