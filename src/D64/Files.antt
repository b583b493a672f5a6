-- ===== src/D64/Files.antt =====
-- The callbacks of src/d64ops.c for the sectors of a file: `d64_read`, `d64_write` and
-- `d64_write_cleanup`, for one partition. A buffer that is freed is gone.
pub mod Stored
pub mod Written
mod Tests
use nodiskemu.Prelude.{
  ℕ, zero, suc, ◌+◌, ◌-◌, ◌/◌, ◌%◌, Bool, true, false, not, Option, none, some, List, ◌==◌,
  if◌then◌else◌, get_or, set,
}
use Prim.Native.Nat.{bit_or}

-- The fields of the buffer that the callbacks use; `track`, `sector` and `blocks` are `pvt.d64`'s.
pub record FileBuffer : Type 0 where
  pub bytes : List ℕ
  pub position : ℕ
  pub lastused : ℕ
  pub sendeoi : Bool
  pub mustflush : Bool
  pub dirty : Bool
  pub track : ℕ
  pub sector : ℕ
  pub blocks : ℕ

-- What the callbacks call. `get_next_sector` gives whether it has found a sector, and its numbers;
-- the entry is the file's in its directory.
pub record Disk (S : Type 0) : Type 0 where
  pub checked_read : S → (track sector : ℕ) → S × ℕ × List ℕ
  pub image_write : S → (track sector : ℕ) → List ℕ → S × ℕ
  pub get_next_sector : S → (track sector : ℕ) → S × Bool × ℕ × ℕ
  pub allocate_sector : S → (track sector : ℕ) → S × ℕ
  pub current_error : S → ℕ
  pub set_error : S → ℕ → S
  pub read_entry : S → S × ℕ × List ℕ
  pub write_entry : S → List ℕ → S × ℕ
  pub update_timestamp : List ℕ → List ℕ

-- What `d64_read` makes of the sector that it has read.
unfoldable pub refilled : List ℕ → FileBuffer → FileBuffer
refilled bytes b =
    let last = get_or bytes 0 0 == 0 in
    record b {
      bytes = bytes;
      position = 2;
      lastused = if last then get_or bytes 1 0 else 255;
      sendeoi = last;
    }

unfoldable pub link_to : (t r : ℕ) → FileBuffer → FileBuffer
link_to t r b = record b { bytes = set (set b.bytes 0 t) 1 r }

unfoldable pub as_last : FileBuffer → FileBuffer
as_last b = link_to 0 b.lastused (record b { blocks = (b.blocks + 1) % 65536 })

module _ {S : Type 0} (m : Disk S) where
  unfoldable pub d64_read : S → FileBuffer → S × Option FileBuffer
  d64_read s b =
      let t = get_or b.bytes 0 0 in
      let r = get_or b.bytes 1 0 in
      let (s1, res, bytes) = m.checked_read s t r in
      (s1, if res == 0 then some (refilled bytes (record b { track = t; sector = r })) else none)

  -- From the label `storedata` on.
  unfoldable pub store_data : (saved t r : ℕ) → FileBuffer → S → S × Option FileBuffer
  store_data saved t r b s =
      let (s1, res) = m.image_write s b.track b.sector b.bytes in
      let b1 = record b {
        track = t;
        sector = r;
        position = 2;
        lastused = 1;
        mustflush = false;
        dirty = false;
      } in
      if not (res == 0)
      then (s1, none)
      else if not (saved == 0)
      then (m.set_error s1 saved, none)
      else (s1, some b1)

  unfoldable pub write_next : FileBuffer → S × Bool × ℕ × ℕ → S × Option FileBuffer
  write_next b (s, false, t, r) = store_data (m.current_error s) 0 r b s
  write_next b (s, true, t, r) =
      let (s1, res) = m.allocate_sector s t r in
      if not (res == 0) then (s1, none) else store_data 0 t r (link_to t r b) s1

  unfoldable pub d64_write : S → FileBuffer → S × Option FileBuffer
  d64_write s b = write_next (as_last b) (m.get_next_sector s b.track b.sector)

  -- The entry of the file: its type, with the mark of a closed file, and its size.
  unfoldable pub closed_entry : FileBuffer → List ℕ → List ℕ
  closed_entry b entry = m.update_timestamp (
      set (set (set entry 2 (bit_or (get_or entry 2 0) 0x80)) 30 (b.blocks % 256)) 31
        (b.blocks / 256))

  unfoldable pub close_entry : FileBuffer → S × ℕ × List ℕ → S × ℕ
  close_entry b (s, res, entry) =
      let (s1, res1) = m.write_entry s (closed_entry b entry) in
      if not (res == 0) then (s, 1) else if not (res1 == 0) then (s1, 1) else (s1, 0)

  unfoldable pub close_stored : FileBuffer → S × ℕ → S × ℕ
  close_stored b (s, res) = if not (res == 0) then (s, 1) else close_entry b (m.read_entry s)

  unfoldable pub d64_write_cleanup : S → FileBuffer → S × ℕ
  d64_write_cleanup s b =
      let b1 = as_last b in
      if b.track == 0 then (s, 1) else close_stored b1 (m.image_write s b.track b.sector b1.bytes)
