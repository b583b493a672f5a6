-- ===== src/D64/Bam.antt =====
-- The block map (BAM) of src/d64ops.c: the window of two buffers through which its sectors are
-- read, and the functions that test, count, allocate and free sectors.
pub mod Cache
pub mod Places
pub mod Map
pub mod Edit
pub mod Sectors
pub mod Allocate
pub mod Consistent
pub mod Count
pub mod Reliable
pub mod Totals
pub mod Runs
pub mod FreeMap
pub mod Full
mod Tests
use nodiskemu.Prelude.{
  ℕ, zero, suc, ◌+◌, ◌-◌, ◌*◌, ◌/◌, ◌%◌, Bool, true, false, Option, none, some, List, ◌&&◌, ◌||◌,
  not, ltb, leb, ◌==◌, if◌then◌else◌, get_or, set, test_bit, raise_bit, clear_bit,
}
use Prim.Native.Nat.{bit_and}
use nodiskemu.D64.{
  Kind, d41, d71, d81, dnp, d80, d82, other, Param, image_kind, sector_offset, sectors_per_track,
  BamData, bitfield, freecount, Position, bam_position,
}
use nodiskemu.D64.Search.{BamOps, FreeState, failed, used, free}

-- What a BAM buffer's `pvt.bam`, `mustflush` and `data` hold.
pub record Window : Type 0 where
  pub part : ℕ
  pub track : ℕ
  pub sector : ℕ
  pub mustflush : Bool
  pub bytes : List ℕ

-- The rest of the system, as far as the block map calls it: the image files, the buffers' pool and
-- the error channel. A read gives its result and the bytes.
pub record Machine (D : Type 0) : Type 0 where
  pub image_read : D → (part offset len : ℕ) → D × ℕ × List ℕ
  pub image_write : D → (part offset : ℕ) → List ℕ → D × ℕ
  pub alloc_system_buffer : D → D × Option (List ℕ)
  pub current_error : D → ℕ
  pub set_error : D → ℕ → D

-- `partition[part]`, as far as it is read here.
pub record Partition : Type 0 where
  pub imagetype : ℕ
  pub param : Param

pub record Bam (D : Type 0) : Type 0 where
  pub machine : D
  pub bam_buffer : Window
  pub bam_buffer2 : Option Window

unfoldable pub kind_of : Partition → Kind
kind_of p = image_kind p.imagetype

-- `imagetype == D64_TYPE_DNP`, without the mask.
unfoldable pub is_dnp : Partition → Bool
is_dnp p = p.imagetype == 1

-- The number of the bit of a sector in its byte.
unfoldable pub bit_of : Partition → ℕ → ℕ
bit_of p sector = if is_dnp p then 7 - sector % 8 else sector % 8

unfoldable pub bam_buffer_match : Window → (part track sector : ℕ) → Bool
bam_buffer_match w part track sector = w.part == part && (w.track == track && w.sector == sector)

-- A write to a byte of the window, and the flag that asks for the flush.
unfoldable pub change : ℕ → (ℕ → ℕ) → Window → Window
change i f w = record w { mustflush = true; bytes = set w.bytes i (f (get_or w.bytes i 0)) }

-- The SWAR count of the bits of a byte.
unfoldable pub count_bits : ℕ → ℕ
count_bits byte =
    let b1 = bit_and byte 0x55 + bit_and (byte / 2) 0x55 in
    let b2 = bit_and b1 0x33 + bit_and (b1 / 4) 0x33 in bit_and b2 0x0f + bit_and (b2 / 16) 0x0f

-- The counts of `n` bytes from `i` on, in a uint16_t.
unfoldable pub count_blocks : (n i : ℕ) → List ℕ → ℕ
count_blocks zero i bytes = 0
count_blocks (suc n) i bytes =
    (count_bits (get_or bytes i 0) + count_blocks n (i + 1) bytes) % 65536

-- A fresh buffer of `bam_buffer_alloc`, around the data that the pool's buffer has.
unfoldable pub fresh_window : List ℕ → Window
fresh_window bytes = record { part = 255; track = 0; sector = 0; mustflush = false; bytes = bytes }

unfoldable pub change_window : {D : Type 0} → ℕ → (ℕ → ℕ) → Bam D → Bam D
change_window i f s = record s { bam_buffer = change i f s.bam_buffer }

module _ {D : Type 0} (m : Machine D) (partitions : ℕ → Partition) (max_part : ℕ) where
  unfoldable pub offset_of : (part track sector : ℕ) → ℕ
  offset_of part track sector = sector_offset (kind_of (partitions part)) track sector

  -- `bam_buffer_flush` is the cleanup callback of both buffers.
  unfoldable pub bam_buffer_flush : Window → D → Window × D × ℕ
  bam_buffer_flush w d =
      let (d1, res) = m.image_write d w.part (offset_of w.part w.track w.sector) w.bytes in
      if w.mustflush && ltb w.part max_part
      then (record w { mustflush = false }, d1, res)
      else (w, d, 0)

  -- `d64_bam_commit`; its result is 0 whatever the flushes return.
  unfoldable pub commit_second : Window × D × ℕ → Option Window → Bam D
  commit_second (w, d, res) none = record { machine = d; bam_buffer = w; bam_buffer2 = none }
  commit_second (w, d, res) (some w2) =
      let (w2', d2, res2) = bam_buffer_flush w2 d in
      record { machine = d2; bam_buffer = w; bam_buffer2 = some w2' }

  unfoldable pub d64_bam_commit : Bam D → Bam D × ℕ
  d64_bam_commit s = (commit_second (bam_buffer_flush s.bam_buffer s.machine) s.bam_buffer2, 0)

  -- The sector is read into the first window, which `flushed` has cleaned. A failed read leaves
  -- what it has read.
  unfoldable pub read_window : (part track sector : ℕ) → Window × D × ℕ → Option Window → Bam D × ℕ
  read_window part track sector (w, d, res) second =
      let (d1, res1, bytes) = m.image_read d part (offset_of part track sector) 256 in
      if not (res == 0)
      then (record { machine = d; bam_buffer = w; bam_buffer2 = second }, 1)
      else if not (res1 == 0)
      then (
        record { machine = d1; bam_buffer = record w { bytes = bytes }; bam_buffer2 = second },
        res1,
      )
      else (let w1 = record w { part = part; track = track; sector = sector; bytes = bytes } in
          (record { machine = d1; bam_buffer = w1; bam_buffer2 = second }, 0))

  unfoldable pub load_window : (part track sector : ℕ) → Bam D → Bam D × ℕ
  load_window part track sector s =
      read_window part track sector (bam_buffer_flush s.bam_buffer s.machine) s.bam_buffer2

  -- The second buffer is allocated when the first one is in use.
  unfoldable pub second_window : Bam D → D × Option (List ℕ) → Bam D
  second_window s (d, none) = record s { machine = m.set_error d 0 }
  second_window s (d, some bytes) = record {
    machine = d;
    bam_buffer = fresh_window bytes;
    bam_buffer2 = some s.bam_buffer;
  }

  -- What `move_bam_window` does when the first window has another sector.
  unfoldable pub other_window : (part track sector : ℕ) → Option Window → Bam D → Bam D × ℕ
  other_window part track sector (some w2) s =
      let swapped = record s { bam_buffer = w2; bam_buffer2 = some s.bam_buffer } in
      if bam_buffer_match w2 part track sector
      then (swapped, 0)
      else load_window part track sector swapped
  other_window part track sector none s =
      load_window part track sector
        (if s.bam_buffer.part == 255 then s else second_window s (m.alloc_system_buffer s.machine))

  unfoldable pub to_window : (part track sector : ℕ) → Bam D → Bam D × ℕ
  to_window part track sector s =
      if bam_buffer_match s.bam_buffer part track sector
      then (s, 0)
      else other_window part track sector s.bam_buffer2 s

  unfoldable pub position : ℕ → ℕ → BamData → Position
  position part track type = bam_position (kind_of (partitions part)) type track

  -- The pointer is the `pos` of the position, in the first window.
  unfoldable pub move_bam_window : (part track : ℕ) → BamData → Bam D → Bam D × ℕ
  move_bam_window part track type s =
      let p = position part track type in to_window part p.track p.sector s

  -- The byte of a sector's bit in the window.
  unfoldable pub bit_index : (part track sector : ℕ) → ℕ
  bit_index part track sector = (position part track bitfield).pos + sector / 8

  unfoldable pub tested : (part track sector : ℕ) → Bam D × ℕ → Bam D × FreeState
  tested part track sector (s, res) = (
    s,
    if not (res == 0)
        then failed
        else (if test_bit (get_or s.bam_buffer.bytes (bit_index part track sector) 0)
              (bit_of (partitions part) sector)
            then free
            else used),
  )

  unfoldable pub is_free : (part track sector : ℕ) → Bam D → Bam D × FreeState
  is_free part track sector s = tested part track sector (move_bam_window part track bitfield s)

  unfoldable pub counted : (part track : ℕ) → Bam D × ℕ → Bam D × ℕ
  counted part track (s, res) =
      let pos = (position part track freecount).pos in
      let bytes = s.bam_buffer.bytes in
      (
        s,
        if not (res == 0) then 0 else (elim (kind_of (partitions part)) [
          | dnp ↦ count_blocks 32 pos bytes
          | _ ↦ get_or bytes pos 0
        ]),
      )

  unfoldable pub sectors_free : (part track : ℕ) → Bam D → Bam D × ℕ
  sectors_free part track s =
      if ltb track 1 || ltb (partitions part).param.last_track track
      then (s, 0)
      else counted part track (move_bam_window part track freecount s)

  -- The counter of the track, behind the second move of the window.
  unfoldable pub allocate_count : (part track : ℕ) → Bam D × ℕ → Bam D × ℕ
  allocate_count part track (s, res) =
      let pos = (position part track freecount).pos in
      if not (res == 0)
      then (s, 1)
      else if ltb 0 (get_or s.bam_buffer.bytes pos 0)
      then (change_window pos (λ n. n - 1) s, 0)
      else (s, 0)

  -- The bit of the sector, behind the first one.
  unfoldable pub allocate_bit : (part track sector : ℕ) → Bam D × ℕ → Bam D × ℕ
  allocate_bit part track sector (s, res) =
      let s1 =
        change_window (bit_index part track sector)
          (λ b. clear_bit b (bit_of (partitions part) sector)) s in
      if not (res == 0)
      then (s, 1)
      else if is_dnp (partitions part)
      then (s1, 0)
      else allocate_count part track (move_bam_window part track freecount s1)

  unfoldable pub allocate_tested : (part track sector : ℕ) → Bam D × FreeState → Bam D × ℕ
  allocate_tested part track sector (s, failed) = (s, 1)
  allocate_tested part track sector (s, used) = (s, 0)
  allocate_tested part track sector (s, free) =
      allocate_bit part track sector (move_bam_window part track bitfield s)

  unfoldable pub allocate_sector : (part track sector : ℕ) → Bam D → Bam D × ℕ
  allocate_sector part track sector s =
      allocate_tested part track sector (is_free part track sector s)

  unfoldable pub free_count : (part track : ℕ) → Bam D × ℕ → Bam D × ℕ
  free_count part track (s, res) =
      let pos = (position part track freecount).pos in
      if not (res == 0)
      then (s, 1)
      else if ltb (get_or s.bam_buffer.bytes pos 0)
          (sectors_per_track (kind_of (partitions part)) track)
      then (change_window pos (λ n. (n + 1) % 256) s, 0)
      else (s, 0)

  unfoldable pub free_bit : (part track sector : ℕ) → Bam D × ℕ → Bam D × ℕ
  free_bit part track sector (s, res) =
      let s1 =
        change_window (bit_index part track sector)
          (λ b. raise_bit b (bit_of (partitions part) sector)) s in
      if not (res == 0)
      then (s, 1)
      else if is_dnp (partitions part)
      then (s1, 0)
      else free_count part track (move_bam_window part track freecount s1)

  unfoldable pub free_tested : (part track sector : ℕ) → Bam D × FreeState → Bam D × ℕ
  free_tested part track sector (s, failed) = (s, 1)
  free_tested part track sector (s, free) = (s, 0)
  free_tested part track sector (s, used) =
      free_bit part track sector (move_bam_window part track bitfield s)

  unfoldable pub free_sector : (part track sector : ℕ) → Bam D → Bam D × ℕ
  free_sector part track sector s = free_tested part track sector (is_free part track sector s)

  -- What the allocation strategies call.
  unfoldable pub bam_ops : ℕ → BamOps (Bam D)
  bam_ops part = record {
    sectors_free = λ s track. sectors_free part track s;
    is_free = λ s track sector. is_free part track sector s;
    current_error = λ s. m.current_error s.machine;
    set_error = λ s e. record s { machine = m.set_error s.machine e };
  }
