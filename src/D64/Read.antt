-- ===== src/D64/Read.antt =====
-- `checked_read` of src/d64ops.c: the read of a sector of an image behind the check of its numbers and
-- of the error information that some images have, which is cached for one track.
pub mod Cached
mod Tests
use nodiskemu.Prelude.{
  ℕ, zero, suc, ◌+◌, ◌-◌, ◌*◌, Bool, true, false, Option, none, some, List, [], ◌++◌, ◌&&◌, ◌||◌,
  not, ltb, leb, ◌==◌, if◌then◌else◌, get_or, length, drop, replicate,
}
use Prim.Native.Nat.{bit_and}
use nodiskemu.D64.{
  Kind, d41, d71, d81, dnp, d80, d82, other, sector_lba, sector_offset, sectors_per_track,
}
use nodiskemu.D64.Bam.{Partition, kind_of}

-- What `checked_read` calls: `image_read` gives its result and the bytes that it has read.
pub record Drive (D : Type 0) : Type 0 where
  pub image_read : D → (part offset len : ℕ) → D × ℕ × List ℕ
  pub set_error_ts : D → (code track sector : ℕ) → D
  pub set_error : D → ℕ → D

-- `errorcache`
pub record ErrorCache : Type 0 where
  pub part : ℕ
  pub track : ℕ
  pub errors : List ℕ

pub record Reader (D : Type 0) : Type 0 where
  pub drive : D
  pub cache : ErrorCache

-- Where the error information starts: a byte for each sector.
unfoldable pub error_offset : Kind → Option ℕ
error_offset d41 = some 174848
error_offset d71 = some 349696
error_offset d81 = some 819200
error_offset d80 = some 533248
error_offset d82 = some 1066496
error_offset _ = none

unfoldable pub has_error_info : Partition → Bool
has_error_info p = not (bit_and p.imagetype 128 == 0)

-- The bytes over the array that memset has filled.
unfoldable pub overlay : List ℕ → List ℕ
overlay bytes = bytes ++ drop (length bytes) (replicate 40 1)

module _ {D : Type 0} (m : Drive D) (partitions : ℕ → Partition) where
  unfoldable pub in_image : (part track sector : ℕ) → Bool
  in_image part track sector =
      let p = partitions part in
      not (
        ltb track 1
        || (ltb p.param.last_track track || leb (sectors_per_track (kind_of p) track) sector))

  -- The read of a track's error information. One that fails leaves the cache with the track that it
  -- had, over an array that has been cleared.
  unfoldable pub load_errors : (part track : ℕ) → Option ℕ → Reader D → Reader D × Bool
  load_errors part track none s =
      (record s { cache = record (s.cache) { errors = replicate 40 1 } }, false)
  load_errors part track (some base) s =
      let kind = kind_of (partitions part) in
      let (d, res, bytes) =
        m.image_read s.drive part (base + sector_lba kind track 0) (sectors_per_track kind track) in
      if leb 2 res
      then (record { drive = d; cache = record (s.cache) { errors = overlay bytes } }, false)
      else (
        record { drive = d; cache = record { part = part; track = track; errors = overlay bytes } },
        true,
      )

  unfoldable pub fetch_errors : (part track : ℕ) → Reader D → Reader D × Bool
  fetch_errors part track s =
      if s.cache.part == part && s.cache.track == track
      then (s, true)
      else load_errors part track (error_offset (kind_of (partitions part))) s

  unfoldable pub read_sector : (part track sector len : ℕ) → Reader D → Reader D × ℕ × List ℕ
  read_sector part track sector len s =
      let (d, res, bytes) =
        m.image_read s.drive part (sector_offset (kind_of (partitions part)) track sector) len in
      (record s { drive = d }, res, bytes)

  -- The error code of the sector decides.
  unfoldable pub judge : (part track sector len : ℕ) → Reader D × Bool → Reader D × ℕ × List ℕ
  judge part track sector len (s, false) = (s, 2, [])
  judge part track sector len (s, true) =
      let code = get_or s.cache.errors sector 0 in
      if leb 2 code && leb code 11
      then (record s { drive = m.set_error_ts s.drive (code - 2 + 20) track sector }, 2, [])
      else if code == 15
      then (record s { drive = m.set_error s.drive 74 }, 2, [])
      else read_sector part track sector len s

  unfoldable pub checked_read : (part track sector len error : ℕ) → Reader D → Reader D × ℕ × List ℕ
  checked_read part track sector len error s =
      if not (in_image part track sector)
      then (record s { drive = m.set_error_ts s.drive error track sector }, 2, [])
      else if has_error_info (partitions part)
      then judge part track sector len (fetch_errors part track s)
      else read_sector part track sector len s
