-- ===== src/D64/Read/Tests.antt =====
-- Examples for `checked_read` of src/d64ops.c.
use nodiskemu.Prelude.{ℕ, true, List, ◌≡◌, refl, arith, replicate}
use nodiskemu.D64.{d41param, image_kind}
use nodiskemu.D64.Bam.{Partition, kind_of}
use nodiskemu.D64.Read.{Drive, Reader, error_offset, load_errors, fetch_errors, checked_read}
use nodiskemu.D64.Read.Cached.{IsDrive, IsErrorCache, IsJudged, verdict, checked_read-IsJudged}

-- A drive that remembers the last error, whose images have the byte 5 everywhere.
abbrev fives : Drive ℕ
fives = record {
  image_read = λ d part offset len. (d, 0, replicate len 5);
  set_error_ts = λ d code track sector. code;
  set_error = λ d code. code;
}

abbrev fives_data : ℕ → (part offset len : ℕ) → List ℕ
fives_data d part offset len = replicate len 5

fives-IsDrive : IsDrive fives fives_data
fives-IsDrive = record {
  read_ok = λ d p o n ok. refl;
  read_keeps = λ d p o n q k l. refl;
  error_keeps = λ d c t s q k l. refl;
  ready_keeps = λ d c q k l. refl;
}

abbrev with_errors : ℕ → Partition
with_errors p = record { imagetype = 130; param = d41param }

abbrev start : Reader ℕ
start = record { drive = 0; cache = record { part = 255; track = 0; errors = replicate 40 0 } }

start-IsErrorCache : IsErrorCache fives fives_data fives-IsDrive with_errors start
start-IsErrorCache = record { right = λ ne lt. absurd (ne refl) }

start-fetched : (fetch_errors fives with_errors 0 18 start).1 ≡ true
unfolding fetch_errors load_errors error_offset kind_of image_kind
start-fetched = refl

checked_read-IsJudged_example :
    IsJudged fives fives_data fives-IsDrive with_errors start 0 18 1 256
      (verdict fives fives_data fives-IsDrive with_errors 0 0 18 1 66)
      (checked_read fives with_errors 0 18 1 256 66 start)
checked_read-IsJudged_example =
    checked_read-IsJudged fives fives_data fives-IsDrive with_errors 0 18 1 256 66 start
      (omega arith) start-IsErrorCache start-fetched
