-- ===== src/D64/Tests.antt =====
-- Examples for src/d64ops.c.
use nodiskemu.Prelude.{ℕ, ◌+◌, ◌<◌, false, some, ◌≡◌, ◌≢◌, refl, arith, ◌==◌, ◌&&◌, if◌then◌else◌}
use nodiskemu.D64.{d41, d80, d82, d41param, d81param, sector_lba, sectors_per_track, image_kind}
use nodiskemu.D64.Geometry.{zones_d41, IsSector, sector_lba-injective, sector_lba-next_track}
use nodiskemu.D64.Collisions.{sector_lba-d80_collision}
use nodiskemu.D64.Mount.{Image, mount_image, IsInFile, mount_image-IsInFile, case_of, sizes}
use nodiskemu.D64.Search.{
  BamOps, free, used, found, get_first_sector, find_track, first_on_track, on_track, is_success,
  distance_lt, next_distance, track_at,
}
use nodiskemu.D64.Search.First.{rounds}

abbrev track : ℕ
track = 18

abbrev sector : ℕ
sector = 1

track_18 : IsSector d41 35 track sector
unfolding sectors_per_track
track_18 = record { first = omega arith; last_ok = omega arith; in_track = omega arith }

sector_lba-injective_example : (track ≡ track) × (sector ≡ sector)
sector_lba-injective_example =
    sector_lba-injective zones_d41 track sector track sector track_18 track_18 refl

sector_lba-next_track_example : sector_lba d41 18 0 ≡ sector_lba d41 17 0 + sectors_per_track d41 17
sector_lba-next_track_example = sector_lba-next_track zones_d41 17 (omega arith) (omega arith)

sector_lba-d80_collision_example : sector_lba d80 70 (4 + 1) ≡ sector_lba d80 (70 + 1) 4
sector_lba-d80_collision_example =
    sector_lba-d80_collision 70 4 (omega arith) (omega arith) (omega arith)

abbrev d81_image : Image
d81_image = record { imagetype = 4; param = d81param }

mount_image-d81 : mount_image false 819200 ≡ some d81_image
unfolding mount_image case_of sizes
mount_image-d81 = refl

d81_image-IsFlat : (image_kind 4 ≢ d80) × (image_kind 4 ≢ d82)
unfolding image_kind
d81_image-IsFlat = (ground arith, ground arith)

mount_image-IsInFile_example : IsInFile 819200 d81_image
mount_image-IsInFile_example =
    mount_image-IsInFile false 819200 d81_image (omega arith) mount_image-d81 d81_image-IsFlat

-- A disk whose only free sector is sector 2 of track 17; the state is the error.
abbrev one_free : BamOps ℕ
one_free = record {
  sectors_free = λ s track. (s, if track == 17 then 1 else 0);
  is_free = λ s track sector. (s, if (track == 17) && (sector == 2) then free else used);
  current_error = λ s. s;
  set_error = λ s e. e;
}

get_first_sector-one_free : get_first_sector one_free d41 d41param 4 false 0 ≡ found 0 17 2
unfolding get_first_sector find_track first_on_track on_track is_success distance_lt next_distance
    track_at sectors_per_track
get_first_sector-one_free = refl

rounds_lt : rounds one_free d41 d41param 1 < 300
unfolding rounds
rounds_lt = omega arith
