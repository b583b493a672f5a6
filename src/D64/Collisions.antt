-- ===== src/D64/Collisions.antt =====
-- The last zone of the 8050 and 8250 images.
use nodiskemu.Prelude.{ℕ, ◌+◌, ◌<◌, ◌≤◌, ◌≡◌, arith}
use nodiskemu.D64.{d80, d82, sector_lba}

-- On a D80 image the tracks from 65 on lie over one another: the sector s + 1 of a track has the
-- place in the file of the sector s of the next track.
pub sector_lba-d80_collision :
    (track sector : ℕ)
    → 65 ≤ track
    → track < 77
    → sector + 1 < 23
    → sector_lba d80 track (sector + 1) ≡ sector_lba d80 (track + 1) sector
unfolding sector_lba
sector_lba-d80_collision t s lo hi h = ground arith

-- On a D82 image track 78, the first one of the second side, lies inside the first side: each of its
-- sectors s below 10 has the place of the sector s + 13 of track 65.
pub sector_lba-d82_track_78 :
    (sector : ℕ) → sector < 10 → sector_lba d82 78 sector ≡ sector_lba d82 65 (sector + 13)
unfolding sector_lba
sector_lba-d82_track_78 s h = ground arith
