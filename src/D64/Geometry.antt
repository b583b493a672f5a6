-- ===== src/D64/Geometry.antt =====
-- Tracks and sectors in the order of the image file, for the kinds that lay them out in zones of
-- the right size: D64, D71, D81 and DNP.
use native.Mathlib.Decide.{dec_lt}
use nodiskemu.Prelude.{
  ap, ℕ, zero, suc, ◌+◌, ◌-◌, ◌*◌, ◌<◌, ◌≤◌, ◌≡◌, refl, Bool, true, ◌||◌, arith, ◌==◌, all_below,
  all_below_sound,
}
use nodiskemu.D64.{Kind, d41, d71, d81, dnp, sector_lba, sector_offset, sectors_per_track}

-- The kinds that the theorems are about, with the highest track.
pub data HasZones : Kind → ℕ → Type 0 where
  zones_d41 : HasZones d41 35
  zones_d71 : HasZones d71 70
  zones_d81 : HasZones d81 80
  zones_dnp : (last : ℕ) → last < 256 → HasZones dnp last

pub record IsSector (kind : Kind) (last track sector : ℕ) : Type 0 where
  pub first : 1 ≤ track
  pub last_ok : track ≤ last
  pub in_track : sector < sectors_per_track kind track

-- The number of a sector is that of its track's first sector and its place in the track.
sector_lba-split :
    {kind : Kind} {last : ℕ} (z : HasZones kind last) (track sector : ℕ)
    → IsSector kind last track sector
    → sector_lba kind track sector ≡ sector_lba kind track 0 + sector
unfolding sector_lba sectors_per_track
sector_lba-split zones_d41 t s h = ground arith
sector_lba-split zones_d71 t s h = ground arith
sector_lba-split zones_d81 t s h = ground arith
sector_lba-split (zones_dnp last small) t s h = ground arith

next_track_test : Kind → ℕ → Bool
next_track_test kind t =
    t == 0 || sector_lba kind (t + 1) 0 == sector_lba kind t 0 + sectors_per_track kind t

d71_table : all_below 70 (next_track_test d71) ≡ true
unfolding all_below next_track_test sector_lba sectors_per_track
d71_table = refl

d71-next_track :
    (t : ℕ)
    → 1 ≤ t
    → t < 70
    → sector_lba d71 (t + 1) 0 ≡ sector_lba d71 t 0 + sectors_per_track d71 t
d71-next_track t lo hi =
    let h = all_below_sound 70 (next_track_test d71) t d71_table hi in
    unfold next_track_test in ground (arith, h)

-- A track begins where the one before it ends.
pub sector_lba-next_track :
    {kind : Kind} {last : ℕ} (z : HasZones kind last) (track : ℕ)
    → 1 ≤ track
    → track < last
    → sector_lba kind (track + 1) 0 ≡ sector_lba kind track 0 + sectors_per_track kind track
sector_lba-next_track zones_d41 t lo hi = unfold sector_lba sectors_per_track in ground arith
sector_lba-next_track zones_d71 t lo hi = d71-next_track t lo hi
sector_lba-next_track zones_d81 t lo hi = unfold sector_lba sectors_per_track in ground arith
sector_lba-next_track (zones_dnp last small) t lo hi =
    unfold sector_lba sectors_per_track in ground arith

-- All tracks behind a track begin behind its end.
sector_lba-later_track :
    {kind : Kind} {last : ℕ} (z : HasZones kind last) (t k : ℕ)
    → 1 ≤ t
    → t + suc k ≤ last
    → sector_lba kind t 0 + sectors_per_track kind t ≤ sector_lba kind (t + suc k) 0
sector_lba-later_track {kind} z t zero lo hi =
    let e : t + 1 ≡ t + suc 0 = omega arith in
    rw (← e) (omega (arith, sector_lba-next_track z t lo (omega arith)))
sector_lba-later_track {kind} z t (suc k) lo hi =
    let e : t + suc k + 1 ≡ t + suc (suc k) = omega arith in
    rw (← e) (
      omega (
        arith,
        sector_lba-later_track z t k lo (omega arith),
        sector_lba-next_track z (t + suc k) (omega arith) (omega arith),
      ))

-- The order of the file is that of tracks, and of sectors in a track.
sector_lba-lt :
    {kind : Kind} {last : ℕ} (z : HasZones kind last) (t s t' s' : ℕ)
    → IsSector kind last t s
    → IsSector kind last t' s'
    → t < t'
    → sector_lba kind t s < sector_lba kind t' s'
sector_lba-lt {kind} {last} z t s t' s' h h' lt =
    let e : t + suc (t' - t - 1) ≡ t' = omega arith in
    let behind = sector_lba-later_track z t (t' - t - 1) h.first (omega arith) in
    let ends : sector_lba kind t 0 + sectors_per_track kind t ≤ sector_lba kind t' 0 =
      rw e at behind in
    omega (arith, sector_lba-split z t s h, sector_lba-split z t' s' h')

-- On D64, D71, D81 and DNP images two sectors of the disk that have the same place in the file are
-- the same sector.
pub sector_lba-injective :
    {kind : Kind} {last : ℕ} (z : HasZones kind last) (t s t' s' : ℕ)
    → IsSector kind last t s
    → IsSector kind last t' s'
    → sector_lba kind t s ≡ sector_lba kind t' s'
    → (t ≡ t') × (s ≡ s')
sector_lba-injective {kind} z t s t' s' h h' e = elim (dec_lt t t') [
  | yes p ↦ absurd (omega (arith, sector_lba-lt z t s t' s' h h' p))
  | no p ↦ elim (dec_lt t' t) [
    | yes q ↦ absurd (omega (arith, sector_lba-lt z t' s' t s h' h q))
    | no q ↦
        let same : t ≡ t' = omega arith in
        let first : sector_lba kind t 0 ≡ sector_lba kind t' 0 =
          ap (λ (x : ℕ). sector_lba kind x 0) same in
        (same, omega (arith, sector_lba-split z t s h, sector_lba-split z t' s' h'))
  ]
]

-- The number of sectors of an image, and the size of its file.
abbrev pub sector_count : Kind → ℕ → ℕ
sector_count d41 last = 683
sector_count d71 last = 1366
sector_count d81 last = 3200
sector_count _ last = 256 * last

last_track_end :
    {kind : Kind} {last : ℕ} (z : HasZones kind last)
    → 1 ≤ last
    → sector_lba kind last 0 + sectors_per_track kind last ≡ sector_count kind last
last_track_end zones_d41 h = unfold sector_lba sectors_per_track in refl
last_track_end zones_d71 h = unfold sector_lba sectors_per_track in refl
last_track_end zones_d81 h = unfold sector_lba sectors_per_track in refl
last_track_end (zones_dnp last small) h = unfold sector_lba sectors_per_track in ground arith

-- Every sector lies inside the image file, whole.
pub sector_offset-bound :
    {kind : Kind} {last : ℕ} (z : HasZones kind last) (track sector : ℕ)
    → IsSector kind last track sector
    → sector_offset kind track sector + 256 ≤ 256 * sector_count kind last
unfolding sector_offset
sector_offset-bound {kind} {last} z t s h = elim (dec_lt t last) [
  | yes p ↦
      let e : t + suc (last - t - 1) ≡ last = omega arith in
      let behind = sector_lba-later_track z t (last - t - 1) h.first (omega arith) in
      let ends : sector_lba kind t 0 + sectors_per_track kind t ≤ sector_lba kind last 0 =
        rw e at behind in
      omega (arith, sector_lba-split z t s h, last_track_end z (omega arith))
  | no p ↦
      let same : t ≡ last = omega arith in
      let first : sector_lba kind t 0 ≡ sector_lba kind last 0 =
        ap (λ (x : ℕ). sector_lba kind x 0) same in
      let size : sectors_per_track kind t ≡ sectors_per_track kind last =
        ap (λ (x : ℕ). sectors_per_track kind x) same in
      omega (arith, sector_lba-split z t s h, last_track_end z (omega arith))
]
