-- ===== src/D64/Search/First.antt =====
-- `get_first_sector` of src/d64ops.c: what it finds, and when its search for a track ends.
use nodiskemu.Prelude.{
  ℕ, zero, suc, ◌+◌, ◌-◌, ◌*◌, ◌%◌, ◌≤◌, ◌<◌, Bool, true, false, Option, none, some, ◌≡◌, ◌≢◌, refl,
  sym, ltb, ◌==◌, if◌then◌else◌, ◌&&◌, arith, ◌⊎◌, inl, inr, Bool-cases, not, ltb→lt,
}
use nodiskemu.D64.{Kind, Param, sectors_per_track}
use nodiskemu.D64.Search.{
  BamOps, FreeState, free, used, failed, Outcome, found, distance_lt, next_distance, track_at,
  find_track, on_track, first_on_track, get_first_sector, is_success, disk_full,
}

module _ {S : Type 0} (ops : BamOps S) (kind : Kind) (p : Param) where
  -- How many rounds the search has left on an image of at most 127 tracks.
  unfoldable pub rounds : ℕ → ℕ
  rounds d = if ltb d 128 then 2 * (128 - d) else 2 * (d - 128) - 1

  -- The distances that the search reaches.
  abbrev pub IsDistance : ℕ → Type 0
  IsDistance d = (1 ≤ d) × (d ≤ p.last_track) ⊎ (256 < d + p.last_track) × (d ≤ 255)

  pub distance_lt-IsDistance :
      (d : ℕ)
      → p.last_track ≤ 127
      → IsDistance d
      → distance_lt d p.last_track ≡ true
      → IsDistance (next_distance d) × (rounds (next_distance d) < rounds d)
  unfolding distance_lt next_distance rounds
  distance_lt-IsDistance d short is_distance lt = ground arith

  some_or :
      {A : Type 0}
      → (in_range empty : Bool) → (x y : A) → (more : Option A) → (in_range ≡ true → more ≢ none)
      → (if not in_range then some x else if empty then more else some y) ≢ none
  some_or false empty x y more more-some = ground arith
  some_or true false x y more more-some = ground arith
  some_or true true x y more more-some = more-some refl

  -- With at most 127 tracks, from a distance that the search reaches, and with more fuel than the
  -- rounds left, the search ends.
  pub find_track-total :
      (fuel : ℕ)
      → p.last_track ≤ 127
      → (s : S) → (d : ℕ) → IsDistance d
      → rounds d < fuel
      → find_track ops kind p fuel s d ≢ none
  unfolding find_track
  find_track-total zero short s d is_distance enough = omega arith
  find_track-total (suc fuel) short s d is_distance enough =
      let s1 = (ops.sectors_free s (track_at p d)).0 in
      some_or (distance_lt d p.last_track) ((ops.sectors_free s (track_at p d)).1 == 0) (s, d)
        (s1, d) (find_track ops kind p fuel s1 (next_distance d))
        (λ lt.
          let (next, fewer) = distance_lt-IsDistance d short is_distance lt in
          find_track-total fuel short s1 (next_distance d) next (omega arith))

  disk_full-found : (s : S) → {s1 : S} → {t r : ℕ} → disk_full ops s ≢ found s1 t r
  unfolding disk_full
  disk_full-found s = ground arith

  -- The sector is one of its track, and `is_free` has just reported it as free.
  abbrev pub IsReported : S → (track sector : ℕ) → Type 0
  IsReported s track sector =
      (sector < sectors_per_track kind track) × (s0 : S) × (ops.is_free s0 track sector ≡ (s, free))

  on_state :
      (q : S × FreeState)
      → {more : Outcome S} → {s s1 : S} → {track sector t r : ℕ} → ops.is_free s track sector ≡ q
      → sector < sectors_per_track kind track
      → (more ≡ found s1 t r → (t ≡ track) × IsReported s1 t r)
      → (if is_success q.1 then found q.0 track sector else more) ≡ found s1 t r
      → (t ≡ track) × IsReported s1 t r
  unfolding is_success
  on_state (s2, free) {s = s} {s1 = s1} {track = track} {sector = sector} {t = t} {r = r} state
        below rest eq =
      let same_state : s2 ≡ s1 = cc in
      let same_track : track ≡ t = cc in
      let same_sector : sector ≡ r = cc in (sym same_track, (ground arith, s, cc))
  on_state (s2, used) state below rest eq = rest eq
  on_state (s2, failed) state below rest eq = rest eq

  first_on_track-found :
      (fuel : ℕ)
      → (s : S) → (track sector : ℕ) → {s1 : S} → {t r : ℕ}
      → first_on_track ops kind p fuel s track sector ≡ found s1 t r
      → (t ≡ track) × IsReported s1 t r
  unfolding first_on_track
  first_on_track-found zero s track sector eq = ground arith
  first_on_track-found (suc fuel) s track sector {s1 = s1} {t = t} {r = r} eq =
      let s2 = (ops.is_free s track sector).0 in
      let more = first_on_track ops kind p fuel s2 track ((sector + 1) % 256) in
      elim (Bool-cases (ltb sector (sectors_per_track kind track))) [
        | inl below ↦
            on_state (ops.is_free s track sector) refl
              (ltb→lt sector (sectors_per_track kind track) below)
              (first_on_track-found fuel s2 track ((sector + 1) % 256)) (ground arith)
        | inr above ↦ absurd (disk_full-found s {s1 = s1} {t = t} {r = r} (ground arith))
      ]

  on_track-found :
      (fuel : ℕ)
      → (o : Option (S × ℕ)) → {s1 : S} → {t r : ℕ} → on_track ops kind p fuel o ≡ found s1 t r
      → IsReported s1 t r
  unfolding on_track
  on_track-found fuel none eq = absurd (ground arith)
  on_track-found fuel (some (s, d)) {s1 = s1} {t = t} {r = r} eq =
      elim (Bool-cases (ltb d 128 && (d == p.last_track))) [
        | inl same ↦ absurd (disk_full-found s {s1 = s1} {t = t} {r = r} (ground arith))
        | inr other ↦ (first_on_track-found fuel s (track_at p d) 0 (ground arith)).1
      ]

  -- Whatever sector `get_first_sector` returns on an image that is no DNP is one of its track, and
  -- `is_free` has reported it as free.
  pub get_first_sector-IsReported :
      (fuel : ℕ)
      → (s : S) → {s1 : S} → {t r : ℕ} → get_first_sector ops kind p fuel false s ≡ found s1 t r
      → IsReported s1 t r
  unfolding get_first_sector
  get_first_sector-IsReported fuel s {s1 = s1} {t = t} {r = r} eq =
      on_track-found fuel (find_track ops kind p fuel s 1) eq
