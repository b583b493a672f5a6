-- ===== src/D64/Search/Complete.antt =====
-- `get_first_sector` of src/d64ops.c over a block map with a set of free sectors: the interface of
-- that map, and the search on a track.
pub mod Tracks
use nodiskemu.Prelude.{
  ℕ, zero, suc, ◌+◌, ◌-◌, ◌%◌, ◌≤◌, ◌<◌, Bool, true, false, Option, some, ◌≡◌, ◌≢◌, refl, sym, ap,
  ◌∙◌, ltb, ◌==◌, if◌then◌else◌, ◌&&◌, arith, ◌⊎◌, inl, inr, Bool-cases, not, how_many,
  how_many_zero, how_many_some, how_many_cong,
}
use mathlib.Core.Path.{subst}
use nodiskemu.D64.{Kind, d41, d71, d81, dnp, d80, d82, other, Param, sectors_per_track}
use nodiskemu.D64.Search.{
  BamOps, free, used, Outcome, found, distance_lt, next_distance, track_at, find_track, on_track,
  first_on_track, get_first_sector, is_success,
}
use nodiskemu.D64.Bam.Places.{IsTrack}
use nodiskemu.D64.Search.First.{IsDistance, rounds, distance_lt-IsDistance}

sectors_bound : (kind : Kind) (t : ℕ) → sectors_per_track kind t ≤ 256
unfolding sectors_per_track
sectors_bound d41 t = ground arith
sectors_bound d71 t = ground arith
sectors_bound d81 t = ground arith
sectors_bound dnp t = ground arith
sectors_bound d80 t = ground arith
sectors_bound d82 t = ground arith
sectors_bound other t = ground arith

-- What the strategies rely on: a set of free sectors that the calls report and leave as it is, and
-- an invariant of the state.
pub record IsFreeMap {S : Type 0} (ops : BamOps S) (kind : Kind) (last : ℕ) (Valid : S → Type 0)
    (map : S → (t r : ℕ) → Bool) : Type 0 where
  pub counts :
      (s : S) (t : ℕ)
      → Valid s
      → IsTrack last t
      → Valid (ops.sectors_free s t).0
        × ((u r : ℕ) → map (ops.sectors_free s t).0 u r ≡ map s u r)
        × ((ops.sectors_free s t).1 ≡ how_many (map s t) (sectors_per_track kind t))
  pub outside : (s : S) (t : ℕ) → Valid s → (t ≡ 0) ⊎ (last < t) → ops.sectors_free s t ≡ (s, 0)
  pub tests :
      (s : S) (t r : ℕ)
      → Valid s
      → IsTrack last t
      → r < sectors_per_track kind t
      → Valid (ops.is_free s t r).0
        × ((u q : ℕ) → map (ops.is_free s t r).0 u q ≡ map s u q)
        × ((ops.is_free s t r).1 ≡ (if map s t r then free else used))

module _ {S : Type 0} (ops : BamOps S) (kind : Kind) (p : Param) (Valid : S → Type 0)
    (map : S → (t r : ℕ) → Bool) (law : IsFreeMap ops kind p.last_track Valid map) where
  -- A free sector has been found, and no sector has changed.
  pub record IsFound (s : S) (o : Outcome S) : Type 0 where
    pub state : S
    pub track : ℕ
    pub sector : ℕ
    pub result : o ≡ found state track sector
    pub valid : Valid state
    pub on_disk : IsTrack p.last_track track
    pub in_track : sector < sectors_per_track kind track
    pub is_free : map s track sector ≡ true
    pub kept : (u r : ℕ) → map state u r ≡ map s u r

  -- From the state behind a call that keeps the map.
  IsFound-from :
      (s s1 : S) (o : Outcome S) → ((u r : ℕ) → map s1 u r ≡ map s u r) → IsFound s1 o → IsFound s o
  IsFound-from s s1 o keep h = record {
    state = h.state;
    track = h.track;
    sector = h.sector;
    result = h.result;
    valid = h.valid;
    on_disk = h.on_disk;
    in_track = h.in_track;
    is_free = sym (keep h.track h.sector) ∙ h.is_free;
    kept = λ u r. h.kept u r ∙ keep u r;
  }

  first_on_track-IsFound :
      (fuel : ℕ) (s : S) (t r q : ℕ)
      → Valid s
      → IsTrack p.last_track t
      → r ≤ q
      → q < sectors_per_track kind t
      → q < fuel + r
      → map s t q ≡ true
      → IsFound s (first_on_track ops kind p fuel s t r)
  unfolding first_on_track is_success
  first_on_track-IsFound zero s t r q v h le lt enough set = absurd (omega arith)
  first_on_track-IsFound (suc fuel) s t r q v h le lt enough set =
      let (v1, keep, state) = law.tests s t r v h (omega arith) in
      let s1 = (ops.is_free s t r).0 in
      let below : ltb r (sectors_per_track kind t) ≡ true = ground arith in
      elim (Bool-cases (map s t r)) [
        | inl e ↦
            rw (below, state, e)
              (record {
                state = s1;
                track = t;
                sector = r;
                result = refl;
                valid = v1;
                on_disk = h;
                in_track = omega arith;
                is_free = e;
                kept = keep;
              })
        | inr e ↦
            let bound = sectors_bound kind t in
            let other : r ≢ q = λ same. ground (arith, e, set, ap (map s t) same) in
            let next : (r + 1) % 256 ≡ r + 1 = omega arith in
            rw (below, state, e, next)
              (IsFound-from s s1 _ keep (
                first_on_track-IsFound fuel s1 t (r + 1) q v1 h (omega arith) lt (omega arith)
                  (keep t q ∙ set)))
      ]
