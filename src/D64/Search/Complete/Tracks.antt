-- ===== src/D64/Search/Complete/Tracks.antt =====
-- The search of `get_first_sector` in src/d64ops.c for a track, and the sector that it then finds.
use nodiskemu.Prelude.{
  ℕ, zero, suc, ◌+◌, ◌-◌, ◌≤◌, ◌<◌, Bool, true, false, Option, some, ◌≡◌, ◌≢◌, refl, sym, ap, ◌∙◌,
  ltb, ◌==◌, if◌then◌else◌, ◌&&◌, arith, ◌⊎◌, inl, inr, Bool-cases, not, how_many, how_many_zero,
  how_many_some, how_many_cong,
}
use mathlib.Core.Path.{subst}
use nodiskemu.D64.{Kind, Param, sectors_per_track}
use nodiskemu.D64.Search.{
  BamOps, distance_lt, next_distance, track_at, find_track, on_track, get_first_sector,
}
use nodiskemu.D64.Bam.Places.{IsTrack}
use nodiskemu.D64.Search.First.{IsDistance, rounds, distance_lt-IsDistance}
use nodiskemu.D64.Search.Complete.{
  IsFound, IsFound-from, first_on_track-IsFound, sectors_bound, IsFreeMap,
}

module _ {S : Type 0} (ops : BamOps S) (kind : Kind) (p : Param) (Valid : S → Type 0)
    (map : S → (t r : ℕ) → Bool) (law : IsFreeMap ops kind p.last_track Valid map) where
  -- A call of `sectors_free`, whatever the track.
  counts_any :
      (s : S) (t : ℕ)
      → Valid s
      → Valid (ops.sectors_free s t).0
        × ((u r : ℕ) → map (ops.sectors_free s t).0 u r ≡ map s u r)
        × ((ops.sectors_free s t).1 ≢ 0
            → IsTrack p.last_track t × (how_many (map s t) (sectors_per_track kind t) ≢ 0))
  counts_any s t v = elim (Bool-cases (ltb 0 t && not (ltb p.last_track t))) [
    | inl inside ↦
        let h : IsTrack p.last_track t = record {
          first = ground (arith, inside);
          last_ok = ground (arith, inside);
        } in
        let (v1, keep, same) = law.counts s t v h in
        (v1, keep, λ ne. (h, λ empty. ne (same ∙ empty)))
    | inr out ↦
        let same = law.outside s t v (ground (arith, out)) in
        rw same (v, λ u r. refl, λ ne. absurd (ne refl))
  ]

  -- A track with free sectors has been found.
  record IsTrackFound (s : S) (o : Option (S × ℕ)) : Type 0 where
    state : S
    distance : ℕ
    result : o ≡ some (state, distance)
    valid : Valid state
    in_range : distance_lt distance p.last_track ≡ true
    on_disk : IsTrack p.last_track (track_at p distance)
    has_free :
        how_many (map s (track_at p distance)) (sectors_per_track kind (track_at p distance)) ≢ 0
    kept : (u r : ℕ) → map state u r ≡ map s u r

  IsTrackFound-from :
      (s s1 : S) (o : Option (S × ℕ))
      → ((u r : ℕ) → map s1 u r ≡ map s u r)
      → IsTrackFound s1 o
      → IsTrackFound s o
  IsTrackFound-from s s1 o keep h = record {
    state = h.state;
    distance = h.distance;
    result = h.result;
    valid = h.valid;
    in_range = h.in_range;
    on_disk = h.on_disk;
    has_free =
        λ empty. h.has_free (how_many_cong _ _ _ (λ i lt. keep (track_at p h.distance) i) ∙ empty);
    kept = λ u r. h.kept u r ∙ keep u r;
  }

  -- A distance that lies ahead of the search is in range.
  ahead :
      (d e : ℕ)
      → IsDistance ops kind p d
      → IsDistance ops kind p e
      → distance_lt e p.last_track ≡ true
      → p.last_track ≤ 127
      → rounds ops kind p e ≤ rounds ops kind p d
      → (distance_lt d p.last_track ≡ true)
        × ((d ≡ e) ⊎ (rounds ops kind p e ≤ rounds ops kind p (next_distance d)))
  unfolding distance_lt next_distance rounds
  ahead d e hd he lt short le = ground arith

  find_track-IsTrackFound :
      (fuel : ℕ) (s : S) (d e : ℕ)
      → Valid s
      → p.last_track ≤ 127
      → IsDistance ops kind p d
      → IsDistance ops kind p e
      → distance_lt e p.last_track ≡ true
      → rounds ops kind p e ≤ rounds ops kind p d
      → rounds ops kind p d < fuel
      → IsTrack p.last_track (track_at p e)
      → how_many (map s (track_at p e)) (sectors_per_track kind (track_at p e)) ≢ 0
      → IsTrackFound s (find_track ops kind p fuel s d)
  unfolding find_track
  find_track-IsTrackFound zero s d e v short hd he lt le enough h ne = absurd (omega arith)
  find_track-IsTrackFound (suc fuel) s d e v short hd he lt le enough h ne =
      let (in_range, go) = ahead d e hd he lt short le in
      let (v1, keep, reported) = counts_any s (track_at p d) v in
      let s1 = (ops.sectors_free s (track_at p d)).0 in
      elim (Bool-cases ((ops.sectors_free s (track_at p d)).1 == 0)) [
        | inr some_free ↦
            let (on_disk, has_free) = reported (ground (arith, some_free)) in
            rw (in_range, some_free)
              (record {
                state = s1;
                distance = d;
                result = refl;
                valid = v1;
                in_range = in_range;
                on_disk = on_disk;
                has_free = has_free;
                kept = keep;
              })
        | inl empty ↦ elim go [
          | inl same ↦
              let zero_there : (ops.sectors_free s (track_at p d)).1 ≡ 0 = ground (arith, empty) in
              let (v2, keep2, counted) = law.counts s (track_at p e) v h in
              absurd (
                ne (
                  sym counted
                  ∙ sym (ap (λ x. (ops.sectors_free s (track_at p x)).1) same)
                  ∙ zero_there))
          | inr more ↦
              let (next, fewer) = distance_lt-IsDistance ops kind p d short hd in_range in
              rw (in_range, empty)
                (IsTrackFound-from s s1 _ keep (
                  find_track-IsTrackFound fuel s1 (next_distance d) e v1 short next he lt more
                    (omega arith) h
                    (λ zero_free.
                      ne (
                        sym (how_many_cong _ _ _ (λ i below. keep (track_at p e) i)) ∙ zero_free))))
        ]
      ]

  -- The distance at which the search reaches a track.
  distance_of : ℕ → ℕ
  distance_of t = if ltb t p.dir_track then p.dir_track - t else 256 + p.dir_track - t

  distance_of_lem :
      (t : ℕ)
      → p.last_track ≤ 127
      → 1 ≤ p.dir_track
      → p.dir_track ≤ p.last_track
      → IsTrack p.last_track t
      → t ≢ p.dir_track
      → IsDistance ops kind p (distance_of t)
        × (distance_lt (distance_of t) p.last_track ≡ true)
        × (track_at p (distance_of t) ≡ t)
        × (rounds ops kind p (distance_of t) ≤ rounds ops kind p 1)
  unfolding distance_of distance_lt track_at rounds
  distance_of_lem t short first dir h ne = ground arith

  on_track-IsFound :
      (fuel : ℕ) (s : S) (o : Option (S × ℕ))
      → 256 ≤ fuel
      → IsTrackFound s o
      → IsFound ops kind p Valid map law s (on_track ops kind p fuel o)
  unfolding on_track
  on_track-IsFound fuel s o enough h =
      let t = track_at p h.distance in
      let stays : (ltb h.distance 128 && (h.distance == p.last_track)) ≡ false =
        unfold distance_lt in ground (arith, h.in_range) in
      let (r, below, set) = how_many_some _ _ h.has_free in
      let bound = sectors_bound kind t in
      rw (h.result, stays)
        (IsFound-from ops kind p Valid map law s h.state _ h.kept (
          first_on_track-IsFound ops kind p Valid map law fuel h.state t 0 r h.valid h.on_disk
            (omega arith) below (omega arith) (h.kept t r ∙ set)))

  -- With at most 127 tracks, where a track but the directory's has a free sector, a free sector is
  -- found. Fuel for 256 rounds is enough.
  pub get_first_sector-IsFound :
      (fuel : ℕ) (s : S) (t r : ℕ)
      → 256 ≤ fuel
      → p.last_track ≤ 127
      → 1 ≤ p.dir_track
      → p.dir_track ≤ p.last_track
      → Valid s
      → IsTrack p.last_track t
      → t ≢ p.dir_track
      → r < sectors_per_track kind t
      → map s t r ≡ true
      → IsFound ops kind p Valid map law s (get_first_sector ops kind p fuel false s)
  unfolding get_first_sector
  get_first_sector-IsFound fuel s t r enough short first dir v h ne lt set =
      let (hd, in_range, there, ahead) = distance_of_lem t short first dir h ne in
      let h' : IsTrack p.last_track (track_at p (distance_of t)) =
        subst (IsTrack p.last_track) (sym there) h in
      on_track-IsFound fuel s _ enough (
        find_track-IsTrackFound fuel s 1 (distance_of t) v short (inl (omega arith, ground arith))
          hd in_range ahead (unfold rounds in omega arith) h'
          (λ empty.
            let used_up =
              how_many_zero (map s t) (sectors_per_track kind t) r
                (subst (λ x. how_many (map s x) (sectors_per_track kind x) ≡ 0) there empty) lt in
            ground (arith, used_up, set)))
