-- ===== src/D64/Search/Full.antt =====
-- `get_first_sector` of src/d64ops.c over a block map without a free sector: its search for a track.
use nodiskemu.Prelude.{
  ℕ, zero, suc, ◌≤◌, Bool, true, false, none, ◌≡◌, refl, sym, ap, ◌∙◌, inl, inr, arith, Bool-cases,
  ◌==◌, ltb, ◌||◌, how_many, how_many_cong,
}
use mathlib.Core.Path.{subst}
use nodiskemu.D64.{Kind, Param, sectors_per_track}
use nodiskemu.D64.Search.{
  BamOps, hangs, distance_lt, next_distance, track_at, find_track, on_track, get_first_sector,
}
use nodiskemu.D64.Search.Complete.{IsFreeMap}
use nodiskemu.D64.Bam.Places.{IsTrack}

module _ {S : Type 0} (ops : BamOps S) (kind : Kind) (p : Param) (Valid : S → Type 0)
    (map : S → (t r : ℕ) → Bool) (law : IsFreeMap ops kind p.last_track Valid map) where
  -- No track of the image has a free sector in this state.
  abbrev pub IsFull : S → Type 0
  IsFull s = (t : ℕ) → IsTrack p.last_track t → how_many (map s t) (sectors_per_track kind t) ≡ 0

  distance_lt-long : (d last : ℕ) → 128 ≤ last → distance_lt d last ≡ true
  unfolding distance_lt
  distance_lt-long d last long = ground arith

  -- A count leaves the map, and finds nothing.
  record IsNone (s : S) (t : ℕ) : Type 0 where
    valid : Valid (ops.sectors_free s t).0
    full : IsFull (ops.sectors_free s t).0
    nothing : (ops.sectors_free s t).1 ≡ 0

  sectors_free-IsNone : (s : S) (t : ℕ) → Valid s → IsFull s → IsNone s t
  sectors_free-IsNone s t v full = elim (Bool-cases (t == 0 || ltb p.last_track t)) [
    | inl out ↦
        let same : ops.sectors_free s t ≡ (s, 0) = law.outside s t v (ground (arith, out)) in
        record {
          valid = subst (λ (q : S × ℕ). Valid q.0) (sym same) v;
          full = subst (λ (q : S × ℕ). IsFull q.0) (sym same) full;
          nothing = ap (λ (q : S × ℕ). q.1) same;
        }
    | inr e ↦
        let h : IsTrack p.last_track t = record {
          first = ground (arith, e);
          last_ok = ground (arith, e);
        } in
        let (v1, keep, n) = law.counts s t v h in
        let same = λ (u : ℕ).
          how_many_cong (map s u) (map (ops.sectors_free s t).0 u) (sectors_per_track kind u)
            (λ i lt. keep u i) in
        record { valid = v1; full = λ u h1. same u ∙ full u h1; nothing = n ∙ full t h }
  ]

  find_track-full :
      (fuel : ℕ) (s : S) (d : ℕ)
      → 128 ≤ p.last_track
      → Valid s
      → IsFull s
      → find_track ops kind p fuel s d ≡ none
  unfolding find_track
  find_track-full zero s d long v full = refl
  find_track-full (suc fuel) s d long v full =
      let one = sectors_free-IsNone s (track_at p d) v full in
      let s1 = (ops.sectors_free s (track_at p d)).0 in
      rw
        (
          distance_lt-long d p.last_track long,
          one.nothing,
          find_track-full fuel s1 (next_distance d) long one.valid one.full,
        )
        refl

  pub get_first_sector-hangs :
      (fuel : ℕ) (s : S)
      → 128 ≤ p.last_track
      → Valid s
      → IsFull s
      → get_first_sector ops kind p fuel false s ≡ hangs
  unfolding get_first_sector on_track
  get_first_sector-hangs fuel s long v full = rw (find_track-full fuel s 1 long v full) refl
