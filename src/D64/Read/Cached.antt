-- ===== src/D64/Read/Cached.antt =====
-- `checked_read` of src/d64ops.c against a reference that has no cache of error information.
use nodiskemu.Prelude.{
  ℕ, ◌+◌, ◌-◌, ◌<◌, true, Option, none, some, List, [], ◌&&◌, not, leb, ◌==◌, if◌then◌else◌, get_or,
  replicate, ◌≡◌, ◌≢◌, refl, sym, ap, ◌∙◌, inl, inr, arith, Bool-cases,
}
use mathlib.Core.Path.{subst}
use nodiskemu.D64.{sector_lba, sector_offset, sectors_per_track}
use nodiskemu.D64.Bam.{Partition, kind_of}
use nodiskemu.D64.Read.{
  Drive, Reader, error_offset, has_error_info, overlay, in_image, load_errors, fetch_errors,
  read_sector, judge, checked_read,
}

-- What the reads promise: `data` is what an image file has at an offset.
pub record IsDrive {D : Type 0} (m : Drive D) (data_at : D → (part offset len : ℕ) → List ℕ)
    : Type 0 where
  pub read_ok :
      (d : D) (p o n : ℕ)
      → (m.image_read d p o n).1 < 2
      → (m.image_read d p o n).2 ≡ data_at d p o n
  pub read_keeps :
      (d : D) (p o n q k l : ℕ) → data_at (m.image_read d p o n).0 q k l ≡ data_at d q k l
  pub error_keeps :
      (d : D) (c t s q k l : ℕ) → data_at (m.set_error_ts d c t s) q k l ≡ data_at d q k l
  pub ready_keeps : (d : D) (c q k l : ℕ) → data_at (m.set_error d c) q k l ≡ data_at d q k l

-- What is to be done with a sector.
pub data Verdict : Type 0 where
  refused : (code : ℕ) → Verdict
  not_ready : Verdict
  readable : Verdict

module _ {D : Type 0} (m : Drive D) (data_at : D → (part offset len : ℕ) → List ℕ)
    (law : IsDrive m data_at) (partitions : ℕ → Partition) where
  -- The error bytes of a track in the file.
  pub errors_in : D → (part track : ℕ) → Option ℕ → List ℕ
  errors_in d part track none = replicate 40 1
  errors_in d part track (some base) =
      let kind = kind_of (partitions part) in
      overlay (data_at d part (base + sector_lba kind track 0) (sectors_per_track kind track))

  pub errors_of : D → (part track : ℕ) → List ℕ
  errors_of d part track = errors_in d part track (error_offset (kind_of (partitions part)))

  pub verdict_of : ℕ → Verdict
  verdict_of code =
      if leb 2 code && leb code 11
      then refused (code + 18)
      else if code == 15
      then not_ready
      else readable

  -- The reference: no cache.
  pub verdict : D → (part track sector error : ℕ) → Verdict
  verdict d part track sector error =
      if not (in_image m partitions part track sector)
      then refused error
      else if has_error_info (partitions part)
      then verdict_of (get_or (errors_of d part track) sector 0)
      else readable

  pub obey : (part track sector len : ℕ) → Verdict → D → D × ℕ × List ℕ
  obey part track sector len (refused code) d = (m.set_error_ts d code track sector, 2, [])
  obey part track sector len not_ready d = (m.set_error d 74, 2, [])
  obey part track sector len readable d =
      m.image_read d part (sector_offset (kind_of (partitions part)) track sector) len

  abbrev pub SameData : D → D → Type 0
  SameData d d1 = (p o n : ℕ) → data_at d1 p o n ≡ data_at d p o n

  -- The cache holds the error bytes of its track.
  pub record IsErrorCache (s : Reader D) : Type 0 where
    pub right :
        s.cache.track ≢ 0
        → s.cache.part < 255
        → s.cache.errors ≡ errors_of s.drive s.cache.part s.cache.track

  errors_in_same :
      (d d1 : D) (part track : ℕ) (o : Option ℕ)
      → SameData d d1
      → errors_in d1 part track o ≡ errors_in d part track o
  unfolding errors_in
  errors_in_same d d1 part track none same = refl
  errors_in_same d d1 part track (some base) same = ap overlay (same part _ _)

  errors_of_same :
      (d d1 : D) (part track : ℕ) → SameData d d1 → errors_of d1 part track ≡ errors_of d part track
  unfolding errors_of
  errors_of_same d d1 part track same = errors_in_same d d1 part track _ same

  -- A step that changes neither the data nor the cache.
  IsErrorCache-step :
      (s s1 : Reader D)
      → s1.cache ≡ s.cache
      → SameData s.drive s1.drive
      → IsErrorCache s
      → IsErrorCache s1
  IsErrorCache-step s s1 e same c = record {
    right = λ ne lt.
        let h = c.right (subst (λ x. x.track ≢ 0) e ne) (subst (λ x. x.part < 255) e lt) in
        ap (λ x. x.errors) e
        ∙ h
        ∙ sym (
            ap (λ x. errors_of s1.drive x.part x.track) e
            ∙ errors_of_same s.drive s1.drive _ _ same);
  }

  -- The error bytes of the track are in the cache.
  record IsFetched (s : Reader D) (part track : ℕ) (s1 : Reader D) : Type 0 where
    same : SameData s.drive s1.drive
    cached : IsErrorCache s1
    fetched : s1.cache.errors ≡ errors_of s.drive part track

  load-IsFetched :
      (part track : ℕ) (o : Option ℕ) (s : Reader D)
      → error_offset (kind_of (partitions part)) ≡ o
      → (load_errors m partitions part track o s).1 ≡ true
      → IsFetched s part track (load_errors m partitions part track o s).0
  unfolding load_errors
  load-IsFetched part track none s e ok = absurd (ground arith)
  load-IsFetched part track (some base) s e ok =
      let kind = kind_of (partitions part) in
      let o = base + sector_lba kind track 0 in
      let n = sectors_per_track kind track in
      let r = m.image_read s.drive part o n in
      elim (Bool-cases (leb 2 r.1)) [
        | inl bad ↦ absurd (ground arith)
        | inr good ↦
            let got : overlay r.2 ≡ errors_of s.drive part track =
              unfold errors_of errors_in in
              rw e (ap overlay (law.read_ok s.drive part o n (ground (arith, good)))) in
            rw good (record {
              same = λ q k l. law.read_keeps s.drive part o n q k l;
              cached = record {
                right = λ ne lt.
                    got
                    ∙ sym (errors_of_same s.drive r.0 part track (law.read_keeps s.drive part o n));
              };
              fetched = got;
            })
      ]

  fetch-IsFetched :
      (part track : ℕ) (s : Reader D)
      → part < 255
      → track ≢ 0
      → IsErrorCache s
      → (fetch_errors m partitions part track s).1 ≡ true
      → IsFetched s part track (fetch_errors m partitions part track s).0
  unfolding fetch_errors
  fetch-IsFetched part track s lt ne c ok =
      elim (Bool-cases (s.cache.part == part && s.cache.track == track)) [
        | inr miss ↦ rw miss (load-IsFetched part track _ s refl (ground (arith, miss)))
        | inl hit ↦
            let same_part : s.cache.part ≡ part = ground (arith, hit) in
            let same_track : s.cache.track ≡ track = ground (arith, hit) in
            rw hit (record {
              same = λ p o n. refl;
              cached = c;
              fetched =
                  c.right (omega arith) (omega arith)
                  ∙ ap (λ x. errors_of s.drive x s.cache.track) same_part
                  ∙ ap (errors_of s.drive part) same_track;
            })
      ]

  -- The outcome is what the verdict asks for, from a drive with the same data.
  pub record IsJudged (s : Reader D) (part track sector len : ℕ) (v : Verdict)
      (a : Reader D × ℕ × List ℕ) : Type 0 where
    pub drive : D
    pub same : SameData s.drive drive
    pub outcome : (a.0.drive, a.1, a.2) ≡ obey part track sector len v drive
    pub cached : IsErrorCache a.0

  read-IsJudged :
      (s s1 : Reader D) (part track sector len : ℕ)
      → SameData s.drive s1.drive
      → IsErrorCache s1
      → IsJudged s part track sector len readable
          (read_sector m partitions part track sector len s1)
  unfolding read_sector obey
  read-IsJudged s s1 part track sector len same c = record {
    drive = s1.drive;
    same = same;
    outcome = refl;
    cached = IsErrorCache-step s1 _ refl (law.read_keeps s1.drive part _ len) c;
  }

  refuse-IsJudged :
      (s s1 : Reader D) (part track sector len code : ℕ)
      → SameData s.drive s1.drive
      → IsErrorCache s1
      → IsJudged s part track sector len
          (refused code)
          (record s1 { drive = m.set_error_ts s1.drive code track sector }, 2, [])
  unfolding obey
  refuse-IsJudged s s1 part track sector len code same c = record {
    drive = s1.drive;
    same = same;
    outcome = refl;
    cached = IsErrorCache-step s1 _ refl (law.error_keeps s1.drive code track sector) c;
  }

  not_ready-IsJudged :
      (s s1 : Reader D) (part track sector len : ℕ)
      → SameData s.drive s1.drive
      → IsErrorCache s1
      → IsJudged s part track sector len not_ready
          (record s1 { drive = m.set_error s1.drive 74 }, 2, [])
  unfolding obey
  not_ready-IsJudged s s1 part track sector len same c = record {
    drive = s1.drive;
    same = same;
    outcome = refl;
    cached = IsErrorCache-step s1 _ refl (law.ready_keeps s1.drive 74) c;
  }

  judge-IsJudged :
      (s s1 : Reader D) (part track sector len : ℕ)
      → SameData s.drive s1.drive
      → IsErrorCache s1
      → IsJudged s part track sector len
          (verdict_of (get_or s1.cache.errors sector 0))
          (judge m partitions part track sector len (s1, true))
  unfolding judge verdict_of
  judge-IsJudged s s1 part track sector len same c =
      let code = get_or s1.cache.errors sector 0 in
      elim (Bool-cases (leb 2 code && leb code 11)) [
        | inl bad ↦
            let number : code - 2 + 20 ≡ code + 18 = ground (arith, bad) in
            rw (bad, number) (refuse-IsJudged s s1 part track sector len (code + 18) same c)
        | inr fine ↦ elim (Bool-cases (code == 15)) [
          | inl e ↦ rw (fine, e) (not_ready-IsJudged s s1 part track sector len same c)
          | inr e ↦ rw (fine, e) (read-IsJudged s s1 part track sector len same c)
        ]
      ]

  -- The cache of error information is transparent: for a partition below 255 and a cache that
  -- is right, when the error bytes of the track can be had, checked_read ends as a reference
  -- without a cache does, by the error bytes in the image file: it refuses a sector outside
  -- the image with the caller's error, one marked as bad with its code plus 18, one marked as
  -- not ready with error 74, and reads any other one; the cache stays right.
  pub checked_read-IsJudged :
      (part track sector len error : ℕ) (s : Reader D)
      → part < 255
      → IsErrorCache s
      → (fetch_errors m partitions part track s).1 ≡ true
      → IsJudged s part track sector len
          (verdict s.drive part track sector error)
          (checked_read m partitions part track sector len error s)
  unfolding checked_read verdict
  checked_read-IsJudged part track sector len error s lt c works =
      elim (Bool-cases (in_image m partitions part track sector)) [
        | inr out ↦ rw out (refuse-IsJudged s s part track sector len error (λ p o n. refl) c)
        | inl inside ↦ elim (Bool-cases (has_error_info (partitions part))) [
          | inr plain ↦
              rw (inside, plain) (read-IsJudged s s part track sector len (λ p o n. refl) c)
          | inl info ↦
              let f =
                fetch-IsFetched part track s lt (unfold in_image in ground (arith, inside)) c
                  works in
              rw (inside, info, works, ← f.fetched)
                (judge-IsJudged s _ part track sector len f.same f.cached)
        ]
      ]
