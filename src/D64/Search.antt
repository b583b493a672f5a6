-- ===== src/D64/Search.antt =====
-- The allocation strategies of src/d64ops.c, `get_first_sector` and `get_next_sector`, over what
-- they ask of the block map: `sectors_free`, `is_free` and the error channel. A loop takes fuel, a
-- round each; `hangs` means that the fuel ran out.
pub mod First
pub mod Complete
pub mod Full
use nodiskemu.Prelude.{
  ℕ, zero, suc, ◌+◌, ◌-◌, ◌*◌, ◌%◌, Bool, true, false, Option, none, some, ◌&&◌, ◌||◌, not, ltb,
  leb, ◌==◌, if◌then◌else◌,
}
use nodiskemu.D64.{Kind, dnp, d71, Param, sectors_per_track}

-- What `is_free` returns: below 0, 0 and above 0.
pub data FreeState : Type 0 where
  failed used free : FreeState

-- `is_free(...) > 0`
unfoldable pub is_success : FreeState → Bool
is_success free = true
is_success _ = false

-- The functions that the strategies call; each may change the state, as it moves the BAM window.
pub record BamOps (S : Type 0) : Type 0 where
  pub sectors_free : S → ℕ → S × ℕ
  pub is_free : S → ℕ → ℕ → S × FreeState
  pub current_error : S → ℕ
  pub set_error : S → ℕ → S

pub data Outcome (S : Type 0) : Type 0 where
  found : S → (track sector : ℕ) → Outcome S
  fails : S → Outcome S
  hangs : Outcome S

-- `if (current_error == ERROR_OK) set_error(ERROR_DISK_FULL); return 1;`
pub disk_full : {S : Type 0} → BamOps S → S → Outcome S
disk_full ops s = if ops.current_error s == 0 then fails (ops.set_error s 72) else fails s

-- The int8_t `distance` as its byte: 128 and more are negative.
unfoldable pub distance_lt : ℕ → ℕ → Bool
distance_lt d last = if ltb d 128 then ltb d last else true

unfoldable pub next_distance : ℕ → ℕ
next_distance d =
    let negated = (256 - d) % 256 in
    if ltb 0 negated && ltb negated 128 then (negated + 1) % 256 else negated

-- `get_param(part, DIR_TRACK) - distance`, as the uint8_t that is passed on.
unfoldable pub track_at : Param → ℕ → ℕ
track_at p d = (p.dir_track + 256 - d) % 256

module _ {S : Type 0} (ops : BamOps S) (kind : Kind) (p : Param) where
  -- The search for a track around the directory: the state and the distance behind the loop.
  unfoldable pub find_track : ℕ → S → ℕ → Option (S × ℕ)
  unfolding distance_lt next_distance track_at
  find_track zero s d = none
  find_track (suc fuel) s d =
      let (s1, count) = ops.sectors_free s (track_at p d) in
      let more = find_track fuel s1 (next_distance d) in
      if not (distance_lt d p.last_track)
      then some (s, d)
      else if count == 0
      then more
      else some (s1, d)

  -- The search on a DNP image, from track 2 on. The flag is false for "no free sectors anywhere".
  pub find_dnp_track : ℕ → S → (start track : ℕ) → Option (S × Bool × ℕ)
  find_dnp_track zero s start track = none
  find_dnp_track (suc fuel) s start track =
      let (s1, count) = ops.sectors_free s track in
      let t1 = (track + 1) % 256 in
      let t2 = if t1 == p.last_track || t1 == 0 then 1 else t1 in
      let more = find_dnp_track fuel s1 start t2 in
      if not (count == 0)
      then some (s1, true, track)
      else if t2 == start
      then some (s1, false, t2)
      else more

  -- The first free sector of the track; the counter is a uint8_t.
  unfoldable pub first_on_track : ℕ → S → (track sector : ℕ) → Outcome S
  unfolding disk_full is_success
  first_on_track zero s track sector = hangs
  first_on_track (suc fuel) s track sector =
      if not (ltb sector (sectors_per_track kind track))
      then disk_full ops s
      else (let (s1, state) = ops.is_free s track sector in
          let more = first_on_track fuel s1 track ((sector + 1) % 256) in
          if is_success state then found s1 track sector else more)

  pub on_dnp_track : ℕ → Option (S × Bool × ℕ) → Outcome S
  on_dnp_track fuel none = hangs
  on_dnp_track fuel (some (s, true, track)) = first_on_track fuel s track 0
  on_dnp_track fuel (some (s, false, track)) = fails s

  unfoldable pub on_track : ℕ → Option (S × ℕ) → Outcome S
  unfolding disk_full
  on_track fuel none = hangs
  on_track fuel (some (s, d)) =
      if ltb d 128 && (d == p.last_track)
      then disk_full ops s
      else first_on_track fuel s (track_at p d) 0

  -- `is_dnp` is the test `imagetype == D64_TYPE_DNP`.
  unfoldable pub get_first_sector : ℕ → Bool → S → Outcome S
  get_first_sector fuel true s = on_dnp_track fuel (find_dnp_track fuel s 2 2)
  get_first_sector fuel false s = on_track fuel (find_track fuel s 1)

  -- `while (!is_free(...)) newsector++`: also a failure ends it.
  pub next_on_dnp_track : ℕ → S → (track sector : ℕ) → Outcome S
  next_on_dnp_track zero s track sector = hangs
  next_on_dnp_track (suc fuel) s track sector =
      let (s1, state) = ops.is_free s track sector in
      let more = next_on_dnp_track fuel s1 track ((sector + 1) % 256) in
      elim state [ used ↦ more | _ ↦ found s1 track sector ]

  pub next_dnp_sector : ℕ → (track sector : ℕ) → Option (S × Bool × ℕ) → Outcome S
  next_dnp_sector fuel track sector none = hangs
  next_dnp_sector fuel track sector (some (s, false, newtrack)) = fails s
  next_dnp_sector fuel track sector (some (s, true, newtrack)) =
      next_on_dnp_track fuel s newtrack (if newtrack == track then sector else 0)

  -- One step away from the directory: the new track, and the tries and sector behind the wraps.
  pub step_track : (track sector tries : ℕ) → ℕ × ℕ × ℕ
  step_track track sector tries =
      let up = (track + 1) % 256 in
      let t1 =
        if ltb track p.dir_track
        then (track + 255) % 256
        else (if (elim kind [ d71 ↦ true | _ ↦ false ]) && up == 53 then (up + 1) % 256 else up) in
      let low = ltb t1 1 in
      let t2 = if low then (p.dir_track + 1) % 256 else t1 in
      let high = ltb p.last_track t2 in
      (
        if high then p.dir_track - 1 else t2,
        if low || high then 0 else sector,
        tries + (if low then 1 else 0) + (if high then 1 else 0),
      )

  -- The search for a track with free sectors: track, sector and tries behind the loop.
  pub next_track : ℕ → S → (track sector tries : ℕ) → Option (S × ℕ × ℕ × ℕ)
  unfolding step_track
  next_track zero s track sector tries = none
  next_track (suc fuel) s track sector tries =
      let (s1, count) = ops.sectors_free s track in
      let (t, r, n) = step_track track sector tries in
      let more = next_track fuel s1 t r n in
      if not (ltb tries 3)
      then some (s, track, sector, tries)
      else if count == 0
      then more
      else some (s1, track, sector, tries)

  -- The last loop: `while (is_free(...) <= 0 && tries--)`. The counter is a uint8_t, so it is 255
  -- behind a test of 0.
  pub next_free : ℕ → S → (track sector : ℕ) → S × ℕ × ℕ
  unfolding is_success
  next_free zero s track sector =
      let (s1, state) = ops.is_free s track sector in
      (s1, sector, if is_success state then 0 else 255)
  next_free (suc tries) s track sector =
      let (s1, state) = ops.is_free s track sector in
      let next = (sector + 1) % 256 in
      let more =
        next_free tries s1 track (if leb (sectors_per_track kind track) next then 0 else next) in
      if is_success state then (s1, sector, suc tries) else more

  pub after_search : ℕ → S × ℕ × ℕ → Outcome S
  unfolding disk_full
  after_search track (s, sector, tries) =
      if tries == 0 then disk_full ops s else found s track sector

  -- The sector at interleave distance.
  pub interleaved : (track sector interleave : ℕ) → ℕ
  interleaved track sector interleave =
      let next = (sector + interleave) % 256 in
      let over = next - sectors_per_track kind track in
      if leb (sectors_per_track kind track) next then (if over == 0 then 0 else over - 1) else next

  pub on_next_track : ℕ → Option (S × ℕ × ℕ × ℕ) → Outcome S
  unfolding disk_full next_free after_search interleaved
  on_next_track interleave none = hangs
  on_next_track interleave (some (s, track, sector, tries)) =
      if tries == 3
      then disk_full ops s
      else after_search track (next_free 99 s track (interleaved track sector interleave))

  -- The branch of the other images: in the directory track a full track ends the search.
  pub next_near : ℕ → S → (track sector : ℕ) → Outcome S
  unfolding disk_full next_track on_next_track
  next_near fuel s track sector =
      let (s1, count) = ops.sectors_free s p.dir_track in
      if track == p.dir_track
      then (if count == 0
          then disk_full ops s1
          else on_next_track p.dir_interleave (next_track fuel s1 track sector 0))
      else on_next_track p.file_interleave (next_track fuel s track sector 0)

  pub get_next_sector : ℕ → Bool → S → (track sector : ℕ) → Outcome S
  unfolding next_near find_dnp_track next_dnp_sector
  get_next_sector fuel true s track sector =
      next_dnp_sector fuel track sector (find_dnp_track fuel s track track)
  get_next_sector fuel false s track sector = next_near fuel s track sector
