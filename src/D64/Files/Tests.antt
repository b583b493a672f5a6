-- ===== src/D64/Files/Tests.antt =====
-- Examples for the files of src/d64ops.c.
use nodiskemu.Prelude.{
  ℕ, zero, suc, ◌+◌, ◌<◌, Bool, true, false, not, ◌&&◌, Option, none, some, List, [], ◌∷◌, ◌==◌,
  ltb, if◌then◌else◌, replicate, ◌≡◌, ◌≢◌, refl, sym, arith, Bool-cases, inl, inr,
}
use nodiskemu.D64.Files.{
  FileBuffer, Disk, as_last, link_to, store_data, write_next, closed_entry, close_entry,
  close_stored, d64_read, d64_write, d64_write_cleanup,
}
use nodiskemu.D64.Files.Stored.{IsKept, IsDisk, read_on, joined}
use nodiskemu.D64.Files.Written.{filled_bytes, filled, ended, write_on}
use nodiskemu.D64.Files.Written.RoundTrip.{d64_read-d64_write}

-- A disk whose track 1 is for data; sector 1 of track 18 has the entry of the file. As in
-- src/d64ops.c, a sector off the disk cannot be read, its allocation succeeds and changes nothing,
-- and a search on a full disk reports error 72.
record Track : Type 0 where
  sectors : ℕ → ℕ → List ℕ
  used : ℕ → ℕ → Bool
  ready : Bool
  error : ℕ

abbrev on_disk : (t r : ℕ) → Bool
on_disk t r = t == 1 && ltb r 21

first_unused : (ℕ → Bool) → (rounds r : ℕ) → Option ℕ
first_unused used zero r = none
first_unused used (suc rounds) r =
    let rest = first_unused used rounds (r + 1) in if used r then rest else some r

abbrev search_result : Track → Option ℕ → Track × Bool × ℕ × ℕ
search_result s none = (record s { error = 72 }, false, 0, 0)
search_result s (some r) = (s, true, 1, r)

abbrev raised : (ℕ → ℕ → Bool) → (t r : ℕ) → ℕ → ℕ → Bool
raised used t r u q = if u == t && q == r then true else used u q

abbrev stored : (ℕ → ℕ → List ℕ) → (t r : ℕ) → List ℕ → ℕ → ℕ → List ℕ
stored sectors t r bytes u q = if u == t && q == r then bytes else sectors u q

abbrev track_disk : Disk Track
track_disk = record {
  checked_read = λ s t r. if s.ready && on_disk t r then (s, 0, s.sectors t r) else (s, 2, []);
  image_write = λ s t r bytes.
      if s.ready then (record s { sectors = stored s.sectors t r bytes }, 0) else (s, 1);
  get_next_sector = λ s t r. search_result s (first_unused (s.used 1) 21 0);
  allocate_sector = λ s t r.
      if not s.ready
      then (s, 1)
      else if on_disk t r
      then (record s { used = raised s.used t r }, 0)
      else (s, 0);
  current_error = λ s. s.error;
  set_error = λ s e. record s { error = e };
  read_entry = λ s. (s, 0, s.sectors 18 1);
  write_entry = λ s entry. (record s { sectors = stored s.sectors 18 1 entry }, 0);
  update_timestamp = λ entry. entry;
}

abbrev sector_of : Track → (t r : ℕ) → List ℕ
sector_of s t r = s.sectors t r

abbrev used_of : Track → (t r : ℕ) → Bool
used_of s t r = on_disk t r && s.used t r

abbrev IsReady : Track → Type 0
IsReady s = s.ready ≡ true

abbrev Keeps : Track → Track → Type 0
Keeps s s1 = IsKept sector_of used_of IsReady s s1

Keeps-refl : (s : Track) → IsReady s → Keeps s s
Keeps-refl s v = record { valid = v; takes = λ u q. refl; contents = λ u q h. refl }

first_unused_lem :
    (used : ℕ → Bool) (rounds r q : ℕ)
    → first_unused used rounds r ≡ some q
    → (used q ≡ false) × (q < r + rounds)
unfolding first_unused
first_unused_lem used zero r q e = absurd (ground (arith, e))
first_unused_lem used (suc rounds) r q e = ground (arith, e, first_unused_lem used rounds (r + 1) q)

-- The laws of a search, by its result.
search-finds :
    (s : Track) (o : Option ℕ)
    → o ≡ first_unused (s.used 1) 21 0
    → (search_result s o).1 ≡ true
    → ((search_result s o).2 ≢ 0)
      × (on_disk (search_result s o).2 (search_result s o).3 ≡ true)
      × (used_of s (search_result s o).2 (search_result s o).3 ≡ false)
search-finds s none eq e = absurd (ground (arith, e))
search-finds s (some r) eq e =
    let (unused, lt) = first_unused_lem (s.used 1) 21 0 r (sym eq) in
    (omega arith, ground (arith, lt), ground (arith, unused))

search-reports :
    (s : Track) (o : Option ℕ) → (search_result s o).1 ≡ false → (search_result s o).0.error ≢ 0
search-reports s none e = omega arith
search-reports s (some r) e = absurd (ground (arith, e))

search-Keeps : (s : Track) (o : Option ℕ) → IsReady s → Keeps s (search_result s o).0
search-Keeps s none v = record { valid = v; takes = λ u q. refl; contents = λ u q h. refl }
search-Keeps s (some r) v = Keeps-refl s v

track_disk-IsDisk : IsDisk track_disk sector_of used_of on_disk IsReady
track_disk-IsDisk = record {
  reads = λ s t r v h. let on : on_disk t r ≡ true = ground (arith, h) in rw (v, on) (refl, refl);
  read_keeps = λ s t r v h. elim (Bool-cases (s.ready && on_disk t r)) [
    | inl e ↦ rw e (Keeps-refl s v)
    | inr e ↦ rw e (Keeps-refl s v)
  ];
  finds = λ s t r v h e. search-finds s (first_unused (s.used 1) 21 0) refl e;
  reports = λ s t r v h e. search-reports s (first_unused (s.used 1) 21 0) e;
  find_keeps = λ s t r v h. search-Keeps s (first_unused (s.used 1) 21 0) v;
  allocates = λ s t r v on e. rw (v, on) (refl, λ u q h. refl, λ u q. ground (arith, on));
  writes = λ s t r bytes v h whole e. rw v (refl, λ u q h1. refl, λ u q. refl);
  entry_keeps = λ s v. Keeps-refl s v;
  close_keeps =
      λ s entry v. record { valid = v; takes = λ u q. refl; contents = λ u q h. ground (arith, h) };
}

-- One where the first sector of the file is in use.
abbrev empty_track : Track
empty_track = record {
  sectors = λ t r. [];
  used = λ t r. (t == 1) && (r == 0);
  ready = true;
  error = 0;
}

abbrev new_file : FileBuffer
new_file = record {
  bytes = replicate 256 0;
  position = 2;
  lastused = 1;
  sendeoi = false;
  mustflush = false;
  dirty = false;
  track = 1;
  sector = 0;
  blocks = 0;
}

-- The first sector of the file, and a last one of three bytes.
abbrev full_block : List ℕ
full_block = replicate 254 65

abbrev last_block : List ℕ
last_block = 66 ∷ 67 ∷ 68 ∷ []

abbrev state_of : Option Track → Track
state_of none = empty_track
state_of (some s) = s

abbrev written : Option Track
written =
    write_on track_disk sector_of used_of on_disk IsReady track_disk-IsDisk (full_block ∷ [])
      last_block (empty_track, some new_file)

abbrev end_state : Track
end_state = state_of written

written_ok : written ≡ some end_state
unfolding first_unused write_on filled_bytes filled ended as_last link_to store_data write_next
    closed_entry close_entry close_stored d64_write d64_write_cleanup
written_ok = refl

-- The buffer of a reader, with the link to the first sector.
abbrev reader : FileBuffer
reader = record new_file { bytes = 1 ∷ 0 ∷ [] }

d64_read-d64_write_example :
    read_on track_disk sector_of used_of on_disk IsReady track_disk-IsDisk 1
      (d64_read track_disk end_state reader)
    ≡ some (
        joined track_disk sector_of used_of on_disk IsReady track_disk-IsDisk
          (full_block ∷ [])
          last_block)
d64_read-d64_write_example =
    d64_read-d64_write track_disk sector_of used_of on_disk IsReady track_disk-IsDisk
      (full_block ∷ []) last_block empty_track end_state new_file reader (refl, tt) (omega arith)
      refl refl refl written_ok (refl, refl)
