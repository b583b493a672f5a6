-- ===== src/D64/Files/Stored.antt =====
-- A file in a chain of sectors, as `d64_read` of src/d64ops.c goes through it; the laws of the
-- functions that the callbacks of src/d64ops.c call.
use nodiskemu.Prelude.{
  ℕ, zero, suc, ◌+◌, ◌-◌, Bool, true, false, ◌&&◌, Option, none, some, List, [], ◌∷◌, ◌++◌, ◌==◌,
  if◌then◌else◌, get_or, length, take, drop, ◌≡◌, ◌≢◌, refl, ap, ◌∙◌, arith,
}
use nodiskemu.D64.Files.{FileBuffer, Disk, refilled, d64_read}

-- A call leaves the sectors in use as they are. BAM and directory sectors are never among them.
pub record IsKept {S : Type 0} (content : S → (t r : ℕ) → List ℕ) (taken : S → (t r : ℕ) → Bool)
    (Valid : S → Type 0) (s s1 : S) : Type 0 where
  pub valid : Valid s1
  pub takes : (u q : ℕ) → taken s1 u q ≡ taken s u q
  pub contents : (u q : ℕ) → taken s u q ≡ true → content s1 u q ≡ content s u q

-- What the callbacks rely on, in the states that are `Valid`: `content` is what a sector has, `on_disk`
-- tells the sectors of the disk that are for data, and `taken` those of them that are in use.
pub record IsDisk {S : Type 0} (m : Disk S) (content : S → (t r : ℕ) → List ℕ)
    (taken : S → (t r : ℕ) → Bool) (on_disk : (t r : ℕ) → Bool) (Valid : S → Type 0) : Type 0 where
  pub reads :
      (s : S) (t r : ℕ)
      → Valid s
      → taken s t r ≡ true
      → ((m.checked_read s t r).1 ≡ 0) × ((m.checked_read s t r).2 ≡ content s t r)
  pub read_keeps :
      (s : S) (t r : ℕ)
      → Valid s
      → taken s t r ≡ true
      → IsKept content taken Valid s (m.checked_read s t r).0
  pub finds :
      (s : S) (t r : ℕ)
      → Valid s
      → taken s t r ≡ true
      → (m.get_next_sector s t r).1 ≡ true
      → ((m.get_next_sector s t r).2 ≢ 0)
        × (on_disk (m.get_next_sector s t r).2 (m.get_next_sector s t r).3 ≡ true)
        × (taken s (m.get_next_sector s t r).2 (m.get_next_sector s t r).3 ≡ false)
  pub reports :
      (s : S) (t r : ℕ)
      → Valid s
      → taken s t r ≡ true
      → (m.get_next_sector s t r).1 ≡ false
      → m.current_error (m.get_next_sector s t r).0 ≢ 0
  pub find_keeps :
      (s : S) (t r : ℕ)
      → Valid s
      → taken s t r ≡ true
      → IsKept content taken Valid s (m.get_next_sector s t r).0
  pub allocates :
      (s : S) (t r : ℕ)
      → Valid s
      → on_disk t r ≡ true
      → (m.allocate_sector s t r).1 ≡ 0
      → Valid (m.allocate_sector s t r).0
        × ((u q : ℕ) → taken s u q ≡ true → content (m.allocate_sector s t r).0 u q ≡ content s u q)
        × ((u q : ℕ)
            → taken (m.allocate_sector s t r).0 u q
              ≡ (if u == t && q == r then true else taken s u q))
  pub writes :
      (s : S) (t r : ℕ) (bytes : List ℕ)
      → Valid s
      → taken s t r ≡ true
      → length bytes ≡ 256
      → (m.image_write s t r bytes).1 ≡ 0
      → Valid (m.image_write s t r bytes).0
        × ((u q : ℕ)
            → taken s u q ≡ true
            → content (m.image_write s t r bytes).0 u q
              ≡ (if u == t && q == r then bytes else content s u q))
        × ((u q : ℕ) → taken (m.image_write s t r bytes).0 u q ≡ taken s u q)
  pub entry_keeps : (s : S) → Valid s → IsKept content taken Valid s (m.read_entry s).0
  pub close_keeps :
      (s : S) (entry : List ℕ) → Valid s → IsKept content taken Valid s (m.write_entry s entry).0

module _ {S : Type 0} (m : Disk S) (content : S → (t r : ℕ) → List ℕ) (taken : S → (t r : ℕ) → Bool)
    (on_disk : (t r : ℕ) → Bool) (Valid : S → Type 0)
    (law : IsDisk m content taken on_disk Valid) where
  -- The data of a sector behind its link, up to `count` bytes.
  abbrev pub payload : (count : ℕ) → List ℕ → List ℕ
  payload count bytes = take count (drop 2 bytes)

  -- A file of full blocks and a last one, from a sector on.
  unfoldable pub IsStored : S → (t r : ℕ) → List (List ℕ) → List ℕ → Type 0
  IsStored s t r [] last =
      (taken s t r ≡ true)
      × (get_or (content s t r) 0 0 ≡ 0)
      × (get_or (content s t r) 1 0 ≡ 1 + length last)
      × (payload (length last) (content s t r) ≡ last)
  IsStored s t r (x ∷ xs) last =
      (taken s t r ≡ true)
      × (get_or (content s t r) 0 0 ≢ 0)
      × (payload 254 (content s t r) ≡ x)
      × IsStored s (get_or (content s t r) 0 0) (get_or (content s t r) 1 0) xs last

  -- The bytes that the computer gets from a buffer, and from the refills up to the end of the file.
  pub got : FileBuffer → List ℕ
  got b = payload (b.lastused - 1) b.bytes

  and_more : List ℕ → Option (List ℕ) → Option (List ℕ)
  and_more bytes none = none
  and_more bytes (some more) = some (bytes ++ more)

  pub read_on : ℕ → S × Option FileBuffer → Option (List ℕ)
  read_on fuel (s, none) = none
  read_on zero (s, some b) = if b.sendeoi then some (got b) else none
  read_on (suc fuel) (s, some b) =
      let rest = read_on fuel (d64_read m s b) in
      if b.sendeoi then some (got b) else and_more (got b) rest

  pub joined : List (List ℕ) → List ℕ → List ℕ
  joined [] last = last
  joined (x ∷ xs) last = x ++ joined xs last

  -- A stored file stays so where its sectors keep their content.
  pub IsStored-kept :
      (xs : List (List ℕ)) (last : List ℕ) (s s1 : S) (t r : ℕ)
      → IsKept content taken Valid s s1
      → IsStored s t r xs last
      → IsStored s1 t r xs last
  unfolding IsStored
  IsStored-kept [] last s s1 t r keep (a, b, c, d) =
      rw (keep.contents t r a, keep.takes t r) (a, b, c, d)
  IsStored-kept (x ∷ xs) last s s1 t r keep (a, b, c, rest) =
      rw (keep.contents t r a, keep.takes t r) (a, b, c, IsStored-kept xs last s s1 _ _ keep rest)

  -- The buffer behind the read of a sector.
  abbrev after_read : S → (t r : ℕ) → FileBuffer → FileBuffer
  after_read s t r b = refilled (content s t r) (record b { track = t; sector = r })

  d64_read_lem :
      (s : S) (b : FileBuffer)
      → Valid s
      → taken s (get_or b.bytes 0 0) (get_or b.bytes 1 0) ≡ true
      → d64_read m s b ≡ (
        (m.checked_read s (get_or b.bytes 0 0) (get_or b.bytes 1 0)).0,
        some (after_read s (get_or b.bytes 0 0) (get_or b.bytes 1 0) b),
      )
  unfolding d64_read
  d64_read_lem s b v h = let (ok, bytes) = law.reads s _ _ v h in rw (ok, bytes) refl

  read_end :
      (n : ℕ) (s : S) (b : FileBuffer) → b.sendeoi ≡ true → read_on n (s, some b) ≡ some (got b)
  unfolding read_on
  read_end zero s b e = rw e refl
  read_end (suc n) s b e = rw e refl

  read_more :
      (n : ℕ) (s : S) (b : FileBuffer)
      → b.sendeoi ≡ false
      → read_on (suc n) (s, some b) ≡ and_more (got b) (read_on n (d64_read m s b))
  unfolding read_on
  read_more n s b e = rw e refl

  pub d64_read-IsStored :
      (xs : List (List ℕ)) (last : List ℕ) (s : S) (b : FileBuffer)
      → Valid s
      → IsStored s (get_or b.bytes 0 0) (get_or b.bytes 1 0) xs last
      → read_on (length xs) (d64_read m s b) ≡ some (joined xs last)
  unfolding IsStored refilled joined got
  d64_read-IsStored [] last s b v (a, zero_link, used, same) =
      let t = get_or b.bytes 0 0 in
      let r = get_or b.bytes 1 0 in
      let size : 1 + length last - 1 ≡ length last = omega arith in
      ap (read_on 0) (d64_read_lem s b v a)
      ∙ read_end 0 _ (after_read s t r b) (ground (arith, zero_link))
      ∙ rw (zero_link, used, size) (ap (λ y. some y) same)
  d64_read-IsStored (x ∷ xs) last s b v (a, more, same, rest) =
      let t = get_or b.bytes 0 0 in
      let r = get_or b.bytes 1 0 in
      let s1 = (m.checked_read s t r).0 in
      let keep = law.read_keeps s t r v a in
      let linked : (get_or (content s t r) 0 0 == 0) ≡ false = ground (arith, more) in
      let ih =
        d64_read-IsStored xs last s1 (after_read s t r b) keep.valid
          (IsStored-kept xs last s s1 _ _ keep rest) in
      let full : got (after_read s t r b) ≡ x = rw linked same in
      ap (read_on (suc (length xs))) (d64_read_lem s b v a)
      ∙ read_more (length xs) s1 (after_read s t r b) linked
      ∙ ap (and_more (got (after_read s t r b))) ih
      ∙ unfold and_more in ap (λ y. some (y ++ joined xs last)) full
