-- ===== src/D64/Delete/Freed.antt =====
-- The sectors that `d64_delete` of src/d64ops.c frees.
use nodiskemu.Prelude.{
  ℕ, zero, suc, ◌<◌, Bool, true, false, ◌&&◌, ◌||◌, Option, some, List, [], ◌∷◌, ◌==◌,
  if◌then◌else◌, get_or, set, length, ◌≡◌, ◌≢◌, refl, ◌∙◌, arith,
}
use nodiskemu.D64.Delete.{Disk, delete_loop, delete_entry, delete_file, d64_delete}

-- What the functions promise for the sectors `on_disk`: `content` is what a sector has, `used` tells
-- whether the block map has it as used, and `entry` is the directory entry of the file.
pub record IsDisk {S : Type 0} (m : Disk S) (on_disk : (t r : ℕ) → Bool)
    (content : S → (t r : ℕ) → List ℕ) (used : S → (t r : ℕ) → Bool) (entry : S → List ℕ)
    : Type 0 where
  pub reads :
      (s : S) (t r : ℕ)
      → on_disk t r ≡ true
      → ((m.checked_read s t r).1 ≡ 0) × ((m.checked_read s t r).2 ≡ content s t r)
  pub read_keeps :
      (s : S) (t r u q : ℕ)
      → (content (m.checked_read s t r).0 u q ≡ content s u q)
        × (used (m.checked_read s t r).0 u q ≡ used s u q)
  pub frees :
      (s : S) (t r u q : ℕ)
      → on_disk t r ≡ true
      → (content (m.free_sector s t r).0 u q ≡ content s u q)
        × (used (m.free_sector s t r).0 u q ≡ (if u == t && q == r then false else used s u q))
  pub enters : (s : S) → ((m.read_entry s).1 ≡ 0) × ((m.read_entry s).2 ≡ entry s)
  pub entry_keeps :
      (s : S) (u q : ℕ)
      → (content (m.read_entry s).0 u q ≡ content s u q)
        × (used (m.read_entry s).0 u q ≡ used s u q)
  pub closes :
      (s : S) (bytes : List ℕ)
      → ((m.write_entry s bytes).1 ≡ 0)
        × (entry (m.write_entry s bytes).0 ≡ bytes)
        × ((u q : ℕ) → used (m.write_entry s bytes).0 u q ≡ used s u q)

module _ {S : Type 0} (m : Disk S) (on_disk : (t r : ℕ) → Bool) (content : S → (t r : ℕ) → List ℕ)
    (used : S → (t r : ℕ) → Bool) (entry : S → List ℕ)
    (law : IsDisk m on_disk content used entry) where
  -- A chain of the sectors behind `(t, r)`: each has the link to the next one, the last one none.
  unfoldable pub IsChain : S → (t r : ℕ) → List (ℕ × ℕ) → Type 0
  IsChain s t r [] = (on_disk t r ≡ true) × (get_or (content s t r) 0 0 ≡ 0)
  IsChain s t r ((u, q) ∷ rest) =
      (on_disk t r ≡ true)
      × (get_or (content s t r) 0 0 ≢ 0)
      × (get_or (content s t r) 0 0 ≡ u)
      × (get_or (content s t r) 1 0 ≡ q)
      × IsChain s u q rest

  pub is_in : (t r : ℕ) → List (ℕ × ℕ) → (u q : ℕ) → Bool
  is_in t r [] u q = u == t && q == r
  is_in t r ((t1, r1) ∷ rest) u q = (u == t && q == r) || is_in t1 r1 rest u q

  IsChain-kept :
      (rest : List (ℕ × ℕ)) (s s1 : S) (t r : ℕ)
      → ((u q : ℕ) → content s1 u q ≡ content s u q)
      → IsChain s t r rest
      → IsChain s1 t r rest
  unfolding IsChain
  IsChain-kept [] s s1 t r keep (a, b) = rw (keep t r) (a, b)
  IsChain-kept ((u, q) ∷ rest) s s1 t r keep (a, b, c, d, more) =
      rw (keep t r) (a, b, c, d, IsChain-kept rest s s1 u q keep more)

  -- The loop ends, with the sectors of the chain freed and no other one.
  record IsFreed (s : S) (t r : ℕ) (rest : List (ℕ × ℕ)) (o : Option (S × Bool)) : Type 0 where
    state : S
    result : o ≡ some (state, true)
    freed : (u q : ℕ) → used state u q ≡ (if is_in t r rest u q then false else used s u q)

  -- The state behind one round.
  round : S → (t r : ℕ) → S
  round s t r = (m.checked_read (m.free_sector s t r).0 t r).0

  round-content :
      (s : S) (t r u q : ℕ) → on_disk t r ≡ true → content (round s t r) u q ≡ content s u q
  unfolding round
  round-content s t r u q h =
      (law.read_keeps (m.free_sector s t r).0 t r u q).0 ∙ (law.frees s t r u q h).0

  round-used :
      (s : S) (t r u q : ℕ)
      → on_disk t r ≡ true
      → used (round s t r) u q ≡ (if u == t && q == r then false else used s u q)
  unfolding round
  round-used s t r u q h =
      (law.read_keeps (m.free_sector s t r).0 t r u q).1 ∙ (law.frees s t r u q h).1

  round-link :
      (s : S) (t r : ℕ)
      → on_disk t r ≡ true
      → ((m.checked_read (m.free_sector s t r).0 t r).1 ≡ 0)
        × ((m.checked_read (m.free_sector s t r).0 t r).2 ≡ content s t r)
  round-link s t r h =
      let (ok, link) = law.reads (m.free_sector s t r).0 t r h in
      (ok, link ∙ (law.frees s t r t r h).0)

  delete_loop-IsFreed :
      (rest : List (ℕ × ℕ)) (fuel : ℕ) (s : S) (t r : ℕ)
      → IsChain s t r rest
      → length rest < fuel
      → IsFreed s t r rest (delete_loop m fuel s t r)
  unfolding delete_loop IsChain is_in round
  delete_loop-IsFreed rest zero s t r chain enough = absurd (omega arith)
  delete_loop-IsFreed [] (suc fuel) s t r (here, end) enough =
      let (ok, link) = round-link s t r here in
      rw (ok, link, end)
        (record { state = round s t r; result = refl; freed = λ u q. round-used s t r u q here })
  delete_loop-IsFreed ((t1, r1) ∷ rest) (suc fuel) s t r (here, more, to_t, to_r, chain) enough =
      let (ok, link) = round-link s t r here in
      let linked : (t1 == 0) ≡ false = ground (arith, more, to_t) in
      let ih =
        delete_loop-IsFreed rest fuel (round s t r) t1 r1
          (IsChain-kept rest s (round s t r) t1 r1 (λ u q. round-content s t r u q here) chain)
          (omega arith) in
      rw (ok, link, to_t, to_r, linked)
        (record {
          state = ih.state;
          result = ih.result;
          freed = λ u q. ground (arith, ih.freed u q, round-used s t r u q here);
        })

  -- The file is gone: its sectors are free, and its entry is cleared.
  pub record IsDeleted (s : S) (t r : ℕ) (rest : List (ℕ × ℕ)) (o : Option (S × ℕ)) : Type 0 where
    pub state : S
    pub result : o ≡ some (state, 1)
    pub freed : (u q : ℕ) → used state u q ≡ (if is_in t r rest u q then false else used s u q)
    pub cleared : entry state ≡ set (entry s) 2 0

  entry-IsDeleted :
      (s s1 : S) (t r : ℕ) (rest : List (ℕ × ℕ)) (o : Option (S × Bool))
      → ((u q : ℕ) → used s1 u q ≡ used s u q)
      → IsFreed s1 t r rest o
      → IsDeleted s t r rest (delete_entry m (entry s) o)
  unfolding delete_entry
  entry-IsDeleted s s1 t r rest o keep h =
      let (ok, cleared, closed) = law.closes h.state (set (entry s) 2 0) in
      rw (h.result, ok)
        (record {
          state = (m.write_entry h.state (set (entry s) 2 0)).0;
          result = refl;
          freed = λ u q. closed u q ∙ ground (arith, h.freed u q, keep u q);
          cleared = cleared;
        })

  -- On a disk whose functions succeed for the sectors that it has: for a file whose links form
  -- a chain of such sectors, d64_delete with more rounds of fuel than the chain has links ends
  -- with 1, has freed each sector of the chain and no other one, and has cleared the type of
  -- the entry and nothing else in it.
  pub d64_delete-IsDeleted :
      (fuel : ℕ) (s : S) (t r : ℕ) (rest : List (ℕ × ℕ))
      → length rest < fuel
      → (get_or (entry s) 3 0 ≡ t) × (get_or (entry s) 4 0 ≡ r)
      → IsChain s t r rest
      → IsDeleted s t r rest (d64_delete m fuel s)
  unfolding d64_delete delete_file
  d64_delete-IsDeleted fuel s t r rest enough (at_track, at_sector) chain =
      let (ok, same) = law.enters s in
      let s1 = (m.read_entry s).0 in
      rw (ok, same, at_track, at_sector)
        (entry-IsDeleted s s1 t r rest _ (λ u q. (law.entry_keeps s u q).1)
          (delete_loop-IsFreed rest fuel s1 t r
            (IsChain-kept rest s s1 t r (λ u q. (law.entry_keeps s u q).0) chain) enough))
