-- ===== src/D64/Files/Written/RoundTrip.antt =====
-- `d64_write`, `d64_write_cleanup` and `d64_read` of src/d64ops.c together.
use nodiskemu.Prelude.{
  ℕ, ◌≤◌, Bool, true, ◌&&◌, Option, none, some, List, [], ◌∷◌, ◌==◌, get_or, length, ◌≡◌, refl, ap,
  ◌∙◌, arith, Bool-cases, inl, inr,
}
use mathlib.Core.Path.{subst}
use nodiskemu.D64.Files.{FileBuffer, Disk, d64_write, d64_write_cleanup, d64_read}
use nodiskemu.D64.Files.Stored.{IsDisk, IsStored, joined, read_on, d64_read-IsStored}
use nodiskemu.D64.Files.Written.{ended, write_on, AllFull, IsStep, d64_write-IsStep, filled}
use nodiskemu.D64.Files.Written.Ends.{Keeps, d64_write_cleanup-IsStored, step-IsStored}

module _ {S : Type 0} (m : Disk S) (content : S → (t r : ℕ) → List ℕ) (taken : S → (t r : ℕ) → Bool)
    (on_disk : (t r : ℕ) → Bool) (Valid : S → Type 0)
    (law : IsDisk m content taken on_disk Valid) where
  ended_lem :
      (a : S × ℕ) (s1 : S)
      → ended m content taken on_disk Valid law a ≡ some s1
      → (a.1 ≡ 0) × (some a.0 ≡ some s1)
  unfolding ended
  ended_lem (s, res) s1 e = elim (Bool-cases (res == 0)) [
    | inr bad ↦ absurd (ground (arith, e, bad))
    | inl good ↦ (ground (arith, good), rw good at e)
  ]

  -- The state that an option has, where there is one.
  state_or : S → Option S → S
  state_or s none = s
  state_or s (some s1) = s1

  some_state : (a s1 : S) → some a ≡ some s1 → a ≡ s1
  unfolding state_or
  some_state a s1 e = ap (state_or a) e

  Stored : S → FileBuffer → List (List ℕ) → List ℕ → S → Type 0
  Stored s b xs last s1 =
      Valid s1
      × IsStored m content taken on_disk Valid law s1 b.track b.sector xs last
      × Keeps m content taken on_disk Valid law s b.track b.sector s1

  write_more :
      (xs : List (List ℕ)) (last x : List ℕ) (s s1 : S) (b : FileBuffer) (a : S × Option FileBuffer)
      → length x ≡ 254
      → taken s b.track b.sector ≡ true
      → ((b1 : FileBuffer) → a.1 ≡ some b1 → IsStep m content taken on_disk Valid law s b x a.0 b1)
      → ((b1 : FileBuffer)
          → length b1.bytes ≡ 256
          → Valid a.0
          → taken a.0 b1.track b1.sector ≡ true
          → write_on m content taken on_disk Valid law xs last (a.0, some b1) ≡ some s1
          → Stored a.0 b1 xs last s1)
      → write_on m content taken on_disk Valid law xs last a ≡ some s1
      → Stored s b (x ∷ xs) last s1
  unfolding write_on Stored
  write_more xs last x s s1 b (s2, none) full used step rest e = absurd (ground (arith, e))
  write_more xs last x s s1 b (s2, some b1) full used step rest e =
      let go = step b1 refl in
      let self : (b1.track == b1.track && b1.sector == b1.sector) ≡ true = ground arith in
      let (v1, stored, keeps) =
        rest b1 go.whole go.valid (go.takes b1.track b1.sector ∙ rw self refl) e in
      let (more, still) =
        step-IsStored m content taken on_disk Valid law xs last x s s2 s1 b b1 full used go stored
          keeps in
      (v1, more, still)

  -- A file that is written without an error is stored.
  write_on-IsStored :
      (xs : List (List ℕ)) (last : List ℕ) (s s1 : S) (b : FileBuffer)
      → AllFull m content taken on_disk Valid law xs
      → length last ≤ 254
      → length b.bytes ≡ 256
      → Valid s
      → taken s b.track b.sector ≡ true
      → write_on m content taken on_disk Valid law xs last (s, some b) ≡ some s1
      → Stored s b xs last s1
  unfolding write_on Stored
  write_on-IsStored [] last s s1 b full short whole v used e =
      let (ok, same) = ended_lem (d64_write_cleanup m s (filled last b)) s1 e in
      subst (Stored s b [] last) (some_state _ s1 same) (
        d64_write_cleanup-IsStored m content taken on_disk Valid law s b last whole short v used ok)
  write_on-IsStored (x ∷ xs) last s s1 b (full, more) short whole v used e =
      write_more xs last x s s1 b (d64_write m s (filled x b)) full used
        (λ b1 ok. d64_write-IsStep m content taken on_disk Valid law s b b1 x whole full v used ok)
        (λ b1 whole1 v1 used1 e1. write_on-IsStored xs last _ s1 b1 more short whole1 v1 used1 e1) e

  -- On a valid disk, in whose valid states the sectors for data that are in use can be read,
  -- get_next_sector finds only sectors for data that are not in use, or reports an error, and
  -- the calls change no other sector in use than the one they are asked to: a file of full
  -- blocks of 254 bytes and a last one of at most 254, which d64_write and d64_write_cleanup
  -- have written without an error from a sector in use, is read back byte for byte by d64_read
  -- from that sector on, with the end of the file where it was.
  pub d64_read-d64_write :
      (xs : List (List ℕ)) (last : List ℕ) (s s1 : S) (b r : FileBuffer)
      → AllFull m content taken on_disk Valid law xs
      → length last ≤ 254
      → length b.bytes ≡ 256
      → Valid s
      → taken s b.track b.sector ≡ true
      → write_on m content taken on_disk Valid law xs last (s, some b) ≡ some s1
      → (get_or r.bytes 0 0 ≡ b.track) × (get_or r.bytes 1 0 ≡ b.sector)
      → read_on m content taken on_disk Valid law (length xs) (d64_read m s1 r)
        ≡ some (joined m content taken on_disk Valid law xs last)
  unfolding Stored
  d64_read-d64_write xs last s s1 b r full short whole v used e (at_track, at_sector) =
      let (v1, stored, keeps) = write_on-IsStored xs last s s1 b full short whole v used e in
      d64_read-IsStored m content taken on_disk Valid law xs last s1 r v1
        (rw (at_track, at_sector) stored)
