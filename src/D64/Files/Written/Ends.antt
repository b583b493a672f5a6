-- ===== src/D64/Files/Written/Ends.antt =====
-- The last sector of a file that src/d64ops.c writes, and a sector that stands before others.
use nodiskemu.Prelude.{
  ℕ, ◌+◌, ◌≤◌, Bool, true, false, ◌&&◌, List, [], ◌∷◌, ◌==◌, if◌then◌else◌, length, ◌≡◌, refl, sym,
  ap, ◌∙◌, arith, Bool-cases, inl, inr,
}
use mathlib.Core.Path.{subst}
use nodiskemu.D64.Files.{
  FileBuffer, Disk, link_to, as_last, close_entry, closed_entry, close_stored, d64_write_cleanup,
}
use nodiskemu.D64.Files.Stored.{IsKept, IsDisk, IsStored}
use nodiskemu.D64.Files.Written.{IsStep, filled, IsLinked, filled-IsLinked}

module _ {S : Type 0} (m : Disk S) (content : S → (t r : ℕ) → List ℕ) (taken : S → (t r : ℕ) → Bool)
    (on_disk : (t r : ℕ) → Bool) (Valid : S → Type 0)
    (law : IsDisk m content taken on_disk Valid) where
  -- Sectors in use other than `(t, r)` keep their content, and stay in use.
  abbrev pub Keeps : S → (t r : ℕ) → S → Type 0
  Keeps s t r s1 =
      (u q : ℕ)
      → taken s u q ≡ true
      → (u == t && q == r) ≡ false
      → (content s1 u q ≡ content s u q) × (taken s1 u q ≡ true)

  abbrev Kept : S → S → Type 0
  Kept s s1 = IsKept content taken Valid s s1

  Kept-refl : (s : S) → Valid s → Kept s s
  Kept-refl s v = record { valid = v; takes = λ u q. refl; contents = λ u q h. refl }

  Kept-trans : (s s1 s2 : S) → Kept s s1 → Kept s1 s2 → Kept s s2
  Kept-trans s s1 s2 k k1 = record {
    valid = k1.valid;
    takes = λ u q. k1.takes u q ∙ k.takes u q;
    contents = λ u q h. k1.contents u q (k.takes u q ∙ h) ∙ k.contents u q h;
  }

  close_entry-keeps :
      (b : FileBuffer) (a : S × ℕ × List ℕ) → Valid a.0 → Kept a.0 (close_entry m b a).0
  unfolding close_entry
  close_entry-keeps b (s, res, entry) v =
      let closed = law.close_keeps s (closed_entry m b entry) v in
      let written = (m.write_entry s (closed_entry m b entry)).1 in
      elim (Bool-cases (res == 0)) [
        | inr bad ↦ rw bad (Kept-refl s v)
        | inl good ↦ elim (Bool-cases (written == 0)) [
          | inl e ↦ rw (good, e) closed
          | inr e ↦ rw (good, e) closed
        ]
      ]

  close_stored-keeps :
      (b : FileBuffer) (a : S × ℕ)
      → (close_stored m b a).1 ≡ 0
      → (a.1 ≡ 0) × (Valid a.0 → Kept a.0 (close_stored m b a).0)
  unfolding close_stored
  close_stored-keeps b (s, res) e = elim (Bool-cases (res == 0)) [
    | inr bad ↦ absurd (ground (arith, e, bad))
    | inl good ↦ rw good (
      ground (arith, good),
      λ v.
          let opened = law.entry_keeps s v in
          Kept-trans s _ _ opened (close_entry-keeps b (m.read_entry s) opened.valid),
    )
  ]

  -- A state in which one sector has new data.
  IsStored-last :
      (s s1 : S) (t r : ℕ) (last bytes : List ℕ)
      → IsLinked 0 (1 + length last) last bytes
      → taken s t r ≡ true
      → ((u q : ℕ)
          → taken s u q ≡ true
          → content s1 u q ≡ (if u == t && q == r then bytes else content s u q))
      → ((u q : ℕ) → taken s1 u q ≡ taken s u q)
      → IsStored m content taken on_disk Valid law s1 t r [] last × Keeps s t r s1
  unfolding IsStored
  IsStored-last s s1 t r last bytes link used writes same =
      let self : (t == t && r == r) ≡ true = ground arith in
      let there : content s1 t r ≡ bytes = writes t r used ∙ rw self refl in
      (
        (same t r ∙ used, rw there link.track, rw there link.sector, rw there link.data_same),
        λ u q h ne. (ground (arith, writes u q h, ne), same u q ∙ h),
      )

  -- The end of the file.
  pub d64_write_cleanup-IsStored :
      (s : S) (b : FileBuffer) (last : List ℕ)
      → length b.bytes ≡ 256
      → length last ≤ 254
      → Valid s
      → taken s b.track b.sector ≡ true
      → (d64_write_cleanup m s (filled last b)).1 ≡ 0
      → Valid (d64_write_cleanup m s (filled last b)).0
        × IsStored m content taken on_disk Valid law
            (d64_write_cleanup m s (filled last b)).0
            b.track
            b.sector
            []
            last
        × Keeps s b.track b.sector (d64_write_cleanup m s (filled last b)).0
  unfolding d64_write_cleanup as_last link_to filled
  d64_write_cleanup-IsStored s b last whole short v used e =
      let c = as_last (filled last b) in
      let link = filled-IsLinked 0 (1 + length last) last b.bytes whole short in
      let w = m.image_write s b.track b.sector c.bytes in
      elim (Bool-cases (b.track == 0)) [
        | inl lost ↦ absurd (ground (arith, e, lost))
        | inr fine ↦
            let e1 : (close_stored m c w).1 ≡ 0 = rw fine at e in
            let (ok, keep) = close_stored-keeps c w e1 in
            let (v1, wrote, same) = law.writes s b.track b.sector c.bytes v used link.whole ok in
            let k = keep v1 in
            let (stored, keeps) =
              IsStored-last s (close_stored m c w).0 b.track b.sector last c.bytes link used
                (λ u q h. k.contents u q (same u q ∙ h) ∙ wrote u q h)
                (λ u q. k.takes u q ∙ same u q) in
            rw fine (k.valid, stored, keeps)
      ]

  -- A step, and what follows it.
  pub step-IsStored :
      (xs : List (List ℕ)) (last x : List ℕ) (s s1 s2 : S) (b b1 : FileBuffer)
      → length x ≡ 254
      → taken s b.track b.sector ≡ true
      → IsStep m content taken on_disk Valid law s b x s1 b1
      → IsStored m content taken on_disk Valid law s2 b1.track b1.sector xs last
      → Keeps s1 b1.track b1.sector s2
      → IsStored m content taken on_disk Valid law s2 b.track b.sector (x ∷ xs) last
        × Keeps s b.track b.sector s2
  unfolding IsStored
  step-IsStored xs last x s s1 s2 b b1 full used step rest keeps =
      let other : (u q : ℕ) → taken s u q ≡ true → (u == b1.track && q == b1.sector) ≡ false =
        λ u q h. elim (Bool-cases (u == b1.track && q == b1.sector)) [
          | inr e ↦ e
          | inl e ↦
              let same_u : u ≡ b1.track = ground (arith, e) in
              let same_q : q ≡ b1.sector = ground (arith, e) in
              absurd (
                ground (
                  arith,
                  h,
                  ap (λ k. taken s k q) same_u,
                  ap (taken s b1.track) same_q,
                  step.fresh.1,
                ))
        ] in
      let still = λ (u q : ℕ) (h : taken s u q ≡ true).
        keeps u q (step.takes u q ∙ rw (other u q h) h) (other u q h) in
      let (same, on) = still b.track b.sector used in
      let link : IsLinked b1.track b1.sector x (content s2 b.track b.sector) =
        subst (IsLinked b1.track b1.sector x) (sym same) step.linked in
      (
        (
          on,
          λ zero_link. step.fresh.0 (sym link.track ∙ zero_link),
          rw full at link.data_same,
          rw (link.track, link.sector) rest,
        ),
        λ u q h ne. ((still u q h).0 ∙ step.kept u q h ne, (still u q h).1),
      )
