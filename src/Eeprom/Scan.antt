-- ===== src/Eeprom/Scan.antt =====
-- The loops of `next_free_sector` and `next_free_entry` of src/eeprom-fs.c: they end within one
-- round over the bitmap, and find what is free.
use nodiskemu.Prelude.{
  ℕ, zero, suc, ◌+◌, ◌-◌, ◌%◌, ◌≤◌, ◌<◌, Bool, true, false, some, List, ◌≡◌, ◌≢◌, refl, ltb, leb,
  ◌==◌, if◌then◌else◌, ◌&&◌, ◌||◌, arith, Bool-cases, inl, inr, ◌⊎◌, sym,
}
use mathlib.Core.Path.{subst}
use nodiskemu.Eeprom.{scan, get_bit, Fs, Layout, next_free_sector, sector_count}

module _ (bitmap : List ℕ) (count start : ℕ) where
  -- The place behind `cur`.
  after : ℕ → ℕ
  after cur = if (cur + 1) % 256 == count then 0 else (cur + 1) % 256

  -- How many places the search has left before it is back at its start.
  left : ℕ → ℕ
  left cur = if leb start cur then count - cur + start else start - cur

  -- The places from the start up to `cur`, around the end of the bitmap.
  passed : (cur k : ℕ) → Bool
  passed cur k = if leb start cur then leb start k && ltb k cur else leb start k || ltb k cur

  -- The places that the search has passed are used.
  abbrev IsSearched : ℕ → Type 0
  IsSearched cur = (k : ℕ) → k < count → passed cur k ≡ true → get_bit bitmap k ≡ true

  -- What the search gives: a free place, or 255 when all are used.
  abbrev pub IsAnswer : ℕ → Type 0
  IsAnswer c =
      (c < count) × (get_bit bitmap c ≡ false)
      ⊎ (c ≡ 255) × ((k : ℕ) → k < count → get_bit bitmap k ≡ true)

  left-after :
      (cur : ℕ)
      → count ≤ 255
      → start < count
      → cur < count
      → after cur ≢ start
      → (left (after cur) + 1 ≡ left cur) × (after cur < count)
  unfolding after left
  left-after cur small start_lt cur_lt ne = ground arith

  passed-after :
      (cur k : ℕ)
      → count ≤ 255
      → start < count
      → cur < count
      → after cur ≢ start
      → k < count
      → passed (after cur) k ≡ true
      → (passed cur k ≡ true) ⊎ (k ≡ cur)
  unfolding after passed
  passed-after cur k small start_lt cur_lt ne k_lt p = ground arith

  passed-round :
      (cur k : ℕ)
      → count ≤ 255
      → start < count
      → cur < count
      → after cur ≡ start
      → k < count
      → (passed cur k ≡ true) ⊎ (k ≡ cur)
  unfolding after passed
  passed-round cur k small start_lt cur_lt eq k_lt = ground arith

  used_or :
      (k cur : ℕ)
      → IsSearched cur
      → get_bit bitmap cur ≡ true
      → k < count
      → (passed cur k ≡ true) ⊎ (k ≡ cur)
      → get_bit bitmap k ≡ true
  used_or k cur searched bit lt (inl p) = searched k lt p
  used_or k cur searched bit lt (inr eq) = subst (λ j. get_bit bitmap j ≡ true) (sym eq) bit

  scan_next :
      (rounds cur : ℕ)
      → scan (suc rounds) bitmap count start cur ≡ (
          if get_bit bitmap cur
          then (if after cur == start then some 255 else scan rounds bitmap count start (after cur))
          else some cur)
  unfolding scan after
  scan_next rounds cur = refl

  scan-IsAnswer :
      (rounds cur : ℕ)
      → count ≤ 255
      → start < count
      → cur < count
      → left cur ≤ rounds
      → IsSearched cur
      → (c : ℕ) × (scan rounds bitmap count start cur ≡ some c) × IsAnswer c
  unfolding left
  scan-IsAnswer zero cur small start_lt cur_lt enough searched = absurd (ground arith)
  scan-IsAnswer (suc rounds) cur small start_lt cur_lt enough searched =
      elim (Bool-cases (get_bit bitmap cur)) [
        | inr clear ↦ (cur, ground (arith, scan_next rounds cur), inl (cur_lt, clear))
        | inl used ↦ elim (Bool-cases (after cur == start)) [
          | inl back ↦ (
            255,
            ground (arith, scan_next rounds cur),
            inr (
              refl,
              λ k lt.
                  used_or k cur searched used lt
                    (passed-round cur k small start_lt cur_lt (ground arith) lt),
            ),
          )
          | inr on ↦
              let next = left-after cur small start_lt cur_lt (ground arith) in
              let (c, result, answer) =
                scan-IsAnswer rounds (after cur) small start_lt next.1 (ground (arith, next.0))
                  (λ k lt p.
                    used_or k cur searched used lt
                      (passed-after cur k small start_lt cur_lt (ground arith) lt p)) in
              (c, ground (arith, scan_next rounds cur), answer)
        ]
      ]

  -- A search for a free place ends, with a free one or with the answer that all are used.
  pub scan_total :
      count ≤ 255
      → start < count
      → (c : ℕ) × (scan 256 bitmap count start start ≡ some c) × IsAnswer c
  unfolding left passed
  scan_total small start_lt =
      scan-IsAnswer 256 start small start_lt start_lt (ground arith)
        (λ k lt p. absurd (ground arith))

-- With at most 255 sectors and a start among them `next_free_sector` ends: it gives a sector whose bit is clear, or
-- SECTOR_FREE, and then the bits of all sectors are set.
pub next_free_sector-IsAnswer :
    {M : Type 0}
    → (l : Layout) → (start : ℕ) → (s : Fs M) → sector_count l ≤ 255
    → start < sector_count l
    → (c : ℕ) × (next_free_sector l start s ≡ some c)
      × IsAnswer s.used_sectors (sector_count l) start c
unfolding next_free_sector
next_free_sector-IsAnswer l start s small lt =
    scan_total s.used_sectors (sector_count l) start small lt
