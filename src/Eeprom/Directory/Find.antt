-- ===== src/Eeprom/Directory/Find.antt =====
-- What `find_entry` of src/eeprom-fs.c returns.
use nodiskemu.Prelude.{
  ℕ, zero, suc, ◌+◌, ◌*◌, ◌≤◌, ◌<◌, true, false, List, ◌≡◌, refl, arith, ◌==◌, Bool-cases, inl, inr,
  ◌⊎◌,
}
use mathlib.Core.Path.{subst}
use nodiskemu.Eeprom.{Chip, Fs, Layout, block, read_entry}
use nodiskemu.Eeprom.Write.{if_intro}
use nodiskemu.Eeprom.Directory.{find_from, find_entry, is_named}

-- The entry of an index in the EEPROM.
unfoldable pub entry_at : {M : Type 0} → Chip M → M → ℕ → List ℕ
entry_at chip m idx = block (chip.byte_at m) (32 * idx) 32

module _ {M : Type 0} (chip : Chip M) (name : List ℕ) (s : Fs M) where
  -- The answer of a search from `idx` to `limit`: the first entry of the name, which is then in
  -- the buffer, or 255 when there is none. The EEPROM and the bitmaps are untouched.
  pub record IsAnswer (idx limit : ℕ) (s1 : Fs M) (found : ℕ) : Type 0 where
    pub answer :
        (idx ≤ found)
          × (found < limit)
          × (is_named name (entry_at chip s.eeprom found) ≡ true)
          × (s1.buffer ≡ entry_at chip s.eeprom found)
        ⊎ (found ≡ 255)
          × ((k : ℕ) → idx ≤ k → k < limit → is_named name (entry_at chip s.eeprom k) ≡ false)
    pub first :
        (k : ℕ) → idx ≤ k → k < limit → k < found → is_named name (entry_at chip s.eeprom k) ≡ false
    pub same_eeprom : s1.eeprom ≡ s.eeprom
    pub same_sectors : s1.used_sectors ≡ s.used_sectors
    pub same_entries : s1.used_entries ≡ s.used_entries
    pub same_free : s1.free_sectors ≡ s.free_sectors

other_from :
    {M : Type 0}
    → (chip : Chip M) → (name : List ℕ) → (m : M) → (idx k : ℕ)
    → is_named name (entry_at chip m idx) ≡ false
    → idx ≤ k
    → (idx + 1 ≤ k → is_named name (entry_at chip m k) ≡ false)
    → is_named name (entry_at chip m k) ≡ false
other_from chip name m idx k other le later = elim (Bool-cases (k == idx)) [
  | inl same ↦ subst (λ j. is_named name (entry_at chip m j) ≡ false) (ground arith) other
  | inr differs ↦ later (ground arith)
]

-- The search from `idx` on, when its entry is none of the name.
skip :
    {M : Type 0}
    → (chip : Chip M) → (name : List ℕ) → (s : Fs M) → (idx limit : ℕ) → (s1 : Fs M) → (found : ℕ)
    → idx < limit
    → is_named name (entry_at chip s.eeprom idx) ≡ false
    → IsAnswer chip name (read_entry chip idx s) (idx + 1) limit s1 found
    → IsAnswer chip name s idx limit s1 found
unfolding read_entry
skip chip name s idx limit s1 found lt other rest = record {
  answer = elim rest.answer [
    | inl (above, below, named, buffer) ↦ inl (omega arith, below, named, buffer)
    | inr (none_found, refused) ↦ inr (
      none_found,
      λ k le k_lt. other_from chip name s.eeprom idx k other le (λ lt1. refused k lt1 k_lt),
    )
  ];
  first = λ k le k_lt k_found.
      other_from chip name s.eeprom idx k other le (λ lt1. rest.first k lt1 k_lt k_found);
  same_eeprom = rest.same_eeprom;
  same_sectors = rest.same_sectors;
  same_entries = rest.same_entries;
  same_free = rest.same_free;
}

find_from-IsAnswer :
    {M : Type 0}
    → (chip : Chip M) → (name : List ℕ) → (rounds idx : ℕ) → (s : Fs M)
    → IsAnswer chip name s idx
        (idx + rounds)
        (find_from chip rounds idx name s).0
        (find_from chip rounds idx name s).1
unfolding find_from read_entry entry_at
find_from-IsAnswer chip name zero idx s = record {
  answer = inr (refl, λ k le lt. absurd (omega arith));
  first = λ k le lt l. absurd (omega arith);
  same_eeprom = refl;
  same_sectors = refl;
  same_entries = refl;
  same_free = refl;
}
find_from-IsAnswer {M} chip name (suc rounds) idx s =
    let s1 = read_entry chip idx s in
    let IsResult : Fs M × ℕ → Type 0 = λ q. IsAnswer chip name s idx (idx + suc rounds) q.0 q.1 in
    if_intro IsResult (is_named name (entry_at chip s.eeprom idx))
      (λ named. record {
        answer = inl (omega arith, omega arith, named, refl);
        first = λ k le lt l. absurd (omega arith);
        same_eeprom = refl;
        same_sectors = refl;
        same_entries = refl;
        same_free = refl;
      })
      (λ other. skip chip name s idx (idx + suc rounds) _ _ (omega arith) other (
        subst
          (λ n.
            IsAnswer chip name s1 (idx + 1) n (find_from chip rounds (idx + 1) name s1).0
              (find_from chip rounds (idx + 1) name s1).1)
          (omega arith) (find_from-IsAnswer chip name rounds (idx + 1) s1)))

-- `find_entry` gives the first entry of the directory that has the name and is neither deleted nor a
-- list of sectors, and leaves that entry in the buffer; it gives 255 only when there is none. It
-- changes neither the EEPROM nor the bitmaps nor the count of free sectors.
pub find_entry-IsAnswer :
    {M : Type 0}
    → (chip : Chip M) → (l : Layout) → (name : List ℕ) → (s : Fs M)
    → IsAnswer chip name s 0 l.entries (find_entry chip l name s).0 (find_entry chip l name s).1
unfolding find_entry
find_entry-IsAnswer chip l name s =
    subst (λ n. IsAnswer chip name s 0 n (find_entry chip l name s).0 (find_entry chip l name s).1)
      (omega arith) (find_from-IsAnswer chip name l.entries 0 s)
