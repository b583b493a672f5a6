-- ===== src/D64/Delete.antt =====
-- `d64_delete` of src/d64ops.c: the sectors of a file are freed along their links. The loop takes fuel,
-- a round each, since links may form a ring; `none` means that the fuel ran out.
pub mod Freed
mod Tests
use nodiskemu.Prelude.{
  ℕ, zero, suc, Bool, true, false, not, Option, none, some, List, ◌==◌, if◌then◌else◌, get_or, set,
}

-- What `d64_delete` calls, on one partition; the entry is the file's in its directory.
pub record Disk (S : Type 0) : Type 0 where
  pub free_sector : S → (track sector : ℕ) → S × ℕ
  pub checked_read : S → (track sector : ℕ) → S × ℕ × List ℕ
  pub read_entry : S → S × ℕ × List ℕ
  pub write_entry : S → List ℕ → S × ℕ

module _ {S : Type 0} (m : Disk S) where
  -- The flag is false when a sector cannot be read. The result of `free_sector` is not looked at.
  unfoldable pub delete_loop : ℕ → S → (track sector : ℕ) → Option (S × Bool)
  delete_loop zero s track sector = none
  delete_loop (suc fuel) s track sector =
      let (s2, res, link) = m.checked_read (m.free_sector s track sector).0 track sector in
      let more = delete_loop fuel s2 (get_or link 0 0) (get_or link 1 0) in
      if not (res == 0)
      then some (s2, false)
      else if get_or link 0 0 == 0
      then some (s2, true)
      else more

  unfoldable pub delete_entry : List ℕ → Option (S × Bool) → Option (S × ℕ)
  delete_entry entry none = none
  delete_entry entry (some (s, false)) = some (s, 255)
  delete_entry entry (some (s, true)) =
      let (s1, res) = m.write_entry s (set entry 2 0) in some (s1, if res == 0 then 1 else 255)

  unfoldable pub delete_file : ℕ → S × ℕ × List ℕ → Option (S × ℕ)
  delete_file fuel (s, res, entry) =
      let freed = delete_entry entry (delete_loop fuel s (get_or entry 3 0) (get_or entry 4 0)) in
      if not (res == 0) then some (s, 255) else freed

  unfoldable pub d64_delete : ℕ → S → Option (S × ℕ)
  d64_delete fuel s = delete_file fuel (m.read_entry s)
