-- ===== src/D64/Delete/Tests.antt =====
-- Examples for `d64_delete` of src/d64ops.c.
use nodiskemu.Prelude.{ℕ, Bool, false, ◌&&◌, List, [], ◌∷◌, ◌==◌, ltb, if◌then◌else◌, refl, arith}
use nodiskemu.D64.Delete.{Disk, d64_delete}
use nodiskemu.D64.Delete.Freed.{IsDisk, IsChain, IsDeleted, d64_delete-IsDeleted}

-- A disk with a file in the sectors 0 and 1 of track 1.
record State : Type 0 where
  in_use : ℕ → ℕ → Bool
  file : List ℕ

abbrev sectors : ℕ → ℕ → List ℕ
sectors t r = if t == 1 && r == 0 then 1 ∷ 1 ∷ [] else 0 ∷ 9 ∷ []

abbrev disk : Disk State
disk = record {
  free_sector =
      λ s t r. (record s { in_use = λ u q. if u == t && q == r then false else s.in_use u q }, 0);
  checked_read = λ s t r. (s, 0, sectors t r);
  read_entry = λ s. (s, 0, s.file);
  write_entry = λ s bytes. (record s { file = bytes }, 0);
}

abbrev on_disk : ℕ → ℕ → Bool
on_disk t r = (t == 1) && ltb r 21

abbrev contents : State → ℕ → ℕ → List ℕ
contents s t r = sectors t r

abbrev used_in : State → ℕ → ℕ → Bool
used_in s t r = s.in_use t r

abbrev file_of : State → List ℕ
file_of s = s.file

disk-IsDisk : IsDisk disk on_disk contents used_in file_of
disk-IsDisk = record {
  reads = λ s t r h. (refl, refl);
  read_keeps = λ s t r u q. (refl, refl);
  frees = λ s t r u q h. (refl, refl);
  enters = λ s. (refl, refl);
  entry_keeps = λ s u q. (refl, refl);
  closes = λ s bytes. (refl, refl, λ u q. refl);
}

abbrev one_file : State
one_file = record { in_use = λ t r. (t == 1) && ltb r 2; file = 0 ∷ 0 ∷ 130 ∷ 1 ∷ 0 ∷ [] }

one_file-IsChain :
    IsChain disk on_disk contents used_in file_of disk-IsDisk one_file 1 0 ((1, 1) ∷ [])
unfolding IsChain
one_file-IsChain = (refl, omega arith, refl, refl, (refl, refl))

d64_delete-IsDeleted_example :
    IsDeleted disk on_disk contents used_in file_of disk-IsDisk one_file 1 0
      ((1, 1) ∷ [])
      (d64_delete disk 2 one_file)
d64_delete-IsDeleted_example =
    d64_delete-IsDeleted disk on_disk contents used_in file_of disk-IsDisk 2 one_file 1 0
      ((1, 1) ∷ []) (omega arith) (refl, refl) one_file-IsChain
