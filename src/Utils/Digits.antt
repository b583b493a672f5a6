-- ===== src/Utils/Digits.antt =====
-- Numbers in decimal and in BCD, `appendnumber`, `bcd2int` and `int2bcd`.
use mathlib.Core.List.{append_assoc}
use nodiskemu.Prelude.{
  ℕ, ◌+◌, ◌/◌, ◌%◌, ◌<◌, ◌≤◌, ◌≡◌, refl, true, [], ◌∷◌, List, ◌++◌, arith, leb, ◌==◌, ==_iff,
  all_below, all_below_sound, length, length-append, if◌then◌else◌,
}
use nodiskemu.Utils.{append_number, bcd2int, int2bcd}

bcd_table : all_below 160 (λ v. bcd2int (int2bcd v) == v) ≡ true
unfolding all_below bcd2int int2bcd
bcd_table = refl

-- A number below 160 survives the way to BCD and back.
pub bcd2int-int2bcd : (v : ℕ) → v < 160 → bcd2int (int2bcd v) ≡ v
bcd2int-int2bcd v h = (==_iff _ v).0 (all_below_sound 160 _ v bcd_table h)

-- Two or three characters are written behind what is there.
pub length-append_number :
    (msg : List ℕ) (v : ℕ)
    → length (append_number msg v) ≡ length msg + (if leb 100 v then 3 else 2)
unfolding append_number
length-append_number msg v = ground (
  arith,
  length-append {0} msg ((48 + v / 100) ∷ []),
  length-append {0} msg ((48 + v / 10) ∷ (48 + v % 10) ∷ []),
  length-append {0} (msg ++ (48 + v / 100) ∷ []) ((48 + v % 100 / 10) ∷ (48 + v % 100 % 10) ∷ []),
)

pub append_number-prefix : (msg : List ℕ) (v : ℕ) → append_number msg v ≡ msg ++ append_number [] v
unfolding append_number
append_number-prefix msg v =
    ground (
      arith,
      append_assoc msg ((48 + v / 100) ∷ []) ((48 + v % 100 / 10) ∷ (48 + v % 100 % 10) ∷ []),
    )

-- What stands in front can be taken out of the call.
pub append_number-append :
    (m s : List ℕ) (v : ℕ) → append_number (m ++ s) v ≡ m ++ append_number s v
append_number-append m s v = rw (
  append_number-prefix (m ++ s) v,
  append_number-prefix s v,
  append_assoc m s (append_number [] v),
)

pub append_number-cons :
    (c : ℕ) (s : List ℕ) (v : ℕ) → append_number (c ∷ s) v ≡ c ∷ append_number s v
append_number-cons c s v = append_number-append (c ∷ []) s v

pub length-append_number-le : (msg : List ℕ) (v : ℕ) → length (append_number msg v) ≤ length msg + 3
length-append_number-le msg v = ground (arith, length-append_number msg v)
