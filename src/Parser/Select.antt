-- ===== src/Parser/Select.antt =====
-- `next_match` of src/parser.c: the next directory entry that meets a pattern, a
-- type and a range of dates. `readdir` belongs to the file system of the partition: a directory
-- handle is the sequence of what its next calls give.
mod Tests
use Prim.Native.Nat.{bit_and}
use nodiskemu.Prelude.{
  ℕ, ◌≡◌, refl, ap, Option-cases, ◌⊎◌, inl, inr, Bool, true, false, Option, none, some, List, [],
  ◌∷◌, ◌++◌, ◌&&◌, ◌||◌, not, arith, ltb, ◌==◌, if◌then◌else◌, All, test_bit,
}
use mathlib.Core.Path.{subst}
use nodiskemu.Parser.{Date}
use nodiskemu.Parser.Match.{match_name}

-- `opstype_t`
pub data OpsType : Type 0 where
  undefined fat fat_x00 dxx eefs : OpsType

-- The part of `cbmdirent_t` that is read here.
pub record DirEntry : Type 0 where
  pub name : List ℕ
  pub typeflags : ℕ
  pub blocksize : ℕ
  pub remainder : ℕ
  pub date : Date
  pub opstype : OpsType

-- What `readdir` returns in place of an entry: -1 at the end, 1 on an error.
pub data Stop : Type 0 where
  no_more failed : Stop

pub data Listing : Type 0 where
  entry : DirEntry → Listing → Listing
  stop : Stop → Listing

-- `memcmp(a, b, sizeof(date_t)) < 0`: the fields stand in the order of their weight.
date_bytes : Date → List ℕ
date_bytes d = d.year ∷ d.month ∷ d.day ∷ d.hour ∷ d.minute ∷ d.second ∷ []

memcmp_lt : List ℕ → List ℕ → Bool
memcmp_lt [] ys = false
memcmp_lt (a ∷ xs) [] = false
memcmp_lt (a ∷ xs) (b ∷ ys) = if a == b then memcmp_lt xs ys else ltb a b

pub date_lt : Date → Date → Bool
unfolding date_bytes memcmp_lt
date_lt a b = memcmp_lt (date_bytes a) (date_bytes b)

pub record Filter : Type 0 where
  pub matchstr : Option (List ℕ)
  pub start : Option Date
  pub end : Option Date
  pub type_ : ℕ

pub ignores_case : OpsType → Bool
ignores_case fat = true
ignores_case _ = false

-- The tests of one round, `none` where `match_name` reads outside the name.
wrong_type : Filter → DirEntry → Bool
wrong_type q e = not (bit_and q.type_ 7 == 0) && not (bit_and e.typeflags 7 == bit_and q.type_ 7)

is_hidden : Filter → DirEntry → Bool
is_hidden q e = test_bit e.typeflags 5 && not (test_bit q.type_ 5)

name_result : Bool → Option (List ℕ) → DirEntry → Option ℕ
unfolding ignores_case
name_result postmatch none e = some 1
name_result postmatch (some matchstr) e =
    match_name postmatch matchstr e.name (ignores_case e.opstype)

too_early : Option Date → DirEntry → Bool
too_early none e = false
too_early (some start) e = date_lt e.date start

too_late : Option Date → DirEntry → Bool
too_late none e = false
too_late (some end) e = date_lt end e.date

-- Whether a round returns the entry.
pub accepts : Bool → Filter → DirEntry → Option Bool
accepts postmatch q e =
    if wrong_type q e
    then some false
    else if is_hidden q e
    then some false
    else elim (name_result postmatch q.matchstr e) [
      | none ↦ none
      | some r ↦ some (not (r == 0) && not (too_early q.start e) && not (too_late q.end e))
    ]

pub data Outcome : Type 0 where
  found : DirEntry → Listing → Outcome
  ended : Stop → Outcome
  fault : Outcome

pub next_match : Bool → Listing → Filter → Outcome
next_match postmatch (stop s) q = ended s
next_match postmatch (entry e rest) q =
    let more = next_match postmatch rest q in
    elim (accepts postmatch q e) [ none ↦ fault | some b ↦ if b then found e rest else more ]

-- Entries in front of a listing.
abbrev pub prepend : List DirEntry → Listing → Listing
prepend [] l = l
prepend (e ∷ es) l = entry e (prepend es l)

-- What a returned entry meets, in the terms of the caller's arguments.
pub record Meets (postmatch : Bool) (q : Filter) (e : DirEntry) : Type 0 where
  pub type_ok : (bit_and q.type_ 7 ≡ 0) ⊎ (bit_and e.typeflags 7 ≡ bit_and q.type_ 7)
  pub hidden_ok : (test_bit e.typeflags 5 ≡ false) ⊎ (test_bit q.type_ 5 ≡ true)
  pub name_ok :
      (p : List ℕ)
      → q.matchstr ≡ some p
      → (r : ℕ) × (match_name postmatch p e.name (ignores_case e.opstype) ≡ some r)
        × ((r == 0) ≡ false)
  pub start_ok : (d : Date) → q.start ≡ some d → date_lt e.date d ≡ false
  pub end_ok : (d : Date) → q.end ≡ some d → date_lt d e.date ≡ false

pub record IsFirst (postmatch : Bool) (q : Filter) (l : Listing) (e : DirEntry) (rest : Listing)
    : Type 0 where
  pub skipped : List DirEntry
  pub whole : l ≡ prepend skipped (entry e rest)
  pub refused : All (λ d. accepts postmatch q d ≡ some false) skipped
  pub met : Meets postmatch q e

accepts-name :
    (postmatch : Bool) (q : Filter) (e : DirEntry)
    → accepts postmatch q e ≡ some true
    → (r : ℕ) × (name_result postmatch q.matchstr e ≡ some r) × ((r == 0) ≡ false)
unfolding accepts
accepts-name postmatch q e h = ground arith

accepts-Meets :
    (postmatch : Bool) (q : Filter) (e : DirEntry)
    → accepts postmatch q e ≡ some true
    → Meets postmatch q e
unfolding accepts wrong_type is_hidden name_result too_early too_late
accepts-Meets postmatch q e h = record {
  type_ok = ground arith;
  hidden_ok = ground arith;
  name_ok = λ p eq.
      subst (λ m. (r : ℕ) × (name_result postmatch m e ≡ some r) × ((r == 0) ≡ false)) eq
        (accepts-name postmatch q e h);
  start_ok = λ d eq. ground arith;
  end_ok = λ d eq. ground arith;
}

-- An entry that `next_match` returns is the first one of the listing that its tests pass: it has
-- the type, the visibility, the name and a date in the range that are asked for, and each entry
-- in front of it is refused.
pub next_match-IsFirst :
    (postmatch : Bool) (q : Filter) (l : Listing) (e : DirEntry) (rest : Listing)
    → next_match postmatch l q ≡ found e rest
    → IsFirst postmatch q l e rest
unfolding next_match
next_match-IsFirst postmatch q (stop s) e rest h = cc
next_match-IsFirst postmatch q (entry d l) e rest h = elim (Option-cases (accepts postmatch q d)) [
  | inl a ↦ absurd (ground arith)
  | inr (true, a) ↦ record {
    skipped = [];
    whole = ground arith;
    refused = tt;
    met = subst (λ x. Meets postmatch q x) (ground arith) (accepts-Meets postmatch q d a);
  }
  | inr (false, a) ↦
      let ih = next_match-IsFirst postmatch q l e rest (ground arith) in
      record {
        skipped = d ∷ ih.skipped;
        whole = ap (entry d) ih.whole;
        refused = (a, ih.refused);
        met = ih.met;
      }
]
