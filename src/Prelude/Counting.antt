-- ===== src/Prelude/Counting.antt =====
-- How many numbers below a bound have a property.
use Prim.Native.Nat.{ℕ, zero, suc, ◌+◌, ◌≤◌, ◌<◌}
use mathlib.Core.Path.{◌≡◌, refl, ap, ◌∙◌}
use mathlib.Core.Logic.{◌≢◌, inl, inr}
use mathlib.Core.Bool.{Bool, true, false}
use native.Mathlib.Omega.{arith}
use nodiskemu.Prelude.Tests.{◌==◌, if◌then◌else◌, Bool-cases}

unfoldable pub how_many : (ℕ → Bool) → ℕ → ℕ
how_many f zero = 0
how_many f (suc n) = (if f n then 1 else 0) + how_many f n

pub how_many_cong :
    (f g : ℕ → Bool) (n : ℕ) → ((i : ℕ) → i < n → g i ≡ f i) → how_many g n ≡ how_many f n
unfolding how_many
how_many_cong f g zero same = refl
how_many_cong f g (suc n) same =
    ground (arith, same n, how_many_cong f g n (λ i lt. same i (omega arith)))

-- A change at one number below the bound.
pub how_many_change :
    (f g : ℕ → Bool) (n r : ℕ) (value : Bool)
    → r < n
    → ((i : ℕ) → i < n → g i ≡ (if i == r then value else f i))
    → how_many g n + (if f r then 1 else 0) ≡ how_many f n + (if value then 1 else 0)
unfolding how_many
how_many_change f g zero r value lt change = omega arith
how_many_change f g (suc n) r value lt change = elim (Bool-cases (n == r)) [
  | inl e ↦
      let same : n ≡ r = ground (arith, e) in
      let rest = how_many_cong f g n (λ i below. ground (arith, change i)) in
      ground (arith, change n, same, rest)
  | inr e ↦
      let rest =
        how_many_change f g n r value (ground (arith, e)) (λ i below. change i (omega arith)) in
      ground (arith, change n, rest)
]

pub how_many_le : (f : ℕ → Bool) (n : ℕ) → how_many f n ≤ n
unfolding how_many
how_many_le f zero = omega arith
how_many_le f (suc n) = ground (arith, how_many_le f n)

-- None of the numbers from 0 on has the property where the count is 0.
pub how_many_zero : (f : ℕ → Bool) (n i : ℕ) → how_many f n ≡ 0 → i < n → f i ≡ false
unfolding how_many
how_many_zero f zero i none lt = absurd (omega arith)
how_many_zero f (suc n) i none lt = elim (Bool-cases (f n)) [
  | inl e ↦ absurd (ground (arith, e))
  | inr e ↦ elim (Bool-cases (i == n)) [
    | inl same ↦ let eq : i ≡ n = ground (arith, same) in rw eq e
    | inr other ↦ how_many_zero f n i (ground (arith, e)) (ground (arith, other))
  ]
]

pub how_many_none : (f : ℕ → Bool) (n : ℕ) → ((i : ℕ) → i < n → f i ≡ false) → how_many f n ≡ 0
unfolding how_many
how_many_none f zero none = refl
how_many_none f (suc n) none =
    ground (arith, none n, how_many_none f n (λ i lt. none i (omega arith)))

sum_step : (a b c d : ℕ) → b ≡ c + d → a + b ≡ c + (a + d)
sum_step a b c d e = omega arith

pub how_many_add :
    (f : ℕ → Bool) (m n : ℕ) → how_many f (m + n) ≡ how_many f m + how_many (λ i. f (m + i)) n
unfolding how_many
how_many_add f m zero =
    let none : m + 0 ≡ m = omega arith in
    let sum : how_many f m ≡ how_many f m + 0 = omega arith in ap (how_many f) none ∙ sum
how_many_add f m (suc n) =
    let shift : m + suc n ≡ suc (m + n) = omega arith in
    ap (how_many f) shift ∙ sum_step (if f (m + n) then 1 else 0) _ _ _ (how_many_add f m n)

-- Where the count is not 0, one of the numbers has the property.
pub how_many_some : (f : ℕ → Bool) (n : ℕ) → how_many f n ≢ 0 → (i : ℕ) × (i < n) × (f i ≡ true)
unfolding how_many
how_many_some f zero some_free = absurd (some_free refl)
how_many_some f (suc n) some_free = elim (Bool-cases (f n)) [
  | inl e ↦ (n, omega arith, e)
  | inr e ↦ let (i, lt, h) = how_many_some f n (ground (arith, e, some_free)) in (i, omega arith, h)
]
