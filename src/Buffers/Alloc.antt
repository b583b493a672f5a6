-- ===== src/Buffers/Alloc.antt =====
-- `alloc_system_buffer` and `alloc_buffer`: which buffer is handed out, and in which state.
use native.Mathlib.Decide.{ℕ_discrete}
use nodiskemu.Prelude.{
  ℕ, zero, suc, ◌+◌, ◌%◌, ◌<◌, ◌≤◌, ◌≡◌, ◌≢◌, inl, inr, true, false, none, some, List, arith,
  get_elem?, get_elem?-set_self, get_elem?-set_ne, get_elem?-lt, Option-cases,
}
use nodiskemu.System.{Buffer, System}
use nodiskemu.Errors.{set_error}
use nodiskemu.Errors.Channel.{current_error-set_error_ts}
use nodiskemu.Buffers.{
  modify_at, is_allocated, fresh_buffer, alloc_specific_buffer, first_free, alloc_system_buffer,
  alloc_buffer, open_buffer,
}

-- The search finds the first free buffer of its range.
pub first_free-some :
    (rounds i : ℕ) (bs : List Buffer) (j : ℕ)
    → first_free rounds i bs ≡ some j
    → (i ≤ j) × (j < i + rounds) × (is_allocated bs j ≡ false)
unfolding first_free
first_free-some zero i bs j e = cc
first_free-some (suc rounds) i bs j e = ground (arith, first_free-some rounds (i + 1) bs j)

first_free-none :
    (rounds i : ℕ) (bs : List Buffer) (k : ℕ)
    → first_free rounds i bs ≡ none
    → i ≤ k
    → k < i + rounds
    → is_allocated bs k ≡ true
unfolding first_free
first_free-none zero i bs k e lo hi = absurd (omega arith)
first_free-none (suc rounds) i bs k e lo hi = elim (ℕ_discrete i k) [
  | yes p ↦ ground arith
  | no p ↦ ground (arith, first_free-none rounds (i + 1) bs k)
]

pub get_elem?-modify_at :
    (bs : List Buffer) (i : ℕ) (f : Buffer → Buffer) (b : Buffer)
    → get_elem? bs i ≡ some b
    → get_elem? (modify_at bs i f) i ≡ some (f b)
unfolding modify_at
get_elem?-modify_at bs i f b e = rw (e, modify_at) (get_elem?-set_self bs i _ (get_elem?-lt bs i e))

pub get_elem?-modify_at_ne :
    (bs : List Buffer) (i j : ℕ) (f : Buffer → Buffer)
    → i ≢ j
    → get_elem? (modify_at bs i f) j ≡ get_elem? bs j
unfolding modify_at
get_elem?-modify_at_ne bs i j f h = elim (Option-cases (get_elem? bs i)) [
  | inl e ↦ rw (e, modify_at)
  | inr (b, e) ↦ rw (e, modify_at) (get_elem?-set_ne bs _ h)
]

pub is_allocated-found :
    (bs : List Buffer) (j : ℕ)
    → is_allocated bs j ≡ false
    → (b : Buffer) × (get_elem? bs j ≡ some b) × (b.allocated ≡ false)
unfolding is_allocated
is_allocated-found bs j e = elim (Option-cases (get_elem? bs j)) [
  | inl q ↦ absurd (ground arith)
  | inr (b, q) ↦ (b, q, ground arith)
]

-- The buffer that was handed out, as it stands then.
pub alloc_specific_buffer_self :
    (bs : List Buffer) (j : ℕ)
    → is_allocated bs j ≡ false
    → (b : Buffer) × (get_elem? bs j ≡ some b)
      × (get_elem? (alloc_specific_buffer bs j) j ≡ some (fresh_buffer b))
unfolding alloc_specific_buffer
alloc_specific_buffer_self bs j free =
    let (b, q, unused) = is_allocated-found bs j free in
    (b, q, rw free (get_elem?-modify_at bs j fresh_buffer b q))

pub get_elem?-alloc_specific_buffer_ne :
    (bs : List Buffer) (i j : ℕ) → i ≢ j → get_elem? (alloc_specific_buffer bs i) j ≡ get_elem? bs j
unfolding alloc_specific_buffer
get_elem?-alloc_specific_buffer_ne bs i j h =
    ground (arith, get_elem?-modify_at_ne bs i j fresh_buffer h)

-- The two results of the search, carried through the allocating functions.
module _ (n : ℕ) (sys : System) where
  pub alloc_system_buffer-none :
      first_free n 0 sys.buffers ≡ none → alloc_system_buffer n sys ≡ (set_error n sys 70, none)
  unfolding alloc_system_buffer
  alloc_system_buffer-none e = rw (e, alloc_system_buffer)

  pub alloc_buffer-none :
      first_free n 0 sys.buffers ≡ none → alloc_buffer n sys ≡ (set_error n sys 70, none)
  unfolding alloc_buffer
  alloc_buffer-none e = rw (alloc_buffer, alloc_system_buffer-none e)

module _ (n : ℕ) (sys : System) (i : ℕ) (e : first_free n 0 sys.buffers ≡ some i) where
  pub alloc_system_buffer-some :
      alloc_system_buffer n sys
      ≡ (record sys { buffers = alloc_specific_buffer sys.buffers i }, some i)
  unfolding alloc_system_buffer
  alloc_system_buffer-some = rw (e, alloc_system_buffer)

  pub alloc_buffer-some : alloc_buffer n sys ≡ (
    record sys {
      buffers = modify_at (alloc_specific_buffer sys.buffers i) i open_buffer;
      active_buffers = (sys.active_buffers + 1) % 256;
      led_state = record sys.led_state { busy = true };
    },
    some i,
  )
  unfolding alloc_buffer
  alloc_buffer-some = rw (alloc_buffer, alloc_system_buffer-some)

-- The buffer `i` was the first free one; now it is a cleared buffer of a user around the data that
-- it had, and no other buffer has changed.
pub record IsHandedOut (n : ℕ) (old new : System) (i : ℕ) : Type 0 where
  pub below : i < n
  pub was_free : is_allocated old.buffers i ≡ false
  pub first : (k : ℕ) → k < i → is_allocated old.buffers k ≡ true
  pub cleared :
      (b : Buffer) × (get_elem? old.buffers i ≡ some b)
      × (get_elem? new.buffers i ≡ some (open_buffer (fresh_buffer b)))
  pub others : (j : ℕ) → i ≢ j → get_elem? new.buffers j ≡ get_elem? old.buffers j

-- `alloc_buffer` returns NULL only if every buffer is taken, and then the error is 70, NO CHANNEL.
pub alloc_buffer-full :
    (n : ℕ) (sys : System)
    → (alloc_buffer n sys).1 ≡ none
    → ((k : ℕ) → k < n → is_allocated sys.buffers k ≡ true)
      × ((alloc_buffer n sys).0.current_error ≡ 70)
unfolding set_error
alloc_buffer-full n sys e = elim (Option-cases (first_free n 0 sys.buffers)) [
  | inl q ↦ (
    λ k h. first_free-none n 0 sys.buffers k q (omega arith) (omega arith),
    rw (alloc_buffer-none n sys q) (current_error-set_error_ts n sys 70 0 0),
  )
  | inr (j, q) ↦ absurd (ground (arith, alloc_buffer-some n sys j q))
]
