-- ===== src/Buffers/Lights.antt =====
-- The LEDs show whether a buffer is in use and whether one is dirty, as long as the counter of
-- active buffers has room for both counts.
use nodiskemu.Prelude.{
  ℕ, zero, suc, ◌+◌, ◌*◌, ◌<◌, ◌≤◌, ◌≡◌, ◌↔◌, refl, Bool, true, not, ◌&&◌, some, List, [], ◌∷◌,
  arith, get_elem?, ◌==◌, ltb, if◌then◌else◌, length,
}
use nodiskemu.System.{Buffer, System}
use nodiskemu.Buffers.{sec_system, update_leds}
use nodiskemu.Buffers.Count.{weight, total, IsCounted}

-- The buffers of users, and the dirty buffers; the error channel is neither.
abbrev is_user : Buffer → Bool
is_user b = b.allocated && not (b.secondary == 15) && ltb b.secondary sec_system

abbrev is_dirty : Buffer → Bool
is_dirty b = b.allocated && not (b.secondary == 15) && b.dirty

abbrev pub users : List Buffer → ℕ
users [] = 0
users (b ∷ bs) = (if is_user b then 1 else 0) + users bs

abbrev pub dirties : List Buffer → ℕ
dirties [] = 0
dirties (b ∷ bs) = (if is_dirty b then 1 else 0) + dirties bs

weight_parts :
    (b : Buffer) → weight b ≡ (if is_user b then 1 else 0) + 16 * (if is_dirty b then 1 else 0)
unfolding weight
weight_parts b = ground arith

total_parts : (bs : List Buffer) → total bs ≡ users bs + 16 * dirties bs
total_parts [] = refl
total_parts (b ∷ bs) = omega (arith, weight_parts b, total_parts bs)

one_or_none : (b : Bool) → (if b then 1 else 0) ≤ 1
one_or_none b = ground arith

users-le : (bs : List Buffer) → users bs ≤ length bs
users-le [] = omega arith
users-le (b ∷ bs) = omega (arith, one_or_none (is_user b), users-le bs)

dirties-le : (bs : List Buffer) → dirties bs ≤ length bs
dirties-le [] = omega arith
dirties-le (b ∷ bs) = omega (arith, one_or_none (is_dirty b), dirties-le bs)

-- The error channel takes one place of the array.
channel_place :
    (bs : List Buffer) (n : ℕ) (err : Buffer)
    → get_elem? bs n ≡ some err
    → err.secondary ≡ 15
    → (users bs + 1 ≤ length bs) × (dirties bs + 1 ≤ length bs)
channel_place [] n err e s = cc
channel_place (b ∷ bs) zero err e s =
    let same : b.secondary ≡ 15 = ground arith in ground (arith, users-le bs, dirties-le bs, same)
channel_place (b ∷ bs) (suc n) err e s =
    omega (arith, one_or_none (is_user b), one_or_none (is_dirty b), channel_place bs n err e s)

-- With at most 15 buffers beside the error channel, the busy LED is on after `update_leds` exactly
-- if a user's buffer is allocated or a buffer is dirty, and the dirty LED exactly if one is dirty.
pub update_leds_lem :
    (n : ℕ) (sys : System) (err : Buffer)
    → n ≤ 15
    → length sys.buffers ≡ n + 1
    → get_elem? sys.buffers n ≡ some err
    → err.secondary ≡ 15
    → IsCounted sys
    → (((update_leds sys).led_state.busy ≡ true) ↔ (0 < users sys.buffers + dirties sys.buffers))
      × (((update_leds sys).led_state.dirty ≡ true) ↔ (0 < dirties sys.buffers))
unfolding update_leds
update_leds_lem n sys err small len e s h =
    let parts = total_parts sys.buffers in
    let (u, d) = channel_place sys.buffers n err e s in
    let value : sys.active_buffers ≡ users sys.buffers + 16 * dirties sys.buffers =
      omega (arith, h.counted) in
    ground arith

-- With 16 users' buffers or more, up to the 255 that the counter can hold, and no dirty buffer, the
-- dirty LED is on all the same: the count of users has run into the count of dirty buffers.
pub update_leds-overflow :
    (sys : System)
    → IsCounted sys
    → 16 ≤ users sys.buffers
    → users sys.buffers < 256
    → dirties sys.buffers ≡ 0
    → (update_leds sys).led_state.dirty ≡ true
unfolding update_leds
update_leds-overflow sys h lo hi clean =
    let value : 16 ≤ sys.active_buffers = omega (arith, h.counted, total_parts sys.buffers) in
    ground arith
