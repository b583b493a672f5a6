-- ===== src/Buffers/Count.antt =====
-- The counter `active_buffers`: 1 for each buffer of a user, 16 for each dirty one.
use nodiskemu.Prelude.{
  ℕ, zero, suc, ◌+◌, ◌%◌, ◌≡◌, ◌≢◌, refl, inl, inr, true, false, Option, none, some, List, [], ◌∷◌,
  ◌&&◌, not, arith, ltb, ◌==◌, if◌then◌else◌, get_elem?, set, Bool-cases, Option-cases,
}
use nodiskemu.System.{Buffer, System}
use nodiskemu.Errors.{set_error, set_error_ts}
use nodiskemu.Errors.Channel.{set_error_ts-SameUse, active_buffers-set_error_ts}
use nodiskemu.Buffers.Alloc.{
  is_allocated-found, alloc_specific_buffer_self, first_free-some, alloc_system_buffer-none,
  alloc_system_buffer-some, alloc_buffer-none, alloc_buffer-some,
}
use nodiskemu.Buffers.{
  sec_system, modify_at, is_allocated, fresh_buffer, alloc_specific_buffer, first_free,
  alloc_system_buffer, alloc_buffer, open_buffer, free_found, free_buffer, mark_buffer_dirty,
  mark_buffer_clean,
}

-- What a buffer adds to the counter. The error channel, at secondary address 15, is not counted.
unfoldable pub weight : Buffer → ℕ
weight b =
    if b.allocated && not (b.secondary == 15)
    then (if ltb b.secondary sec_system then 1 else 0) + (if b.dirty then 16 else 0)
    else 0

abbrev pub total : List Buffer → ℕ
total [] = 0
total (b ∷ bs) = weight b + total bs

-- The counter is right, as far as a uint8_t can tell.
pub record IsCounted (sys : System) : Type 0 where
  pub counted : sys.active_buffers ≡ total sys.buffers % 256

pub total-set :
    (bs : List Buffer) (i : ℕ) (b c : Buffer)
    → get_elem? bs i ≡ some b
    → total (set bs i c) + weight b ≡ total bs + weight c
total-set [] i b c h = cc
total-set (x ∷ bs) zero b c h = ground arith
total-set (x ∷ bs) (suc i) b c h = omega (arith, total-set bs i b c h)

free_found-IsCounted :
    (i : ℕ) (b : Buffer) (sys : System)
    → get_elem? sys.buffers i ≡ some b
    → IsCounted sys
    → IsCounted (free_found i (some b) sys)
unfolding free_found weight
free_found-IsCounted i b sys e h =
    ground (arith, h, total-set sys.buffers i b (record b { allocated = false }))

-- Freeing a buffer keeps the counter right: it takes off what the buffer had added.
pub free_buffer-IsCounted :
    (ptr : Option ℕ) (sys : System) → IsCounted sys → IsCounted (free_buffer ptr sys)
unfolding free_buffer
free_buffer-IsCounted none sys h = h
free_buffer-IsCounted (some i) sys h = elim (Option-cases (get_elem? sys.buffers i)) [
  | inl e ↦ rw (e, free_found) h
  | inr (b, e) ↦ rw e (free_found-IsCounted i b sys e h)
]

-- A change that leaves a buffer's weight leaves the counter right.
pub modify_at-total :
    (bs : List Buffer) (i : ℕ) (f : Buffer → Buffer)
    → ((b : Buffer) → get_elem? bs i ≡ some b → weight (f b) ≡ weight b)
    → total (modify_at bs i f) ≡ total bs
unfolding modify_at
modify_at-total bs i f h = elim (Option-cases (get_elem? bs i)) [
  | inl e ↦ rw (e, modify_at)
  | inr (b, e) ↦ rw (e, modify_at) (omega (arith, total-set bs i b (f b) e, h b e))
]

pub set_error_ts-IsCounted :
    (n : ℕ) (sys : System) (e track sector : ℕ)
    → IsCounted sys
    → IsCounted (set_error_ts n sys e track sector)
unfolding weight
set_error_ts-IsCounted n sys e track sector h = elim (set_error_ts-SameUse n sys e track sector) [
  | inl q ↦ record { counted = ground (arith, active_buffers-set_error_ts n sys e track sector, q) }
  | inr (b, c, found, q, same) ↦ record {
    counted = ground (
      arith,
      active_buffers-set_error_ts n sys e track sector,
      q,
      total-set sys.buffers n b c found,
    );
  }
]

-- A buffer that is handed out to the system counts nothing.
pub alloc_specific_buffer-total :
    (bs : List Buffer) (j : ℕ) → total (alloc_specific_buffer bs j) ≡ total bs
unfolding alloc_specific_buffer weight
alloc_specific_buffer-total bs j = elim (Bool-cases (is_allocated bs j)) [
  | inl e ↦ rw e
  | inr e ↦ rw e (
      let (b, q, free) = is_allocated-found bs j e in
      modify_at-total bs j fresh_buffer (λ c p. ground arith))
]

pub alloc_system_buffer-IsCounted :
    (n : ℕ) (sys : System) → IsCounted sys → IsCounted (alloc_system_buffer n sys).0
unfolding set_error
alloc_system_buffer-IsCounted n sys h = elim (Option-cases (first_free n 0 sys.buffers)) [
  | inl e ↦ rw (alloc_system_buffer-none n sys e) (set_error_ts-IsCounted n sys 70 0 0 h)
  | inr (i, e) ↦
      rw (alloc_system_buffer-some n sys i e)
        (record { counted = ground (arith, h, alloc_specific_buffer-total sys.buffers i) })
]

pub modify_at-total_of_found :
    (bs : List Buffer) (i : ℕ) (f : Buffer → Buffer) (b : Buffer)
    → get_elem? bs i ≡ some b
    → total (modify_at bs i f) + weight b ≡ total bs + weight (f b)
unfolding modify_at
modify_at-total_of_found bs i f b e = rw (e, modify_at) (total-set bs i b (f b) e)

weight-fresh_buffer : (b : Buffer) → weight (fresh_buffer b) ≡ 0
unfolding weight fresh_buffer
weight-fresh_buffer b = refl

weight-open_fresh : (b : Buffer) → weight (open_buffer (fresh_buffer b)) ≡ 1
unfolding weight fresh_buffer open_buffer
weight-open_fresh b = refl

-- Allocating keeps the counter right: a user's buffer counts one, and a failure nothing.
pub alloc_buffer-IsCounted :
    (n : ℕ) (sys : System) → IsCounted sys → IsCounted (alloc_buffer n sys).0
unfolding set_error
alloc_buffer-IsCounted n sys h = elim (Option-cases (first_free n 0 sys.buffers)) [
  | inl e ↦ rw (alloc_buffer-none n sys e) (set_error_ts-IsCounted n sys 70 0 0 h)
  | inr (i, e) ↦
      let (lo, hi, free) = first_free-some n 0 sys.buffers i e in
      let (b, q, q') = alloc_specific_buffer_self sys.buffers i free in
      rw (alloc_buffer-some n sys i e) (record {
        counted = omega (
          arith,
          h.counted,
          alloc_specific_buffer-total sys.buffers i,
          modify_at-total_of_found (alloc_specific_buffer sys.buffers i) i open_buffer
              (fresh_buffer b) q',
          weight-fresh_buffer b,
          weight-open_fresh b,
        );
      })
]

-- Marking an allocated buffer dirty, other than one at secondary address 15, keeps the count right:
-- it counts sixteen, once.
pub mark_buffer_dirty-IsCounted :
    (i : ℕ) (sys : System) (b : Buffer)
    → get_elem? sys.buffers i ≡ some b
    → b.allocated ≡ true
    → b.secondary ≢ 15
    → IsCounted sys
    → IsCounted (mark_buffer_dirty i sys)
unfolding mark_buffer_dirty weight
mark_buffer_dirty-IsCounted i sys b e used user h =
    rw e (ground (arith, h, total-set sys.buffers i b (record b { dirty = true })))

pub mark_buffer_clean-IsCounted :
    (i : ℕ) (sys : System) (b : Buffer)
    → get_elem? sys.buffers i ≡ some b
    → b.allocated ≡ true
    → b.secondary ≢ 15
    → IsCounted sys
    → IsCounted (mark_buffer_clean i sys)
unfolding mark_buffer_clean weight
mark_buffer_clean-IsCounted i sys b e used user h =
    rw e (ground (arith, h, total-set sys.buffers i b (record b { dirty = false })))
