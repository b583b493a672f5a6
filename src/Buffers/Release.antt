-- ===== src/Buffers/Release.antt =====
-- `free_multiple_buffers`: what is freed, and which callbacks run.
use nodiskemu.Prelude.{
  ℕ, zero, suc, ◌+◌, ◌<◌, ◌≤◌, ◌≡◌, ◌≢◌, ◌⊎◌, refl, inl, inr, Bool, false, not, ◌&&◌, Option, none,
  some, arith, ◌∙◌, ap, ltb, get_elem?, ◌==◌, Bool-cases, if◌then◌else◌, test_bit,
  get_elem?-set_self, get_elem?-set_ne, get_elem?-lt,
}
use native.Mathlib.Decide.{ℕ_discrete}
use mathlib.Core.Path.{subst}
use nodiskemu.System.{Callback, Buffer, System}
use nodiskemu.Buffers.{
  free_buffer, release, is_selected, clean_step, free_multiple_step, free_multiple_loop,
  free_multiple_buffers,
}
use nodiskemu.Buffers.Count.{IsCounted, free_buffer-IsCounted}

abbrev Call : Type 0
Call = Callback → ℕ → System → System × ℕ

module _ (call : Call)
    (keeps : (c : Callback) (i : ℕ) (s : System) → IsCounted s → IsCounted (call c i s).0) where
  clean_step-IsCounted :
      (flags i : ℕ) (b : Buffer) (sys : System) (res : Bool)
      → IsCounted sys
      → IsCounted (clean_step call flags i b sys res).0
  unfolding clean_step
  clean_step-IsCounted flags i b sys res h = ground (arith, keeps b.cleanup i sys h)

  free_multiple_step-IsCounted :
      (flags i : ℕ) (o : Option Buffer) (sys : System) (res : Bool)
      → IsCounted sys
      → IsCounted (free_multiple_step call flags i o sys res).0
  unfolding free_multiple_step
  free_multiple_step-IsCounted flags i none sys res h = h
  free_multiple_step-IsCounted flags i (some b) sys res h =
      elim (Bool-cases (is_selected flags b)) [
        | inl e ↦
            rw (e, free_multiple_step)
              (free_buffer-IsCounted (some i) _ (clean_step-IsCounted flags i b sys res h))
        | inr e ↦ rw (e, free_multiple_step) h
      ]

  free_multiple_loop-IsCounted :
      (flags rounds i : ℕ) (sys : System) (res : Bool)
      → IsCounted sys
      → IsCounted (free_multiple_loop call flags rounds i sys res).0
  unfolding free_multiple_loop
  free_multiple_loop-IsCounted flags zero i sys res h = h
  free_multiple_loop-IsCounted flags (suc rounds) i sys res h =
      free_multiple_loop-IsCounted flags rounds (i + 1) _ _
        (free_multiple_step-IsCounted flags i (get_elem? sys.buffers i) sys res h)

  -- Freeing many buffers keeps the counter right if each cleanup callback does.
  -- When every cleanup callback keeps the count of active buffers right, so does the whole call.
  pub free_multiple_buffers-IsCounted :
      (n flags : ℕ) (sys : System)
      → IsCounted sys
      → IsCounted (free_multiple_buffers call n flags sys).0
  unfolding free_multiple_buffers
  free_multiple_buffers-IsCounted n flags sys h = free_multiple_loop-IsCounted flags n 0 sys false h

-- A round that calls nothing.
plain_step : ℕ → ℕ → Option Buffer → System → System
plain_step flags i none sys = sys
plain_step flags i (some b) sys = if is_selected flags b then free_buffer (some i) sys else sys

free_multiple_step-plain :
    (call : Call) (flags i : ℕ) (o : Option Buffer) (sys : System) (res : Bool)
    → (test_bit flags 0 && not res) ≡ false
    → free_multiple_step call flags i o sys res ≡ (plain_step flags i o sys, res)
unfolding plain_step
free_multiple_step-plain call flags i none sys res h = unfold free_multiple_step in refl
free_multiple_step-plain call flags i (some b) sys res h = elim (Bool-cases (is_selected flags b)) [
  | inl e ↦ unfold free_multiple_step in rw (e, h, free_multiple_step, clean_step)
  | inr e ↦ unfold free_multiple_step in rw (e, free_multiple_step)
]

-- The buffer at an index after the loop without FMB_CLEAN.
abbrev pub freed : ℕ → Buffer → Buffer
freed flags b = if is_selected flags b && not (b.secondary == 15) then release b else b

plain_step_self :
    (flags i : ℕ) (b : Buffer) (sys : System)
    → get_elem? sys.buffers i ≡ some b
    → get_elem? (plain_step flags i (some b) sys).buffers i ≡ some (freed flags b)
unfolding plain_step free_buffer
plain_step_self flags i b sys e =
    rw e (
      ground
        (arith, e, get_elem?-set_self sys.buffers i (release b) (get_elem?-lt sys.buffers i e)))

plain_step-ne :
    (flags i j : ℕ) (o : Option Buffer) (sys : System)
    → get_elem? sys.buffers i ≡ o
    → i ≢ j
    → get_elem? (plain_step flags i o sys).buffers j ≡ get_elem? sys.buffers j
unfolding plain_step free_buffer
plain_step-ne flags i j none sys e h = refl
plain_step-ne flags i j (some b) sys e h =
    rw e (ground (arith, get_elem?-set_ne sys.buffers (release b) h))

abbrev pub freed_option : ℕ → Option Buffer → Option Buffer
freed_option flags none = none
freed_option flags (some b) = some (freed flags b)

plain_step-option :
    (flags i : ℕ) (o : Option Buffer) (sys : System)
    → get_elem? sys.buffers i ≡ o
    → get_elem? (plain_step flags i o sys).buffers i ≡ freed_option flags o
unfolding plain_step
plain_step-option flags i none sys e = e
plain_step-option flags i (some b) sys e = plain_step_self flags i b sys e

module _ (call : Call) (flags : ℕ) (keep : test_bit flags 0 ≡ false) where
  loop_next :
      (rounds i : ℕ) (sys : System)
      → free_multiple_loop call flags (suc rounds) i sys false
        ≡ free_multiple_loop call flags rounds
            (i + 1)
            (plain_step flags i (get_elem? sys.buffers i) sys)
            false
  unfolding free_multiple_loop
  loop_next rounds i sys =
      rw (free_multiple_step-plain call flags i (get_elem? sys.buffers i) sys false (rw keep))

  free_multiple_loop-outside :
      (rounds i : ℕ) (sys : System) (j : ℕ)
      → (j < i) ⊎ (i + rounds ≤ j)
      → get_elem? (free_multiple_loop call flags rounds i sys false).0.buffers j
        ≡ get_elem? sys.buffers j
  unfolding free_multiple_loop
  free_multiple_loop-outside zero i sys j h = refl
  free_multiple_loop-outside (suc rounds) i sys j h = rw (loop_next rounds i sys) (
      free_multiple_loop-outside rounds (i + 1) _ j (omega arith)
      ∙ plain_step-ne flags i j (get_elem? sys.buffers i) sys refl (omega arith))

  free_multiple_loop-inside :
      (rounds i : ℕ) (sys : System) (j : ℕ)
      → i ≤ j
      → j < i + rounds
      → get_elem? (free_multiple_loop call flags rounds i sys false).0.buffers j
        ≡ freed_option flags (get_elem? sys.buffers j)
  unfolding free_multiple_loop
  free_multiple_loop-inside zero i sys j lo hi = absurd (omega arith)
  free_multiple_loop-inside (suc rounds) i sys j lo hi =
      rw (loop_next rounds i sys) (elim (ℕ_discrete i j) [
        | yes p ↦
            free_multiple_loop-outside rounds (i + 1) _ j (inl (omega arith))
            ∙ subst
                (λ k.
                  get_elem? (plain_step flags i (get_elem? sys.buffers i) sys).buffers k
                  ≡ freed_option flags (get_elem? sys.buffers k))
                p (plain_step-option flags i (get_elem? sys.buffers i) sys refl)
        | no p ↦
            free_multiple_loop-inside rounds (i + 1) _ j (omega arith) (omega arith)
            ∙ ap (freed_option flags) (plain_step-ne flags i j (get_elem? sys.buffers i) sys refl p)
      ])

  free_multiple_loop-result :
      (rounds i : ℕ) (sys : System) → (free_multiple_loop call flags rounds i sys false).1 ≡ false
  unfolding free_multiple_loop
  free_multiple_loop-result zero i sys = refl
  free_multiple_loop-result (suc rounds) i sys =
      rw (loop_next rounds i sys) (free_multiple_loop-result rounds (i + 1) _)

  -- Without FMB_CLEAN, `free_multiple_buffers` frees each buffer that the flags select, the error
  -- channel's secondary address excepted, leaves all others as they are, and returns 0.
  -- Without FMB_CLEAN each buffer below `n` that the flags select is released, other than the one at
  -- secondary address 15; all others are left alone, and the result is 0.
  pub free_multiple_buffers-freed :
      (n : ℕ) (sys : System) (j : ℕ)
      → (get_elem? (free_multiple_buffers call n flags sys).0.buffers j ≡ (
          if ltb j n
          then freed_option flags (get_elem? sys.buffers j)
          else get_elem? sys.buffers j))
        × ((free_multiple_buffers call n flags sys).1 ≡ 0)
  unfolding free_multiple_buffers
  free_multiple_buffers-freed n sys j = (
    elim (Bool-cases (ltb j n)) [
      | inl e ↦ rw e (free_multiple_loop-inside n 0 sys j (omega arith) (ground arith))
      | inr e ↦ rw e (free_multiple_loop-outside n 0 sys j (inr (ground arith)))
    ],
    rw (free_multiple_loop-result n 0 sys),
  )
