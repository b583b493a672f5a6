-- ===== src/Buffers/Marked.antt =====
-- What `mark_buffer_dirty` of src/buffers.c does to the buffer itself.
use nodiskemu.Prelude.{
  ℕ, true, some, get_elem?, get_elem?-set_self, get_elem?-lt, ◌≡◌, ◌∙◌, Bool-cases, inl, inr,
}
use nodiskemu.System.{Buffer, System}
use nodiskemu.Buffers.{mark_buffer_dirty, mark_found, add_active, set_dirty_led}

pub mark_buffer_dirty-get_elem? :
    (i : ℕ)
    → (sys : System) → (b : Buffer) → get_elem? sys.buffers i ≡ some b
    → get_elem? (mark_buffer_dirty i sys).buffers i ≡ some (record b { dirty = true })
unfolding mark_buffer_dirty mark_found add_active set_dirty_led
mark_buffer_dirty-get_elem? i sys b at = elim (Bool-cases b.dirty) [
  | inl dirty ↦ rw (at, dirty) (at ∙ (λ j. some (record b { dirty = dirty j })))
  | inr clean ↦
      rw (at, clean)
        (get_elem?-set_self sys.buffers i (record b { dirty = true })
          (get_elem?-lt sys.buffers i at))
]
