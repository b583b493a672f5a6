-- ===== src/Buffers/Tests.antt =====
-- Examples for src/buffers.c and src/led.c.
use nodiskemu.Prelude.{
  ℕ, ◌+◌, ◌<◌, ◌≡◌, ◌↔◌, refl, arith, List, [], ◌∷◌, replicate, get_elem?, ◌++◌, true, false, none,
  some, ltb, if◌then◌else◌, test_bit,
}
use nodiskemu.System.{System, Buffer, Callback}
use nodiskemu.Buffers.{
  alloc_system_buffer, first_free, alloc_specific_buffer, claim_buffer, link_found, scan_free,
  zero_buffer, alloc_buffer, alloc_linked_buffers, is_allocated, free_buffer, free_multiple_buffers,
  update_leds,
}
use nodiskemu.Buffers.Count.{IsCounted, weight, free_buffer-IsCounted}
use nodiskemu.Buffers.Linked.{IsChain, alloc_linked_buffers-IsChain}
use nodiskemu.Buffers.Release.{
  free_multiple_buffers-IsCounted, free_multiple_buffers-freed, freed_option,
}
use nodiskemu.Buffers.Lights.{users, dirties, update_leds_lem, update_leds-overflow}

abbrev idle : Buffer
idle = zero_buffer []

-- A buffer of a user, at secondary address 2.
abbrev open_file : Buffer
open_file = record idle { allocated = true; secondary = 2 }

abbrev changed : Buffer
changed = record open_file { dirty = true }

abbrev channel : Buffer
channel = record idle { allocated = true; secondary = 15 }

abbrev system : List Buffer → ℕ → System
system bs count = record {
  buffers = bs ++ channel ∷ [];
  active_buffers = count;
  led_state = record { error = false; busy = false; dirty = false };
  current_error = 0;
  settings = record {
    file_extension_mode = 1;
    globalflags = 0;
    image_as_dir = 0;
    rom_filename = [];
    map_drive = λ d. d;
    versionstr = [];
    longverstr = [];
  };
}

-- The first of three buffers is open.
abbrev one_open : System
one_open = system (open_file ∷ idle ∷ idle ∷ []) 1

one_open-IsCounted : IsCounted one_open
unfolding weight zero_buffer
one_open-IsCounted = record { counted = omega arith }

-- Its one buffer is changed.
abbrev one_changed : System
one_changed = system (changed ∷ []) 17

one_changed-IsCounted : IsCounted one_changed
unfolding weight zero_buffer
one_changed-IsCounted = record { counted = omega arith }

alloc-one_changed : (alloc_buffer 1 one_changed).1 ≡ none
unfolding alloc_buffer alloc_system_buffer first_free is_allocated alloc_specific_buffer
    claim_buffer zero_buffer
alloc-one_changed = refl

alloc_linked-one_open : (alloc_linked_buffers 3 2 one_open).1 ≡ some 1
unfolding alloc_linked_buffers link_found scan_free is_allocated zero_buffer
alloc_linked-one_open = refl

alloc_linked_buffers-IsChain_example :
    IsChain 3 2 one_open.buffers (alloc_linked_buffers 3 2 one_open).0.buffers 1
alloc_linked_buffers-IsChain_example =
    alloc_linked_buffers-IsChain 3 2 one_open 1 (omega arith) alloc_linked-one_open

free_buffer-IsCounted_example : IsCounted (free_buffer (some 0) one_changed)
free_buffer-IsCounted_example = free_buffer-IsCounted (some 0) one_changed one_changed-IsCounted

-- Callbacks that do nothing, and that fail.
abbrev quiet : Callback → ℕ → System → System × ℕ
quiet c i s = (s, 0)

abbrev failing : Callback → ℕ → System → System × ℕ
failing c i s = (s, 1)

free_multiple_buffers-IsCounted_example :
    IsCounted (free_multiple_buffers failing 1 7 one_changed).0
free_multiple_buffers-IsCounted_example =
    free_multiple_buffers-IsCounted failing (λ c i s h. h) 1 7 one_changed one_changed-IsCounted

kept : test_bit 4 0 ≡ false
unfolding test_bit
kept = refl

free_multiple_buffers-freed_example :
    (get_elem? (free_multiple_buffers quiet 3 4 one_open).0.buffers 0 ≡ (
      if ltb 0 3
      then freed_option 4 (get_elem? one_open.buffers 0)
      else get_elem? one_open.buffers 0))
    × ((free_multiple_buffers quiet 3 4 one_open).1 ≡ 0)
free_multiple_buffers-freed_example = free_multiple_buffers-freed quiet 4 kept 3 one_open 0

update_leds_example :
    (((update_leds one_changed).led_state.busy ≡ true)
      ↔ (0 < users one_changed.buffers + dirties one_changed.buffers))
    × (((update_leds one_changed).led_state.dirty ≡ true) ↔ (0 < dirties one_changed.buffers))
update_leds_example =
    update_leds_lem 1 one_changed channel (omega arith) refl refl refl one_changed-IsCounted

-- Sixteen open files.
abbrev crowded : System
crowded = system (replicate 16 open_file) 16

crowded-IsCounted : IsCounted crowded
unfolding weight zero_buffer
crowded-IsCounted = record { counted = omega arith }

clean : dirties crowded.buffers ≡ 0
unfolding zero_buffer
clean = refl

update_leds-overflow_example : (update_leds crowded).led_state.dirty ≡ true
update_leds-overflow_example =
    update_leds-overflow crowded crowded-IsCounted (omega arith) (omega arith) clean
