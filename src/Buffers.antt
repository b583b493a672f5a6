-- ===== src/Buffers.antt =====
-- src/buffers.c, with the inline functions of src/buffers.h and `update_leds` of src/led.c, on a
-- board with SINGLE_LED. The parameter `n` is CONFIG_BUFFER_COUNT; the array has one more buffer,
-- at the index `n`, for the error channel. A NULL pointer is `none`.
pub mod Count
pub mod Alloc
pub mod Linked
pub mod Release
pub mod Lights
pub mod Marked
mod Tests
use nodiskemu.Prelude.{
  ℕ, zero, suc, ◌+◌, ◌-◌, ◌*◌, ◌/◌, ◌%◌, Bool, true, false, Option, none, some, List, [], ◌∷◌, ◌++◌,
  ◌&&◌, ◌||◌, not, ltb, leb, ◌==◌, if◌then◌else◌, get_elem?, set, replicate, test_bit,
}
use nodiskemu.System.{
  Callback, null, callback_dummy, set_ok_message, Pvt, zeroed, chain, Buffer, System,
}
use nodiskemu.Errors.{error_buffer_size, set_error}

-- BUFFER_SEC_SYSTEM
abbrev pub sec_system : ℕ
sec_system = 100

-- A buffer structure of zeros, around the data that its pointer has.
pub zero_buffer : List ℕ → Buffer
zero_buffer bytes = record {
  bytes = bytes;
  lastused = 0;
  position = 0;
  secondary = 0;
  recordlen = 0;
  fptr = 0;
  allocated = false;
  mustflush = false;
  read = false;
  write = false;
  dirty = false;
  sendeoi = false;
  sticky = false;
  seek = null;
  refill = null;
  cleanup = null;
  pvt = zeroed;
}

data_buffers : ℕ → List Buffer
unfolding zero_buffer
data_buffers n = replicate n (zero_buffer (replicate 256 0))

error_channel : Buffer
unfolding zero_buffer
error_channel = record (zero_buffer (replicate error_buffer_size 0)) {
  secondary = 15;
  allocated = true;
  read = true;
  write = true;
  sendeoi = true;
  refill = set_ok_message;
  cleanup = callback_dummy;
}

pub buffers_init : ℕ → System → System
unfolding data_buffers error_channel
buffers_init n sys = record sys { buffers = data_buffers n ++ error_channel ∷ [] }

-- A change of one buffer of the array.
pub modify_at : List Buffer → ℕ → (Buffer → Buffer) → List Buffer
modify_at bs i f = elim (get_elem? bs i) [ none ↦ bs | some b ↦ set bs i (f b) ]

-- `buffers[i].allocated`
pub is_allocated : List Buffer → ℕ → Bool
is_allocated bs i = elim (get_elem? bs i) [ none ↦ true | some b ↦ b.allocated ]

pub fresh_buffer : Buffer → Buffer
unfolding zero_buffer
fresh_buffer b = record (zero_buffer b.bytes) {
  allocated = true;
  secondary = sec_system;
  refill = callback_dummy;
  cleanup = callback_dummy;
}

pub alloc_specific_buffer : List Buffer → ℕ → List Buffer
unfolding modify_at is_allocated fresh_buffer
alloc_specific_buffer bs bufnum =
    if is_allocated bs bufnum then bs else modify_at bs bufnum fresh_buffer

-- The loop of `alloc_system_buffer`, from the index `i` on.
pub first_free : ℕ → ℕ → List Buffer → Option ℕ
unfolding is_allocated
first_free zero i bs = none
first_free (suc rounds) i bs =
    let rest = first_free rounds (i + 1) bs in if is_allocated bs i then rest else some i

pub alloc_system_buffer : ℕ → System → System × Option ℕ
unfolding alloc_specific_buffer first_free
alloc_system_buffer n sys = elim (first_free n 0 sys.buffers) [
  | none ↦ (set_error n sys 70, none)
  | some i ↦ (record sys { buffers = alloc_specific_buffer sys.buffers i }, some i)
]

-- The macros of src/led.h.
pub set_busy_led : Bool → System → System
set_busy_led x sys = record sys { led_state = record sys.led_state { busy = x } }

pub set_dirty_led : Bool → System → System
set_dirty_led x sys = record sys { led_state = record sys.led_state { dirty = x } }

pub get_dirty_buffer_count : System → ℕ
get_dirty_buffer_count sys = sys.active_buffers / 16

pub check_free_buffers : ℕ → System → Bool
check_free_buffers n sys = ltb (sys.active_buffers % 16) n

pub update_leds : System → System
unfolding set_busy_led set_dirty_led get_dirty_buffer_count
update_leds sys =
    set_dirty_led (not (get_dirty_buffer_count sys == 0))
      (set_busy_led (not (sys.active_buffers == 0)) sys)

-- The counter is a uint8_t.
pub add_active : ℕ → System → System
add_active k sys = record sys { active_buffers = (sys.active_buffers + k) % 256 }

pub sub_active : ℕ → System → System
sub_active k sys = record sys { active_buffers = (sys.active_buffers + 256 - k) % 256 }

pub open_buffer : Buffer → Buffer
open_buffer b = record b { secondary = 0 }

-- What `alloc_buffer` does with what `alloc_system_buffer` has left and returned.
pub claim_buffer : System × Option ℕ → System × Option ℕ
unfolding open_buffer modify_at add_active set_busy_led
claim_buffer (s1, none) = (s1, none)
claim_buffer (s1, some i) = (
  set_busy_led true (add_active 1 (record s1 { buffers = modify_at s1.buffers i open_buffer })),
  some i,
)

pub alloc_buffer : ℕ → System → System × Option ℕ
unfolding alloc_system_buffer claim_buffer
alloc_buffer n sys = claim_buffer (alloc_system_buffer n sys)

-- The search of `alloc_linked_buffers`: `freebufs` free buffers in a row end in front of `i`, and
-- `start` is the first of them.
pub scan_free : ℕ → ℕ → List Buffer → (count freebufs start : ℕ) → ℕ × ℕ
unfolding is_allocated
scan_free zero i bs count freebufs start = (freebufs, start)
scan_free (suc rounds) i bs count freebufs start =
    let start' = if freebufs == 0 then i else start in
    let reset = scan_free rounds (i + 1) bs count 0 start in
    let more = scan_free rounds (i + 1) bs count (freebufs + 1) start' in
    if is_allocated bs i
    then reset
    else if freebufs + 1 == count
    then (freebufs + 1, start')
    else more

pub link_buffer : (count start next : ℕ) → Buffer → Buffer
link_buffer count start next b = record b {
  secondary = 0;
  pvt = chain count (some start) (some next);
}

-- A round of the loop that chains the buffers; `p` is `start + i`.
pub chain_step : (count start p : ℕ) → System → System
unfolding alloc_specific_buffer add_active modify_at link_buffer
chain_step count start p sys =
    let s1 = add_active 1 (record sys { buffers = alloc_specific_buffer sys.buffers p }) in
    record s1 { buffers = modify_at s1.buffers p (link_buffer count start (p + 1)) }

-- The loop from the round `i` on.
pub chain_buffers : ℕ → ℕ → (count start : ℕ) → System → System
chain_buffers zero i count start sys = sys
chain_buffers (suc rounds) i count start sys =
    chain_buffers rounds (i + 1) count start (chain_step count start (start + i) sys)

end_chain : Pvt → Pvt
end_chain (chain size first next) = chain size first none
end_chain p = p

pub end_buffer : Buffer → Buffer
unfolding end_chain
end_buffer b = record b { pvt = end_chain b.pvt }

-- What follows the search, from its result on.
pub link_found : ℕ → ℕ → System → ℕ × ℕ → System × Option ℕ
unfolding chain_buffers chain_step set_busy_led end_buffer modify_at
link_found n count sys (freebufs, start) =
    if ltb freebufs count
    then (set_error n sys 70, none)
    else (let s1 = set_busy_led true (chain_buffers count 0 count start sys) in
        (record s1 { buffers = modify_at s1.buffers (start + count - 1) end_buffer }, some start))

pub alloc_linked_buffers : ℕ → ℕ → System → System × Option ℕ
unfolding scan_free link_found
alloc_linked_buffers n count sys = link_found n count sys (scan_free n 0 sys.buffers count 0 0)

pub release : Buffer → Buffer
release b = record b { allocated = false }

-- `free_buffer` on the buffer `b` that stands at the index `i`.
pub free_found : ℕ → Option Buffer → System → System
unfolding release sub_active update_leds
free_found i none sys = sys
free_found i (some b) sys =
    if b.secondary == 15 || not b.allocated
    then sys
    else (let s1 = record sys { buffers = set sys.buffers i (release b) } in
        let s2 = if b.dirty then sub_active 16 s1 else s1 in
        update_leds (if ltb b.secondary sec_system then sub_active 1 s2 else s2))

pub free_buffer : Option ℕ → System → System
unfolding free_found
free_buffer none sys = sys
free_buffer (some i) sys = free_found i (get_elem? sys.buffers i) sys

-- The callbacks are reached through pointers: `call` runs one on a buffer.
pub cleanup_and_free_buffer : (Callback → ℕ → System → System × ℕ) → ℕ → System → System
unfolding free_buffer
cleanup_and_free_buffer call i sys = elim (get_elem? sys.buffers i) [
  | none ↦ sys
  | some b ↦ free_buffer (some i) (call b.cleanup i sys).0
]

-- Whether `free_multiple_buffers` frees a buffer: FMB_FREE_SYSTEM is bit 1, FMB_FREE_STICKY bit 2.
pub is_selected : ℕ → Buffer → Bool
is_selected flags b =
    b.allocated
    && ((test_bit flags 1 || ltb b.secondary sec_system) && (test_bit flags 2 || not b.sticky))

-- `if (flags & FMB_CLEAN) res = res || cleanup(buf)`: no callback runs once `res` is set.
pub clean_step :
    (Callback → ℕ → System → System × ℕ) → ℕ → ℕ → Buffer → System → Bool → System × Bool
clean_step call flags i b sys res =
    if test_bit flags 0 && not res
    then (let (s1, r) = call b.cleanup i sys in (s1, not (r == 0)))
    else (sys, res)

pub free_multiple_step :
    (Callback → ℕ → System → System × ℕ) → ℕ → ℕ → Option Buffer → System → Bool → System × Bool
unfolding is_selected clean_step free_buffer
free_multiple_step call flags i none sys res = (sys, res)
free_multiple_step call flags i (some b) sys res =
    if is_selected flags b
    then (let (s1, res') = clean_step call flags i b sys res in (free_buffer (some i) s1, res'))
    else (sys, res)

pub free_multiple_loop :
    (Callback → ℕ → System → System × ℕ) → ℕ → ℕ → ℕ → System → Bool → System × Bool
free_multiple_loop call flags zero i sys res = (sys, res)
free_multiple_loop call flags (suc rounds) i sys res =
    let (s1, res') = free_multiple_step call flags i (get_elem? sys.buffers i) sys res in
    free_multiple_loop call flags rounds (i + 1) s1 res'

pub free_multiple_buffers : (Callback → ℕ → System → System × ℕ) → ℕ → ℕ → System → System × ℕ
free_multiple_buffers call n flags sys =
    let (s1, res) = free_multiple_loop call flags n 0 sys false in (s1, if res then 1 else 0)

-- The loop of `find_buffer`, from the index `i` on.
unfoldable pub find_from : List Buffer → ℕ → ℕ → Option ℕ
find_from [] i secondary = none
find_from (b ∷ bs) i secondary =
    let rest = find_from bs (i + 1) secondary in
    if b.allocated && b.secondary == secondary then some i else rest

unfoldable pub find_buffer : ℕ → System → Option ℕ
unfolding find_from
find_buffer secondary sys = find_from sys.buffers 0 secondary

pub mark_found : ℕ → Option Buffer → System → System
unfolding add_active set_dirty_led
mark_found i none sys = sys
mark_found i (some b) sys =
    if b.dirty
    then sys
    else set_dirty_led true
        (add_active 16 (record sys { buffers = set sys.buffers i (record b { dirty = true }) }))

pub mark_buffer_dirty : ℕ → System → System
unfolding mark_found
mark_buffer_dirty i sys = mark_found i (get_elem? sys.buffers i) sys

pub clean_found : ℕ → Option Buffer → System → System
unfolding sub_active set_dirty_led get_dirty_buffer_count
clean_found i none sys = sys
clean_found i (some b) sys =
    if b.dirty
    then (let s1 =
          sub_active 16 (record sys { buffers = set sys.buffers i (record b { dirty = false }) }) in
        if get_dirty_buffer_count s1 == 0 then set_dirty_led false s1 else s1)
    else sys

pub mark_buffer_clean : ℕ → System → System
unfolding clean_found
mark_buffer_clean i sys = clean_found i (get_elem? sys.buffers i) sys

pub set_sticky : Bool → Buffer → Buffer
set_sticky x b = record b { sticky = x }

pub stick_buffer : ℕ → System → System
unfolding modify_at set_sticky
stick_buffer i sys = record sys { buffers = modify_at sys.buffers i (set_sticky true) }

pub unstick_buffer : ℕ → System → System
unfolding modify_at set_sticky
unstick_buffer i sys = record sys { buffers = modify_at sys.buffers i (set_sticky false) }

set_write : Buffer → Buffer
set_write b = record b { write = true }

pub mark_write_buffer : ℕ → System → System
unfolding stick_buffer set_write modify_at
mark_write_buffer i sys =
    stick_buffer i (record sys { buffers = modify_at sys.buffers i set_write })
