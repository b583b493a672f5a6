-- ===== src/Iec.antt =====
-- src/iec.c and src/iec.h: the serial bus. Lines are true while no device pulls them low.
pub mod Receive
pub mod Send
pub mod Listen
pub mod Talk
pub mod Loop
mod Tests
use nodiskemu.Prelude.{ℕ, Bool, true, false, not, List, [], ◌∷◌}

pub data BusState : Type 0 where
  idle atnactive foundatn forme notforme atnfinish atnprocess cleanup sleep : BusState

pub data DeviceState : Type 0 where
  device_idle device_listen device_talk : DeviceState

-- `iec_data`, with the bits of `iecflags`; the two lines that this device drives, and what its data
-- line was at the rising edges of its clock.
pub record Iec : Type 0 where
  pub eoi_recvd : Bool
  pub command_recvd : Bool
  pub jiffy_active : Bool
  pub jiffy_load : Bool
  pub dolphin_active : Bool
  pub bus_state : BusState
  pub device_state : DeviceState
  pub secondary_address : ℕ
  pub set_clock : Bool
  pub set_data : Bool
  pub edges : List Bool

-- What one round of a waiting loop reads: the three lines, debounced where the code debounces them,
-- whether the timer has run out, and the flag of the parallel port.
pub record Sample : Type 0 where
  pub atn : Bool
  pub clock : Bool
  pub data_line : Bool
  pub timed_out : Bool
  pub rxflag : Bool

unfoldable pub is_atnactive : BusState → Bool
is_atnactive atnactive = true
is_atnactive _ = false

-- `iec_check_atn`: its answer, and the state that it sets when the answer is true.
unfoldable pub atn_changed : BusState → (atn : Bool) → Bool
atn_changed atnactive atn = atn
atn_changed _ atn = not atn

unfoldable pub atn_state : BusState → BusState
atn_state atnactive = atnprocess
atn_state _ = foundatn

-- How a wait ends: the samples run out, ATN has changed, or with an answer and the samples left.
pub data Outcome (A : Type 0) : Type 0 where
  starved : Outcome A
  changed : Iec → List Sample → Outcome A
  answer : A → Iec → List Sample → Outcome A
