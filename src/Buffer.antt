-- ===== src/Buffer.antt =====
-- `class BufferScheduler` and `class Event` of iams/utils/scheduler.py: the state of the scheduler,
-- the conversions between seconds and steps of the solver, and the times that the event class
-- overrides. Seconds are whole numbers here, so `value / self._resolution` is a fraction that
-- Python's `round` takes to the nearest integer, and from the middle to the even one.
pub mod Rounding
pub mod Constraints
pub mod Variables
pub mod Horizon
pub mod Model
pub mod Solve
mod Tests
use industrial_ams.Base.{
  ℕ, ◌+◌, ◌*◌, ◌/◌, ◌%◌, Bool, true, false, Option, none, some, List, [], ◌∷◌, ltb, ◌==◌,
  if◌then◌else◌,
}
use industrial_ams.Base.Int.{ℤ, pos, negsuc, ◌-ℤ◌, ◌*ℤ◌}
use industrial_ams.Py.{
  zero_division, type_error, Result, ok, err, ◌>>=◌, Value, number, datetime, other,
}
use industrial_ams.Etx.{Etx}
use industrial_ams.Etx.Methods.{get, get_constraints}
use industrial_ams.Event.{Event}
use industrial_ams.Event.Methods.{Units, Slot, start_slot, finish_slot, get_time}
use industrial_ams.Scheduler
use industrial_ams.Scheduler.{Scheduler}

-- `round(n / k)` of numbers that are not negative
unfoldable pub round_half_even : ℕ → ℕ → ℕ
round_half_even n k =
    let q = n / k in
    let r = n % k in
    if ltb (2 * r) k then q else if ltb k (2 * r) then q + 1 else if q % 2 == 0 then q else q + 1

-- `round(v / k)`, which is symmetric about zero
unfoldable pub round_div : ℤ → ℕ → ℤ
round_div (pos n) k = pos (round_half_even n k)
round_div (negsuc n) k = pos 0 -ℤ pos (round_half_even (n + 1) k)

pub record BufferScheduler : Type 0 where
  pub scheduler : Scheduler
  pub resolution : ℕ
  pub horizon : ℤ
  pub max_horizon : ℤ
  pub buffer_input : List ℤ
  pub buffer_output : List ℤ

-- `convert_seconds` and `convert_resolution`, for a resolution and a number
abbrev pub to_seconds : ℕ → ℤ → ℤ
to_seconds k v = v *ℤ k

unfoldable pub to_steps : ℕ → ℤ → Result ℤ
to_steps k v = if k == 0 then err zero_division else ok (round_div v k)

-- `BufferScheduler.convert_seconds` and `convert_resolution` of any value
unfoldable pub convert_seconds : ℕ → Value → Result Value
convert_seconds k (number v) = ok (number (to_seconds k v))
convert_seconds k _ = err type_error

unfoldable pub convert_resolution : ℕ → Value → Result ℤ
unfolding to_steps
convert_resolution k (number v) = to_steps k v
convert_resolution k _ = err type_error

-- `BufferScheduler.__init__`; a buffer given as a number is a list of one.
unfoldable pub init : ℤ → ℕ → List ℤ → List ℤ → Result BufferScheduler
unfolding to_steps
init horizon resolution input output = do
  h ← to_steps resolution horizon
  ok (record {
    scheduler = Scheduler.empty;
    resolution = resolution;
    horizon = h;
    max_horizon = h;
    buffer_input = input;
    buffer_output = output;
  })

-- What the event class does in `_set_time` and `_get_time`
abbrev read_steps : ℕ → Value → Result Value
read_steps k v = do n ← convert_resolution k v; ok (number n)

abbrev pub units : ℕ → Units
units k = record { to_store = convert_seconds k; from_store = read_steps k }

-- A time that may be `None`, in steps: `None / resolution` raises.
abbrev pub in_steps : ℕ → Option Value → Result ℤ
in_steps k none = err type_error
in_steps k (some v) = convert_resolution k v

-- A constraint that may be `None`, in steps
abbrev low_in_steps : ℕ → Option Value → Result (Option ℤ)
low_in_steps k none = ok none
low_in_steps k (some v) = do n ← convert_resolution k v; ok (some n)

-- `high = self._scheduler.convert_resolution(low)`: the upper constraint is read off the lower one,
-- which has been converted already.
abbrev high_in_steps : ℕ → Option ℤ → Option Value → Result (Option ℤ)
high_in_steps k low none = ok none
high_in_steps k none (some v) = err type_error
high_in_steps k (some low) (some v) = do n ← to_steps k low; ok (some n)

-- `eta_constraints` and `etd_constraints` of the event class
unfoldable pub constraints : ℕ → Etx → Option Value → Result (Option ℤ × Option ℤ)
unfolding get_constraints convert_resolution
constraints k e now = do
  bounds ← get_constraints e now
  low ← low_in_steps k bounds.0
  high ← high_in_steps k low bounds.1
  ok (low, high)
