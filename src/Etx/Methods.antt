-- ===== src/Etx/Methods.antt =====
-- The methods of `class ETX` beside its construction: comparisons, getters and setters. In a method
-- that takes `now`, `none` is Python's default `now=None`.
use industrial_ams.Base.{Bool, true, false, Option, some, is_some, if◌then◌else◌}
use industrial_ams.Base.Int.{pos, eqb_ℤ, ◌-ℤ◌, ltb_ℤ}
use industrial_ams.Py.{
  value_error, type_error, not_implemented, Result, ok, err, ◌>>=◌, ◌>>◌, raise_if, Method, Value,
  number, datetime, other, is_datetime, less_opt, equal_opt, seconds_between, shift_by,
}
use industrial_ams.Etx.{Etx, gap, margins}

-- `self.time` where it is set, and else the constraint
abbrev pub order_key : Etx → Option Value
order_key e = if is_some e.time then e.time else e.constraint_low

-- `ETX.__lt__` and `ETX.__eq__` between two ETX
unfoldable pub less_etx : Etx → Etx → Result Bool
unfolding less_opt
less_etx a b = less_opt (order_key a) (order_key b)

unfoldable pub equal_etx : Etx → Etx → Bool
equal_etx a b = equal_opt a.time b.time

-- `ETX.__lt__` and `ETX.__eq__` with a time: here the constraint comes first.
unfoldable pub less_time : Etx → Value → Result Bool
unfolding less_opt
less_time e other = err not_implemented
less_time e v = less_opt (if is_some e.constraint_low then e.constraint_low else e.time) (some v)

unfoldable pub equal_time : Etx → Value → Result Bool
equal_time e other = err not_implemented
equal_time e v = ok (equal_opt e.time (some v))

-- `ETX.__sub__`: a time of zero counts as no time.
abbrev time_minus : Bool → Option Value → Value → Result Value
time_minus false (some (number t)) (number s) =
    if eqb_ℤ t (pos 0) then err not_implemented else ok (number (t -ℤ s))
time_minus false (some (datetime t)) (number s) = err type_error
time_minus false (some other) (number s) = err type_error
time_minus _ _ _ = err not_implemented

unfoldable pub subtract : Etx → Value → Result Value
subtract e v = time_minus e.use_datetime e.time v

-- A time as seconds from `now`, in a dated object
abbrev seconds_from : Bool → Option Value → Option Value → Result (Option Value)
seconds_from true (some t) (some n) = do s ← seconds_between t n; ok (some (number s))
seconds_from _ t _ = ok t

-- `ETX.get`
unfoldable pub get : Etx → Option Value → Result (Option Value)
get e now = seconds_from e.use_datetime e.time now

-- `ETX.get_constraints`
unfoldable pub get_constraints : Etx → Option Value → Result (Option Value × Option Value)
get_constraints e now = do
  low ← seconds_from e.use_datetime e.constraint_low now
  high ← seconds_from e.use_datetime e.constraint_high now
  ok (low, high)

-- The time that `set` stores
abbrev new_time : Bool → Value → Option Value → Result Value
new_time true time (some now) = if is_datetime time then ok time else shift_by now time
new_time _ time _ = ok time

abbrev store_time : Result Value → Method Etx (Unit {0})
store_time (ok t) e = (ok tt, record e { time = some t })
store_time (err x) e = (err x, e)

-- `ETX.set`
unfoldable pub set : Value → Option Value → Method Etx (Unit {0})
set time now e = store_time (new_time e.use_datetime time now) e

-- The check of `set_constraints`: both bounds given, and nearer than the margins
abbrev bounds_tight : Etx → Option Value → Option Value → Result Bool
bounds_tight e (some low) (some high) = do d ← gap e.use_datetime high low; ok (ltb_ℤ d (margins e))
bounds_tight e _ _ = ok false

-- A bound in seconds from `now`, as a datetime
abbrev bound_at : Bool → Option Value → Option Value → Result (Option Value)
bound_at true (some now) (some bound) = do v ← shift_by now bound; ok (some v)
bound_at _ _ bound = ok bound

abbrev new_bounds :
    Etx → Option Value → Option Value → Option Value → Result (Option Value × Option Value)
new_bounds e lower upper now = do
  tight ← bounds_tight e lower upper
  raise_if tight value_error
  low ← bound_at e.use_datetime now lower
  high ← bound_at e.use_datetime now upper
  ok (low, high)

abbrev store_bounds : Result (Option Value × Option Value) → Method Etx (Unit {0})
store_bounds (ok b) e = (ok tt, record e { constraint_low = b.0; constraint_high = b.1 })
store_bounds (err x) e = (err x, e)

-- `ETX.set_constraints`
unfoldable pub set_constraints : Option Value → Option Value → Option Value → Method Etx (Unit {0})
set_constraints lower upper now e = store_bounds (new_bounds e lower upper now) e
