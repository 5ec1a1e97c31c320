-- ===== src/Etx/Relative.antt =====
-- ETX in seconds relative to a given time, `now`.
use industrial_ams.Base.{inl, inr, ◌⊎◌, ◌≢◌, ◌≡◌, refl, true, none, some, arith}
use industrial_ams.Base.Int.{+ℤ-ℤ_cancel, ℤ, ◌+ℤ◌, ◌-ℤ◌}
use industrial_ams.Py.{ok, Value, number, datetime, other}
use industrial_ams.Etx.{
  is_datetime, empty, widened_low, widened_high, widen_low, widen_high, margin_violated, both_less,
  check_order, validate, time_default, set_defaults, check_inputs, init, Etx,
}
use industrial_ams.Etx.Methods.{get, set, set_constraints}

-- In a dated ETX, a number of seconds that `set` stores relative to `now` is what `get` returns relative
-- to `now`, and without it `get` returns the datetime `now` and these seconds.
pub get-set :
    (e : Etx) (seconds now : ℤ)
    → e.use_datetime ≡ true
    → let (r, e') = set (number seconds) (some (datetime now)) e in
      (r ≡ ok tt)
      × (get e' (some (datetime now)) ≡ ok (some (number seconds)))
      × (get e' none ≡ ok (some (datetime (now +ℤ seconds))))
unfolding get set
get-set e seconds now h = ground (arith, +ℤ-ℤ_cancel now seconds)

-- In a dated ETX `set_constraints` with both bounds and a `now` never returns, and stores nothing: as
-- numbers of seconds the bounds have a difference with no `total_seconds`, and as datetimes they are no
-- numbers of seconds.
pub set_constraints-now_raises :
    (e : Etx) (lower upper now : Value)
    → e.use_datetime ≡ true
    → let (r, e') = set_constraints (some lower) (some upper) (some now) e in (r ≢ ok tt) × (e' ≡ e)
unfolding set_constraints
set_constraints-now_raises e lower upper (datetime now) h = ground arith
set_constraints-now_raises e lower upper now h = ground arith

-- A single value given as both constraints and as the time is accepted, in its own mode.
pub init-point :
    (v : Value)
    → let e = record empty { constraint_low = some v; time = some v; constraint_high = some v } in
      let made = record e { time_high = some v; time_low = some v } in
      (v ≡ other) ⊎ (init e ≡ ok (record made { use_datetime = is_datetime v }))
unfolding init check_inputs set_defaults time_default validate check_order both_less margin_violated
    widen_high widen_low widened_high widened_low ◌+ℤ◌ ◌-ℤ◌
init-point (number n) = inr (ground arith)
init-point (datetime t) = inr (ground arith)
init-point other = inl refl
