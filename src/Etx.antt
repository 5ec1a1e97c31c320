-- ===== src/Etx.antt =====
-- `class ETX` of iams/interfaces/scheduler.py: an estimated time of arrival or departure with its
-- hard constraints, its soft range and its margins. `args` of the model are the keyword arguments of
-- the generated constructor, so a fresh ETX is the record of its arguments before `__post_init__`.
pub mod Methods
pub mod Margins
pub mod Validity
pub mod Relative
mod Tests
use industrial_ams.Base.{
  Bool, true, false, not, ◌&&◌, ◌||◌, Option, none, some, is_some, if◌then◌else◌,
}
use industrial_ams.Base.Int.{ℤ, pos, ◌+ℤ◌, ◌-ℤ◌, ltb_ℤ}
use industrial_ams.Py.{
  value_error, Result, ok, err, ◌>>=◌, ◌>>◌, raise_if, Method, Value, is_datetime, is_number, less,
  seconds_between, number_between, shift, add_number,
}

pub record Etx : Type 0 where
  pub time : Option Value
  pub constraint_high : Option Value
  pub constraint_low : Option Value
  pub time_high : Option Value
  pub time_low : Option Value
  pub margin_low : ℤ
  pub margin_high : ℤ
  pub use_datetime : Bool

-- The defaults of the dataclass: `ETX()` before `__post_init__`.
abbrev pub empty : Etx
empty = record {
  time = none;
  constraint_high = none;
  constraint_low = none;
  time_high = none;
  time_low = none;
  margin_low = pos 0;
  margin_high = pos 0;
  use_datetime = false;
}

-- `isinstance(getattr(self, attr), datetime)` and the like, on an attribute that may be `None`.
abbrev pub has_datetime : Option Value → Bool
has_datetime none = false
has_datetime (some v) = is_datetime v

abbrev pub has_kind : Bool → Option Value → Bool
has_kind dated none = true
has_kind true (some v) = is_datetime v
has_kind false (some v) = is_number v

-- The loop that sets `use_datetime`.
abbrev pub detects_datetime : Etx → Bool
detects_datetime e =
    has_datetime e.time
    || has_datetime e.constraint_high
    || has_datetime e.constraint_low
    || has_datetime e.time_high
    || has_datetime e.time_low

-- The loops that validate the inputs.
abbrev pub kinds_agree : Etx → Bool
kinds_agree e =
    has_kind e.use_datetime e.time
    && has_kind e.use_datetime e.constraint_high
    && has_kind e.use_datetime e.constraint_low
    && has_kind e.use_datetime e.time_high
    && has_kind e.use_datetime e.time_low

-- `a is not None and b is not None and a < b`
pub both_less : Option Value → Option Value → Result Bool
unfolding less
both_less (some a) (some b) = less a b
both_less _ _ = ok false

-- `a - b`, as the mode of the object computes it
abbrev pub gap : Bool → Value → Value → Result ℤ
gap true a b = seconds_between a b
gap false a b = number_between a b

-- `a + s` and, with a negative `s`, `a - s`, as the mode of the object computes it
abbrev pub move : Bool → Value → ℤ → Result Value
move true a s = shift a s
move false a s = add_number a s

abbrev pub margins : Etx → ℤ
margins e = e.margin_high +ℤ e.margin_low

-- The third check of `validate`: the constraints leave room for the margins.
pub margin_violated : Bool → ℤ → Option Value → Option Value → Result Bool
margin_violated dated room (some high) (some low) = do d ← gap dated high low; ok (ltb_ℤ d room)
margin_violated dated room _ _ = ok false

pub check_order : Etx → Result (Unit {0})
check_order e = do
  hard ← both_less e.constraint_high e.constraint_low
  raise_if hard value_error
  soft ← both_less e.time_high e.time_low
  raise_if soft value_error
  tight ← margin_violated e.use_datetime (margins e) e.constraint_high e.constraint_low
  raise_if tight value_error

-- A soft bound nearer to the time than its margin moves out to the margin.
pub widened_high : Bool → ℤ → Option Value → Option Value → Result (Option Value)
widened_high dated margin (some high) (some time) = do
  d ← gap dated high time
  if ltb_ℤ d margin then (do v ← move dated time margin; ok (some v)) else ok (some high)
widened_high dated margin high time = ok high

pub widened_low : Bool → ℤ → Option Value → Option Value → Result (Option Value)
widened_low dated margin (some low) (some time) = do
  d ← gap dated time low
  if ltb_ℤ d margin then (do v ← move dated time (pos 0 -ℤ margin); ok (some v)) else ok (some low)
widened_low dated margin low time = ok low

pub widen_high : Etx → Result Etx
widen_high e = do
  h ← widened_high e.use_datetime e.margin_high e.time_high e.time
  ok (record e { time_high = h })

pub widen_low : Etx → Result Etx
widen_low e = do
  l ← widened_low e.use_datetime e.margin_low e.time_low e.time
  ok (record e { time_low = l })

-- An attribute assignment whose right side may raise.
abbrev pub assign : Result Etx → Etx → (Etx → Result (Unit {0}) × Etx) → Result (Unit {0}) × Etx
assign (ok e') e rest = rest e'
assign (err x) e rest = (err x, e)

-- `ETX.validate`
pub validate : Method Etx (Unit {0})
validate e =
    assign (check_order e >> widen_high e) e λ e1. assign (widen_low e1) e1 λ e2. (ok tt, e2)

-- The soft range defaults to the constraints.
abbrev pub or_default : Option Value → Option Value → Option Value
or_default none d = d
or_default (some v) d = some v

-- The soft range defaults to the margins about the time.
pub time_default : Bool → Option Value → Option Value → ℤ → Result (Option Value)
time_default dated none (some time) s = do v ← move dated time s; ok (some v)
time_default dated bound time s = ok bound

pub set_defaults : Etx → Result Etx
set_defaults e = do
  high ← time_default e.use_datetime (or_default e.time_high e.constraint_high) e.time e.margin_high
  low ←
      time_default e.use_datetime (or_default e.time_low e.constraint_low) e.time
        (pos 0 -ℤ e.margin_low)
  ok (record e { time_high = high; time_low = low })

abbrev pub constructed : Result (Unit {0}) × Etx → Result Etx
constructed (ok u, e) = ok e
constructed (err x, e) = err x

-- The checks of the inputs: kinds, then margins.
pub check_inputs : Etx → Result (Unit {0})
check_inputs e = do
  raise_if (not (kinds_agree e)) value_error
  raise_if (ltb_ℤ e.margin_low (pos 0) || ltb_ℤ e.margin_high (pos 0)) value_error

abbrev pub with_kind : Etx → Etx
with_kind args = record args { use_datetime = args.use_datetime || detects_datetime args }

-- `ETX.__post_init__` on the given arguments; a constructor that raises gives no object.
unfoldable pub init : Etx → Result Etx
init args = do
  check_inputs (with_kind args)
  e ← set_defaults (with_kind args)
  constructed (validate e)

-- `ETX.__bool__`
abbrev pub is_set : Etx → Bool
is_set e = is_some e.constraint_high && is_some e.constraint_low

-- What a run of the constructor computes with
unfoldable pub program : Unit {0}
unfolding init check_inputs set_defaults time_default validate check_order both_less margin_violated
    widen_high widen_low widened_high widened_low less ◌+ℤ◌ ◌-ℤ◌
program = tt
