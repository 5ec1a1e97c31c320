-- ===== src/Buffer/Model.antt =====
-- `BufferScheduler.build_model` of iams/utils/scheduler.py: the constraints that it gives to the solver
-- of ortools. A variable is known by the number of its event and its name. The dictionary that the
-- source keeps for an event, `new_data`, has a name as a key exactly if the name is listed here.
pub mod Meaning
pub mod Timing
pub mod Overlap
pub mod Schedule
use industrial_ams.Base.{
  ℕ, Bool, true, false, not, ◌&&◌, ◌||◌, Option, none, some, List, [], ◌∷◌, ◌++◌, ◌==◌, is_some,
  if◌then◌else◌,
}
use industrial_ams.Base.Int.{ℤ, pos, ◌-ℤ◌}
use industrial_ams.Py.{value_error, key_error, Result, ok, err, ◌>>=◌, ◌>>◌, raise_if}
use industrial_ams.Event.{Event, State, is_eta_state}
use industrial_ams.Buffer.{BufferScheduler}
use industrial_ams.Buffer.Variables.{
  Name, eta, start, finish, etd, iqt, duration, oqt, Interval, Range, Variables,
}
use industrial_ams.Buffer.Horizon.{EventData}

pub record Var : Type 0 where
  pub number : ℕ
  pub name : Name

-- An interval variable: its start, its size and its end
pub record Span : Type 0 where
  pub first : Var
  pub size : Var
  pub last : Var

-- `NewIntVar`, `NewIntervalVar`, `Add` of an inequality, and `AddCumulative` with demands of one
pub data Constraint : Type 0 where
  domain : Var → ℤ → ℤ → Constraint
  interval : Span → Constraint
  at_most : Var → Var → Constraint
  cumulative : List Span → ℤ → Constraint

-- The model, with the variables of which the sum is to be least
pub record Model : Type 0 where
  pub constraints : List Constraint
  pub objective : List Var

abbrev pub name_code : Name → ℕ
name_code eta = 0
name_code start = 1
name_code finish = 2
name_code etd = 3
name_code iqt = 4
name_code duration = 5
name_code oqt = 6

abbrev pub knows : List Name → Name → Bool
knows [] n = false
knows (m ∷ ms) n = (name_code m == name_code n) || knows ms n

-- The ranges of the event, by name
abbrev pub ranges : Option Range → Range → Range → Range → List (Name × Range)
ranges none s f d = (start, s) ∷ (finish, f) ∷ (etd, d) ∷ []
ranges (some e) s f d = (eta, e) ∷ (start, s) ∷ (finish, f) ∷ (etd, d) ∷ []

abbrev pub names : List (Name × Range) → List Name
names [] = []
names ((n, r) ∷ rs) = n ∷ names rs

-- The intervals of the event, in the order i, p, o
abbrev pub intervals : Option Interval → Interval → Interval → List Interval
intervals none p o = p ∷ o ∷ []
intervals (some i) p o = i ∷ p ∷ o ∷ []

abbrev pub lower_bound : ℤ → Option ℤ → ℤ
lower_bound offset none = pos 0
lower_bound offset (some low) = low -ℤ offset

abbrev pub upper_bound : ℤ → ℤ → Option ℤ → ℤ
upper_bound offset horizon none = horizon
upper_bound offset horizon (some high) = high -ℤ offset

abbrev pub var : ℕ → Name → Var
var number name = record { number = number; name = name }

abbrev pub span : ℕ → Interval → Span
span number i = record {
  first = var number i.start_name;
  size = var number i.duration_name;
  last = var number i.end_name;
}

module _ (offset horizon : ℤ) where
  -- The loop over `data['ranges']`
  abbrev pub range_constraints : ℕ → List (Name × Range) → List Constraint
  range_constraints number [] = []
  range_constraints number ((name, (low, high)) ∷ rs) =
      domain (var number name) (lower_bound offset low) (upper_bound offset horizon high)
      ∷ range_constraints number rs

  -- The variable of an interval's duration, where its name is new
  abbrev pub size_constraint : ℕ → Interval → List Constraint
  size_constraint number i =
      let longest : ℤ = elim i.length [ none ↦ horizon | some d ↦ d ] in
      domain (var number i.duration_name) (if i.optional then pos 0 else longest) longest ∷ []

  abbrev pub previous_constraint : ℕ → Option Name → Interval → List Constraint
  previous_constraint number none i = []
  previous_constraint number (some name) i =
      at_most (var number name) (var number i.start_name) ∷ []

  -- One round of the loop over the intervals
  abbrev pub interval_constraints : ℕ → List Name → Option Name → Interval → List Constraint
  interval_constraints number known previous i =
      (if knows known i.duration_name then [] else size_constraint number i)
      ++ interval (span number i) ∷ previous_constraint number previous i

  -- The loop over the intervals
  unfoldable pub build_intervals :
      ℕ → List Name → Option Name → List Interval → Result (List Constraint)
  build_intervals number known previous [] = ok []
  build_intervals number known previous (i ∷ is) = do
    raise_if (not (knows known i.start_name)) value_error
    raise_if (not (knows known i.end_name)) value_error
    rest ← build_intervals number (i.duration_name ∷ known) (some i.start_name) is
    ok (interval_constraints number known previous i ++ rest)

  -- One round of the loop over the events, given the event's ranges and intervals
  unfoldable pub build_ranges : ℕ → List (Name × Range) → List Interval → Result (List Constraint)
  unfolding build_intervals
  build_ranges number rs is = do
    rest ← build_intervals number (names rs) none is
    ok (range_constraints number rs ++ rest)

  abbrev pub build_event : Variables → Result (List Constraint)
  build_event v =
      build_ranges v.number (ranges v.eta_range v.start_range v.finish_range v.etd_range)
        (intervals v.interval_i v.interval_p v.interval_o)

  unfoldable pub build_events : EventData → Result (List Constraint)
  build_events [] = ok []
  build_events ((e, v) ∷ m) = do first ← build_event v; rest ← build_events m; ok (first ++ rest)

-- `events[previous]["eta"]`, which some events have not
abbrev pub find : ℕ → EventData → Option Variables
find uid [] = none
find uid ((x, v) ∷ m) = if x.uid == uid then some v else find uid m

abbrev pub eta_var : EventData → Event → Result Var
eta_var m e = elim (find e.uid m) [
  | none ↦ err key_error
  | some v ↦ if is_some v.eta_range then ok (var v.number eta) else err key_error
]

abbrev pub start_var : EventData → Event → Result Var
start_var m e = elim (find e.uid m) [ none ↦ err key_error | some v ↦ ok (var v.number start) ]

-- Two neighbours of the sorted events that both wait or have arrived keep their order.
unfoldable pub order_two : EventData → Event → Event → Result (List Constraint)
order_two m a b =
    if is_eta_state a.state && is_eta_state b.state
    then (do
      x ← eta_var m a
      y ← eta_var m b
      s ← start_var m a
      t ← start_var m b
      ok (at_most x y ∷ at_most s t ∷ []))
    else ok []

-- The loop over `sorted(events.keys())`
unfoldable pub order_constraints : EventData → List Event → Result (List Constraint)
order_constraints m [] = ok []
order_constraints m (a ∷ []) = ok []
order_constraints m (a ∷ b ∷ es) = do
  first ← order_two m a b
  rest ← order_constraints m (b ∷ es)
  ok (first ++ rest)

-- `[data["interval_i"] for data in events.values() if "interval_i" in data]` and the like
abbrev pub input_spans : EventData → List Span
input_spans [] = []
input_spans ((e, v) ∷ m) = elim v.interval_i [
  | none ↦ input_spans m
  | some i ↦ span v.number i ∷ input_spans m
]

abbrev pub processing_spans : EventData → List Span
processing_spans [] = []
processing_spans ((e, v) ∷ m) = span v.number v.interval_p ∷ processing_spans m

abbrev pub output_spans : EventData → List Span
output_spans [] = []
output_spans ((e, v) ∷ m) = span v.number v.interval_o ∷ output_spans m

abbrev pub etd_vars : EventData → List Var
etd_vars [] = []
etd_vars ((e, v) ∷ m) = var v.number etd ∷ etd_vars m

-- `self.buffer_input[1]`, of a dictionary that numbers the given sizes from 1
abbrev pub first_lane : List ℤ → Result ℤ
first_lane [] = err key_error
first_lane (n ∷ ns) = ok n

abbrev pub keys : EventData → List Event
keys [] = []
keys ((e, v) ∷ m) = e ∷ keys m

-- `BufferScheduler.build_model`, where `sorted` is Python's sorting of events by `__lt__`. The offset
-- that it also returns is the beginning of the window.
unfoldable pub build_model :
    (List Event → Result (List Event)) → EventData → ℤ × ℤ → BufferScheduler → Result Model
unfolding build_events order_constraints
build_model sorted m (low, high) s = do
  each ← build_events low (high -ℤ low) m
  order ← sorted (keys m)
  chain ← order_constraints m order
  lane ← first_lane s.buffer_input
  let resources =
      cumulative (input_spans m) lane
      ∷ cumulative (processing_spans m) (pos 1)
      ∷ cumulative (output_spans m) lane
      ∷ []
  ok (record { constraints = each ++ (chain ++ resources); objective = etd_vars m })
