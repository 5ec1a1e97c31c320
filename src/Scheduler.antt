-- ===== src/Scheduler.antt =====
-- `class SchedulerInterface` of iams/interfaces/scheduler.py. The generator `get_events` is modelled
-- with the loop that consumes it: `visit` is the body of that loop, which runs at each `yield` and
-- whose exception ends the generator where it stands.
pub mod Selection
pub mod Limits
pub mod Listing
pub mod Numbering
pub mod Visits
pub mod Samples
mod Tests
use industrial_ams.Base.{
  ℕ, ◌+◌, Bool, true, false, ◌||◌, Option, none, some, List, [], ◌∷◌, ◌++◌, length, ◌==◌,
  if◌then◌else◌,
}
use industrial_ams.Etx
use industrial_ams.Py.{Error, Result, ok, err, can_not_schedule, ◌>>=◌, Method, Value, less}
use industrial_ams.Event.{to_etx, Event, EventArgs, State, departed, canceled, init}
use industrial_ams.Event.Methods.{times}

pub record Scheduler : Type 0 where
  pub events : List Event
  pub counter : ℕ

-- `SchedulerInterface.__init__`
abbrev pub empty : Scheduler
empty = record { events = []; counter = 1 }

-- `SchedulerInterface.__call__`: an event that its constructor refuses takes no number.
pub create : EventArgs → Method Scheduler Event
create a s = elim (init a) [
  | ok e ↦ (ok (record e { uid = s.counter }), record s { counter = s.counter + 1 })
  | err x ↦ (err x, s)
]

-- `SchedulerInterface.__len__`
pub size : Scheduler → ℕ
size s = length s.events

-- Python's `min` and `max` of values, beginning at one of them
min_from : Value → List Value → Result Value
min_from best [] = ok best
min_from best (v ∷ vs) = do b ← less v best; min_from (if b then v else best) vs

max_from : Value → List Value → Result Value
max_from best [] = ok best
max_from best (v ∷ vs) = do b ← less best v; max_from (if b then v else best) vs

-- `none` is the `ValueError` of an empty sequence, which `get_events` catches.
min_value : List Value → Result (Option Value)
unfolding min_from
min_value [] = ok none
min_value (v ∷ vs) = do m ← min_from v vs; ok (some m)

max_value : List Value → Result (Option Value)
unfolding max_from
max_value [] = ok none
max_value (v ∷ vs) = do m ← max_from v vs; ok (some m)

-- `event.state in [States.DEPARTED, States.CANCELED]`
abbrev pub is_over : State → Bool
is_over departed = true
is_over canceled = true
is_over _ = false

-- The local variables of the first loop; the flags tell whether `None` is in a set.
pub record Scan : Type 0 where
  pub delete : List Event
  pub time_min : List Value
  pub time_max : List Value
  pub open_min : Bool
  pub open_max : Bool

abbrev pub no_scan : Scan
no_scan = record { delete = []; time_min = []; time_max = []; open_min = false; open_max = false }

abbrev note_max : Option Value → Scan → Scan
note_max none s = record s { open_max = true }
note_max (some v) s = record s { time_max = v ∷ s.time_max }

abbrev note_min : Option Value → Scan → Scan
note_min none s = record s { open_min = true }
note_min (some v) s = record s { time_min = v ∷ s.time_min }

-- The times of a live event enter the sets.
note_times : Event → Scan → Result Scan
unfolding max_value min_value
note_times e s = do
  high ← max_value (times e)
  low ← min_value (times e)
  ok (note_min low (note_max high s))

-- `None if None in time_min or len(time_min) == 0 else min(time_min)`
pub limit_min : Scan → Result (Option Value)
unfolding min_value
limit_min s = if s.open_min then ok none else min_value s.time_min

pub limit_max : Scan → Result (Option Value)
unfolding max_value
limit_max s = if s.open_max then ok none else max_value s.time_max

-- Both, in this order
pub limits : Scan → Result (Option Value × Option Value)
limits s = do low ← limit_min s; high ← limit_max s; ok (low, high)

-- `a is not None and b is not None and a < b`
abbrev known_less : Option Value → Option Value → Result Bool
known_less (some a) (some b) = less a b
known_less _ _ = ok false

-- The test that skips the deletion: the activity overlaps the time of the live events. The second
-- comparison is made only if the first holds.
pub overlaps : Option Value → Option Value → Event → Result Bool
overlaps low high e = elim (known_less low e.activity_finish) [
  | ok true ↦ known_less e.activity_start high
  | ok false ↦ ok false
  | err x ↦ err x
]

-- `self._events.remove(event)`: the first event that is equal, which is one with the same uid
pub remove : ℕ → List Event → List Event
remove uid [] = []
remove uid (e ∷ es) = if e.uid == uid then es else e ∷ remove uid es

module _ {Acc : Type 0} (visit : Event → Acc → Result Acc) where
  -- One round of the first loop
  scan_event : Event → Scan → Acc → Result (Scan × Acc)
  unfolding note_times
  scan_event e s acc =
      if is_over e.state
      then ok (record s { delete = s.delete ++ e ∷ [] }, acc)
      else (do s' ← note_times e s; acc' ← visit e acc; ok (s', acc'))

  pub scan : List Event → Scan → Acc → Result (Scan × Acc)
  scan [] s acc = ok (s, acc)
  scan (e ∷ es) s acc = do next ← scan_event e s acc; scan es next.0 next.1

  -- The loop over `delete`, on the registered events
  sweep : Option Value → Option Value → List Event → List Event → Acc → Result Acc × List Event
  sweep low high [] events acc = (ok acc, events)
  sweep low high (e ∷ es) events acc = elim (overlaps low high e) [
    | ok true ↦ elim (visit e acc) [
      | ok acc' ↦ sweep low high es events acc'
      | err x ↦ (err x, events)
    ]
    | ok false ↦ sweep low high es (remove e.uid events) acc
    | err x ↦ (err x, events)
  ]

  -- The loop over the new events
  visit_all : List Event → Acc → Result Acc
  visit_all [] acc = ok acc
  visit_all (e ∷ es) acc = do acc' ← visit e acc; visit_all es acc'

  -- What follows the loops over the registered events
  abbrev visit_rest : List Event → Result Acc × List Event → Result Acc × List Event
  visit_rest new (r, events) = ((do acc ← r; visit_all new acc), events)

  -- `get_events`, with its consumer
  pub get_events : List Event → Acc → List Event → Result Acc × List Event
  get_events new acc events = elim (scan events no_scan acc) [
    | err x ↦ (err x, events)
    | ok (s, acc') ↦ elim (limits s) [
      | err x ↦ (err x, events)
      | ok (low, high) ↦ visit_rest new (sweep low high s.delete events acc')
    ]
  ]

-- `list(self.get_events(new))`
abbrev pub collect : Event → List Event → Result (List Event)
collect e l = ok (l ++ e ∷ [])

abbrev pub answer : Result Event × Scheduler → Result Bool × Scheduler
answer (ok e, s) = (ok true, record s { events = s.events ++ e ∷ [] })
answer (err can_not_schedule, s) = (ok false, s)
answer (err x, s) = (err x, s)

-- `SchedulerInterface.save`; `add` is the abstract method that a subclass implements.
pub save : (Event → Method Scheduler Event) → Event → Method Scheduler Bool
save add event s = answer (add event s)

-- What a run of the scheduler computes with
unfoldable pub program : Unit {0}
unfolding get_events scan scan_event note_times min_value max_value min_from max_from limits
    limit_min limit_max sweep overlaps visit_all times less remove create init to_etx Etx.program
program = tt
