-- ===== src/Simulation.antt =====
-- `class Queue` and `class SimulationInterface` of iams/interfaces/simulation.py: the queue of events,
-- scheduling and canceling, and the event loop. Python's `heapq` and the callbacks of the agents are
-- parameters. A callback answers with the calls it makes on the simulation and with how it ends.
pub mod Heap
pub mod Loop
pub mod Chronology
pub mod Sorted
pub mod Termination
pub mod Agents
mod Tests
use industrial_ams.Base.{
  zero, suc, ℕ, ◌+◌, String, Bool, true, false, ◌&&◌, Option, none, some, List, [], ◌∷◌, length,
  ltb, ◌==◌, if◌then◌else◌,
}
use industrial_ams.Base.Int.{ℤ, pos, ◌+ℤ◌, ◌-ℤ◌, ltb_ℤ, eqb_ℤ}
use industrial_ams.Py.{Error}

pub data Priority : Type 0 where
  highest high normal low lowest : Priority

-- `Priority.….value`
abbrev pub priority_value : Priority → ℕ
priority_value highest = 1
priority_value high = 3
priority_value normal = 5
priority_value low = 7
priority_value lowest = 9

-- `Queue`, an event of the simulation; the number stands for the object.
pub record Entry : Type 0 where
  pub number : ℕ
  pub time : ℤ
  pub obj : String
  pub callback : String
  pub dt : ℤ
  pub priority : Priority
  pub deleted : Bool

-- `Queue.__lt__`: by time, by priority, and then the longer delay first
unfoldable pub before : Entry → Entry → Bool
before a b =
    if eqb_ℤ a.time b.time
    then (if priority_value a.priority == priority_value b.priority
        then ltb_ℤ b.dt a.dt
        else ltb (priority_value a.priority) (priority_value b.priority))
    else ltb_ℤ a.time b.time

-- `Queue.cancel` of the object with the number, wherever it is
unfoldable pub mark : ℕ → Entry → Entry
mark n e = if e.number == n then record e { deleted = true } else e

abbrev pub mark_all : ℕ → List Entry → List Entry
mark_all n [] = []
mark_all n (e ∷ es) = mark n e ∷ mark_all n es

pub record Simulation : Type 0 where
  pub queue : List Entry
  pub time : ℤ
  pub events : ℤ
  pub limit : Option ℤ
  pub created : ℕ

-- `SimulationInterface.__init__`
abbrev pub init : ℤ → Option ℤ → Simulation
init start stop = record { queue = []; time = start; events = pos 0; limit = stop; created = 0 }

-- The calls that a callback makes
pub data Call : Type 0 where
  schedule_it : String → ℤ → String → Priority → Call
  cancel_it : ℕ → Call

-- How a callback ends: `StopSimulation` ends the loop, any other exception leaves it.
pub data Ending : Type 0 where
  returns stops : Ending
  raises : Error → Ending

-- How a round of the loop ends
pub data Outcome : Type 0 where
  idle : Outcome
  skipped beyond ran stopped : Entry → Outcome
  failed : Entry → Error → Outcome

-- The loop goes on with the next round.
abbrev pub goes_on : Outcome → Bool
goes_on (ran e) = true
goes_on (skipped e) = true
goes_on _ = false

-- `event.time > self._limit`, if there is a limit
abbrev pub is_beyond : Option ℤ → ℤ → Bool
is_beyond none t = false
is_beyond (some limit) t = ltb_ℤ limit t

abbrev ended : Entry → Ending → Outcome
ended e returns = ran e
ended e stops = stopped e
ended e (raises x) = failed e x

module _ (heappush : Entry → List Entry → List Entry) where
  -- `SimulationInterface.schedule`
  unfoldable pub schedule : String → ℤ → String → Priority → Simulation → Simulation
  schedule obj dt callback priority s =
      let e : Entry = record {
        number = s.created;
        time = s.time +ℤ dt;
        obj = obj;
        callback = callback;
        dt = dt;
        priority = priority;
        deleted = false;
      } in
      record s { events = s.events +ℤ pos 1; queue = heappush e s.queue; created = s.created + 1 }

  unfoldable pub perform : Call → Simulation → Simulation
  unfolding schedule
  perform (schedule_it obj dt callback priority) s = schedule obj dt callback priority s
  perform (cancel_it n) s = record s { queue = mark_all n s.queue }

  abbrev pub perform_all : List Call → Simulation → Simulation
  perform_all [] s = s
  perform_all (c ∷ cs) s = perform_all cs (perform c s)

  module _ {World : Type 0} (heappop : List Entry → Option (Entry × List Entry))
      (act : Entry → Simulation → World → (List Call × Ending) × World) where
    -- The clock is set, and then the callback runs.
    unfoldable pub run_event : Entry → Simulation → World → Outcome × (Simulation × World)
    run_event e s w =
        let s' = record s { time = e.time } in
        let (answer, w') = act e s' w in (ended e answer.1, (perform_all answer.0 s', w'))

    -- What is done with an event off the queue that is deleted or not, and beyond the limit or not
    unfoldable pub handle_if :
        Bool → Bool → Entry → Simulation → World → Outcome × (Simulation × World)
    unfolding run_event
    handle_if true late e s w = (skipped e, (s, w))
    handle_if false true e s w = (beyond e, (record s { events = s.events -ℤ pos 1 }, w))
    handle_if false false e s w = run_event e s w

    abbrev pub handle : Entry → Simulation → World → Outcome × (Simulation × World)
    handle e s w = handle_if e.deleted (is_beyond s.limit e.time) e s w

    -- One round of the loop of `SimulationInterface.__call__`
    unfoldable pub turn : Simulation × World → Outcome × (Simulation × World)
    unfolding handle_if
    turn (s, w) = elim (heappop s.queue) [
      | none ↦ (idle, (s, w))
      | some (e, rest) ↦ handle e (record s { queue = rest }) w
    ]

    -- The rounds of the loop until one of them ends it, at most the given number of them and one more
    unfoldable pub loop : ℕ → Simulation × World → Outcome × (Simulation × World)
    unfolding turn
    loop zero s = turn s
    loop (suc n) s = let r = turn s in elim (goes_on r.0) [ true ↦ loop n r.1 | false ↦ r ]

-- What follows the loop: the events that are still in the queue are not counted.
unfoldable pub discount : Simulation → Simulation
discount s = record s { events = s.events -ℤ pos (length s.queue) }
