-- ===== src/Simulation/Tests.antt =====
-- The event loop with a sorted list as heap and agents that schedule, cancel and stop.
use industrial_ams.Base.{
  ◌≤◌, ℕ, ◌+◌, ◌≡◌, refl, String, Bool, true, false, some, List, [], ◌∷◌, length, All, ◌==◌, arith,
}
use industrial_ams.Base.Int.{ℤ, pos, ◌+ℤ◌, ◌-ℤ◌, ◌≤ℤ◌}
use industrial_ams.Simulation.{
  loop, goes_on, Entry, Simulation, Call, schedule_it, cancel_it, Ending, returns, ran, skipped,
  beyond, Priority, normal, high, turn, discount, init, schedule, perform, handle_if, run_event,
  before, mark,
}
use industrial_ams.Simulation.Loop.{Runs, begin, executes, skips, processed_events}
use industrial_ams.Simulation.Chronology.{
  Chronological, IsDue, IsForward, IsReady, executed-Chronological,
}
use industrial_ams.Simulation.Termination.{IsQuiet, loop_terminates}
use industrial_ams.Simulation.Sorted.{insert, first, sorted_heap}

-- Two events at 3 and 4; the first cancels the second and schedules one behind the limit.
abbrev begun : Simulation
begun =
    schedule insert "b" (pos 4) "work" normal
      (schedule insert "a" (pos 3) "plan" normal (init (pos 0) (some (pos 9))))

abbrev plan : Bool → List Call × Ending
plan true = (cancel_it 1 ∷ schedule_it "b" (pos 7) "late" high ∷ [], returns)
plan false = ([], returns)

abbrev is_first : ℕ → Bool
is_first n = n == 0

-- The world counts the callbacks.
abbrev act : Entry → Simulation → ℕ → (List Call × Ending) × ℕ
act e s n = (plan (is_first n), n + 1)

abbrev entry : ℕ → String → ℤ → String → ℤ → Priority → Entry
entry n obj t callback dt priority = record {
  number = n;
  time = t;
  obj = obj;
  callback = callback;
  dt = dt;
  priority = priority;
  deleted = false;
}

abbrev planning : Entry
planning = entry 0 "a" (pos 3) "plan" (pos 3) normal

abbrev working : Entry
working = record (entry 1 "b" (pos 4) "work" (pos 4) normal) { deleted = true }

abbrev late : Entry
late = entry 2 "b" (pos 10) "late" (pos 7) high

abbrev planned : Simulation
planned = record begun { queue = working ∷ late ∷ []; time = pos 3; events = pos 3; created = 3 }

abbrev passed : Simulation
passed = record planned { queue = late ∷ [] }

abbrev over : Simulation
over = record passed { queue = []; events = pos 2 }

program : Unit {0}
unfolding turn handle_if run_event perform schedule mark before ◌+ℤ◌ ◌-ℤ◌
program = tt

turn-begun : turn insert first act (begun, 0) ≡ (ran planning, (planned, 1))
unfolding program
turn-begun = refl

turn-planned : turn insert first act (planned, 1) ≡ (skipped working, (passed, 1))
unfolding program
turn-planned = refl

turn-passed : turn insert first act (passed, 1) ≡ (beyond late, (over, 1))
unfolding program
turn-passed = refl

whole : Runs insert first sorted_heap act (begun, 0) (planning ∷ []) (0 + 1) (passed, 1)
whole = skips working (executes planning begin turn-begun) turn-planned

begun_count : begun.events ≡ pos (length begun.queue)
unfolding program
begun_count = refl

processed_events_example : (discount over).events ≡ pos (1 + (0 + 1) + 0)
processed_events_example =
    processed_events insert first sorted_heap act (begun, 0) (passed, 1) (over, 1) (planning ∷ [])
      (0 + 1) (beyond late) begun_count whole turn-passed

plan-IsForward : (b : Bool) → IsForward (plan b).0
plan-IsForward true = (omega arith, tt)
plan-IsForward false = tt

act-IsForward : (e : Entry) (s : Simulation) (n : ℕ) → IsForward (act e s n).0.0
act-IsForward e s n = plan-IsForward (is_first n)

begun-IsReady : IsReady insert first sorted_heap act act-IsForward begun
unfolding program sorted_heap
begun-IsReady = record { heap = ((refl, tt), (tt, tt)); future = (omega arith, (omega arith, tt)) }

executed-Chronological_example :
    Chronological (planning ∷ [])
    × All (IsDue (some (pos 9))) (planning ∷ [])
    × All (λ x. x.time ≤ℤ pos 3) (planning ∷ [])
    × IsReady insert first sorted_heap act act-IsForward passed
unfolding schedule
executed-Chronological_example =
    executed-Chronological insert first sorted_heap act act-IsForward (begun, 0) (passed, 1)
      (planning ∷ []) (0 + 1) begun-IsReady whole

-- An agent that only cancels
abbrev act_quietly : Entry → Simulation → ℕ → (List Call × Ending) × ℕ
act_quietly e s n = ((cancel_it 1 ∷ [], returns), n)

quietly : (e : Entry) (s : Simulation) (n : ℕ) → IsQuiet (act_quietly e s n).0.0
quietly e s n = tt

begun-length : length begun.queue ≤ 2
unfolding program
begun-length = omega arith

loop_terminates_example : goes_on (loop insert first act_quietly 2 (begun, 0)).0 ≡ false
loop_terminates_example =
    loop_terminates insert first sorted_heap act_quietly quietly 2 (begun, 0) begun-length
