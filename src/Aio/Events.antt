-- ===== src/Aio/Events.antt =====
-- The loop of `class EventCoroutine` in iams/aio/interfaces.py. What happens in one pass is a turn:
-- how `main` ends, whether `run` or `stop` was called meanwhile, and what the wait for the next
-- event brings.
pub mod Flags
mod Tests
use industrial_ams.Base.{Bool, true, false, not, ◌||◌, List, [], ◌∷◌, if◌then◌else◌}

-- How `main` ends
pub data MainEnd : Type 0 where
  returns : MainEnd
  times_out : MainEnd
  cancelled : MainEnd
  raises : MainEnd

-- What ends the wait, if the event is not set already
pub data Wake : Type 0 where
  run_called stop_called interval_over task_cancelled : Wake

pub record Turn : Type 0 where
  pub main : MainEnd
  pub run : Bool
  pub stop : Bool
  pub wake : Wake

-- Whether the event is set, whether `_stop` is done, and `periodic`
pub record Loop : Type 0 where
  pub event : Bool
  pub stopped : Bool
  pub periodic : Bool

-- Whether the `while` goes on, or `break` was reached
pub data Pass : Type 0 where
  goes_on broken : Pass

-- `stop`
abbrev pub stop : Loop → Loop
stop l = record l { stopped = true; event = true }

-- `run`
abbrev pub run : Loop → Loop
run l = record l { event = true }

-- `else`
abbrev pub woken : Loop → Pass × Loop
woken l = (goes_on, record l { event = false; periodic = false })

-- `except asyncio.TimeoutError`, also of one that `main` raises
abbrev pub timed_out : Loop → Pass × Loop
timed_out l = (goes_on, record l { periodic = true })

abbrev pub waited : Bool → Wake → Loop → Pass × Loop
waited true wake l = woken l
waited false run_called l = woken (run l)
waited false stop_called l = woken (stop l)
waited false interval_over l = timed_out l
waited false task_cancelled l = (broken, l)

abbrev pub after_main : MainEnd → Wake → Loop → Pass × Loop
after_main returns wake l = waited l.event wake l
after_main times_out wake l = timed_out l
after_main cancelled wake l = (broken, l)
after_main raises wake l = (broken, l)

-- What others did to the coroutine while `main` ran
abbrev pub meanwhile : Turn → Loop → Loop
meanwhile turn l = let l = if turn.run then run l else l in if turn.stop then stop l else l

-- One pass, and the `periodic` that `main` gets
unfoldable pub pass : Turn → Loop → Pass × Loop
pass turn l = after_main turn.main turn.wake (meanwhile turn l)

abbrev pub continued : Pass × Loop → List Bool × Loop → List Bool × Loop
continued (goes_on, l) rest = rest
continued (broken, l) rest = ([], stop l)

-- One test of the `while`: the call of `main`, and the passes after it
abbrev pub tested : Loop → Pass × Loop → List Bool × Loop → List Bool × Loop
tested l step rest =
    let (calls, last) = continued step rest in
    if l.stopped then ([], stop l) else (l.periodic ∷ calls, last)

-- `loop` over the turns to come: the calls of `main`, and what is left; after the `while`, `stop`
unfoldable pub loop : List Turn → Loop → List Bool × Loop
unfolding pass
loop [] l = ([], if l.stopped then stop l else l)
loop (turn ∷ turns) l = let step = pass turn l in let rest = loop turns step.1 in tested l step rest

-- After `_start`, with the `periodic` of the beginning of `loop`
abbrev pub started : Loop
started = record { event = false; stopped = false; periodic = true }
