-- ===== src/Aio/Events/Flags.antt =====
-- Which calls of `main` in iams/aio/interfaces.py are periodic, and that a stop ends the loop
use industrial_ams.Base.{Bool, true, false, not, ◌||◌, List, [], ◌∷◌, if◌then◌else◌, ◌≡◌, refl, ap}
use industrial_ams.Aio.Events.{
  MainEnd, returns, times_out, cancelled, raises, Wake, run_called, stop_called, interval_over,
  task_cancelled, Turn, Loop, Pass, goes_on, broken, stop, run, waited, after_main, pass, loop,
  continued, started,
}

abbrev pub is_run : Wake → Bool
is_run run_called = true
is_run stop_called = false
is_run interval_over = false
is_run task_cancelled = false

abbrev pub IsAwake : Wake → Type 0
IsAwake run_called = Unit
IsAwake interval_over = Unit
IsAwake stop_called = ⊥
IsAwake task_cancelled = ⊥

-- A turn in which `main` returns, nobody stops or cancels the loop, and the wait comes to an end
abbrev pub IsCalm : Turn → Type 0
IsCalm turn = (turn.main ≡ returns) × ((turn.stop ≡ false) × IsAwake turn.wake)

unfoldable pub AllCalm : List Turn → Type 0
AllCalm [] = Unit
AllCalm (turn ∷ turns) = IsCalm turn × AllCalm turns

-- The flag of a call, and whether anybody called `run` since
unfoldable pub flags : Bool → List Turn → List Bool
flags periodic [] = []
flags periodic (turn ∷ turns) = periodic ∷ flags (not (turn.run || is_run turn.wake)) turns

calm_wait :
    (called : Bool) (wake : Wake) (l : Loop)
    → IsAwake wake
    → l.event ≡ false
    → waited (if called then run l else l).event wake (if called then run l else l)
      ≡ (goes_on, record l { event = false; periodic = not (called || is_run wake) })
calm_wait true wake l h e = refl
calm_wait false run_called l h e = rw e refl
calm_wait false interval_over l h e = rw e refl
calm_wait false stop_called l h e = absurd h
calm_wait false task_cancelled l h e = absurd h

calm_pass :
    (turn : Turn) (l : Loop)
    → IsCalm turn
    → l.event ≡ false
    → pass turn l
      ≡ (goes_on, record l { event = false; periodic = not (turn.run || is_run turn.wake) })
unfolding pass
calm_pass turn l h e = rw (h.0, h.1.0) (calm_wait turn.run turn.wake l h.1.1 e)

calm-flags :
    (turns : List Turn) (l : Loop)
    → AllCalm turns
    → l.event ≡ false
    → l.stopped ≡ false
    → (loop turns l).0 ≡ flags l.periodic turns
unfolding loop flags AllCalm
calm-flags [] l h e up = refl
calm-flags (turn ∷ turns) l h e up =
    let next : Loop = record l {
      event = false;
      stopped = false;
      periodic = not (turn.run || is_run turn.wake);
    } in
    let rest = calm-flags turns next h.1 refl refl in
    rw (calm_pass turn l h.0 e, up) (ap (λ t. l.periodic ∷ t) rest)

-- While `main` returns and nobody stops or cancels the loop, a call of `main` is periodic exactly
-- if it is the first, or nobody has called `run` since the call before: no `run` is lost, also not
-- one during `main`.
pub started-flags : (turns : List Turn) → AllCalm turns → (loop turns started).0 ≡ flags true turns
started-flags turns h = calm-flags turns started h refl refl

stopped_wait :
    (wake : Wake) (l : Loop)
    → l.event ≡ true
    → l.stopped ≡ true
    → (waited l.event wake l).1.stopped ≡ true
stopped_wait wake l e h = rw e h

stopped_main :
    (main : MainEnd) (wake : Wake) (l : Loop)
    → l.event ≡ true
    → l.stopped ≡ true
    → (after_main main wake l).1.stopped ≡ true
stopped_main returns wake l e h = stopped_wait wake l e h
stopped_main times_out wake l e h = h
stopped_main cancelled wake l e h = h
stopped_main raises wake l e h = h

stopped_pass : (turn : Turn) (l : Loop) → turn.stop ≡ true → (pass turn l).1.stopped ≡ true
unfolding pass
stopped_pass turn l h =
    rw h (stopped_main turn.main turn.wake (stop (if turn.run then run l else l)) refl refl)

stopped_loop : (turns : List Turn) (l : Loop) → l.stopped ≡ true → loop turns l ≡ ([], stop l)
unfolding loop
stopped_loop [] l h = rw h refl
stopped_loop (turn ∷ turns) l h = rw h refl

stopped_rest :
    (step : Pass × Loop) (turns : List Turn)
    → step.1.stopped ≡ true
    → continued step (loop turns step.1) ≡ ([], stop step.1)
stopped_rest (goes_on, l) turns h = stopped_loop turns l h
stopped_rest (broken, l) turns h = refl

-- A stop while `main` runs, however `main` ends: `main` is not called again, whatever comes, and
-- `_stop` is done.
pub stop-loop :
    (turn : Turn) (turns : List Turn) (l : Loop)
    → l.stopped ≡ false
    → turn.stop ≡ true
    → ((loop (turn ∷ turns) l).0 ≡ l.periodic ∷ []) × ((loop (turn ∷ turns) l).1.stopped ≡ true)
unfolding loop
stop-loop turn turns l up stopped =
    let rest = stopped_rest (pass turn l) turns (stopped_pass turn l stopped) in
    rw (rest, up) (refl, refl)
