-- ===== src/Aio/Events/Tests.antt =====
-- Runs of the loop of iams/aio/interfaces.py, and the theorems at concrete turns
use industrial_ams.Base.{Bool, true, false, List, [], ◌∷◌, ◌≡◌, refl}
use industrial_ams.Aio.Events.{
  returns, times_out, Wake, run_called, interval_over, Turn, loop, pass, started,
}
use industrial_ams.Aio.Events.Flags.{AllCalm, flags, started-flags}

abbrev calm_turn : Bool → Wake → Turn
calm_turn run wake = record { main = returns; run = run; stop = false; wake = wake }

-- The interval is over, `run` is called in the wait, `run` is called during `main`, the interval is over
abbrev day : List Turn
day =
    calm_turn false interval_over
    ∷ (calm_turn false run_called
        ∷ (calm_turn true interval_over ∷ (calm_turn false interval_over ∷ [])))

started-flags_example : (loop day started).0 ≡ true ∷ (true ∷ (false ∷ (false ∷ [])))
unfolding flags AllCalm
started-flags_example =
    started-flags day
      ((refl, (refl, tt)), ((refl, (refl, tt)), ((refl, (refl, tt)), ((refl, (refl, tt)), tt))))

-- A `TimeoutError` of `main` itself counts as the end of the interval: the next call follows at once.
timed_out_main :
    (loop
      (record { main = times_out; run = false; stop = false; wake = run_called }
        ∷ (calm_turn true run_called ∷ []))
      started).0
    ≡ true ∷ (true ∷ [])
unfolding loop pass
timed_out_main = refl
