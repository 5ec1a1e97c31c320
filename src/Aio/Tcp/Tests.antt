-- ===== src/Aio/Tcp/Tests.antt =====
-- Runs of the connection of iams/aio/tcp.py, and the theorem at concrete passes
use industrial_ams.Base.{ℕ, true, false, none, some, List, [], ◌∷◌, ◌≡◌, refl}
use industrial_ams.Base.Int.{ℤ, pos, ◌+ℤ◌, ◌-ℤ◌}
use industrial_ams.Py.{err, type_error, attribute_error}
use industrial_ams.Aio.Retry.{returned, retry}
use industrial_ams.Aio.Tcp.{
  opened, refused, timed_out, start, stop, Read, receives, breaks, loop, ended, Pass, Beat,
  accepted, broken, sleeps, beats, heartbeat_pass, heartbeat,
}
use industrial_ams.Aio.Tcp.Beating.{Spaced, heartbeat-Spaced}

abbrev at : ℤ → Beat → Pass
at now beat = record { written = none; now = now; beat = beat; later = now +ℤ pos 1 }

-- A period of 10: a sleep, a heartbeat, a sleep, and a write at 20 that puts off the next heartbeat
abbrev day : List Pass
day =
    at (pos 3) accepted
    ∷ (at (pos 10) accepted
        ∷ (at (pos 12) accepted
            ∷ (record { written = some (pos 20); now = pos 21; beat = accepted; later = pos 21 }
                ∷ [])))

heartbeat-Spaced_example :
    Spaced
      (pos 10)
      (pos 0)
      day
      (sleeps (pos 7) ∷ (beats (pos 10) ∷ (sleeps (pos 9) ∷ (sleeps (pos 9) ∷ []))))
unfolding heartbeat heartbeat_pass ◌+ℤ◌ ◌-ℤ◌
heartbeat-Spaced_example = heartbeat-Spaced (pos 10) (pos 0) day (refl, (refl, (refl, (refl, tt))))

-- After a callback that raises, the heartbeat ends with a TypeError.
broken_beat :
    heartbeat (pos 10) (at (pos 10) broken ∷ day) (pos 0) ≡ (beats (pos 10) ∷ [], err type_error)
unfolding heartbeat heartbeat_pass ◌+ℤ◌ ◌-ℤ◌
broken_beat = refl

-- A callback that raises does not end the loop.
abbrev packets : List (Read ℕ)
packets = receives 1 false ∷ (receives 2 true ∷ (breaks ∷ (receives 3 true ∷ [])))

raising : loop packets ≡ (1 ∷ (2 ∷ []), ended)
unfolding loop
raising = refl

opened_late :
    start true true (refused ∷ (timed_out ∷ (opened ∷ []))) (record { stopped = none; task = none })
    ≡ ((1 ∷ (2 ∷ []), returned tt), record { stopped = some false; task = some true })
unfolding retry
opened_late = refl

-- A stop before the start has come to its end raises.
early_stop : (stop (record { stopped = none; task = none })).0 ≡ err attribute_error
early_stop = refl
