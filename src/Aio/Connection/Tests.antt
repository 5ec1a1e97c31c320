-- ===== src/Aio/Connection/Tests.antt =====
-- Runs of a connection of iams/aio/grpc.py, and the theorems at concrete events
use industrial_ams.Base.{ℕ, false, Option, none, some, List, [], ◌∷◌, ◌≡◌, refl, All}
use industrial_ams.Aio.Connection.{
  connect, disconnect, process, sleep, cleanup, Event, responds, fails, ends, cancels, rpc_error,
  on_event, main, initial,
}
use industrial_ams.Aio.Connection.Order.{observed, main-observed}
use industrial_ams.Aio.Connection.Answers.{calm, processed, IsCalm, answers, initial-answers}
use industrial_ams.Aio.Connection.Waits.{sleeps}
use industrial_ams.Aio.Connection.Bounds.{Short, IsRested, main-Short}

abbrev silent : Option ℕ
silent = none

-- Two attempts that fail, two responses, the end of the stream, a response, an error, a response
abbrev day : List (Event ℕ)
day =
    fails calm
    ∷ (fails calm
        ∷ (responds 1 calm
            ∷ (responds 2 calm
                ∷ (ends ∷ (responds 3 calm ∷ (fails calm ∷ (responds 4 calm ∷ [])))))))

-- A callback `process` that raises an error of gRPC, and then the cancellation
abbrev broken : List (Event ℕ)
broken = responds 5 (record calm { process = rpc_error }) ∷ (cancels ∷ (responds 6 calm ∷ []))

day_calls :
    (main none day (initial none)).0
    ≡ sleep 3
      ∷ (sleep 6
          ∷ (connect
              ∷ (process none 1
                  ∷ (process (some 1) 2
                      ∷ (process (some 2) 3
                          ∷ (disconnect ∷ (sleep 3 ∷ (connect ∷ (process none 4 ∷ [])))))))))
unfolding main on_event
day_calls = refl

broken_calls :
    (main none broken (initial none)).0
    ≡ connect ∷ (process none 5 ∷ (disconnect ∷ (sleep 3 ∷ (cleanup ∷ []))))
unfolding main on_event
broken_calls = refl

main-observed_example : observed (some false) (main none broken (initial none)).0 ≡ some false
unfolding main on_event
main-observed_example = main-observed none broken (initial none)

initial-answers_example :
    processed (main none day (initial none)).0
    ≡ (none, 1) ∷ ((some 1, 2) ∷ ((some 2, 3) ∷ ((none, 4) ∷ [])))
unfolding IsCalm answers
initial-answers_example =
    initial-answers none day (refl, (refl, (refl, (refl, (refl, (refl, (refl, tt)))))))

main-Short_example :
    let (calls, (phase, c)) = main none day (initial none) in All Short (sleeps calls) × IsRested c
main-Short_example = main-Short none day
