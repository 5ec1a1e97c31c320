-- ===== src/Aio/Zeebe/Tests.antt =====
-- Runs of the jobs and calls of iams/aio/zeebe.py, and the theorems at concrete values
use industrial_ams.Base.{ℕ, false, List, [], ◌∷◌, ◌≡◌, refl}
use industrial_ams.Py.{ok}
use industrial_ams.Py.Dict.{lookup, put}
use industrial_ams.Aio.Retry.{returned, retry}
use industrial_ams.Aio.Zeebe.{
  some, Attempt, succeeds, fails, back_pressure, internal_error, message_exists, boolean,
  start_process, send_message, sent_variables,
}
use industrial_ams.Aio.Zeebe.Jobs.{
  Board, arrive, finish, Step, IsReached, empty_board, already_running,
}
use industrial_ams.Aio.Zeebe.Watching.{IsWatched, reached-IsWatched}
use industrial_ams.Aio.Zeebe.Callback.{IsDead, reached-IsDead}
use industrial_ams.Base.{inl, inr}
use industrial_ams.Aio.Zeebe.Sending.{Ends, start_process-settled}

-- Values that are texts
abbrev busy_twice : List (Attempt ℕ)
busy_twice = fails back_pressure ∷ (fails internal_error ∷ [])

start_process-settled_example :
    let (sent, (slept, progress)) =
      start_process
        (λ s. s)
        "null"
        "agent:a"
        []
        (fails back_pressure ∷ (fails internal_error ∷ (succeeds 7 ∷ []))) in
    (slept ≡ 1 ∷ (2 ∷ [])) × Ends (succeeds 7) progress × (lookup "task_type" sent ≡ some "agent:a")
start_process-settled_example =
    start_process-settled (λ s. s) "null" "agent:a" [] busy_twice [] (succeeds 7) "task_type"
      (inl refl, (inr (inr (inl refl)), tt))
      (λ h. elim h [
        | inl e ↦ cc e
        | inr (inl e) ↦ cc e
        | inr (inr (inl e)) ↦ cc e
        | inr (inr (inr e)) ↦ cc e
      ])

variables_sent :
    sent_variables (λ s. s) "null" "agent:a" (("size", "3") ∷ [])
    ≡ ("size", "3") ∷ (("task_type", "agent:a") ∷ (("agent_instance_variables", "null") ∷ []))
unfolding sent_variables put lookup
variables_sent = refl

sent_twice :
    send_message "agent:a" "" (fails message_exists ∷ [])
    ≡ ("agent:a", ([], returned (boolean false)))
unfolding retry
sent_twice = refl

-- A job is handed over, a second one too, and the first again.
abbrev one : Board
one = (arrive 11 empty_board).1

abbrev two : Board
two = (arrive 12 one).1

abbrev again : Board
again = (arrive 11 two).1

one-IsReached : IsReached one
one-IsReached = IsReached.step empty_board one IsReached.start (Step.arrives 11 empty_board)

two-IsReached : IsReached two
two-IsReached = IsReached.step one two one-IsReached (Step.arrives 12 one)

again-IsReached : IsReached again
again-IsReached = IsReached.step two again two-IsReached (Step.arrives 11 two)

reached-IsWatched_example : IsWatched again
reached-IsWatched_example = reached-IsWatched again again-IsReached

-- The first job raises: it is refused from then on.
abbrev broken : Board
broken = finish 0 two

broken-IsReached : IsReached broken
unfolding arrive
broken-IsReached = IsReached.step two broken two-IsReached (Step.breaks 11 0 two refl refl)

reached-IsDead_example :
    IsDead 11 0 (arrive 11 broken).1 × ((arrive 11 (arrive 11 broken).1).0 ≡ ok already_running)
unfolding arrive
reached-IsDead_example =
    reached-IsDead broken (arrive 11 broken).1 11 0 broken-IsReached
      (record { job = refl; ended = refl }) (Step.arrives 11 broken)
