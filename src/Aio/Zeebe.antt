-- ===== src/Aio/Zeebe.antt =====
-- The calls of `class ZeebeCoroutine` and `class ZeebeMixin` in iams/aio/zeebe.py that the agent
-- makes. How pyzeebe answers is a list of attempts, as in Retry; a value of a process variable is
-- of a type V.
pub mod Jobs
pub mod Watching
pub mod Callback
pub mod Sending
mod Tests
use industrial_ams.Base.{
  ℕ, String, Bool, true, false, Option, none, some, is_some, List, [], ◌∷◌, if◌then◌else◌,
}
use industrial_ams.Py.Text.{is_written}
use industrial_ams.Py.Dict.{Dict, lookup, put}
use industrial_ams.Aio.Retry.{Reply, gives, again, escapes, Progress, returned, retry}

-- The exceptions of pyzeebe that the code names, and all others
pub data ZeebeError : Type 0 where
  definition_not_found invalid_json no_start_event : ZeebeError
  instance_not_found message_exists : ZeebeError
  back_pressure gateway_unavailable internal_error unknown_status : ZeebeError
  other_error : ZeebeError

pub data Attempt (A : Type 0) : Type 0 where
  succeeds : A → Attempt A
  fails : ZeebeError → Attempt A

-- What `start_process`, `cancel_process` and `send_message` of the mixin return
pub data Answer : Type 0 where
  nothing : Answer
  boolean : Bool → Answer
  key : ℕ → Answer

-- The clause that sleeps; what it does not name escapes.
abbrev pub busy : ZeebeError → Reply Answer
busy back_pressure = again
busy gateway_unavailable = again
busy internal_error = again
busy unknown_status = again
busy x = escapes

abbrev pub run_reply : Attempt ℕ → Reply Answer
run_reply (succeeds instance_key) = gives (key instance_key)
run_reply (fails definition_not_found) = gives (key 0)
run_reply (fails invalid_json) = gives (key 0)
run_reply (fails no_start_event) = gives (key 0)
run_reply (fails x) = busy x

abbrev pub cancel_reply : Attempt (Unit {0}) → Reply Answer
cancel_reply (succeeds done) = gives nothing
cancel_reply (fails instance_not_found) = gives nothing
cancel_reply (fails x) = busy x

abbrev pub message_reply : Attempt (Unit {0}) → Reply Answer
message_reply (succeeds done) = gives (boolean true)
message_reply (fails message_exists) = gives (boolean false)
message_reply (fails x) = busy x

module _ {V : Type 0} (text : String → V) (null : V) where
  abbrev with_variables : Bool → Dict V → Dict V
  with_variables true variables = variables
  with_variables false variables = put "agent_instance_variables" null variables

  -- The variables that `start_process` sends; the dict of the caller is changed.
  unfoldable pub sent_variables : String → Dict V → Dict V
  unfolding lookup put
  sent_variables task_type variables =
      let typed = put "task_type" (text task_type) variables in
      with_variables (is_some (lookup "agent_instance_variables" typed)) typed

  -- The variables, what was slept, and the result of `start_process`
  abbrev pub start_process :
      String → Dict V → List (Attempt ℕ) → Dict V × (List ℕ × Progress Answer)
  start_process task_type variables attempts =
      (sent_variables task_type variables, retry run_reply 0 attempts)

abbrev pub cancel_process : List (Attempt (Unit {0})) → List ℕ × Progress Answer
cancel_process attempts = retry cancel_reply 0 attempts

-- The correlation key that is sent, what was slept, and the result
abbrev pub send_message :
    String → String → List (Attempt (Unit {0})) → String × (List ℕ × Progress Answer)
send_message task_type correlation_key attempts = (
  if is_written correlation_key then correlation_key else task_type,
  retry message_reply 0 attempts,
)

-- The methods of the mixin: without pyzeebe there is no coroutine, and nothing is tried.
abbrev pub zeebe_cancel_process : Bool → List (Attempt (Unit {0})) → List ℕ × Progress Answer
zeebe_cancel_process false attempts = ([], returned (boolean false))
zeebe_cancel_process true attempts = cancel_process attempts
