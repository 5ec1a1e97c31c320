-- ===== src/Aio/Connection.antt =====
-- The connection of `class GRPCConnectionCoroutine` in iams/aio/grpc.py: `_main` as steps, one for each
-- thing that the stream of the remote agent does. Waits are in tenths of a second.
pub mod Order
pub mod Answers
pub mod Waits
pub mod Bounds
mod Tests
use industrial_ams.Base.{
  ℕ, ◌+◌, Bool, true, false, Option, none, some, List, [], ◌∷◌, ◌++◌, if◌then◌else◌,
}
use industrial_ams.Aio.Retry.{capped}

-- How the callback of an agent ends
pub data Hook : Type 0 where
  returns rpc_error raises cancelled : Hook

-- How `connect`, `process` and `disconnect` end, should they be called next
pub record Hooks : Type 0 where
  pub connect : Hook
  pub process : Hook
  pub disconnect : Hook

-- What an await brings: a response, an error of gRPC (also from opening the channel), the end of the
-- stream, or the cancellation of the task
pub data Event (R : Type 0) : Type 0 where
  responds : R → Hooks → Event R
  fails : Hooks → Event R
  ends cancels : Event R

-- The calls of callbacks and of `sleep`; `process` with what it finds in `previous` and `data`
pub data Call (R : Type 0) : Type 0 where
  connect disconnect cleanup : Call R
  process : Option R → R → Call R
  sleep : ℕ → Call R

-- The attributes that `_main` sets, and its `wait`
pub record Connection (R : Type 0) : Type 0 where
  pub connected : Bool
  pub previous : Option R
  pub data' : Option R
  pub wait : ℕ

-- Whether the task goes on, has ended, or has ended with an exception
pub data Phase : Type 0 where
  going ended crashed : Phase

-- `wait = min(15, wait + 0.3)`
abbrev pub longer : ℕ → ℕ
longer wait = capped 150 (wait + 3)

-- A step: what is called, how it ends, and what it leaves
abbrev pub Step : Type 0 → Type 0
Step R = List (Call R) × (Phase × Connection R)

abbrev pub slept : {R : Type 0} → List (Call R) → Connection R → Step R
slept calls c = (calls ++ (sleep (longer c.wait) ∷ []), (going, record c { wait = longer c.wait }))

-- The end of the clause after `disconnect`: an error of gRPC in it is not caught again.
abbrev pub disconnected : {R : Type 0} → Hook → List (Call R) → Connection R → Step R
disconnected returns calls c = slept calls c
disconnected cancelled calls c = (calls, (ended, c))
disconnected rpc_error calls c = (calls, (crashed, c))
disconnected raises calls c = (calls, (crashed, c))

-- `except grpc.RpcError`
abbrev pub rejected : {R : Type 0} → Hook → List (Call R) → Connection R → Step R
rejected hook calls c =
    if c.connected
    then disconnected hook (calls ++ (disconnect ∷ [])) (record c { connected = false })
    else slept calls c

-- What follows a callback inside the block: the rest of the block, or its handlers
abbrev pub after : {R : Type 0} → Hook → Hook → List (Call R) → Connection R → Step R → Step R
after returns hook calls c rest = rest
after rpc_error hook calls c rest = rejected hook calls c
after raises hook calls c rest = (calls, (crashed, c))
after cancelled hook calls c rest = (calls, (ended, c))

abbrev pub call_process : {R : Type 0} → Hooks → List (Call R) → R → Connection R → Step R
call_process hooks calls r c =
    let done = calls ++ (process c.previous r ∷ []) in
    after hooks.process hooks.disconnect done c (done, (going, c))

-- The body of the loop over the responses
abbrev pub received : {R : Type 0} → Option R → R → Hooks → Connection R → Step R
received default r hooks c =
    if c.connected
    then call_process hooks [] r (record c { previous = c.data'; data' = some r })
    else let fresh = record c { connected = true; previous = default; data' = some r; wait = 0 } in
      after hooks.connect hooks.disconnect (connect ∷ []) fresh
        (call_process hooks (connect ∷ []) r fresh)

unfoldable pub on_event : {R : Type 0} → Option R → Event R → Connection R → Step R
on_event default (responds r hooks) c = received default r hooks c
on_event default (fails hooks) c = rejected hooks.disconnect [] c
on_event default ends c = ([], (going, c))
on_event default cancels c = ([], (ended, c))

-- `__init__` and the beginning of `_main`
abbrev pub initial : {R : Type 0} → Option R → Connection R
initial default = record { connected = false; previous = default; data' = none; wait = 0 }

-- The task over the events to come; when it ends, by an exception or not, it calls `cleanup`.
abbrev pub proceed : {R : Type 0} → Step R → Step R → Step R
proceed (calls, (going, c)) (more, rest) = (calls ++ more, rest)
proceed (calls, (ended, c)) rest = (calls ++ (cleanup ∷ []), (ended, c))
proceed (calls, (crashed, c)) rest = (calls ++ (cleanup ∷ []), (crashed, c))

unfoldable pub main : {R : Type 0} → Option R → List (Event R) → Connection R → Step R
unfolding on_event
main default [] c = ([], (going, c))
main default (event ∷ events) c =
    let step = on_event default event c in
    let rest = main default events step.1.1 in proceed step rest
