-- ===== src/Aio/Tcp.antt =====
-- `class TCPCoroutine` in iams/aio/tcp.py: opening the connection, reading, the heartbeat and the stop. A
-- time is a number of microseconds.
pub mod Beating
mod Tests
use industrial_ams.Base.{ℕ, Bool, true, false, Option, none, some, List, [], ◌∷◌, if◌then◌else◌}
use industrial_ams.Base.Int.{ℤ, pos, ◌+ℤ◌, ◌-ℤ◌, ltb_ℤ}
use industrial_ams.Py.{Result, ok, err, attribute_error, type_error, Error, Method}
use industrial_ams.Aio.Retry.{
  Reply, gives, again, escapes, Progress, waiting, raised, returned, retry,
}

-- Whether `_stop` is done, if it is there, and the heartbeat task: none, one, or one that is canceled
pub record Tcp : Type 0 where
  pub stopped : Option Bool
  pub task : Option Bool

-- How an attempt to open the connection ends
pub data Opening : Type 0 where
  opened refused timed_out failed : Opening

abbrev pub open_reply : Opening → Reply (Unit {0})
open_reply opened = gives tt
open_reply refused = again
open_reply timed_out = again
open_reply failed = escapes

-- `await self._parent.tcp_connected()`, by whether it returns
abbrev pub greeted : Bool → Progress (Unit {0}) → Progress (Unit {0})
greeted returns waiting = waiting
greeted returns raised = raised
greeted true (returned done) = returned done
greeted false (returned done) = raised

-- The end of `start`, after the callback
abbrev pub prepared : Bool → Progress (Unit {0}) → Tcp → Tcp
prepared heartbeat waiting c = c
prepared heartbeat raised c = c
prepared heartbeat (returned done) c = record c {
  stopped = some false;
  task = if heartbeat then some true else c.task;
}

-- `start`: what is slept, how it ends, and the coroutine
abbrev pub start : Bool → Bool → List Opening → Tcp → (List ℕ × Progress (Unit {0})) × Tcp
start heartbeat greets attempts c =
    let (waits, progress) = retry open_reply 0 attempts in
    let end = greeted greets progress in ((waits, end), prepared heartbeat end c)

abbrev pub set_stop : Option Bool → Method Tcp (Unit {0})
set_stop none c = (err attribute_error, c)
set_stop (some done) c = (ok tt, record c { stopped = some true })

abbrev pub cancel_task : Option Bool → Option Bool
cancel_task none = none
cancel_task (some runs) = some false

-- `stop`
abbrev pub stop : Method Tcp (Unit {0})
stop c = set_stop c.stopped (record c { task = cancel_task c.task })

-- What a pass of `loop` reads, and whether `tcp_process_data` returns; `stops` is a stop from elsewhere
pub data Read (D : Type 0) : Type 0 where
  receives : D → Bool → Read D
  breaks times_out fails stops : Read D

-- How the loop ends; `reads` stands for one that still reads.
pub data End : Type 0 where
  reads ended crashed : End

abbrev pub handed : {D : Type 0} → D → List D × End → List D × End
handed d (data', end) = (d ∷ data', end)

-- `loop`: the data that are handed over. A callback that raises is logged; `self.stop()` without an await
-- makes a coroutine that nobody runs.
unfoldable pub loop : {D : Type 0} → List (Read D) → List D × End
loop [] = ([], reads)
loop (receives d returns ∷ turns) = handed d (loop turns)
loop (breaks ∷ turns) = ([], ended)
loop (times_out ∷ turns) = ([], ended)
loop (fails ∷ turns) = ([], crashed)
loop (stops ∷ turns) = ([], ended)

-- `write`, by whether the writer drained in time: the result, and the time of the last write. Its
-- `self.stop()` does not run either.
abbrev pub write : Bool → ℤ → ℤ → Bool × ℤ
write true now last = (true, now)
write false now last = (false, last)

-- What `tcp_heartbeat` returns: None or True, another value, or an exception
pub data Beat : Type 0 where
  accepted rejected broken : Beat

-- A pass of `heartbeat`: the time of the last write, if the agent wrote meanwhile, the time now and after
-- the callback, and what that returns
pub record Pass : Type 0 where
  pub written : Option ℤ
  pub now : ℤ
  pub beat : Beat
  pub later : ℤ

-- What it does: it sleeps or calls
pub data Act : Type 0 where
  sleeps : ℤ → Act
  beats : ℤ → Act

abbrev pub last_of : Option ℤ → ℤ → ℤ
last_of none last = last
last_of (some written) last = written

-- The outcome of the callback; the handler of its exception raises itself, as `logger.exception` wants a
-- message.
abbrev pub beaten : Beat → ℤ → ℤ → Result ℤ
beaten accepted later last = ok later
beaten rejected later last = ok last
beaten broken later last = err type_error

-- One pass of the `while`
unfoldable pub heartbeat_pass : ℤ → Pass → ℤ → Act × Result ℤ
heartbeat_pass period pass before =
    let last = last_of pass.written before in
    let delay = (last -ℤ pass.now) +ℤ period in
    if ltb_ℤ (pos 0) delay
    then (sleeps delay, ok last)
    else (beats pass.now, beaten pass.beat pass.later last)

abbrev pub went : Act × Result ℤ → (List Act × Result ℤ) → List Act × Result ℤ
went (act, ok last) (acts, end) = (act ∷ acts, end)
went (act, err x) rest = (act ∷ [], err x)

abbrev pub kept_or : ℤ → Result ℤ → ℤ
kept_or before (ok last) = last
kept_or before (err x) = before

-- `heartbeat` while nobody stops it: what it does, and the time of the last write or its exception
unfoldable pub heartbeat : ℤ → List Pass → ℤ → List Act × Result ℤ
unfolding heartbeat_pass
heartbeat period [] last = ([], ok last)
heartbeat period (pass ∷ passes) last =
    let step = heartbeat_pass period pass last in
    let rest = heartbeat period passes (kept_or last step.1) in went step rest
