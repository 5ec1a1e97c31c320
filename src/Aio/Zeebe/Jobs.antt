-- ===== src/Aio/Zeebe/Jobs.antt =====
-- The jobs of the worker: `callback` in `setup` of iams/aio/zeebe.py, up to its await and after it. Tasks
-- and timers are numbers, in the order in which they are made.
use industrial_ams.Base.{◌≡◌, ℕ, ◌+◌, Bool, true, false, Option, none, some, ◌==◌, if◌then◌else◌}
use industrial_ams.Py.{Result, ok, err, key_error, Method}

-- A dict with numbers for keys
abbrev pub Table : Type 0 → Type 0
Table A = ℕ → Option A

abbrev pub put_at : {A : Type 0} → ℕ → A → Table A → Table A
put_at k a table = λ n. if n == k then some a else table n

abbrev pub drop_at : {A : Type 0} → ℕ → Table A → Table A
drop_at k table = λ n. if n == k then none else table n

-- `_jobs` and `_watch`; the timers that are armed, with the task that each cancels; and the tasks
-- that run
pub record Board : Type 0 where
  pub jobs : Table ℕ
  pub watch : Table ℕ
  pub armed : Table ℕ
  pub running : ℕ → Bool
  pub tasks : ℕ
  pub timers : ℕ

-- What comes of a job that the server hands over: `JobAlreadyRunningError`, or the task that is awaited
pub data Arrival : Type 0 where
  already_running : Arrival
  started : ℕ → Arrival

-- `self._watch[job.key].cancel()`
abbrev pub disarmed : Option ℕ → Method Board (Unit {0})
disarmed none b = (err key_error, b)
disarmed (some timer) b = (ok tt, record b { armed = drop_at timer b.armed })

-- `self._watch[job.key] = self._loop.call_later(120, self._jobs[job.key].cancel)`
abbrev pub arm : ℕ → ℕ → Board → Board
arm key task b = record b {
  watch = put_at key b.timers b.watch;
  armed = put_at b.timers task b.armed;
  timers = b.timers + 1;
}

-- `self._jobs[job.key] = asyncio.create_task(...)`
abbrev pub create_task : ℕ → Board → Board
create_task key b = record b {
  jobs = put_at key b.tasks b.jobs;
  running = λ n. if n == b.tasks then true else b.running n;
  tasks = b.tasks + 1;
}

abbrev pub repeated : ℕ → ℕ → Result (Unit {0}) × Board → Result Arrival × Board
repeated key task (err x, b) = (err x, b)
repeated key task (ok done, b) = (ok already_running, arm key task b)

abbrev pub arrived : Option ℕ → ℕ → Method Board Arrival
arrived (some task) key b = repeated key task (disarmed (b.watch key) b)
arrived none key b = (ok (started b.tasks), arm key b.tasks (create_task key b))

-- `callback` up to its await
unfoldable pub arrive : ℕ → Method Board Arrival
arrive key b = arrived (b.jobs key) key b

abbrev pub deleted : Option ℕ → ℕ → Result (Unit {0}) × Board → Result (Unit {0}) × Board
deleted job key (err x, b) = (err x, b)
deleted none key (ok done, b) = (err key_error, b)
deleted (some task) key (ok done, b) =
    (ok tt, record b { jobs = drop_at key b.jobs; watch = drop_at key b.watch })

-- `callback` behind its await, which a task that raises or is canceled does not reach
unfoldable pub complete : ℕ → Method Board (Unit {0})
complete key b = deleted (b.jobs key) key (disarmed (b.watch key) b)

-- The task ends.
abbrev pub finish : ℕ → Board → Board
finish task b = record b { running = λ n. if n == task then false else b.running n }

-- The timer runs out and cancels its task.
abbrev pub expire : ℕ → ℕ → Board → Board
expire timer task b = record (finish task b) { armed = drop_at timer b.armed }

-- What may happen next: a job is handed over, a job that runs returns or raises, or a timer runs out.
pub data Step : Board → Board → Type 0 where
  arrives : (key : ℕ) (b : Board) → Step b (arrive key b).1
  completes :
      (key task : ℕ) (b : Board)
      → b.jobs key ≡ some task
      → b.running task ≡ true
      → Step b (complete key (finish task b)).1
  breaks :
      (key task : ℕ) (b : Board)
      → b.jobs key ≡ some task
      → b.running task ≡ true
      → Step b (finish task b)
  expires : (timer task : ℕ) (b : Board) → b.armed timer ≡ some task → Step b (expire timer task b)

-- After `__init__`
abbrev pub empty_board : Board
empty_board = record {
  jobs = λ n. none;
  watch = λ n. none;
  armed = λ n. none;
  running = λ n. false;
  tasks = 0;
  timers = 0;
}

pub data IsReached : Board → Type 0 where
  start : IsReached empty_board
  step : (b next : Board) → IsReached b → Step b next → IsReached next
