-- ===== src/Aio/Zeebe/Watching.antt =====
-- Every job of iams/aio/zeebe.py that runs has its watchdog.
use industrial_ams.Base.{
  subst, ℕ, ◌≤◌, suc, true, Option, none, some, is_some, ◌≡◌, refl, sym, arith, Option-cases, inl,
  inr,
}
use industrial_ams.Py.{ok}
use industrial_ams.Aio.Zeebe.Jobs.{
  started, already_running, Board, drop_at, arm, create_task, arrive, complete, finish, expire,
  Step, arrives, completes, breaks, expires, IsReached, start, step, empty_board,
}

pub record IsWatched (b : Board) : Type 0 where
  pub watched : (k t : ℕ) → b.jobs k ≡ some t → is_some (b.watch k) ≡ true
  pub unwatched : (k : ℕ) → b.jobs k ≡ none → b.watch k ≡ none
  pub made_task : (k t : ℕ) → b.jobs k ≡ some t → suc t ≤ b.tasks
  pub made_timer : (k w : ℕ) → b.watch k ≡ some w → suc w ≤ b.timers
  pub guarded :
      (k t w : ℕ) → b.jobs k ≡ some t → b.watch k ≡ some w → b.running t ≡ true → b.armed w ≡ some t
  pub own_task : (k j t : ℕ) → b.jobs k ≡ some t → b.jobs j ≡ some t → k ≡ j
  pub own_timer : (k j w : ℕ) → b.watch k ≡ some w → b.watch j ≡ some w → k ≡ j

empty-IsWatched : IsWatched empty_board
empty-IsWatched = record {
  watched = λ k t h. cc h;
  unwatched = λ k h. refl;
  made_task = λ k t h. cc h;
  made_timer = λ k w h. cc h;
  guarded = λ k t w h. cc h;
  own_task = λ k j t h. cc h;
  own_timer = λ k j w h. cc h;
}

finish-IsWatched : (task : ℕ) (b : Board) → IsWatched b → IsWatched (finish task b)
finish-IsWatched task b h = record {
  watched = h.watched;
  unwatched = h.unwatched;
  made_task = h.made_task;
  made_timer = h.made_timer;
  guarded = λ k t w job watch runs. h.guarded k t w job watch (ground (arith, runs));
  own_task = h.own_task;
  own_timer = h.own_timer;
}

expire-IsWatched :
    (timer task : ℕ) (b : Board)
    → b.armed timer ≡ some task
    → IsWatched b
    → IsWatched (expire timer task b)
expire-IsWatched timer task b armed h = record {
  watched = h.watched;
  unwatched = h.unwatched;
  made_task = h.made_task;
  made_timer = h.made_timer;
  guarded = λ k t w job watch runs.
      let before : b.armed w ≡ some t = h.guarded k t w job watch (ground (arith, runs)) in
      ground (arith, before, armed, runs);
  own_task = h.own_task;
  own_timer = h.own_timer;
}

-- A job that is handed over for the first time
new-IsWatched :
    (key : ℕ) (b : Board)
    → b.jobs key ≡ none
    → IsWatched b
    → IsWatched (arm key b.tasks (create_task key b))
new-IsWatched key b missing h = record {
  watched = λ k t job. ground (arith, h.watched k t, job);
  unwatched = λ k job. ground (arith, h.unwatched k, job);
  made_task = λ k t job. ground (arith, h.made_task k t, job);
  made_timer = λ k w watch. ground (arith, h.made_timer k w, watch);
  guarded = λ k t w job watch runs.
      ground (arith, h.guarded k t w, h.made_timer k w, h.made_task k t, job, watch, runs);
  own_task =
      λ k j t one two. ground (arith, h.own_task k j t, h.made_task k t, h.made_task j t, one, two);
  own_timer = λ k j w one two.
      ground (arith, h.own_timer k j w, h.made_timer k w, h.made_timer j w, one, two);
}

-- A job that is handed over again: its old timer is canceled and a new one armed.
again-IsWatched :
    (key task timer : ℕ) (b : Board)
    → b.jobs key ≡ some task
    → b.watch key ≡ some timer
    → IsWatched b
    → IsWatched (arm key task (record b { armed = drop_at timer b.armed }))
again-IsWatched key task timer b job_key watch_key h = record {
  watched = λ k t job. ground (arith, h.watched k t, job);
  unwatched = λ k job. ground (arith, h.unwatched k, job, job_key);
  made_task = λ k t job. h.made_task k t job;
  made_timer = λ k w watch. ground (arith, h.made_timer k w, watch);
  guarded = λ k t w job watch runs. ground (
    arith,
    h.guarded k t w,
    h.made_timer k w,
    h.own_timer k key w,
    job,
    watch,
    runs,
    job_key,
    watch_key,
  );
  own_task = h.own_task;
  own_timer = λ k j w one two.
      ground (arith, h.own_timer k j w, h.made_timer k w, h.made_timer j w, one, two);
}

-- A job that is done: both entries are taken away.
gone-IsWatched :
    (key timer : ℕ) (b : Board)
    → b.watch key ≡ some timer
    → IsWatched b
    → IsWatched (record b {
      armed = drop_at timer b.armed;
      jobs = drop_at key b.jobs;
      watch = drop_at key b.watch;
    })
gone-IsWatched key timer b watch_key h = record {
  watched = λ k t job. ground (arith, h.watched k t, job);
  unwatched = λ k job. ground (arith, h.unwatched k, job);
  made_task = λ k t job. ground (arith, h.made_task k t, job);
  made_timer = λ k w watch. ground (arith, h.made_timer k w, watch);
  guarded = λ k t w job watch runs.
      ground (arith, h.guarded k t w, h.own_timer k key w, job, watch, runs, watch_key);
  own_task = λ k j t one two. ground (arith, h.own_task k j t, one, two);
  own_timer = λ k j w one two. ground (arith, h.own_timer k j w, one, two);
}

some_of : {A : Type 0} (o : Option A) → is_some o ≡ true → (a : A) × (o ≡ some a)
some_of none h = cc h
some_of (some a) h = (a, refl)

pub timer_of :
    (key task : ℕ) (b : Board)
    → IsWatched b
    → b.jobs key ≡ some task
    → (w : ℕ) × (b.watch key ≡ some w)
timer_of key task b h job = some_of (b.watch key) (h.watched key task job)

-- What `callback` does with a job, with both dicts as they are
pub arrive_again :
    (key task timer : ℕ) (b : Board)
    → b.jobs key ≡ some task
    → b.watch key ≡ some timer
    → arrive key b ≡ (ok already_running, arm key task (record b { armed = drop_at timer b.armed }))
unfolding arrive
arrive_again key task timer b job watch = rw (job, watch) refl

pub arrive_new :
    (key : ℕ) (b : Board)
    → b.jobs key ≡ none
    → arrive key b ≡ (ok (started b.tasks), arm key b.tasks (create_task key b))
unfolding arrive
arrive_new key b missing = rw missing refl

pub complete_lem :
    (key task timer : ℕ) (b : Board)
    → b.jobs key ≡ some task
    → b.watch key ≡ some timer
    → complete key b ≡ (
      ok tt,
      record b {
        armed = drop_at timer b.armed;
        jobs = drop_at key b.jobs;
        watch = drop_at key b.watch;
      },
    )
unfolding complete
complete_lem key task timer b job watch = rw (job, watch) refl

arrive-IsWatched : (key : ℕ) (b : Board) → IsWatched b → IsWatched (arrive key b).1
arrive-IsWatched key b h = elim (Option-cases (b.jobs key)) [
  | inl missing ↦
      subst (λ r. IsWatched r.1) (sym (arrive_new key b missing)) (new-IsWatched key b missing h)
  | inr (task, job) ↦
      let (timer, watch) = timer_of key task b h job in
      subst (λ r. IsWatched r.1) (sym (arrive_again key task timer b job watch))
        (again-IsWatched key task timer b job watch h)
]

complete-IsWatched :
    (key task : ℕ) (b : Board) → b.jobs key ≡ some task → IsWatched b → IsWatched (complete key b).1
complete-IsWatched key task b job h =
    let (timer, watch) = timer_of key task b h job in
    subst (λ r. IsWatched r.1) (sym (complete_lem key task timer b job watch))
      (gone-IsWatched key timer b watch h)

step-IsWatched : (b next : Board) → Step b next → IsWatched b → IsWatched next
step-IsWatched _ _ (arrives key b) h = arrive-IsWatched key b h
step-IsWatched _ _ (completes key task b job runs) h =
    complete-IsWatched key task (finish task b) job (finish-IsWatched task b h)
step-IsWatched _ _ (breaks key task b job runs) h = finish-IsWatched task b h
step-IsWatched _ _ (expires timer task b armed) h = expire-IsWatched timer task b armed h

-- However jobs are handed over, return, raise and run into the watchdog, the two dicts have the same
-- keys, no two jobs share a task or a timer, and the timer of a job that runs is armed to cancel it.
pub reached-IsWatched : (b : Board) → IsReached b → IsWatched b
reached-IsWatched _ start = empty-IsWatched
reached-IsWatched _ (step b next before moved) =
    step-IsWatched b next moved (reached-IsWatched b before)
