-- ===== src/Aio/Zeebe/Callback.antt =====
-- What comes of the jobs of iams/aio/zeebe.py, whatever happened before
use industrial_ams.Base.{
  subst, ℕ, true, false, Option, none, some, ◌==◌, ◌≡◌, refl, sym, ap, ◌∙◌, arith, Option-cases,
  inl, inr,
}
use industrial_ams.Py.{ok}
use industrial_ams.Aio.Zeebe.Jobs.{
  Arrival, started, already_running, Board, arrive, complete, finish, Step, arrives, completes,
  breaks, expires, IsReached, step,
}
use industrial_ams.Aio.Zeebe.Watching.{
  IsWatched, timer_of, arrive_again, arrive_new, complete_lem, reached-IsWatched,
}

abbrev pub expected : Option ℕ → ℕ → Arrival
expected none task = started task
expected (some old) task = already_running

-- However jobs came and went, a job that is handed over is started, or refused as one that runs, exactly
-- if it stands in the dict: no KeyError comes of it.
pub reached-arrive :
    (b : Board) (key : ℕ) → IsReached b → (arrive key b).0 ≡ ok (expected (b.jobs key) b.tasks)
reached-arrive b key reached = elim (Option-cases (b.jobs key)) [
  | inl missing ↦ ap (λ r. r.0) (arrive_new key b missing) ∙ rw missing refl
  | inr (task, job) ↦
      let (timer, watch) = timer_of key task b (reached-IsWatched b reached) job in
      ap (λ r. r.0) (arrive_again key task timer b job watch) ∙ rw job refl
]

-- However jobs came and went, the end of a job that returns raises no KeyError, takes the job out of both
-- dicts, and its watchdog is canceled.
pub reached-complete :
    (b : Board) (key task timer : ℕ)
    → IsReached b
    → b.jobs key ≡ some task
    → b.watch key ≡ some timer
    → let (result, after) = complete key (finish task b) in
      (result ≡ ok tt)
      × ((after.jobs key ≡ none) × ((after.watch key ≡ none) × (after.armed timer ≡ none)))
reached-complete b key task timer reached job watch =
    let e = complete_lem key task timer (finish task b) job watch in
    let same_key : (key == key) ≡ true = ground arith in
    let same_timer : (timer == timer) ≡ true = ground arith in
    rw e (refl, (rw same_key refl, (rw same_key refl, rw same_timer refl)))

-- A job that has ended without a return
pub record IsDead (key task : ℕ) (b : Board) : Type 0 where
  pub job : b.jobs key ≡ some task
  pub ended : b.running task ≡ false

arrive-IsDead :
    (key task k : ℕ) (b : Board) → IsWatched b → IsDead key task b → IsDead key task (arrive k b).1
arrive-IsDead key task k b h dead = elim (Option-cases (b.jobs k)) [
  | inl missing ↦
      subst (λ r. IsDead key task r.1) (sym (arrive_new k b missing))
        (record {
          job = ground (arith, dead.job, missing);
          ended = ground (arith, dead.ended, h.made_task key task dead.job);
        })
  | inr (other, job) ↦
      let (timer, watch) = timer_of k other b h job in
      subst (λ r. IsDead key task r.1) (sym (arrive_again k other timer b job watch))
        (record { job = dead.job; ended = dead.ended })
]

complete-IsDead :
    (key task k other : ℕ) (b : Board)
    → IsWatched b
    → IsDead key task b
    → b.jobs k ≡ some other
    → b.running other ≡ true
    → IsDead key task (complete k (finish other b)).1
complete-IsDead key task k other b h dead job runs =
    let (timer, watch) = timer_of k other b h job in
    subst (λ r. IsDead key task r.1) (sym (complete_lem k other timer (finish other b) job watch))
      (record {
        job = ground (arith, dead.job, dead.ended, job, runs);
        ended = ground (arith, dead.ended);
      })

step-IsDead :
    (b next : Board) (key task : ℕ)
    → IsWatched b
    → IsDead key task b
    → Step b next
    → IsDead key task next
step-IsDead _ _ key task h dead (arrives k b) = arrive-IsDead key task k b h dead
step-IsDead _ _ key task h dead (completes k other b job runs) =
    complete-IsDead key task k other b h dead job runs
step-IsDead _ _ key task h dead (breaks k other b job runs) = record {
  job = dead.job;
  ended = ground (arith, dead.ended);
}
step-IsDead _ _ key task h dead (expires timer other b armed) = record {
  job = dead.job;
  ended = ground (arith, dead.ended);
}

-- A job that raised, or that the watchdog has canceled, stays in the dict for good: it is never started
-- again, whatever happens.
pub reached-IsDead :
    (b next : Board) (key task : ℕ)
    → IsReached b
    → IsDead key task b
    → Step b next
    → IsDead key task next × ((arrive key next).0 ≡ ok already_running)
reached-IsDead b next key task reached dead moved =
    let still = step-IsDead b next key task (reached-IsWatched b reached) dead moved in
    (still, reached-arrive next key (step b next reached moved) ∙ rw still.job refl)
