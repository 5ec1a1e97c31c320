-- ===== src/Simulation/Chronology.antt =====
-- The order in which the event loop executes events.
use industrial_ams.Base.{
  ℕ, ◌≡◌, refl, sym, ap, ◌∙◌, subst, inl, inr, Bool, true, false, Option, some, List, [], ◌∷◌, All,
  All-map, arith,
}
use industrial_ams.Base.Int.{ℤ, pos, ◌+ℤ◌, ◌≤ℤ◌, int_laws}
use industrial_ams.Simulation.{
  Entry, Simulation, Call, schedule_it, cancel_it, Ending, ended, skipped, ran, is_beyond, mark_all,
  perform, perform_all, run_event, handle_if, turn,
}
use industrial_ams.Simulation.Heap.{HeapLaws, mark-time, not_before-le}
use industrial_ams.Simulation.Loop.{
  Runs, begin, executes, skips, Option-cases, turn_idle, turn_takes,
}

-- The executed events, the last one first, are in order of time and not behind the limit, and none of
-- them was canceled when it was taken.
abbrev pub Chronological : List Entry → Type 0
Chronological [] = Unit
Chronological (e ∷ es) = All (λ x. x.time ≤ℤ e.time) es × Chronological es

-- An event that may be executed
abbrev pub IsDue : Option ℤ → Entry → Type 0
IsDue limit e = (e.deleted ≡ false) × (is_beyond limit e.time ≡ false)

-- No call schedules into the past.
abbrev pub IsForward : List Call → Type 0
IsForward [] = Unit
IsForward (schedule_it obj dt callback priority ∷ cs) = (pos 0 ≤ℤ dt) × IsForward cs
IsForward (cancel_it n ∷ cs) = IsForward cs

-- No event of the queue is of the past.
abbrev pub Future : ℤ → List Entry → Type 0
Future t q = All (λ x. t ≤ℤ x.time) q

mark_all-Future : (n : ℕ) (t : ℤ) (q : List Entry) → Future t q → Future t (mark_all n q)
mark_all-Future n t [] h = tt
mark_all-Future n t (e ∷ q) h =
    (subst (λ u. t ≤ℤ u) (sym (mark-time n e)) h.0, mark_all-Future n t q h.1)

later : (t dt : ℤ) → pos 0 ≤ℤ dt → t ≤ℤ t +ℤ dt
later t dt h = omega int_laws

ended-ran : (x e : Entry) (a : Ending) → ended x a ≡ ran e → x ≡ e
ended-ran x e a h = ground arith

≤ℤ_through : (a b c : ℤ) → a ≤ℤ b → b ≤ℤ c → a ≤ℤ c
≤ℤ_through a b c h k = omega int_laws

≤ℤ_refl : (a : ℤ) → a ≤ℤ a
≤ℤ_refl a = omega arith

module _ (heappush : Entry → List Entry → List Entry)
    (heappop : List Entry → Option (Entry × List Entry)) (laws : HeapLaws heappush heappop)
    {World : Type 0} (act : Entry → Simulation → World → (List Call × Ending) × World)
    (forward : (e : Entry) (s : Simulation) (w : World) → IsForward (act e s w).0.0) where
  -- The queue is a heap of events that are not of the past.
  pub record IsReady (s : Simulation) : Type 0 where
    pub heap : laws.IsHeap s.queue
    pub future : Future s.time s.queue

  perform_all-IsReady :
      (cs : List Call) (s : Simulation)
      → IsForward cs
      → IsReady s
      → IsReady (perform_all heappush cs s)
        × ((perform_all heappush cs s).time ≡ s.time)
        × ((perform_all heappush cs s).limit ≡ s.limit)
  unfolding perform
  perform_all-IsReady [] s f r = (r, refl, refl)
  perform_all-IsReady (schedule_it obj dt callback priority ∷ cs) s f r =
      perform_all-IsReady cs (perform heappush (schedule_it obj dt callback priority) s) f.1
        (record {
          heap = laws.push-IsHeap _ s.queue r.heap;
          future = laws.push-All (λ x. s.time ≤ℤ x.time) _ s.queue (later s.time dt f.0) r.future;
        })
  perform_all-IsReady (cancel_it n ∷ cs) s f r =
      perform_all-IsReady cs (perform heappush (cancel_it n) s) f (record {
        heap = laws.mark-IsHeap n s.queue r.heap;
        future = mark_all-Future n s.time s.queue r.future;
      })

  -- What holds of a run that has executed the events
  pub record IsOrderly (limit : Option ℤ) (es : List Entry) (s : Simulation) : Type 0 where
    pub ready : IsReady s
    pub limit_eq : s.limit ≡ limit
    pub past : All (λ x. x.time ≤ℤ s.time) es
    pub chronological : Chronological es
    pub due : All (IsDue limit) es

  run_event-ran :
      (x e : Entry) (s : Simulation) (w : World) (t : Simulation × World)
      → run_event heappush heappop act x s w ≡ (ran e, t)
      → let s' = record s { time = x.time } in
        (x ≡ e) × (perform_all heappush (act x s' w).0.0 s' ≡ t.0)
  unfolding run_event
  run_event-ran x e s w t h = (ended-ran x e _ (ap (λ r. r.0) h), ap (λ r. r.1.0) h)

  handle_if-ran :
      (gone late : Bool) (x e : Entry) (s : Simulation) (w : World) (t : Simulation × World)
      → handle_if heappush heappop act gone late x s w ≡ (ran e, t)
      → (gone ≡ false) × (late ≡ false) × (run_event heappush heappop act x s w ≡ (ran e, t))
  unfolding handle_if
  handle_if-ran true late x e s w t h = cc
  handle_if-ran false true x e s w t h = cc
  handle_if-ran false false x e s w t h = (refl, refl, h)

  handle_if-skipped :
      (gone late : Bool) (x e : Entry) (s : Simulation) (w : World) (t : Simulation × World)
      → handle_if heappush heappop act gone late x s w ≡ (skipped e, t)
      → s ≡ t.0
  unfolding handle_if run_event
  handle_if-skipped true late x e s w t h = ap (λ r. r.1.0) h
  handle_if-skipped false true x e s w t h = cc
  handle_if-skipped false false x e s w t h = absurd (ground arith)

  -- An event that is taken off the queue and executed is the latest so far.
  executed-IsOrderly :
      (limit : Option ℤ) (es : List Entry) (e : Entry) (s : Simulation) (w : World) (q : List Entry)
      → heappop s.queue ≡ some (e, q)
      → e.deleted ≡ false
      → is_beyond s.limit e.time ≡ false
      → IsOrderly limit es s
      → let s' = record s { queue = q; time = e.time } in
        IsOrderly limit (e ∷ es) (perform_all heappush (act e s' w).0.0 s')
  executed-IsOrderly limit es e s w q popped live within o =
      let s' = record s { queue = q; time = e.time } in
      let now = (laws.pop-All (λ x. s.time ≤ℤ x.time) e s.queue q popped o.ready.future).0 in
      let least = laws.pop_least e s.queue q popped o.ready.heap in
      let (ready, time_eq, limit_eq) =
        perform_all-IsReady (act e s' w).0.0 s' (forward e s' w) (record {
          heap = laws.pop-IsHeap e s.queue q popped o.ready.heap;
          future = All-map _ (λ x. e.time ≤ℤ x.time) q (λ x h. not_before-le x e h) least;
        }) in
      let past =
        All-map _ (λ x. x.time ≤ℤ e.time) es (λ x h. ≤ℤ_through x.time s.time e.time h now)
          o.past in
      record {
        ready = ready;
        limit_eq = limit_eq ∙ o.limit_eq;
        past = subst (λ t. All (λ x. x.time ≤ℤ t) (e ∷ es)) (sym time_eq) (≤ℤ_refl e.time, past);
        chronological = (past, o.chronological);
        due = ((live, subst (λ l. is_beyond l e.time ≡ false) o.limit_eq within), o.due);
      }

  skipped-IsOrderly :
      (limit : Option ℤ) (es : List Entry) (e : Entry) (s : Simulation) (q : List Entry)
      → heappop s.queue ≡ some (e, q)
      → IsOrderly limit es s
      → IsOrderly limit es (record s { queue = q })
  skipped-IsOrderly limit es e s q popped o = record {
    ready = record {
      heap = laws.pop-IsHeap e s.queue q popped o.ready.heap;
      future = (laws.pop-All (λ x. s.time ≤ℤ x.time) e s.queue q popped o.ready.future).1;
    };
    limit_eq = o.limit_eq;
    past = o.past;
    chronological = o.chronological;
    due = o.due;
  }

  turn-ran :
      (limit : Option ℤ) (es : List Entry) (e : Entry) (s t : Simulation × World)
      → turn heappush heappop act s ≡ (ran e, t)
      → IsOrderly limit es s.0
      → IsOrderly limit (e ∷ es) t.0
  turn-ran limit es e (s, w) t h o = elim (Option-cases (heappop s.queue)) [
    | inl empty ↦ cc (turn_idle heappush heappop laws act s w empty)
    | inr (x, q, popped) ↦
        let taken = sym (turn_takes heappush heappop laws act s w x q popped) ∙ h in
        let left = record s { queue = q } in
        let (live, within, went) =
          handle_if-ran x.deleted (is_beyond s.limit x.time) x e left w t taken in
        let (same, after) = run_event-ran x e left w t went in
        subst (λ u. IsOrderly limit (e ∷ es) u) after
          (subst
            (λ y. IsOrderly limit (y ∷ es) (
              perform_all heappush (act x (record left { time = x.time }) w).0.0
                (record left { time = x.time })))
            same (executed-IsOrderly limit es x s w q popped live within o))
  ]

  turn-skipped :
      (limit : Option ℤ) (es : List Entry) (e : Entry) (s t : Simulation × World)
      → turn heappush heappop act s ≡ (skipped e, t)
      → IsOrderly limit es s.0
      → IsOrderly limit es t.0
  turn-skipped limit es e (s, w) t h o = elim (Option-cases (heappop s.queue)) [
    | inl empty ↦ cc (turn_idle heappush heappop laws act s w empty)
    | inr (x, q, popped) ↦
        let taken = sym (turn_takes heappush heappop laws act s w x q popped) ∙ h in
        subst (λ u. IsOrderly limit es u)
          (handle_if-skipped x.deleted (is_beyond s.limit x.time) x e (record s { queue = q }) w t
            taken)
          (skipped-IsOrderly limit es x s q popped o)
  ]

  Runs-IsOrderly :
      {start final : Simulation × World} {es : List Entry} {k : ℕ}
      → IsReady start.0
      → Runs heappush heappop laws act start es k final
      → IsOrderly start.0.limit es final.0
  Runs-IsOrderly h begin = record {
    ready = h;
    limit_eq = refl;
    past = tt;
    chronological = tt;
    due = tt;
  }
  Runs-IsOrderly {start} h (executes {es} {k} {s} {t} e r q) =
      turn-ran start.0.limit es e s t q (Runs-IsOrderly h r)
  Runs-IsOrderly {start} h (skips {es} {k} {s} {t} e r q) =
      turn-skipped start.0.limit es e s t q (Runs-IsOrderly h r)

  -- If no callback schedules into the past, every run of the loop from a heap with no event of the past
  -- executes events in the order of their times, none of them canceled when it was taken and none
  -- behind the limit; no executed event is later than the clock, and the queue stays a heap with no
  -- event of the past.
  pub executed-Chronological :
      (s t : Simulation × World) (es : List Entry) (k : ℕ)
      → IsReady s.0
      → Runs heappush heappop laws act s es k t
      → Chronological es × All (IsDue s.0.limit) es × All (λ x. x.time ≤ℤ t.0.time) es × IsReady t.0
  executed-Chronological s t es k h r =
      let o = Runs-IsOrderly h r in (o.chronological, o.due, o.past, o.ready)
