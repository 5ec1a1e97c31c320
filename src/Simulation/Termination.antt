-- ===== src/Simulation/Termination.antt =====
-- The event loop ends once no callback schedules anything.
use industrial_ams.Base.{
  ℕ, zero, suc, ◌+◌, ◌≤◌, ◌≡◌, refl, sym, ap, ◌∙◌, inl, inr, Bool, true, false, Option, List, [],
  ◌∷◌, length, Bool-cases, arith,
}
use industrial_ams.Simulation.{
  Entry, Simulation, Call, schedule_it, cancel_it, Ending, goes_on, is_beyond, perform, perform_all,
  run_event, handle_if, turn, loop,
}
use industrial_ams.Simulation.Heap.{HeapLaws, length-mark_all}
use industrial_ams.Simulation.Loop.{Option-cases, turn_idle, turn_takes}

-- Nothing is scheduled.
abbrev pub IsQuiet : List Call → Type 0
IsQuiet [] = Unit
IsQuiet (schedule_it obj dt callback priority ∷ cs) = ⊥
IsQuiet (cancel_it n ∷ cs) = IsQuiet cs

module _ (heappush : Entry → List Entry → List Entry)
    (heappop : List Entry → Option (Entry × List Entry)) (laws : HeapLaws heappush heappop)
    {World : Type 0} (act : Entry → Simulation → World → (List Call × Ending) × World)
    (quiet : (e : Entry) (s : Simulation) (w : World) → IsQuiet (act e s w).0.0) where
  perform_all-length :
      (cs : List Call) (s : Simulation)
      → IsQuiet cs
      → length (perform_all heappush cs s).queue ≡ length s.queue
  unfolding perform
  perform_all-length [] s h = refl
  perform_all-length (schedule_it obj dt callback priority ∷ cs) s h = absurd h
  perform_all-length (cancel_it n ∷ cs) s h =
      perform_all-length cs (perform heappush (cancel_it n) s) h ∙ length-mark_all n s.queue

  handle_if-length :
      (gone late : Bool) (e : Entry) (s : Simulation) (w : World)
      → length (handle_if heappush heappop act gone late e s w).1.0.queue ≡ length s.queue
  unfolding handle_if run_event
  handle_if-length true late e s w = refl
  handle_if-length false true e s w = refl
  handle_if-length false false e s w =
      let s' = record s { time = e.time } in perform_all-length (act e s' w).0.0 s' (quiet e s' w)

  -- A round that goes on leaves one event less.
  turn-length :
      (s : Simulation × World)
      → let r = turn heappush heappop act s in
        goes_on r.0 ≡ true → length s.0.queue ≡ length r.1.0.queue + 1
  turn-length (s, w) h = elim (Option-cases (heappop s.queue)) [
    | inl empty ↦ cc (turn_idle heappush heappop laws act s w empty)
    | inr (e, q, popped) ↦
        laws.pop-length e s.queue q popped
        ∙ ap (λ n. n + 1)
            (sym (
              ap (λ r. length r.1.0.queue) (turn_takes heappush heappop laws act s w e q popped)
              ∙ handle_if-length e.deleted (is_beyond s.limit e.time) e (record s { queue = q }) w))
  ]

  loop_goes :
      (n : ℕ) (s : Simulation × World)
      → goes_on (turn heappush heappop act s).0 ≡ true
      → loop heappush heappop act (suc n) s
        ≡ loop heappush heappop act n (turn heappush heappop act s).1
  unfolding loop
  loop_goes n s h = rw (h, loop)

  loop_ends :
      (n : ℕ) (s : Simulation × World)
      → goes_on (turn heappush heappop act s).0 ≡ false
      → loop heappush heappop act n s ≡ turn heappush heappop act s
  unfolding loop
  loop_ends zero s h = refl
  loop_ends (suc n) s h = rw (h, loop)

  -- If no callback schedules anything, as many rounds as there are events in the queue and one more are
  -- enough: the loop has ended, by an empty queue, at the limit or by an exception.
  pub loop_terminates :
      (n : ℕ) (s : Simulation × World)
      → length s.0.queue ≤ n
      → goes_on (loop heappush heappop act n s).0 ≡ false
  loop_terminates zero s h = elim (Bool-cases (goes_on (turn heappush heappop act s).0)) [
    | inl goes ↦ absurd (omega (arith, turn-length s goes))
    | inr ends ↦ ap (λ r. goes_on r.0) (loop_ends zero s ends) ∙ ends
  ]
  loop_terminates (suc n) s h = elim (Bool-cases (goes_on (turn heappush heappop act s).0)) [
    | inl goes ↦
        ap (λ r. goes_on r.0) (loop_goes n s goes)
        ∙ loop_terminates n (turn heappush heappop act s).1 (omega (arith, turn-length s goes))
    | inr ends ↦ ap (λ r. goes_on r.0) (loop_ends (suc n) s ends) ∙ ends
  ]
