-- ===== src/Simulation/Loop.antt =====
-- Runs of the event loop: rounds that go on, one after the other, and what holds of every run.
use industrial_ams.Base.{
  ℕ, ◌+◌, ◌≡◌, ◌⊎◌, refl, sym, ap, ◌∙◌, subst, inl, inr, Bool, true, false, Option, none, some,
  List, [], ◌∷◌, length, arith,
}
use industrial_ams.Base.Int.{ℤ, pos, ◌+ℤ◌, ◌-ℤ◌}
use industrial_ams.Simulation.{
  ended, Entry, Simulation, Call, schedule_it, cancel_it, Ending, Outcome, idle, skipped, beyond,
  ran, is_beyond, perform, perform_all, run_event, handle_if, handle, turn, discount,
}
use industrial_ams.Simulation.Heap.{HeapLaws, length-mark_all}

-- The arithmetic of the counter
count_more : (t : ℤ) (n l m : ℕ) → t ≡ pos (n + l) → m ≡ l + 1 → t +ℤ pos 1 ≡ pos (n + m)
unfolding ◌+ℤ◌
count_more t n l m h k = rw (h, k) (ground arith)

count_less : (t : ℤ) (n l m : ℕ) → t ≡ pos (n + m) → m ≡ l + 1 → t -ℤ pos 1 ≡ pos (n + l)
unfolding ◌-ℤ◌
count_less t n l m h k = rw (h, k) (ground arith)

count_off : (t : ℤ) (n l : ℕ) → t ≡ pos (n + l) → t -ℤ pos l ≡ pos n
unfolding ◌-ℤ◌
count_off t n l h = rw h (ground arith)

pub Option-cases :
    {A : Type 0} {B : Type 0} (o : Option (A × B))
    → (o ≡ none) ⊎ ((a : A) × (b : B) × (o ≡ some (a, b)))
Option-cases none = inl refl
Option-cases (some (a, b)) = inr (a, b, refl)

module _ (heappush : Entry → List Entry → List Entry)
    (heappop : List Entry → Option (Entry × List Entry)) (laws : HeapLaws heappush heappop)
    {World : Type 0} (act : Entry → Simulation → World → (List Call × Ending) × World) where
  -- The rounds of a run: what they executed, the last first, and how many canceled events they skipped
  pub data Runs (start : Simulation × World) : List Entry → ℕ → Simulation × World → Type 0 where
    begin : Runs start [] 0 start
    executes :
        {es : List Entry} {k : ℕ} {s t : Simulation × World} (e : Entry)
        → Runs start es k s
        → turn heappush heappop act s ≡ (ran e, t)
        → Runs start (e ∷ es) k t
    skips :
        {es : List Entry} {k : ℕ} {s t : Simulation × World} (e : Entry)
        → Runs start es k s
        → turn heappush heappop act s ≡ (skipped e, t)
        → Runs start es (k + 1) t

  -- The counter is that of the given number of events and of those in the queue.
  abbrev IsCounted : ℕ → Simulation → Type 0
  IsCounted n s = s.events ≡ pos (n + length s.queue)

  perform-IsCounted :
      (n : ℕ) (c : Call) (s : Simulation) → IsCounted n s → IsCounted n (perform heappush c s)
  unfolding perform
  perform-IsCounted n (schedule_it obj dt callback priority) s h =
      count_more s.events n (length s.queue) _ h (laws.push-length _ s.queue)
  perform-IsCounted n (cancel_it m) s h =
      h ∙ ap (λ l. pos (n + l)) (sym (length-mark_all m s.queue))

  perform_all-IsCounted :
      (n : ℕ) (cs : List Call) (s : Simulation)
      → IsCounted n s
      → IsCounted n (perform_all heappush cs s)
  perform_all-IsCounted n [] s h = h
  perform_all-IsCounted n (c ∷ cs) s h =
      perform_all-IsCounted n cs (perform heappush c s) (perform-IsCounted n c s h)

  -- The number of events that a round has done with
  abbrev done : Outcome → ℕ
  done idle = 0
  done (beyond e) = 0
  done _ = 1

  counted_off : (n l m : ℕ) (t : ℤ) → t ≡ pos (n + m) → m ≡ l + 1 → t ≡ pos (n + 1 + l)
  counted_off n l m t h k = h ∙ ap pos (omega arith)

  done-ended : (e : Entry) (x : Ending) → done (ended e x) ≡ 1
  done-ended e x = ground arith

  run_event-IsCounted :
      (n : ℕ) (e : Entry) (s : Simulation) (w : World)
      → IsCounted (n + 1) s
      → let r = run_event heappush heappop act e s w in IsCounted (n + done r.0) r.1.0
  unfolding run_event
  run_event-IsCounted n e s w h =
      let s' = record s { time = e.time } in
      let answer = (act e s' w).0 in
      rw (done-ended e answer.1) (perform_all-IsCounted (n + 1) answer.0 s' h)

  handle_if-IsCounted :
      (gone late : Bool) (n l : ℕ) (e : Entry) (s : Simulation) (w : World)
      → s.events ≡ pos (n + l)
      → l ≡ length s.queue + 1
      → let r = handle_if heappush heappop act gone late e s w in IsCounted (n + done r.0) r.1.0
  unfolding handle_if
  handle_if-IsCounted true late n l e s w h len = counted_off n (length s.queue) l s.events h len
  handle_if-IsCounted false true n l e s w h len =
      count_less s.events (n + 0) (length s.queue) l (h ∙ ap pos (omega arith)) len
  handle_if-IsCounted false false n l e s w h len =
      run_event-IsCounted n e s w (counted_off n (length s.queue) l s.events h len)

  pub turn_idle :
      (s : Simulation) (w : World)
      → heappop s.queue ≡ none
      → turn heappush heappop act (s, w) ≡ (idle, (s, w))
  unfolding turn
  turn_idle s w h = rw (h, turn)

  pub turn_takes :
      (s : Simulation) (w : World) (e : Entry) (q : List Entry)
      → heappop s.queue ≡ some (e, q)
      → turn heappush heappop act (s, w) ≡ handle heappush heappop act e (record s { queue = q }) w
  unfolding turn
  turn_takes s w e q h = rw (h, turn)

  -- A round counts what it has done with.
  turn-IsCounted :
      (n : ℕ) (s : Simulation × World)
      → IsCounted n s.0
      → let r = turn heappush heappop act s in IsCounted (n + done r.0) r.1.0
  turn-IsCounted n (s, w) h = elim (Option-cases (heappop s.queue)) [
    | inl empty ↦
        subst (λ r. IsCounted (n + done r.0) r.1.0) (sym (turn_idle s w empty))
          (h ∙ ap pos (omega arith))
    | inr (e, q, popped) ↦
        subst (λ r. IsCounted (n + done r.0) r.1.0) (sym (turn_takes s w e q popped))
          (handle_if-IsCounted e.deleted (is_beyond s.limit e.time) n (length s.queue) e
            (record s { queue = q }) w h (laws.pop-length e s.queue q popped))
  ]

  IsCounted-turn :
      (n m : ℕ) (o : Outcome) (s t : Simulation × World)
      → turn heappush heappop act s ≡ (o, t)
      → n + done o ≡ m
      → IsCounted n s.0
      → IsCounted m t.0
  IsCounted-turn n m o s t r eq h =
      subst (λ i. IsCounted i t.0) eq
        (subst (λ p. IsCounted (n + done p.0) p.1.0) r (turn-IsCounted n s h))

  Runs-IsCounted :
      {s t : Simulation × World} {es : List Entry} {k : ℕ}
      → IsCounted 0 s.0
      → Runs s es k t
      → IsCounted (length es + k) t.0
  Runs-IsCounted h begin = h
  Runs-IsCounted h (executes {es} {k} {s} {t} e r q) =
      IsCounted-turn (length es + k) _ (ran e) s t q (omega arith) (Runs-IsCounted h r)
  Runs-IsCounted h (skips {es} {k} {s} {t} e r q) =
      IsCounted-turn (length es + k) _ (skipped e) s t q (omega arith) (Runs-IsCounted h r)

  -- For a run from a simulation whose counter is the length of its queue, and one more round: the number
  -- that is reported, which is the counter without the events still in the queue, is the number of the
  -- events executed, of the canceled ones skipped, and of one for the last round, unless that ended at an
  -- empty queue or at the limit.
  pub processed_events :
      (s t u : Simulation × World) (es : List Entry) (k : ℕ) (o : Outcome)
      → s.0.events ≡ pos (length s.0.queue)
      → Runs s es k t
      → turn heappush heappop act t ≡ (o, u)
      → (discount u.0).events ≡ pos (length es + k + done o)
  unfolding discount
  processed_events s t u es k o h r q =
      count_off u.0.events (length es + k + done o) (length u.0.queue) (
        IsCounted-turn (length es + k) (length es + k + done o) o t u q refl
          (Runs-IsCounted (h ∙ ap pos (omega arith)) r))
