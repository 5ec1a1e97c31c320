-- ===== src/Buffer/Solve/Written.antt =====
-- What stands in the lists of events after an answer was written: described without the loops
-- that write it.
use industrial_ams.Base.{
  ℕ, ◌<◌, ◌≡◌, ◌≢◌, refl, sym, ap, subst, ◌∙◌, ◌⊎◌, inl, inr, true, false, Option, none, some, List,
  [], ◌∷◌, ◌==◌, arith, if◌then◌else◌,
}
use industrial_ams.Base.Int.{ℤ, ◌+ℤ◌}
use industrial_ams.Event.{State, new, scheduled, arrived, started, finished, departed, canceled}
use industrial_ams.Py.{other, Method, resume, in_turn, Result, ok, err, Value, number, datetime}
use industrial_ams.Event.{Event, is_eta_state}
use industrial_ams.Event.Methods.{
  Slot, store, write_slot, start_slot, finish_slot, get_time, set_time,
}
use industrial_ams.Buffer.{units}
use industrial_ams.Buffer.Variables.{start, finish}
use industrial_ams.Buffer.Model.Meaning.{Assignment}
use industrial_ams.Buffer.Solve.{
  set_eta, set_etd, set_solved, write_in, both_times, write_event, write_all, latest, refresh,
}
use industrial_ams.Buffer.Solve.Writes.{write_event-reads}

-- The time that is given fits the times of the event: none for numbers, a moment for datetimes.
abbrev pub IsTimed : Option Value → Event → Type 0
IsTimed none e = e.use_datetime ≡ false
IsTimed (some (datetime n)) e = e.use_datetime ≡ true
IsTimed now e = ⊥

module _ (k : ℕ) (offset : ℤ) (now : Option Value) (a : Assignment) where
  -- The start and the finish that an event reads are those of the solution.
  abbrev pub Reads : Event → Event → Type 0
  Reads e e' =
      (get_time (units k) start_slot now e' ≡ ok (some (number (a e.uid start +ℤ offset))))
      × (get_time (units k) finish_slot now e' ≡ ok (some (number (a e.uid finish +ℤ offset))))

  -- An event that was listed, and what it is after the answer: if it waits or has arrived, its times fit
  -- the given one and there is a resolution, it reads the solution's start and finish.
  abbrev pub IsWritten : Event → Event → Type 0
  IsWritten e e' =
      (e'.uid ≡ e.uid)
      × ((¬ ((0 < k) × (is_eta_state e.state ≡ true) × IsTimed now e))
          ⊎ (Reads e e' × (e'.state ≡ e.state)))

  -- What an event is after the answer: the first of the listed events with its uid, as written; an event
  -- that was not listed is what it was.
  abbrev pub IsUpdated : List Event → Event → Event → Type 0
  IsUpdated [] e e' = e' ≡ e
  IsUpdated (x ∷ xs) e e' =
      ((x.uid ≡ e.uid) × IsWritten x e') ⊎ ((x.uid ≢ e.uid) × IsUpdated xs e e')

  -- The same of each event of a list, in its place
  abbrev pub AllUpdated : List Event → List Event → List Event → Type 0
  AllUpdated listed [] es = es ≡ []
  AllUpdated listed (e ∷ given) [] = ⊥
  AllUpdated listed (e ∷ given) (e' ∷ es) = IsUpdated listed e e' × AllUpdated listed given es

  resume-uid :
      (e : Event) (r : Result (Unit {0}) × Event) (rest : Method Event (Unit {0}))
      → r.1.uid ≡ e.uid
      → ((x : Event) → (rest x).1.uid ≡ x.uid)
      → (resume r rest).1.uid ≡ e.uid
  resume-uid e (ok u, x) rest h keeps = keeps x ∙ h
  resume-uid e (err y, x) rest h keeps = h

  store-uid :
      (e : Event) (r : Result Value) (slot : Slot) → (store r (write_slot slot) e).1.uid ≡ e.uid
  store-uid e (err x) slot = refl
  store-uid e (ok v) start_slot = refl
  store-uid e (ok v) finish_slot = refl

  set_time-uid :
      (slot : Slot) (v : Value) (e : Event) → (set_time (units k) slot v now e).1.uid ≡ e.uid
  unfolding set_time
  set_time-uid slot v e = store-uid e _ slot

  both_times-uid : (e : Event) → (both_times k offset now a e).1.uid ≡ e.uid
  unfolding both_times set_solved
  both_times-uid e =
      resume-uid e (set_solved k offset now a start_slot start e)
        (set_solved k offset now a finish_slot finish) (set_time-uid start_slot _ e)
        (λ x. set_time-uid finish_slot _ x)

  set_eta-uid : (e : Event) → (set_eta k offset now a e).1.uid ≡ e.uid
  unfolding set_eta
  set_eta-uid e = refl

  set_etd-uid : (e : Event) → (set_etd k offset now a e).1.uid ≡ e.uid
  unfolding set_etd
  set_etd-uid e = refl

  write_in-uid : (s : State) (e : Event) → (write_in k offset now a s e).1.uid ≡ e.uid
  unfolding write_in set_solved
  write_in-uid new e =
      resume-uid e (set_eta k offset now a e)
        (in_turn (both_times k offset now a) (set_etd k offset now a)) (set_eta-uid e)
        (λ x.
          resume-uid x (both_times k offset now a x) (set_etd k offset now a) (both_times-uid x)
            set_etd-uid)
  write_in-uid scheduled e = both_times-uid e
  write_in-uid arrived e = both_times-uid e
  write_in-uid started e = set_time-uid finish_slot _ e
  write_in-uid finished e = refl
  write_in-uid departed e = refl
  write_in-uid canceled e = refl

  write_event-uid : (e : Event) → (write_event k offset now a e).1.uid ≡ e.uid
  unfolding write_event
  write_event-uid e = write_in-uid e.state e

  numbers-Reads :
      (e : Event)
      → 0 < k
      → is_eta_state e.state ≡ true
      → now ≡ none
      → e.use_datetime ≡ false
      → Reads e (write_event k offset now a e).1
        × ((write_event k offset now a e).1.state ≡ e.state)
  numbers-Reads e h st timed plain =
      let at : (if e.use_datetime then some (datetime offset) else none) ≡ now =
        rw plain (sym timed) in
      let (_, s, f, state, _) =
        subst
          (λ t.
            let (r, e') = write_event k offset t a e in
            (r ≡ ok tt)
            × (get_time (units k) start_slot t e' ≡ ok (some (number (a e.uid start +ℤ offset))))
            × (get_time (units k) finish_slot t e' ≡ ok (some (number (a e.uid finish +ℤ offset))))
            × (e'.state ≡ e.state)
            × (e'.uid ≡ e.uid))
          at (write_event-reads k offset offset a e h st) in
      ((s, f), state)

  datetimes-Reads :
      (n : ℤ) (e : Event)
      → 0 < k
      → is_eta_state e.state ≡ true
      → now ≡ some (datetime n)
      → e.use_datetime ≡ true
      → Reads e (write_event k offset now a e).1
        × ((write_event k offset now a e).1.state ≡ e.state)
  datetimes-Reads n e h st timed dates =
      let at : (if e.use_datetime then some (datetime n) else none) ≡ now = rw dates (sym timed) in
      let (_, s, f, state, _) =
        subst
          (λ t.
            let (r, e') = write_event k offset t a e in
            (r ≡ ok tt)
            × (get_time (units k) start_slot t e' ≡ ok (some (number (a e.uid start +ℤ offset))))
            × (get_time (units k) finish_slot t e' ≡ ok (some (number (a e.uid finish +ℤ offset))))
            × (e'.state ≡ e.state)
            × (e'.uid ≡ e.uid))
          at (write_event-reads k offset n a e h st) in
      ((s, f), state)

  dec-IsTimed : (v : Option Value) (e : Event) → IsTimed v e ⊎ (¬ IsTimed v e)
  dec-IsTimed none e = ground arith
  dec-IsTimed (some (number n)) e = inr (λ h. h)
  dec-IsTimed (some (datetime n)) e = ground arith
  dec-IsTimed (some other) e = inr (λ h. h)

  timed-Reads :
      (v : Option Value) (e : Event)
      → now ≡ v
      → 0 < k
      → is_eta_state e.state ≡ true
      → IsTimed v e
      → Reads e (write_event k offset now a e).1
        × ((write_event k offset now a e).1.state ≡ e.state)
  timed-Reads none e at h st timed = numbers-Reads e h st at timed
  timed-Reads (some (number n)) e at h st timed = absurd timed
  timed-Reads (some (datetime n)) e at h st timed = datetimes-Reads n e h st at timed
  timed-Reads (some other) e at h st timed = absurd timed

  readable :
      (e : Event)
      → ((0 < k) × (is_eta_state e.state ≡ true)) ⊎ (¬ ((0 < k) × (is_eta_state e.state ≡ true)))
  readable e = ground arith

  write_event-IsWritten : (e : Event) → IsWritten e (write_event k offset now a e).1
  write_event-IsWritten e = (
    write_event-uid e,
    elim (readable e) [
      | inl (h, st) ↦ elim (dec-IsTimed now e) [
        | inl timed ↦ inr (timed-Reads now e refl h st timed)
        | inr untimed ↦ inl (λ p. untimed p.2)
      ]
      | inr unready ↦ inl (λ p. unready (p.0, p.1))
    ],
  )

  -- What the loop over the events goes on with after one event
  abbrev gone_on :
      Result (Unit {0})
      → Event
      → Result (Unit {0}) × List Event
      → List Event
      → Result (Unit {0}) × List Event
  gone_on r e p es = elim r [
    | ok u ↦ (let (q, rest) = p in (q, e ∷ rest))
    | err x ↦ (err x, e ∷ es)
  ]

  all_written :
      (r : Result (Unit {0})) (e : Event) (p : Result (Unit {0}) × List Event) (es ws : List Event)
      → gone_on r e p es ≡ (ok tt, ws)
      → (p ≡ (ok tt, p.1)) × (ws ≡ e ∷ p.1)
  all_written (ok u) e p es ws h = (ap (λ q. (q, p.1)) (ap (λ q. q.0) h), sym (ap (λ q. q.1) h))
  all_written (err x) e p es ws h = cc h

  same_uid : (m n : ℕ) → (((m == n) ≡ true) × (m ≡ n)) ⊎ (((m == n) ≡ false) × (m ≢ n))
  same_uid m n = ground arith

  -- An event in place of which the written one is taken
  latest-IsUpdated :
      (xs ws : List Event) (e : Event)
      → write_all k offset now a xs ≡ (ok tt, ws)
      → IsUpdated xs e (latest ws e)
  unfolding write_all
  latest-IsUpdated [] ws e h = sym (ap (λ p. latest p.1 e) h)
  latest-IsUpdated (x ∷ xs) ws e h =
      let x' = (write_event k offset now a x).1 in
      let (done, split) =
        all_written (write_event k offset now a x).0 x' (write_all k offset now a xs) xs ws h in
      let rest = (write_all k offset now a xs).1 in
      subst (λ l. IsUpdated (x ∷ xs) e (latest l e)) (sym split)
        (elim (same_uid x'.uid e.uid) [
          | inl (test, same) ↦
              rw test (inl (sym (write_event-uid x) ∙ same, write_event-IsWritten x))
          | inr (test, different) ↦
              rw test (
                inr (λ same. different (write_event-uid x ∙ same), latest-IsUpdated xs rest e done))
        ])

  pub refresh-AllUpdated :
      (xs ws given : List Event)
      → write_all k offset now a xs ≡ (ok tt, ws)
      → AllUpdated xs given (refresh ws given)
  refresh-AllUpdated xs ws [] h = refl
  refresh-AllUpdated xs ws (e ∷ given) h =
      (latest-IsUpdated xs ws e h, refresh-AllUpdated xs ws given h)
