-- ===== src/Scheduler/Visits.antt =====
-- A rule for the consumers of `get_events`: what the body of the loop keeps holds after the loop.
use industrial_ams.Base.{
  subst, ◌≡◌, true, false, Option, List, [], ◌∷◌, Bool-cases, inl, inr, arith,
}
use industrial_ams.Py.{Result, ok, err, >>=-eq-ok, Result-cases, Value}
use industrial_ams.Event.{Event}
use industrial_ams.Scheduler.{
  Scan, no_scan, is_over, overlaps, limits, scan_event, scan, sweep, visit_all, visit_rest,
  get_events, remove,
}

module _ {Acc : Type 0} (P : Acc → Type 0) (visit : Event → Acc → Result Acc)
    (keeps : (e : Event) (a b : Acc) → visit e a ≡ ok b → P a → P b) where
  -- What holds of the value that a loop returns, if it returns one
  abbrev Returned : Result Acc → Type 0
  Returned (ok a) = P a
  Returned (err x) = Unit

  Returned-eq : (r : Result Acc) (a : Acc) → r ≡ ok a → Returned r → P a
  Returned-eq (ok b) a h p = subst P (ground arith) p
  Returned-eq (err x) a h p = absurd (cc)

  visit-Returned : (e : Event) (a : Acc) → P a → Returned (visit e a)
  visit-Returned e a p = elim (Result-cases (visit e a)) [
    | inl (b, h) ↦ rw h (keeps e a b h p)
    | inr (x, h) ↦ rw h tt
  ]

  scan_event-keeps :
      (e : Event) (s s' : Scan) (a b : Acc) → scan_event visit e s a ≡ ok (s', b) → P a → P b
  unfolding scan_event
  scan_event-keeps e s s' a b h p = elim (Bool-cases (is_over e.state)) [
    | inl over ↦ subst P (ground arith) p
    | inr live ↦ elim (Result-cases (visit e a)) [
      | inl (c, visited) ↦ subst P (ground arith) (keeps e a c visited p)
      | inr (x, raised) ↦ absurd (ground arith)
    ]
  ]

  scan-keeps :
      (es : List Event) (s s' : Scan) (a b : Acc) → scan visit es s a ≡ ok (s', b) → P a → P b
  unfolding scan
  scan-keeps [] s s' a b h p = subst P (ground arith) p
  scan-keeps (e ∷ es) s s' a b h p =
      let (next, first, rest) = >>=-eq-ok (scan_event visit e s a) _ h in
      scan-keeps es next.0 s' next.1 b rest (scan_event-keeps e s next.0 a next.1 first p)

  sweep-keeps :
      (low high : Option Value) (ds events : List Event) (a : Acc)
      → P a
      → Returned (sweep visit low high ds events a).0
  unfolding sweep
  sweep-keeps low high [] events a p = p
  sweep-keeps low high (x ∷ ds) events a p = elim (Result-cases (overlaps low high x)) [
    | inl (true, o) ↦
        rw (o, sweep)
          (elim (Result-cases (visit x a)) [
            | inl (b, h) ↦ rw h (sweep-keeps low high ds events b (keeps x a b h p))
            | inr (y, h) ↦ rw h tt
          ])
    | inl (false, o) ↦ rw (o, sweep) (sweep-keeps low high ds (remove x.uid events) a p)
    | inr (y, o) ↦ rw (o, sweep) tt
  ]

  visit_all-keeps : (es : List Event) (a : Acc) → P a → Returned (visit_all visit es a)
  unfolding visit_all
  visit_all-keeps [] a p = p
  visit_all-keeps (e ∷ es) a p = elim (Result-cases (visit e a)) [
    | inl (b, h) ↦ rw (h, visit_all) (visit_all-keeps es b (keeps e a b h p))
    | inr (x, h) ↦ rw (h, visit_all) tt
  ]

  visit_rest-keeps :
      (new events : List Event) (r : Result Acc)
      → Returned r
      → Returned (visit_rest visit new (r, events)).0
  visit_rest-keeps new events (ok a) p = visit_all-keeps new a p
  visit_rest-keeps new events (err x) p = tt

  -- An invariant of the loop's body holds of what the loop returns.
  pub get_events-keeps :
      (new events : List Event) (a b : Acc) → (get_events visit new a events).0 ≡ ok b → P a → P b
  unfolding get_events
  get_events-keeps new events a b h p =
      Returned-eq _ b h (elim (Result-cases (scan visit events no_scan a)) [
        | inr (x, raised) ↦ rw (raised, get_events) tt
        | inl (next, scanned) ↦
            rw (scanned, get_events)
              (elim (Result-cases (limits next.0)) [
                | inr (x, raised) ↦ rw raised tt
                | inl (b, found) ↦ rw found (
                    visit_rest-keeps new (sweep visit b.0 b.1 next.0.delete events next.1).1
                      (sweep visit b.0 b.1 next.0.delete events next.1).0
                      (sweep-keeps b.0 b.1 next.0.delete events next.1
                        (scan-keeps events no_scan next.0 a next.1 scanned p)))
              ])
      ])
