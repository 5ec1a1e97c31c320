-- ===== src/Scheduler/Listing.antt =====
-- What `get_events` yields, and which events it removes.
use industrial_ams.Base.{
  All-map, All-intro, ◌==◌, ◌≡◌, refl, sym, ap, ◌∙◌, Bool, true, false, not, ◌&&◌, ◌||◌, Option,
  List, [], ◌∷◌, ◌++◌, inl, inr, arith, append_assoc, append-nil,
}
use industrial_ams.Py.{Error, Result, ok, err, >>=-eq-ok, Result-cases, Value}
use industrial_ams.Event.{Event}
use industrial_ams.Scheduler.{
  limits, visit_rest, Scan, no_scan, overlaps, note_times, limit_min, limit_max, remove, scan_event,
  scan, sweep, visit_all, get_events, collect,
}
use industrial_ams.Scheduler.Limits.{
  over, over-is_over, is_live, IsLimit, NotLater, NotLater-trans, NotEarlier, NotEarlier-trans,
  limits-IsLimit,
}
use industrial_ams.Base.{none, some}
use industrial_ams.Base.Int.{ltb_ℤ}
use industrial_ams.Py.{number, datetime, other, less}
use industrial_ams.Scheduler.{known_less}
use industrial_ams.Scheduler.Selection.{
  select_fails, select_passes, select_all, select, listed, Distinct, Distinct-select, select-select,
  select-cong, remove-select, listed-in_select,
}

-- Two times of one kind are known, and the first is before the second.
abbrev pub is_before : Option Value → Option Value → Bool
is_before (some (number a)) (some (number b)) = ltb_ℤ a b
is_before (some (datetime a)) (some (datetime b)) = ltb_ℤ a b
is_before v w = false

-- The activity of the event ends after the lower limit and begins before the upper one.
abbrev pub overlapping : Option Value → Option Value → Event → Bool
overlapping low high e = is_before low e.activity_finish && is_before e.activity_start high

known_less-is_before : (v w : Option Value) (b : Bool) → known_less v w ≡ ok b → is_before v w ≡ b
unfolding less
known_less-is_before none w b h = cc h
known_less-is_before (some (number a)) none b h = cc h
known_less-is_before (some (number a)) (some (number c)) b h = cc h
known_less-is_before (some (number a)) (some (datetime c)) b h = cc h
known_less-is_before (some (number a)) (some other) b h = cc h
known_less-is_before (some (datetime a)) none b h = cc h
known_less-is_before (some (datetime a)) (some (number c)) b h = cc h
known_less-is_before (some (datetime a)) (some (datetime c)) b h = cc h
known_less-is_before (some (datetime a)) (some other) b h = cc h
known_less-is_before (some other) none b h = cc h
known_less-is_before (some other) (some w) b h = cc h

-- The second of two tests is made only if the first holds.
abbrev and_then : Result Bool → Result Bool → Result Bool
and_then (ok true) q = q
and_then (ok false) q = ok false
and_then (err x) q = err x

and_then-ok :
    (p q : Result Bool) (i j b : Bool)
    → ((c : Bool) → p ≡ ok c → i ≡ c)
    → ((c : Bool) → q ≡ ok c → j ≡ c)
    → and_then p q ≡ ok b
    → i && j ≡ b
and_then-ok (ok true) q i j b f g h = cc (f true refl, g b h)
and_then-ok (ok false) q i j b f g h = let first = f false refl in ground (arith, first, h)
and_then-ok (err x) q i j b f g h = cc h

overlaps-and_then :
    (low high : Option Value) (x : Event)
    → overlaps low high x
      ≡ and_then (known_less low x.activity_finish) (known_less x.activity_start high)
unfolding overlaps
overlaps-and_then low high x = elim (Result-cases (known_less low x.activity_finish)) [
  | inl (true, first) ↦ rw (first, overlaps) refl
  | inl (false, first) ↦ rw (first, overlaps) refl
  | inr (y, raised) ↦ rw (raised, overlaps) refl
]

overlapping-eq :
    (low high : Option Value) (x : Event) (b : Bool)
    → overlaps low high x ≡ ok b
    → overlapping low high x ≡ b
overlapping-eq low high x b h =
    and_then-ok (known_less low x.activity_finish) (known_less x.activity_start high)
      (is_before low x.activity_finish) (is_before x.activity_start high) b
      (known_less-is_before low x.activity_finish) (known_less-is_before x.activity_start high)
      (sym (overlaps-and_then low high x) ∙ h)

note_times-delete : (e : Event) (s s' : Scan) → note_times e s ≡ ok s' → s'.delete ≡ s.delete
unfolding note_times
note_times-delete e s s' h = ground arith

-- One event goes to one of the two lists.
scan_event-collect :
    (e : Event) (s s' : Scan) (l l' : List Event)
    → scan_event collect e s l ≡ ok (s', l')
    → (l' ≡ l ++ select is_live (e ∷ [])) × (s'.delete ≡ s.delete ++ select over (e ∷ []))
unfolding scan_event
scan_event-collect e s s' l l' h = elim (Result-cases (note_times e s)) [
  | inl (t, noted) ↦ ground (
    arith,
    over-is_over e,
    note_times-delete e s t noted,
    append-nil {0} l,
    append-nil {0} s.delete,
  )
  | inr (x, raised) ↦ ground (arith, over-is_over e, append-nil {0} l, append-nil {0} s.delete)
]

select-cons :
    (p : Event → Bool) (e : Event) (es : List Event)
    → select p (e ∷ es) ≡ select p (e ∷ []) ++ select p es
select-cons p e es = ground arith

scan-collect :
    (es : List Event) (s s' : Scan) (l l' : List Event)
    → scan collect es s l ≡ ok (s', l')
    → (l' ≡ l ++ select is_live es) × (s'.delete ≡ s.delete ++ select over es)
unfolding scan
scan-collect [] s s' l l' h = (rw append-nil (cc), rw append-nil (cc))
scan-collect (e ∷ es) s s' l l' h =
    let (next, first, rest) = >>=-eq-ok (scan_event collect e s l) _ h in
    let (here_l, here_d) = scan_event-collect e s next.0 l next.1 first in
    let (there_l, there_d) = scan-collect es next.0 s' next.1 l' rest in
    (
      rw (select-cons is_live e es)
          (there_l ∙ (ap (λ k. k ++ select is_live es) here_l ∙ append_assoc l _ _)),
      rw (select-cons over e es)
          (there_d ∙ (ap (λ k. k ++ select over es) here_d ∙ append_assoc s.delete _ _)),
    )

module _ (low high : Option Value) where
  -- The events of a list that the second loop takes out
  abbrev dropped : List Event → List Event
  dropped = select (λ e. not (overlapping low high e))

  sweep_keeps :
      (x : Event) (ds events l : List Event)
      → overlaps low high x ≡ ok true
      → sweep collect low high (x ∷ ds) events l ≡ sweep collect low high ds events (l ++ x ∷ [])
  unfolding sweep
  sweep_keeps x ds events l o = rw (o, sweep)

  sweep_drops :
      (x : Event) (ds events l : List Event)
      → overlaps low high x ≡ ok false
      → sweep collect low high (x ∷ ds) events l ≡ sweep collect low high ds (remove x.uid events) l
  unfolding sweep
  sweep_drops x ds events l o = rw (o, sweep)

  sweep_raises :
      (x : Event) (ds events l : List Event) (y : Error)
      → overlaps low high x ≡ err y
      → sweep collect low high (x ∷ ds) events l ≡ (err y, events)
  unfolding sweep
  sweep_raises x ds events l y o = rw (o, sweep)

  select-remove :
      (x : Event) (ds events : List Event)
      → Distinct events
      → select (λ e. not (listed e.uid ds)) (remove x.uid events)
        ≡ select (λ e. not (listed e.uid (x ∷ ds))) events
  select-remove x ds events d = rw (remove-select x.uid events d) (
      select-select (λ e. not (listed e.uid ds)) (λ e. not (e.uid == x.uid)) events
      ∙ select-cong _ (λ e. not (listed e.uid (x ∷ ds))) events
          (All-intro _ events (λ e. ground arith)))

  sweep-collect :
      (ds events events' l l' : List Event)
      → Distinct events
      → sweep collect low high ds events l ≡ (ok l', events')
      → (l' ≡ l ++ select (overlapping low high) ds)
        × (events' ≡ select (λ e. not (listed e.uid (dropped ds))) events)
  unfolding sweep
  sweep-collect [] events events' l l' d h = (rw append-nil (cc), rw select_all (cc))
  sweep-collect (x ∷ ds) events events' l l' d h = elim (Result-cases (overlaps low high x)) [
    | inl (true, o) ↦
        let (yields, left) =
          sweep-collect ds events events' (l ++ x ∷ []) l' d
            (sym (sweep_keeps x ds events l o) ∙ h) in
        let passes = overlapping-eq low high x true o in
        (
          rw (select_passes (overlapping low high) x ds passes) (yields ∙ append_assoc l _ _),
          rw (select_fails (λ e. not (overlapping low high e)) x ds (ap not passes)) left,
        )
    | inl (false, o) ↦
        let (yields, left) =
          sweep-collect ds (remove x.uid events) events' l l'
            (rw (remove-select x.uid events d) (Distinct-select _ events d))
            (sym (sweep_drops x ds events l o) ∙ h) in
        let fails = overlapping-eq low high x false o in
        (
          rw (select_fails (overlapping low high) x ds fails) yields,
          rw (select_passes (λ e. not (overlapping low high e)) x ds (ap not fails))
              (left ∙ select-remove x (dropped ds) events d),
        )
    | inr (y, o) ↦ cc (sweep_raises x ds events l y o)
  ]

visit_all-collect : (new l : List Event) → visit_all collect new l ≡ ok (l ++ new)
unfolding visit_all
visit_all-collect [] l = ap ok (sym (append-nil l))
visit_all-collect (e ∷ new) l = visit_all-collect new (l ++ e ∷ []) ∙ ap ok (append_assoc l _ _)

visit_rest-eq :
    (new l events : List Event) (p : Result (List Event) × List Event)
    → visit_rest collect new p ≡ (ok l, events)
    → (k : List Event) × (p ≡ (ok k, events)) × (l ≡ k ++ new)
visit_rest-eq new l events (ok k, es) h = (k, ground arith, ground (arith, visit_all-collect new k))
visit_rest-eq new l events (err x, es) h = cc

module _ (new events : List Event) where
  get_events-eq :
      (s : Scan) (l : List Event) (b : Option Value × Option Value)
      → scan collect events no_scan [] ≡ ok (s, l)
      → limits s ≡ ok b
      → get_events collect new [] events
        ≡ visit_rest collect new (sweep collect b.0 b.1 s.delete events l)
  unfolding get_events
  get_events-eq s l b h k = rw (h, get_events) (rw (k, get_events) refl)

  get_events-scan_raises :
      (x : Error)
      → scan collect events no_scan [] ≡ err x
      → get_events collect new [] events ≡ (err x, events)
  unfolding get_events
  get_events-scan_raises x h = rw (h, get_events)

  get_events-limits_raises :
      (s : Scan) (l : List Event) (x : Error)
      → scan collect events no_scan [] ≡ ok (s, l)
      → limits s ≡ err x
      → get_events collect new [] events ≡ (err x, events)
  unfolding get_events
  get_events-limits_raises s l x h k = rw (h, get_events) (rw (k, get_events) refl)

-- The least time of the events, and the greatest; none where there is no event or one has no times
abbrev pub HasLimits : List Event → Option Value → Option Value → Type 0
HasLimits es low high =
    IsLimit NotLater NotLater-trans low es × IsLimit NotEarlier NotEarlier-trans high es

negated : (a b : Bool) → not (a && not b) ≡ (not a || b)
negated a b = ground arith

joined :
    {a a' b b' : List Event} (c : List Event) → a ≡ a' → b ≡ b' → (a ++ b) ++ c ≡ a' ++ (b' ++ c)
joined {a} {a'} {b} {b'} c p q = append_assoc a b c ∙ cc

remaining :
    (low high : Option Value) (events : List Event)
    → Distinct events
    → select (λ e. not (listed e.uid (dropped low high (select over events)))) events
      ≡ select (λ e. is_live e || overlapping low high e) events
remaining low high events d = rw (select-select (λ e. not (overlapping low high e)) over events) (
    select-cong _ (λ e. is_live e || overlapping low high e) events
      (All-map _ _ events (λ e h. rw h (negated (over e) (overlapping low high e)))
        (listed-in_select (λ e. over e && not (overlapping low high e)) events d)))

-- What a listing that does not raise gives, for events with distinct uids: it yields the live events,
-- then those that are over and whose activity ends after the least and begins before the greatest of the
-- live ones' times, then the new ones, each in order; and just these live and overlapping events stay
-- registered, in their order. There are no such limits, and no event that is over stays, where no event is
-- live or a live one has no times.
pub get_events-listing :
    (new events events' l : List Event)
    → Distinct events
    → get_events collect new [] events ≡ (ok l, events')
    → (low high : Option Value) × HasLimits (select is_live events) low high
      × (l ≡ select is_live events ++ (select (overlapping low high) (select over events) ++ new))
      × (events' ≡ select (λ e. is_live e || overlapping low high e) events)
unfolding limits
get_events-listing new events events' l d h = elim (Result-cases (scan collect events no_scan [])) [
  | inr (x, raised) ↦ cc (get_events-scan_raises new events x raised)
  | inl (next, scanned) ↦ elim (Result-cases (limits next.0)) [
    | inr (x, raised) ↦ cc (get_events-limits_raises new events next.0 next.1 x scanned raised)
    | inl (b, found) ↦
        let (low, low_eq, rest) = >>=-eq-ok (limit_min next.0) _ found in
        let (high, high_eq, rest) = >>=-eq-ok (limit_max next.0) _ rest in
        let (k, swept, l_eq) = visit_rest-eq new l events' _ (
          sym (get_events-eq new events next.0 next.1 (low, high) scanned (found ∙ sym rest))
          ∙ h) in
        let (yielded, deleted) = scan-collect events no_scan next.0 [] next.1 scanned in
        let (k_eq, left) = sweep-collect low high next.0.delete events events' next.1 k d swept in
        (
          low,
          high,
          limits-IsLimit events next.0 next.1 low high scanned low_eq high_eq,
          l_eq
              ∙ (ap (λ t. t ++ new) k_eq
                  ∙ joined new yielded (ap (select (overlapping low high)) deleted)),
          left
              ∙ (ap (λ ds. select (λ e. not (listed e.uid (dropped low high ds))) events) deleted
                  ∙ remaining low high events d),
        )
  ]
]
