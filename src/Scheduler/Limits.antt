-- ===== src/Scheduler/Limits.antt =====
-- The least and the greatest of the live events' times, as `get_events` finds them
use industrial_ams.Base.{
  ◌≡◌, refl, sym, ◌∙◌, subst, ◌⊎◌, ◌≢◌, not, All-map, inl, inr, Bool, true, false, Option, none,
  some, List, [], ◌∷◌, ◌++◌, All, arith, Bool-cases, if◌then◌else◌,
}
use industrial_ams.Base.Int.{◌≤ℤ◌, int_laws}
use industrial_ams.Py.{Result, ok, >>=-eq-ok, Result-cases, Value, number, datetime, other, less}
use industrial_ams.Event.{Event, new, scheduled, arrived, started, finished, departed, canceled}
use industrial_ams.Scheduler.{
  Scan, no_scan, is_over, times, min_from, max_from, min_value, max_value, note_times, note_min,
  note_max, limit_min, limit_max, scan_event, scan, collect,
}
use industrial_ams.Scheduler.Selection.{select}

-- Values of one kind, of which the first is not later
abbrev pub AtMost : Value → Value → Type 0
AtMost (number a) (number b) = a ≤ℤ b
AtMost (datetime a) (datetime b) = a ≤ℤ b
AtMost v w = ⊥

-- One of the items has the property.
abbrev pub Any {ℓ} : {A : Type ℓ} → (A → Type 0) → List A → Type 0
Any P [] = ⊥
Any P (x ∷ xs) = P x ⊎ Any P xs

AtMost-trans : (u v w : Value) → AtMost u v → AtMost v w → AtMost u w
AtMost-trans (number a) (number b) (number c) h k = omega (int_laws, h, k)
AtMost-trans (number a) (number b) (datetime c) h k = absurd k
AtMost-trans (number a) (number b) other h k = absurd k
AtMost-trans (number a) (datetime b) w h k = absurd h
AtMost-trans (number a) other w h k = absurd h
AtMost-trans (datetime a) (datetime b) (datetime c) h k = omega (int_laws, h, k)
AtMost-trans (datetime a) (datetime b) (number c) h k = absurd k
AtMost-trans (datetime a) (datetime b) other h k = absurd k
AtMost-trans (datetime a) (number b) w h k = absurd h
AtMost-trans (datetime a) other w h k = absurd h
AtMost-trans other v w h k = absurd h

-- What a comparison tells of two values
less-AtMost : (v w : Value) (b : Bool) → less v w ≡ ok b → if b then AtMost v w else AtMost w v
unfolding less
less-AtMost (number a) (number c) true h = ground (arith, h)
less-AtMost (number a) (number c) false h = ground (arith, h)
less-AtMost (datetime a) (datetime c) true h = ground (arith, h)
less-AtMost (datetime a) (datetime c) false h = ground (arith, h)
less-AtMost (number a) (datetime c) b h = cc h
less-AtMost (number a) other b h = cc h
less-AtMost (datetime a) (number c) b h = cc h
less-AtMost (datetime a) other b h = cc h
less-AtMost other w b h = cc h

-- The first value is the second one, or is not later.
abbrev pub NotLater : Value → Value → Type 0
NotLater v w = (v ≡ w) ⊎ AtMost v w

-- The first value is the second one, or is not earlier.
abbrev pub NotEarlier : Value → Value → Type 0
NotEarlier v w = NotLater w v

pub NotLater-trans : (u v w : Value) → NotLater u v → NotLater v w → NotLater u w
NotLater-trans u v w (inl e) k = subst (λ x. NotLater x w) (sym e) k
NotLater-trans u v w (inr h) (inl e) = inr (subst (AtMost u) e h)
NotLater-trans u v w (inr h) (inr k) = inr (AtMost-trans u v w h k)

-- A value of a list that stands before all of them
abbrev pub IsFirst : (Value → Value → Type 0) → Value → List Value → Type 0
IsFirst R m vs = All (R m) vs × Any (λ v. v ≡ m) vs

module _ (R : Value → Value → Type 0) (trans : (u v w : Value) → R u v → R v w → R u w) where
  IsFirst-step :
      (b : Bool) (best v m : Value) (vs : List Value)
      → if b then R v best else R best v
      → IsFirst R m ((if b then v else best) ∷ vs)
      → IsFirst R m (best ∷ v ∷ vs)
  IsFirst-step true best v m vs h k = ((trans m v best k.0.0 h, k.0), inr k.1)
  IsFirst-step false best v m vs h k =
      ((k.0.0, (trans m best v k.0.0 h, k.0.1)), elim k.1 [ inl e ↦ inl e | inr r ↦ inr (inr r) ])

tested_min :
    (b : Bool) (v best : Value)
    → less v best ≡ ok b
    → if b then NotLater v best else NotLater best v
tested_min true v best h = inr (less-AtMost v best true h)
tested_min false v best h = inr (less-AtMost v best false h)

tested_max :
    (b : Bool) (v best : Value)
    → less best v ≡ ok b
    → if b then NotEarlier v best else NotEarlier best v
tested_max true v best h = inr (less-AtMost best v true h)
tested_max false v best h = inr (less-AtMost best v false h)

pub NotEarlier-trans : (u v w : Value) → NotEarlier u v → NotEarlier v w → NotEarlier u w
NotEarlier-trans u v w h k = NotLater-trans w v u k h

min_from-IsFirst :
    (best m : Value) (vs : List Value) → min_from best vs ≡ ok m → IsFirst NotLater m (best ∷ vs)
unfolding min_from
min_from-IsFirst best m [] h = ((inl (cc h), tt), inl (cc h))
min_from-IsFirst best m (v ∷ vs) h =
    let (b, tested, rest) = >>=-eq-ok (less v best) _ h in
    IsFirst-step NotLater NotLater-trans b best v m vs (tested_min b v best tested)
      (min_from-IsFirst (if b then v else best) m vs rest)

max_from-IsFirst :
    (best m : Value) (vs : List Value) → max_from best vs ≡ ok m → IsFirst NotEarlier m (best ∷ vs)
unfolding max_from
max_from-IsFirst best m [] h = ((inl (cc h), tt), inl (cc h))
max_from-IsFirst best m (v ∷ vs) h =
    let (b, tested, rest) = >>=-eq-ok (less best v) _ h in
    IsFirst-step NotEarlier NotEarlier-trans b best v m vs (tested_max b v best tested)
      (max_from-IsFirst (if b then v else best) m vs rest)

-- What a limit of some values is: none of none, and else the first one in the order
abbrev pub IsEnd : (Value → Value → Type 0) → Option Value → List Value → Type 0
IsEnd R none vs = vs ≡ []
IsEnd R (some m) vs = IsFirst R m vs

min_value-IsEnd : (vs : List Value) (o : Option Value) → min_value vs ≡ ok o → IsEnd NotLater o vs
unfolding min_value
min_value-IsEnd [] none h = refl
min_value-IsEnd [] (some m) h = cc h
min_value-IsEnd (v ∷ vs) o h =
    let (m, found, rest) = >>=-eq-ok (min_from v vs) _ h in
    let same : some m ≡ o = cc rest in
    subst (λ x. IsEnd NotLater x (v ∷ vs)) same (min_from-IsFirst v m vs found)

max_value-IsEnd : (vs : List Value) (o : Option Value) → max_value vs ≡ ok o → IsEnd NotEarlier o vs
unfolding max_value
max_value-IsEnd [] none h = refl
max_value-IsEnd [] (some m) h = cc h
max_value-IsEnd (v ∷ vs) o h =
    let (m, found, rest) = >>=-eq-ok (max_from v vs) _ h in
    let same : some m ≡ o = cc rest in
    subst (λ x. IsEnd NotEarlier x (v ∷ vs)) same (max_from-IsFirst v m vs found)

module _ (R : Value → Value → Type 0) (trans : (u v w : Value) → R u v → R v w → R u w) where
  -- What is gathered of events in turn: the first of the times of each in the order, and whether one of
  -- them has no times
  abbrev Gathered : List Event → Bool → List Value → Bool → List Value → Type 0
  Gathered [] b vs b' vs' = (b' ≡ b) × (vs' ≡ vs)
  Gathered (e ∷ es) b vs b' vs' =
      ((times e ≡ []) × Gathered es true vs b' vs')
      ⊎ ((m : Value) × IsFirst R m (times e) × Gathered es b (m ∷ vs) b' vs')

  -- The limit of events' times: none if there are no events or one of them has no times; else a time of
  -- one of them that stands before all of them in the order
  abbrev pub IsLimit : Option Value → List Event → Type 0
  IsLimit none es = (es ≡ []) ⊎ Any (λ e. times e ≡ []) es
  IsLimit (some m) es =
      All (λ e. (times e ≢ []) × All (R m) (times e)) es × Any (λ e. Any (λ v. v ≡ m) (times e)) es

  Gathered-open :
      (es : List Event) (b b' : Bool) (vs vs' : List Value)
      → Gathered es b vs b' vs'
      → b' ≡ true
      → (b ≡ true) ⊎ Any (λ e. times e ≡ []) es
  Gathered-open [] b b' vs vs' g h = inl (sym g.0 ∙ h)
  Gathered-open (e ∷ es) b b' vs vs' (inl (bare, g)) h = inr (inl bare)
  Gathered-open (e ∷ es) b b' vs vs' (inr (m, first, g)) h =
      elim (Gathered-open es b b' (m ∷ vs) vs' g h) [ inl o ↦ inl o | inr r ↦ inr (inr r) ]

  Gathered-empty :
      (es : List Event) (b b' : Bool) (vs vs' : List Value)
      → Gathered es b vs b' vs'
      → b' ≡ false
      → vs' ≡ []
      → (b ≡ false) × (vs ≡ []) × (es ≡ [])
  Gathered-empty [] b b' vs vs' g h k = (sym g.0 ∙ h, sym g.1 ∙ k, refl)
  Gathered-empty (e ∷ es) b b' vs vs' (inl (bare, g)) h k =
      let closed = (Gathered-empty es true b' vs vs' g h k).0 in cc closed
  Gathered-empty (e ∷ es) b b' vs vs' (inr (m, first, g)) h k =
      cc ((Gathered-empty es b b' (m ∷ vs) vs' g h k).1)

  Gathered-all :
      (x : Value) (es : List Event) (b b' : Bool) (vs vs' : List Value)
      → Gathered es b vs b' vs'
      → b' ≡ false
      → All (R x) vs'
      → (b ≡ false) × All (R x) vs × All (λ e. (times e ≢ []) × All (R x) (times e)) es
  Gathered-all x [] b b' vs vs' g h k = (sym g.0 ∙ h, subst (All (R x)) g.1 k, tt)
  Gathered-all x (e ∷ es) b b' vs vs' (inl (bare, g)) h k =
      let closed = (Gathered-all x es true b' vs vs' g h k).0 in cc closed
  Gathered-all x (e ∷ es) b b' vs vs' (inr (m, first, g)) h k =
      let (closed, all, rest) = Gathered-all x es b b' (m ∷ vs) vs' g h k in
      (
        closed,
        all.1,
        (
          (
            λ bare. subst (Any (λ v. v ≡ m)) bare first.1,
            All-map (R m) (R x) (times e) (λ v r. trans x m v all.0 r) first.0,
          ),
          rest,
        ),
      )

  Gathered-Any :
      (x : Value) (es : List Event) (b b' : Bool) (vs vs' : List Value)
      → Gathered es b vs b' vs'
      → Any (λ v. v ≡ x) vs'
      → Any (λ v. v ≡ x) vs ⊎ Any (λ e. Any (λ v. v ≡ x) (times e)) es
  Gathered-Any x [] b b' vs vs' g k = inl (subst (Any (λ v. v ≡ x)) g.1 k)
  Gathered-Any x (e ∷ es) b b' vs vs' (inl (bare, g)) k =
      elim (Gathered-Any x es true b' vs vs' g k) [ inl o ↦ inl o | inr r ↦ inr (inr r) ]
  Gathered-Any x (e ∷ es) b b' vs vs' (inr (m, first, g)) k =
      elim (Gathered-Any x es b b' (m ∷ vs) vs' g k) [
        | inl (inl e') ↦ inr (inl (subst (λ y. Any (λ v. v ≡ y) (times e)) e' first.1))
        | inl (inr o) ↦ inl o
        | inr r ↦ inr (inr r)
      ]

  Gathered-IsLimit :
      (o : Option Value) (es : List Event) (vs : List Value)
      → Gathered es false [] false vs
      → IsEnd R o vs
      → IsLimit o es
  Gathered-IsLimit none es vs g h = inl (Gathered-empty es false false [] vs g refl h).2
  Gathered-IsLimit (some m) es vs g h =
      let (_, _, all) = Gathered-all m es false false [] vs g refl h.0 in
      (
        all,
        elim (Gathered-Any m es false false [] vs g h.1) [ inl never ↦ absurd never | inr r ↦ r ],
      )

  opened-IsLimit :
      (es : List Event) (vs : List Value) → Gathered es false [] true vs → IsLimit none es
  opened-IsLimit es vs g = elim (Gathered-open es false true [] vs g refl) [
    | inl e ↦ cc e
    | inr r ↦ inr r
  ]

  limited :
      (b : Bool) (o : Option Value) (es : List Event) (vs : List Value) (r : Result (Option Value))
      → Gathered es false [] b vs
      → ((p : Option Value) → r ≡ ok p → IsEnd R p vs)
      → (if b then ok none else r) ≡ ok o
      → IsLimit o es
  limited true o es vs r g ends h =
      let same : none ≡ o = cc h in subst (λ x. IsLimit x es) same (opened-IsLimit es vs g)
  limited false o es vs r g ends h = Gathered-IsLimit o es vs g (ends o h)

-- The event has departed or is canceled.
abbrev pub over : Event → Bool
over e = elim e.state [
  | new ↦ false
  | scheduled ↦ false
  | arrived ↦ false
  | started ↦ false
  | finished ↦ false
  | departed ↦ true
  | canceled ↦ true
]

-- An event that is not over
abbrev pub is_live : Event → Bool
is_live e = not (over e)

pub over-is_over : (e : Event) → over e ≡ is_over e.state
over-is_over e = ground arith

-- What a scan has gathered, for both limits
abbrev IsScanned : List Event → Scan → Scan → Type 0
IsScanned es s s' =
    Gathered NotLater NotLater-trans es s.open_min s.time_min s'.open_min s'.time_min
    × Gathered NotEarlier NotEarlier-trans es s.open_max s.time_max s'.open_max s'.time_max

noted :
    (e : Event) (es : List Event) (s s' : Scan) (low high : Option Value)
    → IsEnd NotLater low (times e)
    → IsEnd NotEarlier high (times e)
    → IsScanned es (note_min low (note_max high s)) s'
    → IsScanned (e ∷ es) s s'
noted e es s s' none none h k g = (inl (h, g.0), inl (k, g.1))
noted e es s s' none (some b) h k g = (inl (h, g.0), inr (b, k, g.1))
noted e es s s' (some a) none h k g = (inr (a, h, g.0), inl (k, g.1))
noted e es s s' (some a) (some b) h k g = (inr (a, h, g.0), inr (b, k, g.1))

note_times-noted :
    (e : Event) (es : List Event) (s t s' : Scan)
    → note_times e s ≡ ok t
    → IsScanned es t s'
    → IsScanned (e ∷ es) s s'
unfolding note_times
note_times-noted e es s t s' h g =
    let (high, found_high, rest) = >>=-eq-ok (max_value (times e)) _ h in
    let (low, found_low, rest) = >>=-eq-ok (min_value (times e)) _ rest in
    let same : note_min low (note_max high s) ≡ t = cc rest in
    noted e es s s' low high (min_value-IsEnd (times e) low found_low)
      (max_value-IsEnd (times e) high found_high) (subst (λ u. IsScanned es u s') (sym same) g)

-- What one event does to what is gathered of the next ones
scan_event-IsScanned :
    (e : Event) (es : List Event) (s t s' : Scan) (l k : List Event)
    → scan_event collect e s l ≡ ok (t, k)
    → IsScanned (select is_live es) t s'
    → IsScanned (select is_live (e ∷ es)) s s'
unfolding scan_event
scan_event-IsScanned e es s t s' l k h g = elim (Bool-cases (is_over e.state)) [
  | inl gone ↦
      let same : record s { delete = s.delete ++ e ∷ [] } ≡ t = ground (arith, h, gone) in
      rw (over-is_over e, gone) (subst (λ u. IsScanned (select is_live es) u s') (sym same) g)
  | inr live ↦ elim (Result-cases (note_times e s)) [
    | inl (u, noted) ↦
        let same : u ≡ t = ground (arith, h, live, noted) in
        rw (over-is_over e, live)
          (note_times-noted e (select is_live es) s u s' noted
            (subst (λ u. IsScanned (select is_live es) u s') (sym same) g))
    | inr (x, raised) ↦ absurd (ground (arith, h, live, raised))
  ]
]

scan-IsScanned :
    (es : List Event) (s s' : Scan) (l l' : List Event)
    → scan collect es s l ≡ ok (s', l')
    → IsScanned (select is_live es) s s'
unfolding scan
scan-IsScanned [] s s' l l' h =
    let same : s ≡ s' = cc h in subst (λ t. IsScanned [] s t) same ((refl, refl), (refl, refl))
scan-IsScanned (e ∷ es) s s' l l' h =
    let (next, first, rest) = >>=-eq-ok (scan_event collect e s l) _ h in
    scan_event-IsScanned e es s next.0 s' l next.1 first
      (scan-IsScanned es next.0 s' next.1 l' rest)

-- The limits that a listing finds are those of the times of the events that are not over.
pub limits-IsLimit :
    (es : List Event) (s : Scan) (l : List Event) (low high : Option Value)
    → scan collect es no_scan [] ≡ ok (s, l)
    → limit_min s ≡ ok low
    → limit_max s ≡ ok high
    → IsLimit NotLater NotLater-trans low (select is_live es)
      × IsLimit NotEarlier NotEarlier-trans high (select is_live es)
unfolding limit_min limit_max
limits-IsLimit es s l low high h k m =
    let (lows, highs) = scan-IsScanned es no_scan s [] l h in
    (
      limited NotLater NotLater-trans s.open_min low (select is_live es) s.time_min
          (min_value s.time_min) lows (min_value-IsEnd s.time_min) k,
      limited NotEarlier NotEarlier-trans s.open_max high (select is_live es) s.time_max
          (max_value s.time_max) highs (max_value-IsEnd s.time_max) m,
    )
