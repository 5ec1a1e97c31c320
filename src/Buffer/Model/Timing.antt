-- ===== src/Buffer/Model/Timing.antt =====
-- What a solution says of the times of each event.
use industrial_ams.Base.{
  ℕ, ◌≡◌, ◌⊎◌, inl, inr, sym, ap, ◌∙◌, subst, Bool, true, false, Option, none, some, List, [], ◌∷◌,
  is_some, All, append-All, if◌then◌else◌, arith,
}
use industrial_ams.Base.Int.{ℤ, pos, ◌+ℤ◌, ◌≤ℤ◌, int_laws}
use industrial_ams.Py.{Result, ok, err, >>=-eq-ok}
use industrial_ams.Buffer.Variables.{
  eta, start, finish, etd, duration, oqt, Interval, Range, Variables, input_interval,
  processing_interval, output_interval,
}
use industrial_ams.Buffer.Horizon.{EventData}
use industrial_ams.Buffer.Variables.Standard.{IsStandard}
use industrial_ams.Buffer.Model.{
  Constraint, build_event, build_events, ranges, lower_bound, upper_bound, build_ranges, intervals,
}
use industrial_ams.Buffer.Model.Meaning.{Assignment, Satisfies}

-- A time of the event lies in its range.
abbrev pub InRange : Range → ℤ → Type 0
InRange (none, none) t = Unit
InRange (none, some high) t = t ≤ℤ high
InRange (some low, none) t = low ≤ℤ t
InRange (some low, some high) t = (low ≤ℤ t) × (t ≤ℤ high)

InRange-domain :
    (offset horizon v : ℤ) (r : Range)
    → lower_bound offset r.0 ≤ℤ v
    → v ≤ℤ upper_bound offset horizon r.1
    → InRange r (v +ℤ offset)
InRange-domain offset horizon v (none, none) h k = tt
InRange-domain offset horizon v (none, some high) h k = omega int_laws
InRange-domain offset horizon v (some low, none) h k = omega int_laws
InRange-domain offset horizon v (some low, some high) h k = (omega int_laws, omega int_laws)

end-ge : (s d f : ℤ) → s +ℤ d ≡ f → pos 0 ≤ℤ d → s ≤ℤ f
end-ge s d f h k = subst (λ x. s ≤ℤ x) h (omega int_laws)

fixed_end : (s d f x : ℤ) → s +ℤ x ≡ f → d ≤ℤ x → x ≤ℤ d → s +ℤ d ≡ f
fixed_end s d f x h k l = ap (λ y. s +ℤ y) (omega int_laws) ∙ h

module _ (offset : ℤ) (a : Assignment) where
  -- The times of an event are in order and in their ranges.
  abbrev pub IsPlannedAs : ℕ → Option Range → Range → Range → Range → Interval → Interval → Type 0
  IsPlannedAs n er sr fr dr p o =
      (is_some er ≡ true → a n eta ≤ℤ a n start)
      × (a n start ≤ℤ a n finish)
      × (o.optional ≡ true → a n finish ≤ℤ a n etd)
      × (p.optional ≡ false → (d : ℤ) → p.length ≡ some d → a n start +ℤ d ≡ a n finish)
      × ((r : Range) → er ≡ some r → InRange r (a n eta +ℤ offset))
      × InRange sr (a n start +ℤ offset)
      × InRange fr (a n finish +ℤ offset)
      × InRange dr (a n etd +ℤ offset)

  abbrev pub IsPlanned : Variables → Type 0
  IsPlanned v =
      IsPlannedAs v.number v.eta_range v.start_range v.finish_range v.etd_range v.interval_p
        v.interval_o

-- What a block that returned constraints says of an assignment that meets them
abbrev pub Holds : Assignment → Result (List Constraint) → Type 0
Holds a (ok cs) = All (Satisfies a) cs
Holds a (err x) = Unit

some-eq : (r q : Range) → ◌≡◌ {A = Option Range} (some r) (some q) → r ≡ q
some-eq r q h = ground arith

-- An optional interval has a duration that is not negative.
nonneg :
    (o : Bool) (d : Option ℤ) (horizon x : ℤ)
    → o ≡ true
    → (if o then pos 0 else elim d as (λ d. ℤ) [ none ↦ horizon | some k ↦ k ]) ≤ℤ x
    → pos 0 ≤ℤ x
nonneg true d horizon x h k = k
nonneg false d horizon x h k = cc

-- An interval that is not optional has the given duration.
exact :
    (a : Assignment) (n : ℕ) (dp : ℤ) (po : Bool) (d : ℤ)
    → a n start +ℤ a n duration ≡ a n finish
    → ((if po then pos 0 else dp) ≤ℤ a n duration) × (a n duration ≤ℤ dp)
    → po ≡ false
    → ◌≡◌ {A = Option ℤ} (some dp) (some d)
    → a n start +ℤ d ≡ a n finish
exact a n dp true d h k o q = cc
exact a n dp false d h k o q =
    subst (λ x. a n start +ℤ x ≡ a n finish) (ground arith)
      (fixed_end (a n start) dp (a n finish) (a n duration) h k.0 k.1)

module _ (offset horizon : ℤ) (a : Assignment) (n : ℕ) (sr fr dr : Range) (dp : ℤ) (po : Bool)
    (dO : Option ℤ) (oo : Bool) where
  planned_with_eta :
      (r : Range) (di : Option ℤ) (oi : Bool) (cs : List Constraint)
      → build_ranges offset horizon n (ranges (some r) sr fr dr) (
          intervals
            (some (input_interval di oi))
            (processing_interval (some dp) po)
            (output_interval dO oo))
        ≡ ok cs
      → All (Satisfies a) cs
      → IsPlannedAs offset a n
          (some r)
          sr
          fr
          dr
          (processing_interval (some dp) po)
          (output_interval dO oo)
  unfolding build_ranges
  planned_with_eta r di oi cs h all =
      let g = subst (Holds a) (sym h) all in
      let ordered = g.1.1.1.1.1.1.1.1.0 in
      (
        λ t. ordered,
        g.1.1.1.1.1.1.1.1.1.1.1.0,
        λ o.
            end-ge (a n finish) (a n oqt) (a n etd) g.1.1.1.1.1.1.1.1.1.1.0
              (nonneg oo dO horizon (a n oqt) o g.1.1.1.1.1.1.1.1.1.0.0),
        λ o d q. exact a n dp po d g.1.1.1.1.1.1.1.0 g.1.1.1.1.1.1.0 o q,
        λ q e.
            subst (λ w. InRange w (a n eta +ℤ offset)) (some-eq r q e)
              (InRange-domain offset horizon (a n eta) r g.0.0 g.0.1),
        InRange-domain offset horizon (a n start) sr g.1.0.0 g.1.0.1,
        InRange-domain offset horizon (a n finish) fr g.1.1.0.0 g.1.1.0.1,
        InRange-domain offset horizon (a n etd) dr g.1.1.1.0.0 g.1.1.1.0.1,
      )

  planned_without_eta :
      (cs : List Constraint)
      → build_ranges offset horizon n
          (ranges none sr fr dr)
          (intervals none (processing_interval (some dp) po) (output_interval dO oo))
        ≡ ok cs
      → All (Satisfies a) cs
      → IsPlannedAs offset a n none sr fr dr
          (processing_interval (some dp) po)
          (output_interval dO oo)
  unfolding build_ranges
  planned_without_eta cs h all =
      let g = subst (Holds a) (sym h) all in
      (
        λ t. cc,
        g.1.1.1.1.1.1.1.0,
        λ o.
            end-ge (a n finish) (a n oqt) (a n etd) g.1.1.1.1.1.1.0
              (nonneg oo dO horizon (a n oqt) o g.1.1.1.1.1.0.0),
        λ o d q. exact a n dp po d g.1.1.1.1.0 g.1.1.1.0 o q,
        λ q e. cc,
        InRange-domain offset horizon (a n start) sr g.0.0 g.0.1,
        InRange-domain offset horizon (a n finish) fr g.1.0.0 g.1.0.1,
        InRange-domain offset horizon (a n etd) dr g.1.1.0.0 g.1.1.0.1,
      )

module _ (offset horizon : ℤ) (a : Assignment) where
  abbrev Plans :
      ℕ → Option Range → Range → Range → Range → Option Interval → Interval → Interval → Type 0
  Plans n er sr fr dr i p o =
      (cs : List Constraint)
      → build_ranges offset horizon n (ranges er sr fr dr) (intervals i p o) ≡ ok cs
      → All (Satisfies a) cs
      → IsPlannedAs offset a n er sr fr dr p o

  planned_parts :
      (n : ℕ) (er : Option Range) (sr fr dr : Range) (i : Option Interval) (p o : Interval) (dp : ℤ)
      (po : Bool) (dO : Option ℤ) (oo : Bool)
      → ((i ≡ none) × (er ≡ none))
        ⊎ ((d : Option ℤ) × (oi : Bool) × (r : Range) × (i ≡ some (input_interval d oi))
            × (er ≡ some r))
      → p ≡ processing_interval (some dp) po
      → o ≡ output_interval dO oo
      → Plans n er sr fr dr i p o
  planned_parts n er sr fr dr i p o dp po dO oo (inl (hi, he)) hp ho =
      rw (hi, he, hp, ho) (planned_without_eta offset horizon a n sr fr dr dp po dO oo)
  planned_parts n er sr fr dr i p o dp po dO oo (inr (d, oi, r, hi, he)) hp ho =
      rw (hi, he, hp, ho) (planned_with_eta offset horizon a n sr fr dr dp po dO oo r d oi)

  event-IsPlanned :
      (v : Variables) (cs : List Constraint)
      → IsStandard v
      → build_event offset horizon v ≡ ok cs
      → All (Satisfies a) cs
      → IsPlanned offset a v
  event-IsPlanned v cs s h all =
      let (dp, po, hp) = s.processing in
      let (dO, oo, ho) = s.output in
      planned_parts v.number v.eta_range v.start_range v.finish_range v.etd_range v.interval_i
        v.interval_p v.interval_o dp po dO oo s.input hp ho cs h all

  pub events-IsPlanned :
      (m : EventData) (cs : List Constraint)
      → All (λ p. IsStandard p.1) m
      → build_events offset horizon m ≡ ok cs
      → All (Satisfies a) cs
      → All (λ p. IsPlanned offset a p.1) m
  unfolding build_events
  events-IsPlanned [] cs s h all = tt
  events-IsPlanned ((e, v) ∷ m) cs s h all =
      let (first, built, h) = >>=-eq-ok (build_event offset horizon v) _ h in
      let (rest, others, h) = >>=-eq-ok (build_events offset horizon m) _ h in
      let (here, there) = append-All (Satisfies a) first rest (subst (Holds a) (sym h) all) in
      (event-IsPlanned v first s.0 built here, events-IsPlanned m rest s.1 others there)
