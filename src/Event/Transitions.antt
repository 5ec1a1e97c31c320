-- ===== src/Event/Transitions.antt =====
-- The life of an event: which states its methods lead to, and which times they record.
use industrial_ams.Base.{
  ◌∙◌, inr, inl, ◌≡◌, ◌≢◌, ◌⊎◌, refl, Bool, true, false, Option, some, List, [], ◌∷◌, arith,
}
use industrial_ams.Py.{ok, Value}
use industrial_ams.Etx.{is_set}
use industrial_ams.Event.{Event, scheduled, arrived, departed}
use industrial_ams.Event.Methods.{
  Units, start, finish, arrive, depart, cancel, schedule_eta, schedule_etd,
}

-- The calls that an agent makes on its event
pub data Call : Type 0 where
  arrive_at depart_at start_at finish_at : Value → Call
  cancel_it : Call
  schedule_eta_in schedule_etd_in : Value → Option Value → Option Value → Call

-- One call, also if it raises
abbrev pub apply : Units → Call → Event → Event
apply u (arrive_at t) e = arrive t e
apply u (depart_at t) e = depart t e
apply u (start_at t) e = (start u t e).1
apply u (finish_at t) e = (finish u t e).1
apply u cancel_it e = cancel e
apply u (schedule_eta_in l h n) e = (schedule_eta l h n e).1
apply u (schedule_etd_in l h n) e = (schedule_etd l h n e).1

-- What no call takes back or changes
pub record Keeps (e e' : Event) : Type 0 where
  pub canceled : e.canceled ≡ true → e'.canceled ≡ true
  pub uid : e'.uid ≡ e.uid
  pub duration : e'.duration ≡ e.duration
  pub payload : e'.payload ≡ e.payload
  pub use_datetime : e'.use_datetime ≡ e.use_datetime

-- A canceled flag is never taken back, whatever is called, also by a call that raises; and the uid, the
-- duration, the payload and the kind of the times stay as they are.
pub apply-Keeps : (u : Units) (c : Call) (e : Event) → Keeps e (apply u c e)
unfolding arrive depart start finish cancel schedule_eta schedule_etd
apply-Keeps u c e = ground arith

-- An arrived event has the time of its arrival as its ETA, a departed event that of its departure as its
-- ETD.
pub record IsRecorded (e : Event) : Type 0 where
  pub arrival :
      e.state ≡ arrived → (t : Value) × (e.eta.time ≡ some t) × (e.activity_start ≡ some t)
  pub departure :
      e.state ≡ departed → (t : Value) × (e.etd.time ≡ some t) × (e.activity_finish ≡ some t)

-- What every other call leaves alone: it keeps the state or leads to one of no recorded time.
record KeepsTimes (e e' : Event) : Type 0 where
  state : (e'.state ≡ e.state) ⊎ ((e'.state ≢ arrived) × (e'.state ≢ departed))
  eta_time : e'.eta.time ≡ e.eta.time
  etd_time : e'.etd.time ≡ e.etd.time
  activity_start : e'.activity_start ≡ e.activity_start
  activity_finish : e'.activity_finish ≡ e.activity_finish

abbrev records_time : Call → Bool
records_time (arrive_at t) = true
records_time (depart_at t) = true
records_time _ = false

apply-KeepsTimes :
    (u : Units) (c : Call) (e : Event) → records_time c ≡ false → KeepsTimes e (apply u c e)
unfolding start finish cancel schedule_eta schedule_etd
apply-KeepsTimes u (arrive_at t) e h = cc
apply-KeepsTimes u c e h = ground arith

KeepsTimes-IsRecorded : (e e' : Event) → KeepsTimes e e' → IsRecorded e → IsRecorded e'
KeepsTimes-IsRecorded e e' k h = elim k.state [
  | inl same ↦ record {
    arrival = λ s. let (t, p, q) = h.arrival (cc) in (t, k.eta_time ∙ p, k.activity_start ∙ q);
    departure = λ s. let (t, p, q) = h.departure (cc) in (t, k.etd_time ∙ p, k.activity_finish ∙ q);
  }
  | inr moved ↦ record { arrival = λ s. absurd (moved.0 s); departure = λ s. absurd (moved.1 s) }
]

apply-IsRecorded : (u : Units) (c : Call) (e : Event) → IsRecorded e → IsRecorded (apply u c e)
unfolding arrive depart
apply-IsRecorded u (arrive_at t) e h = record {
  arrival = λ s. (t, ground arith, refl);
  departure = λ s. cc;
}
apply-IsRecorded u (depart_at t) e h = record {
  arrival = λ s. cc;
  departure = λ s. (t, ground arith, refl);
}
apply-IsRecorded u c e h = KeepsTimes-IsRecorded e (apply u c e) (apply-KeepsTimes u c e refl) h

abbrev pub run : Units → List Call → Event → Event
run u [] e = e
run u (c ∷ cs) e = run u cs (apply u c e)

-- Any sequence of calls on an event, whatever of it raises, keeps this true: if the event is ARRIVED its
-- ETA is the recorded time of arrival, and if it is DEPARTED its ETD is that of departure.
pub run-IsRecorded :
    (u : Units) (cs : List Call) (e : Event) → IsRecorded e → IsRecorded (run u cs e)
run-IsRecorded u [] e h = h
run-IsRecorded u (c ∷ cs) e h = run-IsRecorded u cs (apply u c e) (apply-IsRecorded u c e h)

-- A `schedule_etd` that returns, and after which both ETX objects have both constraints, leaves the
-- event SCHEDULED, whatever its state was: an arrived or started event falls back.
pub schedule_etd-scheduled :
    (l : Value) (h n : Option Value) (e e' : Event)
    → schedule_etd l h n e ≡ (ok tt, e')
    → is_set e'.eta ≡ true
    → is_set e'.etd ≡ true
    → e'.state ≡ scheduled
unfolding schedule_etd
schedule_etd-scheduled l h n e e' r a d = ground arith
