-- ===== src/Event/Order/StrictOrder.antt =====
-- Where `__lt__` is a strict order.
use industrial_ams.Base.{
  if◌then◌else◌, ltb, ap, ◌∙◌, ◌⊎◌, ◌≡◌, ◌≢◌, Bool, true, false, Option, some, arith,
}
use industrial_ams.Base.Int.{ltb_ℤ, eqb_ℤ, ℤ}
use industrial_ams.Py.{Result, ok, Value, number, less, less_opt, equal_opt}
use industrial_ams.Etx.Methods.{less_etx, equal_etx, order_key}
use industrial_ams.Event.{Etx, is_eta_state, Event, State, started, finished}
use industrial_ams.Event.Order.{same_state_less, tuple_less, less_in, less_event}

less_opt_asymm : (s t : Option Value) → less_opt s t ≡ ok true → less_opt t s ≢ ok true
unfolding less_opt less
less_opt_asymm s t h k = ground arith

equal_opt_symm : (s t : Option Value) → equal_opt s t ≡ equal_opt t s
equal_opt_symm s t = ground arith

tuple_less_asymm :
    (same : Bool) (r q : Result Bool) (a b : Event)
    → (r ≡ ok true → q ≢ ok true)
    → tuple_less same r a b ≡ ok true
    → tuple_less same q b a ≢ ok true
unfolding tuple_less
tuple_less_asymm true r q a b f h k = ground arith
tuple_less_asymm false r q a b f h k = f h k

by_time_asymm :
    (s t : Option Value) (a b : Event)
    → tuple_less (equal_opt s t) (less_opt s t) a b ≡ ok true
    → tuple_less (equal_opt t s) (less_opt t s) b a ≢ ok true
by_time_asymm s t a b =
    rw (equal_opt_symm t s)
      (tuple_less_asymm (equal_opt s t) (less_opt s t) (less_opt t s) a b (less_opt_asymm s t))

by_eta_asymm :
    (a b : Event)
    → tuple_less (equal_etx a.eta b.eta) (less_etx a.eta b.eta) a b ≡ ok true
    → tuple_less (equal_etx b.eta a.eta) (less_etx b.eta a.eta) b a ≢ ok true
unfolding equal_etx less_etx
by_eta_asymm a b = rw (equal_opt_symm b.eta.time a.eta.time) (
    tuple_less_asymm (equal_opt a.eta.time b.eta.time)
      (less_opt (order_key a.eta) (order_key b.eta)) (less_opt (order_key b.eta) (order_key a.eta))
      a b (less_opt_asymm (order_key a.eta) (order_key b.eta)))

less_etx_asymm : (x y : Etx) → less_etx x y ≡ ok true → less_etx y x ≢ ok true
unfolding less_etx
less_etx_asymm x y = less_opt_asymm (order_key x) (order_key y)

same_state_less_asymm :
    (s : State) (a b : Event) → same_state_less s a b ≡ ok true → same_state_less s b a ≢ ok true
unfolding same_state_less
same_state_less_asymm started a b = by_time_asymm a.schedule_start b.schedule_start a b
same_state_less_asymm finished a b = by_time_asymm a.schedule_finish b.schedule_finish a b
same_state_less_asymm _ a b = less_etx_asymm a.eta b.eta

less_in_asymm : (p q : State) (a b : Event) → less_in p q a b ≡ ok true → less_in q p b a ≢ ok true
unfolding less_in
less_in_asymm p q a b h k =
    ground (arith, by_eta_asymm a b, same_state_less_asymm p a b, same_state_less_asymm q a b)

-- Of two events at most one comes before the other; so no event comes before itself.
pub less_event_asymm : (a b : Event) → less_event a b ≡ ok true → less_event b a ≢ ok true
unfolding less_event
less_event_asymm a b = less_in_asymm a.state b.state a b

-- An event that waits, arrives or has arrived, at a known time
pub record IsTimed (e : Event) (t : ℤ) : Type 0 where
  pub state : is_eta_state e.state ≡ true
  pub time : e.eta.time ≡ some (number t)

-- The order of such events: by time, then by duration, then by uid
abbrev pub earlier : ℤ × Event → ℤ × Event → Bool
earlier (s, a) (t, b) =
    if eqb_ℤ s t
    then (if eqb_ℤ a.duration b.duration then ltb a.uid b.uid else ltb_ℤ a.duration b.duration)
    else ltb_ℤ s t

less_event-earlier :
    (a b : Event) (s t : ℤ)
    → IsTimed a s
    → IsTimed b t
    → less_event a b ≡ ok (earlier (s, a) (t, b))
unfolding less_event less_etx equal_etx less_opt less
less_event-earlier a b s t p q = ground arith

is_earlier :
    {a b : Event} {s t : ℤ}
    → less_event a b ≡ ok true
    → IsTimed a s
    → IsTimed b t
    → earlier (s, a) (t, b) ≡ true
is_earlier {a} {b} {s} {t} h p q = cc (h, less_event-earlier a b s t p q)

earlier_trans : (a b c : ℤ × Event) → earlier a b ≡ true → earlier b c ≡ true → earlier a c ≡ true
earlier_trans (s, a) (t, b) (u, c) h k = ground arith

-- Among events that wait or have arrived and whose ETA has a time in numbers, the order is transitive.
pub less_event_trans :
    (a b c : Event) (s t u : ℤ)
    → IsTimed a s
    → IsTimed b t
    → IsTimed c u
    → less_event a b ≡ ok true
    → less_event b c ≡ ok true
    → less_event a c ≡ ok true
less_event_trans a b c s t u p q r h k =
    less_event-earlier a c s u p r
    ∙ ap ok (earlier_trans (s, a) (t, b) (u, c) (is_earlier h p q) (is_earlier k q r))

-- Of two events that wait or have arrived, whose ETA has a time in numbers and whose uids differ, one
-- comes before the other.
pub less_event_total :
    (a b : Event) (s t : ℤ)
    → IsTimed a s
    → IsTimed b t
    → a.uid ≢ b.uid
    → (less_event a b ≡ ok true) ⊎ (less_event b a ≡ ok true)
less_event_total a b s t p q h =
    ground (arith, less_event-earlier a b s t p q, less_event-earlier b a t s q p)
