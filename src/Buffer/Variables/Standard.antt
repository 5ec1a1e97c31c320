-- ===== src/Buffer/Variables/Standard.antt =====
-- Which ranges and intervals `get_variables` brings.
use industrial_ams.Base.{ℕ, ◌≡◌, ◌⊎◌, inl, inr, refl, subst, Bool, true, false, Option, none, some}
use industrial_ams.Base.Int.{ℤ, ◌-ℤ◌}
use industrial_ams.Py.{Result, ok, err, >>=-eq-ok, Value}
use industrial_ams.Event.{
  Event, State, new, scheduled, arrived, started, finished, departed, canceled,
}
use industrial_ams.Buffer.{to_steps, constraints}
use industrial_ams.Buffer.Variables.{
  Variables, input_interval, processing_interval, output_interval, get_variables, state_variables,
  waiting_variables, arrived_variables, started_variables, finished_variables, departed_variables,
  eta_steps, start_steps, finish_steps, etd_steps,
}

-- The intervals of an event go by the names that `get_variables` uses; the input interval is there
-- exactly if the range of the ETA is.
pub record IsStandard (v : Variables) : Type 0 where
  pub input :
      ((v.interval_i ≡ none) × (v.eta_range ≡ none))
      ⊎ ((d : Option ℤ) × (o : Bool) × (r : Option ℤ × Option ℤ) × (v.interval_i
            ≡ some (input_interval d o))
          × (v.eta_range ≡ some r))
  pub processing : (d : ℤ) × (o : Bool) × (v.interval_p ≡ processing_interval (some d) o)
  pub output : (d : Option ℤ) × (o : Bool) × (v.interval_o ≡ output_interval d o)

abbrev Standard : Result Variables → Type 0
Standard (ok v) = IsStandard v
Standard (err x) = Unit

waiting-IsStandard :
    (k : ℕ) (now : Option Value) (e : Event) (d : ℤ) (v : Variables)
    → waiting_variables k now e d ≡ ok v
    → IsStandard v
unfolding waiting_variables
waiting-IsStandard k now e d v h =
    let (a, p, h) = >>=-eq-ok (constraints k e.eta now) _ h in
    let (b, q, h) = >>=-eq-ok (constraints k e.etd now) _ h in
    subst Standard h (record {
      input = inr (none, true, a, refl, refl);
      processing = (d, false, refl);
      output = (none, true, refl);
    })

state_variables-IsStandard :
    (k : ℕ) (now : Option Value) (e : Event) (d : ℤ) (st : State) (v : Variables)
    → state_variables k now e d st ≡ ok v
    → IsStandard v
unfolding state_variables waiting_variables arrived_variables started_variables finished_variables
    departed_variables
state_variables-IsStandard k now e d new v h = waiting-IsStandard k now e d v h
state_variables-IsStandard k now e d scheduled v h = waiting-IsStandard k now e d v h
state_variables-IsStandard k now e d arrived v h =
    let (a, p, h) = >>=-eq-ok (eta_steps k e now) _ h in
    let (b, q, h) = >>=-eq-ok (constraints k e.etd now) _ h in
    subst Standard h (record {
      input = inr (none, true, (some a, some a), refl, refl);
      processing = (d, e.canceled, refl);
      output = (some (ℤ.pos 0), true, refl);
    })
state_variables-IsStandard k now e d started v h =
    let (a, p, h) = >>=-eq-ok (eta_steps k e now) _ h in
    let (s, q, h) = >>=-eq-ok (start_steps k e now) _ h in
    let (b, r, h) = >>=-eq-ok (constraints k e.etd now) _ h in
    subst Standard h (record {
      input = inr (some (s -ℤ a), false, (some a, some a), refl, refl);
      processing = (d, e.canceled, refl);
      output = (none, true, refl);
    })
state_variables-IsStandard k now e d finished v h =
    let (s, p, h) = >>=-eq-ok (start_steps k e now) _ h in
    let (f, q, h) = >>=-eq-ok (finish_steps k e now) _ h in
    let (b, r, h) = >>=-eq-ok (constraints k e.etd now) _ h in
    subst Standard h (record {
      input = inl (refl, refl);
      processing = (f -ℤ s, false, refl);
      output = (none, true, refl);
    })
state_variables-IsStandard k now e d departed v h =
    let (s, p, h) = >>=-eq-ok (start_steps k e now) _ h in
    let (f, q, h) = >>=-eq-ok (finish_steps k e now) _ h in
    let (x, r, h) = >>=-eq-ok (etd_steps k e now) _ h in
    subst Standard h (record {
      input = inl (refl, refl);
      processing = (f -ℤ s, false, refl);
      output = (some (x -ℤ f), false, refl);
    })
state_variables-IsStandard k now e d canceled v h = cc

pub get_variables-IsStandard :
    (k : ℕ) (now : Option Value) (e : Event) (v : Variables)
    → get_variables k now e ≡ ok v
    → IsStandard v
unfolding get_variables
get_variables-IsStandard k now e v h =
    let (d, steps, h) = >>=-eq-ok (to_steps k e.duration) _ h in
    state_variables-IsStandard k now e d e.state v h
