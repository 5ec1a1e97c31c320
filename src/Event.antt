-- ===== src/Event.antt =====
-- `class Event` and `class States` of iams/interfaces/scheduler.py: the data of an event and its
-- construction. The uid identifies the object.
pub mod Methods
pub mod Transitions
pub mod Outcomes
pub mod Order
mod Tests
use industrial_ams.Base.{
  ℕ, String, Bool, true, false, ◌&&◌, ◌||◌, not, Option, none, some, List, [], ◌∷◌, if◌then◌else◌,
}
use industrial_ams.Base.Int.{ℤ}
use industrial_ams.Py.{
  value_error, Result, ok, err, ◌>>=◌, ◌>>◌, raise_if, Value, number, datetime, other,
}
use industrial_ams.Etx
use industrial_ams.Etx.{Etx, is_set}

pub data State : Type 0 where
  new scheduled arrived started finished departed canceled : State

-- `States.….value`: `auto()` counts from 1.
abbrev pub state_value : State → ℕ
state_value new = 1
state_value scheduled = 2
state_value arrived = 3
state_value started = 4
state_value finished = 5
state_value departed = 6
state_value canceled = 7

-- `Event.__eta_states__`
abbrev pub is_eta_state : State → Bool
is_eta_state new = true
is_eta_state scheduled = true
is_eta_state arrived = true
is_eta_state _ = false

-- What an event carries and the scheduler never reads.
pub record Payload : Type 0 where
  pub callback : String
  pub args : List Value
  pub kwargs : List (String × Value)
  pub setup : ℤ
  pub setup_condition : Option String

pub record Event : Type 0 where
  pub duration : ℤ
  pub payload : Payload
  pub uid : ℕ
  pub state : State
  pub eta : Etx
  pub etd : Etx
  pub schedule_start : Option Value
  pub schedule_finish : Option Value
  pub activity_start : Option Value
  pub activity_finish : Option Value
  pub eta_lane : Option ℕ
  pub etd_lane : Option ℕ
  pub use_datetime : Bool
  pub canceled : Bool

-- What the constructor takes as `eta` or `etd`: keyword arguments for an ETX, a list or tuple, a
-- single value, `None`, or an ETX.
pub data EtxArg : Type 0 where
  keywords : Etx → EtxArg
  sequence : List (Option Value) → EtxArg
  single : Value → EtxArg
  missing : EtxArg
  object : Etx → EtxArg

abbrev bounds : Option Value → Option Value → Option Value → Etx
bounds low time high = record Etx.empty {
  constraint_low = low;
  time = time;
  constraint_high = high;
}

-- The conversion of `eta` and of `etd`, the same code twice
unfoldable pub to_etx : EtxArg → Result Etx
to_etx (keywords e) = Etx.init e
to_etx (sequence (a ∷ [])) = Etx.init (bounds a none a)
to_etx (sequence (a ∷ b ∷ [])) = Etx.init (bounds a none b)
to_etx (sequence (a ∷ t ∷ b ∷ [])) = Etx.init (bounds a t b)
to_etx (sequence _) = err value_error
to_etx (single other) = err value_error
to_etx (single v) = Etx.init (bounds (some v) (some v) (some v))
to_etx missing = Etx.init Etx.empty
to_etx (object e) = ok e

pub record EventArgs : Type 0 where
  pub duration : ℤ
  pub payload : Payload
  pub state : State
  pub eta : EtxArg
  pub etd : EtxArg

-- `if bool(self.eta) and bool(self.etd): self.state = States.SCHEDULED`
abbrev pub promote : Event → Event
promote e = if is_set e.eta && is_set e.etd then record e { state = scheduled } else e

-- The object after both conversions, with `use_datetime` synchronised
abbrev assemble : EventArgs → Etx → Etx → Event
assemble a eta etd =
    let dated = eta.use_datetime || etd.use_datetime in
    record {
      duration = a.duration;
      payload = a.payload;
      uid = 0;
      state = a.state;
      eta = record eta { use_datetime = dated };
      etd = record etd { use_datetime = dated };
      schedule_start = none;
      schedule_finish = none;
      activity_start = none;
      activity_finish = none;
      eta_lane = none;
      etd_lane = none;
      use_datetime = dated;
      canceled = false;
    }

-- `Event.__post_init__`
unfoldable pub init : EventArgs → Result Event
init a = do
  eta ← to_etx a.eta
  etd ← to_etx a.etd
  raise_if (not (is_set eta)) value_error
  ok (promote (assemble a eta etd))
