-- ===== src/Buffer/Solve/Writes.antt =====
-- What the answer of the solver leaves in an event.
use industrial_ams.Base.{ℕ, ◌<◌, ◌≡◌, true, Option, none, some, if◌then◌else◌, arith}
use industrial_ams.Base.Int.{ℤ, ◌+ℤ◌, +ℤ-ℤ_cancel}
use industrial_ams.Py.{ok, Value, number, datetime}
use industrial_ams.Etx.Methods.{set}
use industrial_ams.Event.{Event, is_eta_state}
use industrial_ams.Event.Methods.{start_slot, finish_slot, get_time, set_time}
use industrial_ams.Buffer.{to_seconds, units, convert_seconds, convert_resolution, to_steps}
use industrial_ams.Buffer.Rounding.{round_div-to_seconds}
use industrial_ams.Buffer.Variables.{start, finish}
use industrial_ams.Buffer.Model.Meaning.{Assignment}
use industrial_ams.Buffer.Solve.{write_event}

-- The answer is written to an event that waits or has arrived without an exception, and the start and
-- the finish that the event then reads are those of the answer.
pub write_event-reads :
    (k : ℕ) (offset now : ℤ) (a : Assignment) (e : Event)
    → 0 < k
    → is_eta_state e.state ≡ true
    → let at : Option Value = if e.use_datetime then some (datetime now) else none in
      let (r, e') = write_event k offset at a e in
      (r ≡ ok tt)
      × (get_time (units k) start_slot at e' ≡ ok (some (number (a e.uid start +ℤ offset))))
      × (get_time (units k) finish_slot at e' ≡ ok (some (number (a e.uid finish +ℤ offset))))
      × (e'.state ≡ e.state)
      × (e'.uid ≡ e.uid)
unfolding write_event set_time set get_time convert_seconds convert_resolution to_steps
write_event-reads k offset now a e h st =
    let s = a e.uid start +ℤ offset in
    let f = a e.uid finish +ℤ offset in
    ground (
      arith,
      round_div-to_seconds s k h,
      round_div-to_seconds f k h,
      +ℤ-ℤ_cancel now (to_seconds k s),
      +ℤ-ℤ_cancel now (to_seconds k f),
    )
