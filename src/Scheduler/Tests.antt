-- ===== src/Scheduler/Tests.antt =====
-- The theorems about the scheduler at the sample schedule.
use industrial_ams.Base.{false, ◌≡◌, refl, ◌||◌, Option, some, List, [], ◌∷◌, ◌++◌, arith}
use industrial_ams.Base.Int.{pos}
use industrial_ams.Py.{ok, Value, number}
use industrial_ams.Base.{◌<◌}
use industrial_ams.Event.{Event, EventArgs, single, missing, new}
use industrial_ams.Scheduler
use industrial_ams.Scheduler.{
  visit_all, sweep, limit_max, limit_min, max_from, min_from, max_value, min_value, note_times,
  scan_event, Scheduler, create, save, get_events, collect, scan, overlaps, remove, limits,
}
use industrial_ams.Scheduler.Selection.{listed, select}
use industrial_ams.Scheduler.Limits.{over, is_live}
use industrial_ams.Scheduler.Listing.{HasLimits, overlapping, get_events-listing}
use industrial_ams.Scheduler.Numbering.{IsNumbered, create-IsNumbered}
use industrial_ams.Scheduler.Samples.{waiting, running, left_at, registered}

abbrev remaining : List Event
remaining = left_at (pos 7) 1 ∷ running 3 ∷ []

abbrev yielded : List Event
yielded = running 3 ∷ left_at (pos 7) 1 ∷ waiting 4 ∷ []

listing : get_events collect (waiting 4 ∷ []) [] registered ≡ (ok yielded, remaining)
unfolding Scheduler.program
listing = refl

get_events-listing_example :
    (low high : Option Value) × HasLimits (select is_live registered) low high
    × (yielded
        ≡ select is_live registered
          ++ (select (overlapping low high) (select over registered) ++ waiting 4 ∷ []))
    × (remaining ≡ select (λ e. is_live e || overlapping low high e) registered)
get_events-listing_example =
    get_events-listing (waiting 4 ∷ []) registered remaining yielded (refl, (refl, (refl, tt)))
      listing

abbrev schedule : Scheduler
schedule = record { events = registered; counter = 5 }

schedule-IsNumbered : IsNumbered schedule
schedule-IsNumbered = record { distinct = (refl, (refl, (refl, tt))); below = omega arith }

abbrev given : EventArgs
given = record {
  duration = pos 10;
  payload = (waiting 0).payload;
  state = new;
  eta = single (number (pos 4));
  etd = missing;
}

abbrev made : Event
made = record (waiting 5) {
  eta = record (waiting 5).eta {
    time_high = some (number (pos 4));
    time_low = some (number (pos 4));
  };
}

created : create given schedule ≡ (ok made, record schedule { counter = 6 })
unfolding Scheduler.program
created = refl

create-IsNumbered_example :
    IsNumbered (record schedule { counter = 6 })
    × (made.uid ≡ schedule.counter)
    × (made.uid < 6)
    × (listed 5 registered ≡ false)
    × (registered ≡ registered)
create-IsNumbered_example =
    create-IsNumbered given schedule (record schedule { counter = 6 }) made schedule-IsNumbered
      created
