-- ===== src/Scheduler/Numbering.antt =====
-- The uids of the registered events: the counter hands out each number once.
use industrial_ams.Base.{
  sym, subst, ℕ, ◌+◌, ◌<◌, ◌≡◌, refl, false, List, [], ◌∷◌, All, All-map, arith,
}
use industrial_ams.Py.{ok}
use industrial_ams.Event.{Event, EventArgs}
use industrial_ams.Scheduler.{Scheduler, create}
use industrial_ams.Scheduler.Selection.{listed, Distinct}

-- Registered events have distinct uids, all of them handed out.
pub record IsNumbered (s : Scheduler) : Type 0 where
  pub distinct : Distinct s.events
  pub below : All (λ e. e.uid < s.counter) s.events

below-unlisted : (n : ℕ) (es : List Event) → All (λ e. e.uid < n) es → listed n es ≡ false
below-unlisted n [] h = refl
below-unlisted n (e ∷ es) h = ground (arith, below-unlisted n es h.1, h.0)

create-eq :
    (a : EventArgs) (s s' : Scheduler) (e : Event)
    → create a s ≡ (ok e, s')
    → (e.uid ≡ s.counter) × (s'.counter ≡ s.counter + 1) × (s'.events ≡ s.events)
unfolding create
create-eq a s s' e h = ground arith

-- An event that the scheduler creates has the counter as its number, which no registered event has and
-- which is below the new counter; the numbering is kept and the registered events stay.
pub create-IsNumbered :
    (a : EventArgs) (s s' : Scheduler) (e : Event)
    → IsNumbered s
    → create a s ≡ (ok e, s')
    → IsNumbered s'
      × (e.uid ≡ s.counter)
      × (e.uid < s'.counter)
      × (listed e.uid s'.events ≡ false)
      × (s'.events ≡ s.events)
create-IsNumbered a s s' e n h =
    let (uid, counter, events) = create-eq a s s' e h in
    let below : All (λ x. x.uid < s'.counter) s.events =
      All-map (λ x. x.uid < s.counter) _ s.events (λ x lt. omega arith) n.below in
    (
      record {
        distinct = subst Distinct (sym events) n.distinct;
        below = subst (All (λ x. x.uid < s'.counter)) (sym events) below;
      },
      uid,
      omega arith,
      rw (uid, events) (below-unlisted s.counter s.events n.below),
      events,
    )
