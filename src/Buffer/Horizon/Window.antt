-- ===== src/Buffer/Horizon/Window.antt =====
-- The window of the solver's model contains what the events need.
use mathlib.Core.Path.{subst₂}
use industrial_ams.Base.{
  ◌∙◌, sym, ap, ◌==◌, subst, ℕ, ◌≡◌, Bool, Option, none, some, List, [], ◌∷◌, All, All-map,
  Bool-cases, inl, inr, arith,
}
use industrial_ams.Base.Int.{
  negsuc, ltb_ℤ→lt, ◌<ℤ◌, ℤ, pos, ◌+ℤ◌, ◌-ℤ◌, ◌≤ℤ◌, ltb_ℤ, min_ℤ, max_ℤ, int_laws,
}
use industrial_ams.Py.{Result-cases, ok, >>=-eq-ok, Value}
use industrial_ams.Event.{Event}
use industrial_ams.Scheduler.{get_events}
use industrial_ams.Scheduler.Visits.{get_events-keeps}
use industrial_ams.Buffer.{BufferScheduler, round_div}
use industrial_ams.Buffer.Variables.{Variables, Range, get_variables}
use industrial_ams.Buffer.Horizon.{
  add_min, add_max, close_window, EventData, insert, Collected, nothing, add_variables, visit,
  minimum, maximum, widen, window_of, window, get_event_variables,
}

-- Bounds of lists of numbers
abbrev Above : ℤ → List ℤ → Type 0
Above t ts = All (λ u. t ≤ℤ u) ts

abbrev Below : ℤ → List ℤ → Type 0
Below t ts = All (λ u. u ≤ℤ t) ts

min_ℤ_le : (t u : ℤ) → (min_ℤ t u ≤ℤ t) × (min_ℤ t u ≤ℤ u)
min_ℤ_le t u = ground arith

max_ℤ_ge : (t u : ℤ) → (t ≤ℤ max_ℤ t u) × (u ≤ℤ max_ℤ t u)
max_ℤ_ge t u = ground arith

≤ℤ_trans : (a b c : ℤ) → a ≤ℤ b → b ≤ℤ c → a ≤ℤ c
≤ℤ_trans a b c h k = omega arith

minimum-Above : (t : ℤ) (ts : List ℤ) → (minimum t ts ≤ℤ t) × Above (minimum t ts) ts
minimum-Above t [] = (omega arith, tt)
minimum-Above t (u ∷ us) =
    let (low, rest) = minimum-Above (min_ℤ t u) us in
    let (first, second) = min_ℤ_le t u in
    (
      ≤ℤ_trans (minimum (min_ℤ t u) us) (min_ℤ t u) t low first,
      (≤ℤ_trans (minimum (min_ℤ t u) us) (min_ℤ t u) u low second, rest),
    )

maximum-Below : (t : ℤ) (ts : List ℤ) → (t ≤ℤ maximum t ts) × Below (maximum t ts) ts
maximum-Below t [] = (omega arith, tt)
maximum-Below t (u ∷ us) =
    let (high, rest) = maximum-Below (max_ℤ t u) us in
    let (first, second) = max_ℤ_ge t u in
    (
      ≤ℤ_trans t (max_ℤ t u) (maximum (max_ℤ t u) us) first high,
      (≤ℤ_trans u (max_ℤ t u) (maximum (max_ℤ t u) us) second high, rest),
    )

round_div_nonneg : (v : ℤ) → pos 0 ≤ℤ v → pos 0 ≤ℤ round_div v 2
unfolding round_div
round_div_nonneg (pos n) h = omega arith
round_div_nonneg (negsuc n) h = absurd (omega arith)

module _ (h low high : ℤ) (short : (high -ℤ low) <ℤ h) where
  widened_both : let d = round_div (h -ℤ (high -ℤ low)) 2 in (low -ℤ d ≤ℤ low) × (high ≤ℤ high +ℤ d)
  widened_both =
      let d = round_div (h -ℤ (high -ℤ low)) 2 in
      let nonneg = round_div_nonneg (h -ℤ (high -ℤ low)) (omega int_laws) in
      (omega int_laws, omega int_laws)

  widened_one : (high -ℤ h ≤ℤ low) × (high ≤ℤ low +ℤ h)
  widened_one = (omega int_laws, omega int_laws)

-- Widening never loses time.
widen_contains :
    (h low high : ℤ) (a b : Bool) → let w = widen h a b low high in (w.0 ≤ℤ low) × (high ≤ℤ w.1)
unfolding widen
widen_contains h low high a b = elim (Bool-cases (ltb_ℤ (high -ℤ low) h)) [
  | inl short ↦
      let lt = ltb_ℤ→lt (high -ℤ low) h short in
      ground (arith, widened_both h low high lt, widened_one h low high lt)
  | inr long ↦ ground arith
]

-- A bound that may be missing lies in the window.
abbrev pub Within : ℤ × ℤ → Range → Type 0
Within (low, high) (none, none) = Unit
Within (low, high) (some t, none) = low ≤ℤ t
Within (low, high) (none, some u) = u ≤ℤ high
Within (low, high) (some t, some u) = (low ≤ℤ t) × (u ≤ℤ high)

window_of_contains :
    (h : ℤ) (mins maxs : List ℤ) (a b : Bool)
    → let w = window_of h mins maxs a b in Above w.0 mins × Below w.1 maxs
unfolding window_of
window_of_contains h [] [] a b = (tt, tt)
window_of_contains h (m ∷ mins) [] a b = (minimum-Above m mins, tt)
window_of_contains h [] (x ∷ maxs) a b = (tt, maximum-Below x maxs)
window_of_contains h (m ∷ mins) (x ∷ maxs) a b =
    let (low, high) = widen_contains h (minimum m mins) (maximum x maxs) a b in
    let w = widen h a b (minimum m mins) (maximum x maxs) in
    (
      All-map (λ u. minimum m mins ≤ℤ u) (λ u. w.0 ≤ℤ u) (m ∷ mins)
          (λ u le. ≤ℤ_trans w.0 (minimum m mins) u low le) (minimum-Above m mins),
      All-map (λ u. u ≤ℤ maximum x maxs) (λ u. u ≤ℤ w.1) (x ∷ maxs)
          (λ u le. ≤ℤ_trans u (maximum x maxs) w.1 le high) (maximum-Below x maxs),
    )

-- Whatever window contains the collected bounds contains every collected event's makespan.
abbrev IsCovered : Collected → Type 0
IsCovered c =
    (w : ℤ × ℤ)
    → Above w.0 c.events_min
    → Below w.1 c.events_max
    → All (λ p. Within w p.1.makespan) c.events_data

added-Within :
    (r : Range) (w : ℤ × ℤ) (c : Collected)
    → Above w.0 (add_max r.1 (add_min r.0 c)).events_min
    → Below w.1 (add_max r.1 (add_min r.0 c)).events_max
    → Within w r × Above w.0 c.events_min × Below w.1 c.events_max
added-Within (none, none) w c a b = (tt, a, b)
added-Within (none, some u) w c a b = (b.0, a, b.1)
added-Within (some t, none) w c a b = (a.0, a.1, b)
added-Within (some t, some u) w c a b = ((a.0, b.0), a.1, b.1)

pub insert-All :
    (P : Event × Variables → Type 0) (e : Event) (v : Variables) (m : EventData)
    → ((x : Event) → P (x, v))
    → All P m
    → All P (insert e v m)
insert-All P e v [] new h = (new e, tt)
insert-All P e v ((x, w) ∷ m) new h = elim (Bool-cases (x.uid == e.uid)) [
  | inl same ↦ rw same (new x, h.1)
  | inr different ↦ rw different (h.0, insert-All P e v m new h.1)
]

add_variables-IsCovered :
    (e : Event) (v : Variables) (c : Collected) → IsCovered c → IsCovered (add_variables e v c)
add_variables-IsCovered e v c h w above below =
    let (within, above, below) = added-Within v.makespan w c above below in
    insert-All (λ p. Within w p.1.makespan) e v c.events_data (λ x. within) (h w above below)

visit-IsCovered :
    (k : ℕ) (now : Option Value) (e : Event) (c c' : Collected)
    → visit k now e c ≡ ok c'
    → IsCovered c
    → IsCovered c'
unfolding visit
visit-IsCovered k now e c c' h covered =
    let (v, got, rest) = >>=-eq-ok (get_variables k now e) _ h in
    subst IsCovered {x = add_variables e v c} {y = c'} (ground arith)
      (add_variables-IsCovered e v c covered)

window-Within :
    (c : Collected) (horizon end : ℤ)
    → IsCovered c
    → let w = window horizon c in All (λ p. Within (w.0, max_ℤ end w.1) p.1.makespan) c.events_data
window-Within c horizon end covered =
    let w = window horizon c in
    let (low, high) = window_of_contains horizon c.events_min c.events_max c.none_min c.none_max in
    covered (w.0, max_ℤ end w.1) low
      (All-map (λ u. u ≤ℤ w.1) (λ u. u ≤ℤ max_ℤ end w.1) c.events_max
        (λ u le. ≤ℤ_trans u w.1 (max_ℤ end w.1) le (max_ℤ_ge end w.1).1) high)

-- The window at the end, for a loop that returned.
close_window-Within :
    (c : Collected) (s s' : BufferScheduler) (m : EventData) (w : ℤ × ℤ)
    → IsCovered c
    → close_window (ok c) s ≡ (ok (m, w), s')
    → All (λ p. Within w p.1.makespan) m
      × (w.1 ≡ s'.max_horizon)
      × (s.max_horizon ≤ℤ s'.max_horizon)
close_window-Within c s s' m w covered h =
    let start = (window s.horizon c).0 in
    let end = max_ℤ s.max_horizon (window s.horizon c).1 in
    let m_eq : c.events_data ≡ m = ground arith in
    let w_eq : ◌≡◌ {A = ℤ × ℤ} (start, end) w = ground arith in
    let end_eq : end ≡ s'.max_horizon = ground arith in
    (
      subst₂ (λ v l. All (λ p. Within v p.1.makespan) l) w_eq m_eq
          (window-Within c s.horizon s.max_horizon covered),
      cc,
      subst (λ t. s.max_horizon ≤ℤ t) end_eq (max_ℤ_ge s.max_horizon (window s.horizon c).1).0,
    )

-- When the variables of all events have been read, the window contains the makespan of each: no
-- earliest time lies before it and no latest time behind it. Its end is the scheduler's new horizon,
-- which is never less than before.
pub get_event_variables-Within :
    (new : List Event) (now : Option Value) (s s' : BufferScheduler) (m : EventData) (w : ℤ × ℤ)
    → get_event_variables new now s ≡ (ok (m, w), s')
    → All (λ p. Within w p.1.makespan) m
      × (w.1 ≡ s'.max_horizon)
      × (s.max_horizon ≤ℤ s'.max_horizon)
unfolding get_event_variables
get_event_variables-Within new now s s' m w h =
    let loop = get_events (visit s.resolution now) new nothing s.scheduler.events in
    let left = record s { scheduler = record s.scheduler { events = loop.1 } } in
    elim (Result-cases loop.0) [
      | inl (c, collected) ↦
          let covered =
            get_events-keeps IsCovered (visit s.resolution now) (visit-IsCovered s.resolution now)
              new s.scheduler.events nothing c collected (λ w a b. tt) in
          close_window-Within c left s' m w covered
            (ap (λ q. close_window q left) (sym collected) ∙ h)
      | inr (x, raised) ↦ absurd (cc (ap (λ q. close_window q left) raised))
    ]
