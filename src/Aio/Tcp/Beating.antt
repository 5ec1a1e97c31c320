-- ===== src/Aio/Tcp/Beating.antt =====
-- When the heartbeat of iams/aio/tcp.py calls the agent
use industrial_ams.Base.{
  Option, none, some, All, subst, true, false, List, [], ◌∷◌, Bool-cases, inl, inr, ◌≡◌, refl, sym,
  ◌∙◌,
}
use industrial_ams.Base.Int.{ℤ, pos, ◌+ℤ◌, ◌-ℤ◌, ltb_ℤ, ◌≤ℤ◌, int_laws, not-ltb_ℤ→le, ltb_ℤ→lt}
use industrial_ams.Py.{Result, ok}
use industrial_ams.Aio.Tcp.{
  Pass, accepted, Act, sleeps, beats, last_of, heartbeat_pass, heartbeat, went, kept_or,
}

-- The times from which a period is counted: that of the last write, if one came before this pass, and
-- that from which the pass before counted
abbrev pub latest : Option ℤ → ℤ → ℤ
latest none before = before
latest (some written) before = written

-- The first pass that has an act calls the agent only when a period has gone by since the last write and
-- the end of the call before; and else it sleeps, for a time that ends then.
unfoldable pub Spaced : ℤ → ℤ → List Pass → List Act → Type 0
Spaced period before [] acts = acts ≡ []
Spaced period before (pass ∷ passes) [] = ⊥
Spaced period before (pass ∷ passes) (sleeps delay ∷ acts) =
    let since = latest pass.written before in
    (pos 1 ≤ℤ delay)
    × (pass.now +ℤ delay ≤ℤ since +ℤ period)
    × (since +ℤ period ≤ℤ pass.now +ℤ delay)
    × Spaced period since passes acts
Spaced period before (pass ∷ passes) (beats now ∷ acts) =
    (now ≡ pass.now)
    × (latest pass.written before +ℤ period ≤ℤ now)
    × Spaced period pass.later passes acts

abbrev delay_of : ℤ → Pass → ℤ → ℤ
delay_of period pass before = (last_of pass.written before -ℤ pass.now) +ℤ period

sleeping :
    (period before : ℤ) (pass : Pass)
    → ltb_ℤ (pos 0) (delay_of period pass before) ≡ true
    → heartbeat_pass period pass before
      ≡ (sleeps (delay_of period pass before), ok (last_of pass.written before))
unfolding heartbeat_pass
sleeping period before pass e = rw e refl

beating :
    (period before : ℤ) (pass : Pass)
    → ltb_ℤ (pos 0) (delay_of period pass before) ≡ false
    → pass.beat ≡ accepted
    → heartbeat_pass period pass before ≡ (beats pass.now, ok pass.later)
unfolding heartbeat_pass
beating period before pass e takes = rw (e, takes) refl

latest-last_of : (written : Option ℤ) (before : ℤ) → latest written before ≡ last_of written before
latest-last_of none before = refl
latest-last_of (some written) before = refl

went-Spaced :
    (period before : ℤ) (pass : Pass) (passes : List Pass) (step : Act × Result ℤ)
    (rest : List Act × Result ℤ)
    → heartbeat_pass period pass before ≡ step
    → pass.beat ≡ accepted
    → Spaced period (kept_or before step.1) passes rest.0
    → Spaced period before (pass ∷ passes) (went step rest).0
unfolding Spaced
went-Spaced period before pass passes step rest e takes spaced =
    elim (Bool-cases (ltb_ℤ (pos 0) (delay_of period pass before))) [
      | inl waits ↦
          let at : step ≡ (sleeps (delay_of period pass before), ok (last_of pass.written before)) =
            sym e ∙ sleeping period before pass waits in
          let next : Spaced period (last_of pass.written before) passes rest.0 =
            subst (λ s. Spaced period (kept_or before s.1) passes rest.0) at spaced in
          let long : pos 1 ≤ℤ delay_of period pass before =
            omega (int_laws, ltb_ℤ→lt (pos 0) (delay_of period pass before) waits) in
          subst (λ s. Spaced period before (pass ∷ passes) (went s rest).0) (sym at)
            (subst
              (λ since.
                (pos 1 ≤ℤ delay_of period pass before)
                × (pass.now +ℤ delay_of period pass before ≤ℤ since +ℤ period)
                × (since +ℤ period ≤ℤ pass.now +ℤ delay_of period pass before)
                × Spaced period since passes rest.0)
              (sym (latest-last_of pass.written before))
              (long, omega int_laws, omega int_laws, next))
      | inr due ↦
          let at : step ≡ (beats pass.now, ok pass.later) =
            sym e ∙ beating period before pass due takes in
          let next : Spaced period pass.later passes rest.0 =
            subst (λ s. Spaced period (kept_or before s.1) passes rest.0) at spaced in
          let spare : delay_of period pass before ≤ℤ pos 0 =
            not-ltb_ℤ→le (pos 0) (delay_of period pass before) due in
          let gap : last_of pass.written before +ℤ period ≤ℤ pass.now = omega (int_laws, spare) in
          subst (λ s. Spaced period before (pass ∷ passes) (went s rest).0) (sym at)
            (
              refl,
              subst (λ since. since +ℤ period ≤ℤ pass.now)
                  (sym (latest-last_of pass.written before)) gap,
              next,
            )
    ]

abbrev pub IsAccepted : Pass → Type 0
IsAccepted pass = pass.beat ≡ accepted

-- While the agent accepts each heartbeat, every pass calls it exactly if a period has gone by from the
-- last write, be it one between two passes, and from the end of the heartbeat before; and otherwise it
-- sleeps, for a time that is not empty, until then.
pub heartbeat-Spaced :
    (period last : ℤ) (passes : List Pass)
    → All IsAccepted passes
    → Spaced period last passes (heartbeat period passes last).0
unfolding heartbeat Spaced
heartbeat-Spaced period last [] h = refl
heartbeat-Spaced period last (pass ∷ passes) h =
    let step = heartbeat_pass period pass last in
    went-Spaced period last pass passes step (heartbeat period passes (kept_or last step.1)) refl
      h.0 (heartbeat-Spaced period (kept_or last step.1) passes h.1)
