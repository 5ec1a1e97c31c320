-- ===== src/Aio/Connection/Answers.antt =====
-- What a connection of iams/aio/grpc.py makes of the responses
use industrial_ams.Base.{
  Option, some, List, [], ◌∷◌, ◌++◌, if◌then◌else◌, Bool-cases, inl, inr, ◌≡◌, refl, ap, ◌∙◌,
}
use industrial_ams.Aio.Connection.{
  Call, connect, disconnect, process, sleep, cleanup, Connection, Step, Event, responds, fails,
  ends, cancels, Hooks, returns, going, ended, crashed, on_event, proceed, main, initial,
}

-- Callbacks that all return
abbrev pub calm : Hooks
calm = record { connect = returns; process = returns; disconnect = returns }

module _ {R : Type 0} where
  -- What `process` is called with, and with which `previous`
  unfoldable pub processed : List (Call R) → List (Option R × R)
  processed [] = []
  processed (process previous r ∷ calls) = (previous, r) ∷ processed calls
  processed (connect ∷ calls) = processed calls
  processed (disconnect ∷ calls) = processed calls
  processed (cleanup ∷ calls) = processed calls
  processed (sleep wait ∷ calls) = processed calls

  -- Callbacks return, and the task is not canceled.
  unfoldable pub IsCalm : List (Event R) → Type 0
  IsCalm [] = Unit
  IsCalm (responds r hooks ∷ events) = (hooks ≡ calm) × IsCalm events
  IsCalm (fails hooks ∷ events) = (hooks ≡ calm) × IsCalm events
  IsCalm (ends ∷ events) = IsCalm events
  IsCalm (cancels ∷ events) = ⊥

  -- The responses, each with the one before; an error begins anew.
  unfoldable pub answers : Option R → Option R → List (Event R) → List (Option R × R)
  answers default previous [] = []
  answers default previous (responds r hooks ∷ events) =
      (previous, r) ∷ answers default (some r) events
  answers default previous (fails hooks ∷ events) = answers default default events
  answers default previous (ends ∷ events) = answers default previous events
  answers default previous (cancels ∷ events) = []

  processed-append :
      (calls more : List (Call R)) → processed (calls ++ more) ≡ processed calls ++ processed more
  unfolding processed
  processed-append [] more = refl
  processed-append (process previous r ∷ calls) more =
      ap (λ t. (previous, r) ∷ t) (processed-append calls more)
  processed-append (connect ∷ calls) more = processed-append calls more
  processed-append (disconnect ∷ calls) more = processed-append calls more
  processed-append (cleanup ∷ calls) more = processed-append calls more
  processed-append (sleep wait ∷ calls) more = processed-append calls more

  -- What the next response would find in `previous`
  abbrev pub before : Option R → Connection R → Option R
  before default c = if c.connected then c.data' else default

  -- The two calm events that do something
  record IsAnswered (default : Option R) (r : R) (c : Connection R) (step : Step R) : Type 0 where
    pub phase : step.1.0 ≡ going
    pub calls : processed step.0 ≡ (before default c, r) ∷ []
    pub next : before default step.1.1 ≡ some r

  answered :
      (default : Option R) (r : R) (c : Connection R)
      → IsAnswered default r c (on_event default (responds r calm) c)
  unfolding on_event processed
  answered default r c = elim (Bool-cases c.connected) [
    | inl there ↦ record { phase = rw there refl; calls = rw there refl; next = rw there refl }
    | inr away ↦ record { phase = rw away refl; calls = rw away refl; next = rw away refl }
  ]

  record IsRejected (default : Option R) (step : Step R) : Type 0 where
    pub phase : step.1.0 ≡ going
    pub calls : processed step.0 ≡ []
    pub next : before default step.1.1 ≡ default

  failed :
      (default : Option R) (c : Connection R) → IsRejected default (on_event default (fails calm) c)
  unfolding on_event processed
  failed default c = elim (Bool-cases c.connected) [
    | inl there ↦ record { phase = rw there refl; calls = rw there refl; next = rw there refl }
    | inr away ↦ record { phase = rw away refl; calls = rw away refl; next = rw away refl }
  ]

  proceed-processed :
      (step rest : Step R)
      → step.1.0 ≡ going
      → processed (proceed step rest).0 ≡ processed step.0 ++ processed rest.0
  proceed-processed (calls, (going, c)) (more, last) e = processed-append calls more
  proceed-processed (calls, (ended, c)) rest e = cc e
  proceed-processed (calls, (crashed, c)) rest e = cc e

  main-answers :
      (default : Option R) (events : List (Event R)) (c : Connection R)
      → IsCalm events
      → processed (main default events c).0 ≡ answers default (before default c) events
  unfolding main processed answers IsCalm
  main-answers default [] c h = refl
  main-answers default (responds r hooks ∷ events) c h =
      let step = on_event default (responds r calm) c in
      let a = answered default r c in
      let rest = main-answers default events step.1.1 h.1 in
      rw h.0 (
        proceed-processed step (main default events step.1.1) a.phase
        ∙ (ap (λ l. l ++ processed (main default events step.1.1).0) a.calls
            ∙ ap (λ t. (before default c, r) ∷ t)
                (rest ∙ ap (λ p. answers default p events) a.next)))
  main-answers default (fails hooks ∷ events) c h =
      let step = on_event default (fails calm) c in
      let a = failed default c in
      let rest = main-answers default events step.1.1 h.1 in
      rw h.0 (
        proceed-processed step (main default events step.1.1) a.phase
        ∙ (ap (λ l. l ++ processed (main default events step.1.1).0) a.calls
            ∙ (rest ∙ ap (λ p. answers default p events) a.next)))
  main-answers default (ends ∷ events) c h =
      proceed-processed (on_event default ends c) (main default events c) refl
      ∙ main-answers default events c h
  main-answers default (cancels ∷ events) c h = absurd h

  -- While the callbacks return and the task is not canceled, each response is processed once, in
  -- the order in which they come, and finds the response before it in `previous`; the first one
  -- after the start or an error finds the default. The end of a stream does not count as an error.
  pub initial-answers :
      (default : Option R) (events : List (Event R))
      → IsCalm events
      → processed (main default events (initial default)).0 ≡ answers default default events
  initial-answers default events h = main-answers default events (initial default) h
