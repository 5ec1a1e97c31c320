-- ===== src/Aio/Connection/Bounds.antt =====
-- Bounds of what a connection of iams/aio/grpc.py sleeps
use industrial_ams.Base.{
  All, All-append, subst, ℕ, ◌≤◌, true, false, Option, List, [], ◌∷◌, ◌++◌, Bool-cases, inl, inr,
  ◌≡◌, refl, sym, ap, arith,
}
use industrial_ams.Aio.Connection.Waits.{sleeps}
use industrial_ams.Aio.Connection.{
  some, Call, connect, disconnect, process, sleep, cleanup, Connection, Step, Event, responds,
  fails, ends, cancels, Hook, Hooks, going, ended, crashed, slept, longer, disconnected, returns,
  rpc_error, raises, cancelled, rejected, on_event, after, call_process, received, proceed, main,
  initial,
}

abbrev pub Short : ℕ → Type 0
Short wait = (3 ≤ wait) × (wait ≤ 150)

module _ {R : Type 0} where
  sleeps-append :
      (calls more : List (Call R)) → sleeps (calls ++ more) ≡ sleeps calls ++ sleeps more
  unfolding sleeps
  sleeps-append [] more = refl
  sleeps-append (sleep wait ∷ calls) more = ap (λ t. wait ∷ t) (sleeps-append calls more)
  sleeps-append (connect ∷ calls) more = sleeps-append calls more
  sleeps-append (disconnect ∷ calls) more = sleeps-append calls more
  sleeps-append (cleanup ∷ calls) more = sleeps-append calls more
  sleeps-append (process previous r ∷ calls) more = sleeps-append calls more

  -- A connection that is open does not wait, and one that is not waits at most 15 seconds.
  abbrev pub IsRested : Connection R → Type 0
  IsRested c = (c.connected ≡ true → c.wait ≡ 0) × (c.wait ≤ 150)

  abbrev IsBrief : Step R → Type 0
  IsBrief (calls, (phase, c)) = All Short (sleeps calls) × IsRested c

  quiet_next :
      (calls : List (Call R)) (call : Call R)
      → sleeps (call ∷ []) ≡ []
      → All Short (sleeps calls)
      → All Short (sleeps (calls ++ (call ∷ [])))
  quiet_next calls call e h =
      subst (All Short) (sym (sleeps-append calls (call ∷ [])))
        (All-append Short (sleeps calls) (sleeps (call ∷ [])) h (rw e tt))

  slept-IsBrief :
      (calls : List (Call R)) (c : Connection R)
      → All Short (sleeps calls)
      → c.connected ≡ false
      → IsBrief (slept calls c)
  unfolding sleeps
  slept-IsBrief calls c h away =
      let bounds : Short (longer c.wait) = (ground arith, ground arith) in
      (
        subst (All Short) (sym (sleeps-append calls (sleep (longer c.wait) ∷ [])))
            (All-append Short (sleeps calls) (longer c.wait ∷ []) h (bounds, tt)),
        (λ there. cc (there, away), bounds.1),
      )

  disconnected-IsBrief :
      (hook : Hook) (calls : List (Call R)) (c : Connection R)
      → All Short (sleeps calls)
      → c.connected ≡ false
      → IsRested c
      → IsBrief (disconnected hook calls c)
  disconnected-IsBrief returns calls c h away rested = slept-IsBrief calls c h away
  disconnected-IsBrief rpc_error calls c h away rested = (h, rested)
  disconnected-IsBrief raises calls c h away rested = (h, rested)
  disconnected-IsBrief cancelled calls c h away rested = (h, rested)

  rejected-IsBrief :
      (hook : Hook) (calls : List (Call R)) (c : Connection R)
      → All Short (sleeps calls)
      → IsRested c
      → IsBrief (rejected hook calls c)
  unfolding sleeps
  rejected-IsBrief hook calls c h rested = elim (Bool-cases c.connected) [
    | inl there ↦ rw there (
        disconnected-IsBrief hook (calls ++ (disconnect ∷ [])) (record c { connected = false })
          (quiet_next calls disconnect refl h) refl (λ e. cc e, rested.1))
    | inr away ↦ rw away (slept-IsBrief calls (record c { connected = false }) h refl)
  ]

  after-IsBrief :
      (hook handler : Hook) (calls : List (Call R)) (c : Connection R) (rest : Step R)
      → All Short (sleeps calls)
      → IsRested c
      → IsBrief rest
      → IsBrief (after hook handler calls c rest)
  after-IsBrief returns handler calls c rest h rested next = next
  after-IsBrief rpc_error handler calls c rest h rested next =
      rejected-IsBrief handler calls c h rested
  after-IsBrief raises handler calls c rest h rested next = (h, rested)
  after-IsBrief cancelled handler calls c rest h rested next = (h, rested)

  process-IsBrief :
      (hooks : Hooks) (calls : List (Call R)) (r : R) (c : Connection R)
      → All Short (sleeps calls)
      → IsRested c
      → IsBrief (call_process hooks calls r c)
  unfolding sleeps
  process-IsBrief hooks calls r c h rested =
      let done : List (Call R) = calls ++ (process c.previous r ∷ []) in
      let quiet : All Short (sleeps done) = quiet_next calls (process c.previous r) refl h in
      after-IsBrief hooks.process hooks.disconnect done c (done, (going, c)) quiet rested
        (quiet, rested)

  received-IsBrief :
      (default : Option R) (r : R) (hooks : Hooks) (c : Connection R)
      → IsRested c
      → IsBrief (received default r hooks c)
  unfolding sleeps
  received-IsBrief default r hooks c rested = elim (Bool-cases c.connected) [
    | inl there ↦ rw there (
        process-IsBrief hooks [] r
          (record c { connected = true; previous = c.data'; data' = some r }) tt
          (λ e. rested.0 there, rested.1))
    | inr away ↦
        let fresh : Connection R = record c {
          connected = true;
          previous = default;
          data' = some r;
          wait = 0;
        } in
        let short : IsRested fresh = (λ e. refl, omega arith) in
        rw away (
          after-IsBrief hooks.connect hooks.disconnect (connect ∷ []) fresh
            (call_process hooks (connect ∷ []) r fresh) tt short
            (process-IsBrief hooks (connect ∷ []) r fresh tt short))
  ]

  event-IsBrief :
      (default : Option R) (event : Event R) (c : Connection R)
      → IsRested c
      → IsBrief (on_event default event c)
  unfolding on_event sleeps
  event-IsBrief default (responds r hooks) c rested = received-IsBrief default r hooks c rested
  event-IsBrief default (fails hooks) c rested = rejected-IsBrief hooks.disconnect [] c tt rested
  event-IsBrief default ends c rested = (tt, rested)
  event-IsBrief default cancels c rested = (tt, rested)

  proceed-IsBrief : (step rest : Step R) → IsBrief step → IsBrief rest → IsBrief (proceed step rest)
  unfolding sleeps
  proceed-IsBrief (calls, (going, c)) (more, (phase, last)) h next = (
    subst (All Short) (sym (sleeps-append calls more))
        (All-append Short (sleeps calls) (sleeps more) h.0 next.0),
    next.1,
  )
  proceed-IsBrief (calls, (ended, c)) rest h next = (quiet_next calls cleanup refl h.0, h.1)
  proceed-IsBrief (calls, (crashed, c)) rest h next = (quiet_next calls cleanup refl h.0, h.1)

  main-IsBrief :
      (default : Option R) (events : List (Event R)) (c : Connection R)
      → IsRested c
      → IsBrief (main default events c)
  unfolding main sleeps
  main-IsBrief default [] c rested = (tt, rested)
  main-IsBrief default (event ∷ events) c rested =
      let step = on_event default event c in
      let brief : IsBrief step = event-IsBrief default event c rested in
      proceed-IsBrief step (main default events step.1.1) brief
        (main-IsBrief default events step.1.1 brief.1)

  -- Whatever happens, the task never sleeps less than 0.3 or more than 15 seconds, and while the
  -- connection is open its wait is 0.
  pub main-Short :
      (default : Option R) (events : List (Event R))
      → let (calls, (phase, c)) = main default events (initial default) in
        All Short (sleeps calls) × IsRested c
  main-Short default events = main-IsBrief default events (initial default) (λ e. refl, omega arith)
