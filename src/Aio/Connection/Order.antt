-- ===== src/Aio/Connection/Order.antt =====
-- The order of the callbacks of a connection of iams/aio/grpc.py
use industrial_ams.Base.{
  Bool, true, false, Option, none, some, List, [], ◌∷◌, ◌++◌, Bool-cases, inl, inr, sym, ap, ◌∙◌,
  ◌≡◌, refl,
}
use industrial_ams.Aio.Connection.{
  Call, connect, disconnect, process, sleep, cleanup, Connection, Step, Event, responds, fails,
  ends, cancels, Hook, Hooks, going, longer, returns, rpc_error, raises, cancelled, ended, crashed,
  disconnected, rejected, after, call_process, received, on_event, proceed, main, slept,
}

module _ {R : Type 0} where
  -- An observer that only counts connections: `process` and `disconnect` need one, `connect` and `sleep`
  -- need none.
  abbrev pub observe : Bool → Call R → Option Bool
  observe false connect = some true
  observe true connect = none
  observe true disconnect = some false
  observe false disconnect = none
  observe true (process previous r) = some true
  observe false (process previous r) = none
  observe false (sleep wait) = some false
  observe true (sleep wait) = none
  observe b cleanup = some b

  unfoldable pub observed : Option Bool → List (Call R) → Option Bool
  observed none calls = none
  observed (some b) [] = some b
  observed (some b) (call ∷ calls) = observed (observe b call) calls

  observed-append :
      (calls more : List (Call R)) (b : Option Bool)
      → observed b (calls ++ more) ≡ observed (observed b calls) more
  unfolding observed
  observed-append calls more none = refl
  observed-append [] more (some b) = refl
  observed-append (call ∷ calls) more (some b) = observed-append calls more (observe b call)

  -- A step that has made these calls, seen from where the connection was
  abbrev IsSeen : Bool → Step R → Type 0
  IsSeen b (calls, (phase, c)) = observed (some b) calls ≡ some c.connected

  last_seen : (call : Call R) (b : Option Bool) → observed b [] ≡ b
  unfolding observed
  last_seen call none = refl
  last_seen call (some b) = refl

  seen-next :
      (b now : Bool) (calls : List (Call R)) (call : Call R)
      → observed (some b) calls ≡ some now
      → observed (some b) (calls ++ (call ∷ [])) ≡ observe now call
  unfolding observed
  seen-next b now calls call h =
      observed-append calls (call ∷ []) (some b)
      ∙ (ap (λ o. observed o (call ∷ [])) h ∙ last_seen call (observe now call))

  slept-IsSeen :
      (b : Bool) (calls : List (Call R)) (c : Connection R)
      → observed (some b) calls ≡ some false
      → c.connected ≡ false
      → IsSeen b (slept calls c)
  slept-IsSeen b calls c h e = seen-next b false calls (sleep (longer c.wait)) h ∙ ap some (sym e)

  disconnected-IsSeen :
      (b : Bool) (hook : Hook) (calls : List (Call R)) (c : Connection R)
      → observed (some b) calls ≡ some false
      → c.connected ≡ false
      → IsSeen b (disconnected hook calls c)
  disconnected-IsSeen b returns calls c h e = slept-IsSeen b calls c h e
  disconnected-IsSeen b rpc_error calls c h e = h ∙ ap some (sym e)
  disconnected-IsSeen b raises calls c h e = h ∙ ap some (sym e)
  disconnected-IsSeen b cancelled calls c h e = h ∙ ap some (sym e)

  rejected-IsSeen :
      (b : Bool) (hook : Hook) (calls : List (Call R)) (c : Connection R)
      → observed (some b) calls ≡ some c.connected
      → IsSeen b (rejected hook calls c)
  rejected-IsSeen b hook calls c h = elim (Bool-cases c.connected) [
    | inl there ↦ rw there (
        disconnected-IsSeen b hook (calls ++ (disconnect ∷ [])) (record c { connected = false })
          (seen-next b true calls disconnect (h ∙ ap some there)) refl)
    | inr away ↦
        rw away (slept-IsSeen b calls (record c { connected = false }) (h ∙ ap some away) refl)
  ]

  after-IsSeen :
      (b : Bool) (hook handler : Hook) (calls : List (Call R)) (c : Connection R) (rest : Step R)
      → observed (some b) calls ≡ some c.connected
      → IsSeen b rest
      → IsSeen b (after hook handler calls c rest)
  after-IsSeen b returns handler calls c rest h next = next
  after-IsSeen b rpc_error handler calls c rest h next = rejected-IsSeen b handler calls c h
  after-IsSeen b raises handler calls c rest h next = h
  after-IsSeen b cancelled handler calls c rest h next = h

  process-IsSeen :
      (b : Bool) (hooks : Hooks) (calls : List (Call R)) (r : R) (c : Connection R)
      → c.connected ≡ true
      → observed (some b) calls ≡ some true
      → IsSeen b (call_process hooks calls r c)
  process-IsSeen b hooks calls r c there h =
      let done = calls ++ (process c.previous r ∷ []) in
      let seen : observed (some b) done ≡ some c.connected =
        seen-next b true calls (process c.previous r) h ∙ ap some (sym there) in
      after-IsSeen b hooks.process hooks.disconnect done c (done, (going, c)) seen seen

  fresh-IsSeen :
      (default : Option R) (r : R) (hooks : Hooks) (c : Connection R)
      → let fresh = record c { connected = true; previous = default; data' = some r; wait = 0 } in
        IsSeen false (
          after hooks.connect hooks.disconnect
            (connect ∷ [])
            fresh
            (call_process hooks (connect ∷ []) r fresh))
  unfolding observed
  fresh-IsSeen default r hooks c =
      let fresh : Connection R = record c {
        connected = true;
        previous = default;
        data' = some r;
        wait = 0;
      } in
      after-IsSeen false hooks.connect hooks.disconnect (connect ∷ []) fresh
        (call_process hooks (connect ∷ []) r fresh) refl
        (process-IsSeen false hooks (connect ∷ []) r fresh refl refl)

  received-IsSeen :
      (default : Option R) (r : R) (hooks : Hooks) (c : Connection R)
      → IsSeen c.connected (received default r hooks c)
  unfolding observed
  received-IsSeen default r hooks c = elim (Bool-cases c.connected) [
    | inl there ↦ rw there (
        process-IsSeen true hooks [] r
          (record c { connected = true; previous = c.data'; data' = some r }) refl refl)
    | inr away ↦ rw away (fresh-IsSeen default r hooks c)
  ]

  event-IsSeen :
      (default : Option R) (event : Event R) (c : Connection R)
      → IsSeen c.connected (on_event default event c)
  unfolding on_event observed
  event-IsSeen default (responds r hooks) c = received-IsSeen default r hooks c
  event-IsSeen default (fails hooks) c = rejected-IsSeen c.connected hooks.disconnect [] c refl
  event-IsSeen default ends c = refl
  event-IsSeen default cancels c = refl

  proceed-IsSeen :
      (b : Bool) (step rest : Step R)
      → IsSeen b step
      → IsSeen step.1.1.connected rest
      → IsSeen b (proceed step rest)
  unfolding observed
  proceed-IsSeen b (calls, (going, c)) (more, rest) h next =
      observed-append calls more (some b) ∙ (ap (λ o. observed o more) h ∙ next)
  proceed-IsSeen b (calls, (ended, c)) rest h next = seen-next b c.connected calls cleanup h
  proceed-IsSeen b (calls, (crashed, c)) rest h next = seen-next b c.connected calls cleanup h

  -- Whatever the stream and the callbacks do, `connect` and `disconnect` alternate, `process` is
  -- called in between only, and the task sleeps outside only; and `connected` is what the observer
  -- has.
  pub main-observed :
      (default : Option R) (events : List (Event R)) (c : Connection R)
      → let (calls, (phase, last)) = main default events c in
        observed (some c.connected) calls ≡ some last.connected
  unfolding main observed
  main-observed default [] c = refl
  main-observed default (event ∷ events) c =
      let step = on_event default event c in
      proceed-IsSeen c.connected step (main default events step.1.1) (event-IsSeen default event c)
        (main-observed default events step.1.1)
