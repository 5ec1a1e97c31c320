-- ===== src/Aio/Connection/Waits.antt =====
-- How long a connection of iams/aio/grpc.py sleeps
use industrial_ams.Base.{ℕ, ◌+◌, ◌*◌, false, Option, List, [], ◌∷◌, ◌≡◌, refl, ap, length}
use industrial_ams.Aio.Retry.{capped}
use industrial_ams.Aio.Retry.Waits.{waits, longer_capped}
use industrial_ams.Aio.Connection.{
  Call, connect, disconnect, process, sleep, cleanup, Connection, Event, fails, Hooks, going,
  on_event, main, initial,
}

module _ {R : Type 0} where
  -- The times that are slept
  unfoldable pub sleeps : List (Call R) → List ℕ
  sleeps [] = []
  sleeps (sleep wait ∷ calls) = wait ∷ sleeps calls
  sleeps (connect ∷ calls) = sleeps calls
  sleeps (disconnect ∷ calls) = sleeps calls
  sleeps (cleanup ∷ calls) = sleeps calls
  sleeps (process previous r ∷ calls) = sleeps calls

  abbrev pub failing : List Hooks → List (Event R)
  failing [] = []
  failing (hooks ∷ more) = fails hooks ∷ failing more

  refused_event :
      (default : Option R) (hooks : Hooks) (c : Connection R)
      → c.connected ≡ false
      → on_event default (fails hooks) c ≡ (
        sleep (capped 150 (c.wait + 3)) ∷ [],
        (going, record c { wait = capped 150 (c.wait + 3) }),
      )
  unfolding on_event
  refused_event default hooks c away = rw away refl

  refused_from :
      (default : Option R) (k : ℕ) (all : List Hooks) (c : Connection R)
      → c.connected ≡ false
      → c.wait ≡ capped 150 (3 * k)
      → sleeps (main default (failing all) c).0 ≡ waits 150 3 k (length all)
  unfolding main sleeps waits
  refused_from default k [] c away w = refl
  refused_from default k (hooks ∷ all) c away w =
      let longer : capped 150 (c.wait + 3) ≡ capped 150 (3 * (k + 1)) =
        rw w (longer_capped 150 3 k) in
      let rest =
        refused_from default (k + 1) all (record c { wait = capped 150 (3 * (k + 1)) }) away refl in
      rw (refused_event default hooks c away, longer) (ap (λ t. capped 150 (3 * (k + 1)) ∷ t) rest)

  -- An agent that is not reached n times after the start: the task sleeps min(15, 0.3 k) seconds
  -- after the k-th attempt, and calls nothing else.
  pub failing-sleeps :
      (default : Option R) (all : List Hooks)
      → sleeps (main default (failing all) (initial default)).0 ≡ waits 150 3 0 (length all)
  failing-sleeps default all = refused_from default 0 all (initial default) refl refl
