-- ===== src/Agent.antt =====
-- The servicer of an agent in iams/agent.py: the calls that other agents make, the test of who calls, and
-- the callbacks of the agent. `context.abort` raises, as that of gRPC does.
pub mod Access
mod Tests
use industrial_ams.Base.{
  not, ◌&&◌, String, Bool, true, false, Option, none, some, List, [], ◌∷◌, ◌++◌, ◌||◌,
  if◌then◌else◌,
}
use industrial_ams.Py.{Result, ok, err, aborted, unauthenticated, permission_denied, ◌>>=◌}
use industrial_ams.Py.Text.{same_text, is_written}

-- The callbacks of the agent; `None`, which the defaults return, counts as False.
pub data Callback : Type 0 where
  authenticate upgrade update reset : Callback

-- A callback by what it makes of the identities and the context
abbrev pub Agent : Type 0
Agent = Callback → List String → Result Bool

-- The context of a call: none in unit tests; `peer_identities` may be None. An identity is given as
-- its text.
pub record Context : Type 0 where
  pub peer_identities : Option (List String)

abbrev pub is_ignored : String → Bool
is_ignored peer = same_text peer "127.0.0.1" || same_text peer "localhost"

-- `set(... for x in context.peer_identities() if x and x not in ignore)`, in the order of the peers
unfoldable pub identities_of : List String → List String
identities_of [] = []
identities_of (peer ∷ peers) =
    let rest = identities_of peers in
    if is_written peer && not (is_ignored peer) then peer ∷ rest else rest

abbrev pub of_peers : Bool → Option (List String) → Result (List String)
of_peers optional (some peers) = ok (identities_of peers)
of_peers true none = ok []
of_peers false none = err (aborted unauthenticated)

-- `credentials`
abbrev pub credentials : Option Context → Bool → Result (List String)
credentials none optional = ok []
credentials (some context) optional = of_peers optional context.peer_identities

-- What a call gives, and which callbacks it has called
abbrev pub Served : Type 0
Served = Result (Unit {0}) × List Callback

-- `if not await callback: await context.abort(PERMISSION_DENIED, ...)`, and what follows
abbrev pub permitted : Callback → Result Bool → Served → Served
permitted callback (err x) rest = (err x, callback ∷ [])
permitted callback (ok false) rest = (err (aborted permission_denied), callback ∷ [])
permitted callback (ok true) (result, more) = (result, callback ∷ more)

abbrev pub identified : Result (List String) → (List String → Served) → Served
identified (err x) rest = (err x, [])
identified (ok identities) rest = rest identities

-- `ping`, and `online` up to its first `yield`
unfoldable pub ping : Agent → Option Context → Served
ping agent context =
    identified (credentials context false)
      (λ identities. permitted authenticate (agent authenticate identities) (ok tt, []))

abbrev pub online : Agent → Option Context → Served
online agent context = ping agent context

-- `reset`, `update` and `upgrade`, by their callback
unfoldable pub serve : Callback → Agent → Option Context → Served
serve callback agent context = identified (credentials context false) (λ identities.
    permitted authenticate (agent authenticate identities)
      (permitted callback (agent callback identities) (ok tt, [])))

abbrev pub reset_call : Agent → Option Context → Served
reset_call agent context = serve reset agent context

abbrev pub update_call : Agent → Option Context → Served
update_call agent context = serve update agent context

abbrev pub upgrade_call : Agent → Option Context → Served
upgrade_call agent context = serve upgrade agent context

-- `class Agent`: everybody who is identified is authenticated, and all else has its default.
abbrev pub default_agent : Agent
default_agent authenticate identities = ok true
default_agent upgrade identities = ok false
default_agent update identities = ok false
default_agent reset identities = ok false
