-- ===== src/Agent/Tests.antt =====
-- Calls of an agent of iams/agent.py, and the theorems at concrete agents
use industrial_ams.Base.{
  String, true, false, Option, none, some, List, [], ◌∷◌, ◌≡◌, refl, ◌↔◌, length, leb,
}
use industrial_ams.Py.{ok, err, aborted, unauthenticated, permission_denied}
use industrial_ams.Agent.{
  authenticate, upgrade, update, reset, Agent, Context, identities_of, ping, serve, reset_call,
  default_agent,
}
use industrial_ams.Agent.Access.{IsAuthentic, serve-IsAuthentic}

-- An agent that one other agent may reset
abbrev guarded : Agent
guarded authenticate identities = ok (leb 1 (length identities))
guarded reset identities = ok true
guarded upgrade identities = ok false
guarded update identities = ok false

abbrev from : String → Option Context
from peer = some (record { peer_identities = some (peer ∷ ("localhost" ∷ [])) })

serve-IsAuthentic_example :
    ((serve update guarded (from "sim_a")).1 ≡ authenticate ∷ (update ∷ []))
    ↔ ((identities : List String) × IsAuthentic guarded (from "sim_a") identities)
serve-IsAuthentic_example = serve-IsAuthentic update guarded (from "sim_a")

served : serve reset guarded (from "sim_a") ≡ (ok tt, authenticate ∷ (reset ∷ []))
unfolding serve identities_of
served = refl

-- A caller on the own host has no identity.
local_call :
    serve reset guarded (from "127.0.0.1") ≡ (err (aborted permission_denied), authenticate ∷ [])
unfolding serve identities_of
local_call = refl

unknown_call :
    ping default_agent (some (record { peer_identities = none }))
    ≡ (err (aborted unauthenticated), [])
unfolding ping
unknown_call = refl

default_reset :
    reset_call default_agent none ≡ (err (aborted permission_denied), authenticate ∷ (reset ∷ []))
unfolding serve
default_reset = refl
