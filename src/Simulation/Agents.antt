-- ===== src/Simulation/Agents.antt =====
-- The agents of `class SimulationInterface` in iams/interfaces/simulation.py: their registry, and
-- the phases of `__call__` before and after the loop. The directory facilitator, the agents and
-- Python's `sorted` are parameters; an agent is registered under its `str`.
pub mod Stopping
mod Tests
use industrial_ams.Base.{
  ◌≡◌, refl, ap, ◌∙◌, ◌⊎◌, inl, inr, String, Bool, true, false, Option, none, some, is_some, List,
  [], ◌∷◌, map, All, All-map, if◌then◌else◌, Bool-cases, Option-cases,
}
use industrial_ams.Py.{
  Error, Result, ok, err, Method, key_error, attribute_error, type_error, not_implemented,
}
use industrial_ams.Py.Calls.{continue, ◌>>=◌, ◌>>◌, give, lift}
use industrial_ams.Py.Text.{same_text}
use industrial_ams.Py.Dict.{Dict, lookup, put}

-- `del d[k]`, where a missing key is passed over
unfoldable pub delete : {A : Type 0} → String → Dict A → Dict A
delete k [] = []
delete k ((j, a) ∷ d) = if same_text j k then d else (j, a) ∷ delete k d

abbrev pub agent_names : {A : Type 0} → Dict A → List String
agent_names [] = []
agent_names ((k, a) ∷ d) = k ∷ agent_names d

-- The errors of a `stop` that are passed over
abbrev pub is_passed : Error → Bool
is_passed attribute_error = true
is_passed type_error = true
is_passed not_implemented = true
is_passed x = false

abbrev pub pass : {W : Type 0} → Result (Unit {0}) × W → Result (Unit {0}) × W
pass (ok u, w) = (ok u, w)
pass (err x, w) = if is_passed x then (ok tt, w) else (err x, w)

module _ {A : Type 0} where
  -- `self._agents[name]`
  abbrev pub found_agent : Option A → Result A
  found_agent none = err key_error
  found_agent (some a) = ok a

  -- `agent`
  unfoldable pub agent : String → Dict A → Result A
  unfolding lookup
  agent name agents = found_agent (lookup name agents)

  -- `unregister`
  unfoldable pub unregister : (A → String) → A → Dict A → Dict A
  unfolding delete
  unregister str a agents = delete (str a) agents

module _ {A W : Type 0} where
  -- `register`: the facilitator may refuse the agent.
  unfoldable pub register :
      (A → String) → (A → Method W (Unit {0})) → A → Dict A → Method W (Dict A)
  unfolding put
  register str register_agent a agents = do register_agent a; give (put (str a) a agents)

  -- The registry of the simulation as it is at a moment: an agent may change it when it is called.
  abbrev pub live : (W → Dict A) → String → Method W A
  live registry name w = (agent name (registry w), w)

  -- The loop `self._agents[agent](self, dryrun)` over the names
  unfoldable pub init_agents :
      (W → Dict A) → (A → Method W (Unit {0})) → List String → Method W (Unit {0})
  unfolding agent
  init_agents registry call [] = give tt
  init_agents registry call (name ∷ names) = do
    a ← live registry name
    call a
    init_agents registry call names

  -- One round of the loop that stops the agents
  unfoldable pub stop_agent :
      (W → Dict A) → (A → Method W (Unit {0})) → String → Method W (Unit {0})
  unfolding agent
  stop_agent registry stop name = do a ← live registry name; λ w. pass (stop a w)

  unfoldable pub stop_agents :
      (W → Dict A) → (A → Method W (Unit {0})) → List String → Method W (Unit {0})
  unfolding stop_agent
  stop_agents registry stop [] = give tt
  stop_agents registry stop (name ∷ names) = do
    stop_agent registry stop name
    stop_agents registry stop names

  -- The phases of `__call__`; the loop with the count that follows it is a method of its own.
  unfoldable pub call_simulation :
      (W → Dict A)
      → (List String → List String)
      → Method W (Unit {0})
      → (A → Method W (Unit {0}))
      → Method W (Unit {0})
      → (A → Method W (Unit {0}))
      → Method W (Unit {0})
      → Method W (Unit {0})
  unfolding init_agents stop_agents
  call_simulation registry sorted setup init_agent run stop finish = do
    setup
    λ w. init_agents registry init_agent (sorted (agent_names (registry w))) w
    run
    λ w. stop_agents registry stop (sorted (agent_names (registry w))) w
    finish
