-- ===== src/Simulation/Agents/Stopping.antt =====
-- How the agents of a simulation in iams/interfaces/simulation.py are stopped.
use industrial_ams.Base.{◌≡◌, ◌⊎◌, String, Bool, true, Option, none, some, is_some, List, [], ◌∷◌}
use mathlib.Core.Logic.Or
use mathlib.Core.List.{Perm}
use mathlib.Core.List.Perm
use industrial_ams.Py.{attribute_error, type_error, not_implemented, Error, Result, ok, err, Method}
use industrial_ams.Py.Dict.{Dict, lookup}
use industrial_ams.Simulation.Agents.{is_passed}

-- What is relied on of `sorted`: it gives the items of its argument in another order, each as often.
abbrev pub KeepsItems : (List String → List String) → Type 0
KeepsItems sorted = (names : List String) → Perm (sorted names) names

-- An error that is passed over
abbrev pub IsHarmless : Error → Type 0
IsHarmless x = (x ≡ attribute_error) ⊎ (x ≡ type_error) ⊎ (x ≡ not_implemented)

module _ {A : Type 0} where
  abbrev IsKey : Dict A → String → Type 0
  IsKey agents name = is_some (lookup name agents) ≡ true

abbrev passes : Result (Unit {0}) → Bool
passes (ok u) = true
passes (err x) = is_passed x

module _ {A W : Type 0} where
  -- The agent under a name was stopped: what its call of `stop` left.
  abbrev pub stopped_by : (A → Method W (Unit {0})) → Option A → W → W
  stopped_by stop none w = w
  stopped_by stop (some a) w = (stop a w).1

  -- The names were gone through, with a call of `stop` for each.
  abbrev pub all_stopped : (A → Method W (Unit {0})) → Dict A → List String → W → W
  all_stopped stop agents [] w = w
  all_stopped stop agents (name ∷ names) w =
      all_stopped stop agents names (stopped_by stop (lookup name agents) w)

  -- An agent's `stop` returns, or raises an error that is passed over.
  abbrev pub StopsQuietly : (A → Method W (Unit {0})) → Type 0
  StopsQuietly stop =
      (a : A) (w : W)
      → ((stop a w).0 ≡ ok tt) ⊎ ((x : Error) × ((stop a w).0 ≡ err x) × IsHarmless x)

  -- The `stop` of an agent registers and unregisters no agent.
  abbrev pub KeepsAgents : (W → Dict A) → (A → Method W (Unit {0})) → Type 0
  KeepsAgents registry stop = (a : A) (w : W) → registry (stop a w).1 ≡ registry w
