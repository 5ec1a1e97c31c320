-- ===== src/Configuration/Agents.antt =====
-- `load_agent` of iams/simulation.py: the agents of a configuration.
use industrial_ams.Base.{String, Option, none, some, List, [], ◌∷◌, ◌++◌}
use industrial_ams.Py.{Result, ok, err, value_error, key_error, ◌>>=◌}
use industrial_ams.Py.Text.{split_last}
use industrial_ams.Py.Dict.{Dict, lookup, update, put}
use industrial_ams.Configuration.{Platform, product, factor}

-- An agent's part of the configuration; a missing list or dict is an empty one.
pub record AgentConfig (V : Type 0) : Type 0 where
  pub class_path : Option String
  pub settings : Dict V
  pub use_global : List String
  pub products : Dict (List V)

module _ {V : Type 0} (P : Platform V) where
  -- `settings[name] = global_settings[name]`
  abbrev put_global : String → Option V → Dict V → Result (Dict V)
  put_global name none settings = err key_error
  put_global name (some v) settings = ok (put name v settings)

  unfoldable pub add_globals : List String → Dict V → Dict V → Result (Dict V)
  unfolding lookup put
  add_globals [] globals settings = ok settings
  add_globals (name ∷ names) globals settings = do
    settings' ← put_global name (lookup name globals) settings
    add_globals names globals settings'

  sorted_factors : Dict (List V) → Result (List (List (String × V)))
  sorted_factors [] = ok []
  sorted_factors (entry ∷ entries) = do
    values ← P.sorted (factor entry)
    rest ← sorted_factors entries
    ok (values ∷ rest)

  -- The agents of one class; the settings of an earlier one stay in the dict.
  unfoldable pub instances : P.Class → Dict V → List (Dict V) → Result (List P.Instance)
  unfolding update
  instances cls settings [] = ok []
  instances cls settings (prod ∷ prods) = do
    let settings' = update settings prod
    instance' ← P.instantiate cls settings'
    rest ← instances cls settings' prods
    ok (instance' ∷ rest)

  abbrev imported : Option (String × String) → Result P.Class
  imported none = err value_error
  imported (some (module_name, class_name)) = P.import_class module_name class_name

  class_of : Option String → Result P.Class
  unfolding split_last
  class_of none = err key_error
  class_of (some path) = imported (split_last b'.' path)

  -- One round of the loop over the agents
  unfoldable pub agents_of : Dict V → AgentConfig V → Result (List P.Instance)
  unfolding class_of add_globals sorted_factors instances
  agents_of globals agent = do
    cls ← class_of agent.class_path
    settings ← add_globals agent.use_global globals agent.settings
    factors ← sorted_factors agent.products
    instances cls settings (product factors)

  unfoldable pub load_agent : Dict V → List (AgentConfig V) → Result (List P.Instance)
  unfolding agents_of
  load_agent globals [] = ok []
  load_agent globals (agent ∷ agents) = do
    first ← agents_of globals agent
    rest ← load_agent globals agents
    ok (first ++ rest)
