-- ===== src/Configuration.antt =====
-- The runs of a simulation's configuration in iams/simulation.py: `process_config`, `prepare_run`,
-- `load_agent` and `main`. A value of the configuration is of an unknown type; the formatting of
-- texts, the import of classes and the file system are a `Platform`. `main` goes through all runs before
-- it starts one and keeps a deep copy of each (`kept_runs`), so no file appears in between; without the
-- copy the runs share one dict of settings (`listed_runs`).
pub mod Product
pub mod Agents
pub mod Runs
mod Tests
use Prim.Native.String.{◌++◌ as ◌+++◌}
use industrial_ams.Base.{
  ℕ, zero, suc, ◌+◌, ◌*◌, String, Bool, true, false, not, ◌&&◌, ◌||◌, Option, none, some, List, [],
  ◌∷◌, ◌++◌, map, length, ltb, ◌==◌, if◌then◌else◌,
}
use industrial_ams.Py.{
  Result, ok, err, Method, value_error, assertion_error, not_implemented, key_error, type_error,
  index_error,
}
use industrial_ams.Py.Calls.{continue, ◌>>=◌, ◌>>◌, give, ask, lift}
use industrial_ams.Py.Text.{split_last}
use industrial_ams.Py.Dict.{Dict, lookup, update, put}

-- A configuration: the keys that are read, each of which may be missing, and the other ones
pub record Config (V : Type 0) : Type 0 where
  pub products : Option (Dict (List V))
  pub formatter : Option String
  pub seed : Option String
  pub start : Option V
  pub stop : Option V
  pub simulation_class : Option String
  pub directory_facilitator : Option String
  pub settings : Option (Dict V)
  pub rest : Dict V

pub record Platform (V : Type 0) : Type 1 where
  pub Class : Type 0
  -- `template.format(count, **run_config)`
  pub format : String → ℕ → Dict V → Result String
  -- `'-{:0%dd}' % int(floor(log10(length)) + 1)`
  pub padded : ℕ → String
  pub join : String → String → String
  pub exists : String → Bool
  pub import_class : String → String → Result Class
  pub is_simulation : Class → Bool
  pub zero_value : V
  -- `sorted(data)`
  pub sorted : List (String × V) → Result (List (String × V))
  pub Instance : Type 0
  -- `cls(**settings)`
  pub instantiate : Class → Dict V → Result Instance

-- The arguments of `run_simulation`, without those of `log_config`; `df` is always the one of the tests.
pub record Run (C V : Type 0) : Type 0 where
  pub run_config : Dict V
  pub file_data : Option String
  pub file_log : String
  pub folder : String
  pub name : String
  pub seed : String
  pub settings : Dict V
  pub simcls : C
  pub start : V
  pub stop : Option V
  pub config : Dict V

-- The levels and formatters of `log_config`; `file` is the file's handler, where there is one.
pub record LogConfig : Type 0 where
  pub console_level : ℕ
  pub console_formatter : String
  pub file : Option (ℕ × String × String)
  pub root_level : ℕ
  pub handlers : List String

abbrev pub items_of {ℓ} : {V : Type ℓ} → Option (List V) → List V
items_of none = []
items_of (some items) = items

-- Each item before each rest
abbrev pub prefixed {ℓ} : {A : Type ℓ} → A → List (List A) → List (List A)
prefixed x [] = []
prefixed x (r ∷ rest) = (x ∷ r) ∷ prefixed x rest

abbrev pub pairs {ℓ} : {A : Type ℓ} → List A → List (List A) → List (List A)
pairs [] rest = []
pairs (x ∷ xs) rest = prefixed x rest ++ pairs xs rest

-- `dict.get(key, default)`
abbrev pub or_default {ℓ} : {V : Type ℓ} → V → Option V → V
or_default default none = default
or_default default (some v) = v

-- `'-' + config['formatter']`, or the padded number
abbrev formatter_or : String → Option String → String
formatter_or default none = default
formatter_or default (some formatter) = "-" +++ formatter

-- `itertools.product`: the last factor changes first.
abbrev pub product {ℓ} : {A : Type ℓ} → List (List A) → List (List A)
product [] = [] ∷ []
product (xs ∷ factors) = let rest = product factors in pairs xs rest

-- The pairs of one key with its values
abbrev pub factor {ℓ} : {V : Type ℓ} → String × List V → List (String × V)
factor (key, values) = map (λ v. (key, v)) values

-- The length that the loop over the products computes
abbrev pub runs_of {ℓ} : {V : Type ℓ} → Dict (List V) → ℕ
runs_of [] = 1
runs_of ((key, values) ∷ products) = length values * runs_of products

debug_level : ℕ → Bool
debug_level loglevel = ltb loglevel 20

unfoldable pub log_config : ℕ → Bool → String → LogConfig
unfolding debug_level
log_config loglevel dryrun file_log =
    let root = if debug_level loglevel then 10 else 20 in
    if dryrun
    then record {
      console_level = loglevel;
      console_formatter = if debug_level loglevel then "debug" else "default";
      file = none;
      root_level = root;
      handlers = "console" ∷ [];
    }
    else record {
      console_level = 30;
      console_formatter = "logfile";
      file = some (root, if debug_level loglevel then "debug" else "logfile", file_log);
      root_level = root;
      handlers = "console" ∷ "file" ∷ [];
    }

-- What `main` does with the runs
pub data Execution (R : Type 0) : Type 0 where
  nothing : Execution R
  alone : R → Execution R
  pooled : List R → Execution R

-- The end of `main`; `pop(0)` of an empty list raises.
unfoldable pub execute : {R : Type 0} → Bool → List R → Result (Execution R)
execute single [] = if single then err index_error else ok nothing
execute single (run ∷ []) = ok (alone run)
execute single (run ∷ next ∷ runs) = ok (if single then alone run else pooled (run ∷ next ∷ runs))

module _ {V : Type 0} (P : Platform V) where
  unfoldable pub template_of : Config V → String → ℕ → String
  template_of config project n =
      if ltb 1 n then project +++ formatter_or (P.padded n) config.formatter else project

  abbrev subclass : Bool → P.Class → Result P.Class
  subclass true simcls = ok simcls
  subclass false simcls = err assertion_error

  checked_class : Result P.Class → Result P.Class
  checked_class (ok simcls) = subclass (P.is_simulation simcls) simcls
  checked_class (err x) = err x

  -- `simulation-class`: without a dot the unpacking raises.
  unfoldable pub simulation_class : Option String → Result P.Class
  unfolding checked_class split_last
  simulation_class none = err value_error
  simulation_class (some path) = elim (split_last b'.' path) [
    | none ↦ err value_error
    | some (module_name, class_name) ↦ checked_class (P.import_class module_name class_name)
  ]

  -- `directory-facilitator`: only the default one is allowed.
  unfoldable pub facilitator : Option String → Result (Unit {0})
  unfolding split_last
  facilitator none = ok tt
  facilitator (some path) = elim (split_last b'.' path) [
    | none ↦ err value_error
    | some names ↦ err not_implemented
  ]

  -- `config.get('settings', {})` is one dict for all runs, or a new one for each.
  abbrev pub shared : Option (Dict V) → Dict V → Dict V
  shared none settings = []
  shared (some base) settings = settings

  -- `prepare_run`, with the settings that the configuration shares among the runs
  unfoldable pub prepare_run :
      ℕ → String → String → Dict V → Config V → Method (Dict V) (Run P.Class V)
  unfolding simulation_class facilitator update
  prepare_run count folder template run_config config = do
    name ← lift (P.format template count run_config)
    seed ← lift (P.format (or_default name config.seed) count run_config)
    simcls ← lift (simulation_class config.simulation_class)
    lift (facilitator config.directory_facilitator)
    λ given. (
      ok (record {
        run_config = run_config;
        file_data = some (P.join folder (name +++ ".dat"));
        file_log = P.join folder (name +++ ".log");
        folder = folder;
        name = name;
        seed = seed;
        settings = update (shared config.settings given) run_config;
        simcls = simcls;
        start = or_default P.zero_value config.start;
        stop = config.stop;
        config = config.rest;
      }),
      update (shared config.settings given) run_config,
    )

  abbrev pub exists_file : Option String → Bool
  exists_file none = false
  exists_file (some file) = P.exists file

  -- `if not dryrun and not force and os.path.exists(kwargs['file_data'])`
  abbrev pub is_skipped : Bool → Bool → Run P.Class V → Bool
  is_skipped dryrun force run = not dryrun && not force && exists_file run.file_data

  abbrev pub without_file : Bool → Run P.Class V → Run P.Class V
  without_file dryrun run = if dryrun then record run { file_data = none } else run

  -- The loop over the runs, from a count on
  unfoldable pub process_runs :
      Bool
      → Bool
      → String
      → String
      → Config V
      → ℕ
      → List (Dict V)
      → Method (Dict V) (List (Run P.Class V))
  unfolding prepare_run
  process_runs dryrun force folder template config count [] = give []
  process_runs dryrun force folder template config count (r ∷ rs) = do
    run ← prepare_run (suc count) folder template r config
    rest ← process_runs dryrun force folder template config (suc count) rs
    give (if is_skipped dryrun force run then rest else without_file dryrun run ∷ rest)

  -- `process_config`, of a file's folder and project: each run with the values that it has when it is
  -- yielded, and what the settings of the configuration are in the end. The runs do not own their
  -- settings: with settings in the configuration these are one dict, which every round updates.
  unfoldable pub process_config :
      String → String → Config V → Bool → Bool → Result (List (Run P.Class V)) × Dict V
  unfolding process_runs template_of
  process_config folder project config dryrun force =
      let products = items_of config.products in
      let template = template_of config project (runs_of products) in
      process_runs dryrun force folder template config 0 (product (map factor products))
        (items_of config.settings)

  -- `kwarg_list.append(deepcopy(kwargs))` of `main`: the values at the time when a run is yielded stay.
  unfoldable pub kept_runs :
      String → String → Config V → Bool → Bool → Result (List (Run P.Class V))
  unfolding process_config
  kept_runs folder project config dryrun force =
      (process_config folder project config dryrun force).0

  -- A run as it is once the loop is over, for who keeps the yielded dicts without a copy
  abbrev aliased : Option (Dict V) → Dict V → Run P.Class V → Run P.Class V
  aliased none settings run = run
  aliased (some given) settings run = record run { settings = settings }

  abbrev aliased_runs :
      Option (Dict V) → Result (List (Run P.Class V)) × Dict V → Result (List (Run P.Class V))
  aliased_runs given (err x, settings) = err x
  aliased_runs given (ok runs, settings) = ok (map (aliased given settings) runs)

  -- `list(process_config(...))`
  unfoldable pub listed_runs :
      String → String → Config V → Bool → Bool → Result (List (Run P.Class V))
  unfolding process_config
  listed_runs folder project config dryrun force =
      aliased_runs config.settings (process_config folder project config dryrun force)
