-- ===== src/Configuration/Tests.antt =====
-- The runs of a configuration with two keys, whose texts are formatted to themselves.
use Prim.Native.String.{◌++◌ as ◌+++◌}
use industrial_ams.Base.{
  ℕ, String, ◌≡◌, refl, true, false, ◌||◌, Option, none, some, List, [], ◌∷◌, length, All,
}
use industrial_ams.Py.{Result, ok, err}
use industrial_ams.Py.Text.{split_last}
use industrial_ams.Py.Dict.{Dict, update, put}
use industrial_ams.Configuration.{
  Config, Platform, Run, kept_runs, listed_runs, process_config, items_of, runs_of,
}
use industrial_ams.Configuration.Agents.{AgentConfig, load_agent}
use industrial_ams.Configuration.Runs.{IsRun, process_config-IsRun}

abbrev platform : Platform ℕ
platform = record {
  Class = String;
  format = λ template count run_config. ok template;
  padded = λ n. "-{}";
  join = λ folder file. folder +++ ("/" +++ file);
  exists = λ file. false;
  import_class = λ module_name class_name. ok class_name;
  is_simulation = λ simcls. true;
  zero_value = 0;
  sorted = λ items. ok items;
  Instance = String × Dict ℕ;
  instantiate = λ cls settings. ok (cls, settings);
}

abbrev config : Config ℕ
config = record {
  products = some (("speed", 1 ∷ 2 ∷ []) ∷ ("size", 5 ∷ 6 ∷ 7 ∷ []) ∷ []);
  formatter = none;
  seed = none;
  start = none;
  stop = none;
  simulation_class = some "package.Simulation";
  directory_facilitator = none;
  settings = some (("speed", 9) ∷ ("limit", 100) ∷ []);
  rest = [];
}

abbrev runs_or_none : Result (List (Run String ℕ)) → List (Run String ℕ)
runs_or_none (ok runs) = runs
runs_or_none (err x) = []

abbrev runs : List (Run String ℕ)
runs = runs_or_none (kept_runs platform "results" "line" config false true)

made_runs : kept_runs platform "results" "line" config false true ≡ ok runs
unfolding kept_runs process_config split_last
made_runs = refl

process_config-IsRun_example :
    All (IsRun platform config) runs
    × ((false || true) ≡ true → length runs ≡ runs_of (items_of config.products))
process_config-IsRun_example =
    process_config-IsRun platform "results" "line" config false true runs made_runs

six_runs : length runs ≡ 6
unfolding kept_runs process_config split_last
six_runs = refl

abbrev second_settings : Result (List (Run String ℕ)) → Option (Dict ℕ)
second_settings (ok (first ∷ (second ∷ others))) = some second.settings
second_settings r = none

-- Without the copy the second run has the settings of the last one.
shared_settings :
    (second_settings (kept_runs platform "results" "line" config false true)
      ≡ some (("speed", 1) ∷ ("limit", 100) ∷ ("size", 6) ∷ []))
    × (second_settings (listed_runs platform "results" "line" config false true)
        ≡ some (("speed", 2) ∷ ("limit", 100) ∷ ("size", 7) ∷ []))
unfolding kept_runs listed_runs process_config split_last update put
shared_settings = (refl, refl)

-- Both agents have the global setting.
abbrev agents : List (AgentConfig ℕ)
agents =
    record {
      class_path = some "package.Agent";
      settings = [];
      use_global = "limit" ∷ [];
      products = ("size", 5 ∷ 6 ∷ []) ∷ [];
    }
    ∷ []

two_agents :
    load_agent platform (("limit", 100) ∷ []) agents
    ≡ ok (
        ("Agent", ("limit", 100) ∷ ("size", 5) ∷ [])
        ∷ ("Agent", ("limit", 100) ∷ ("size", 6) ∷ [])
        ∷ [])
unfolding load_agent
two_agents = refl
