-- ===== src/Runtime/Agents.antt =====
-- What `DockerSwarmRuntime` in iams/runtime.py does to one agent's service, secrets and configs, and its
-- list of the agents whose certificates expire.
use industrial_ams.Base.{
  ℕ, String, Bool, true, Option, none, some, List, [], ◌∷◌, ◌==◌, if◌then◌else◌, ◌++◌,
}
use Prim.Native.String.{◌++◌ as ◌+++◌}
use industrial_ams.Py.{
  Result, ok, err, Method, not_found, image_not_found, key_error, type_error, value_error,
}
use industrial_ams.Py.Calls.{◌>>=◌, ◌>>◌, give, ask, for_each}
use industrial_ams.Py.Dict.{Dict, lookup}
use industrial_ams.Py.Text.{same_text}
use industrial_ams.Runtime.{World, Runtime, Service, Config, Plugin, stack_label}
use industrial_ams.Runtime.Names.{get_image_version}

-- The filter `label=value`
abbrev pub label_is : String → String → String
label_is label value = label +++ ("=" +++ value)

-- What `list` found, sorted out: the last item with the name, and the other items in order
unfoldable pub pick {ℓ} :
    {A : Type ℓ} → (A → String) → Option String → List A → Option A × List A → Option A × List A
pick name wanted [] found = found
pick name none (x ∷ xs) (item, others) = pick name none xs (item, others ++ (x ∷ []))
pick name (some w) (x ∷ xs) (item, others) =
    pick name (some w) xs
      (if same_text (name x) w then (some x, others) else (item, others ++ (x ∷ [])))

abbrev exactly_one : List Service → Result Service
exactly_one (service ∷ []) = ok service
exactly_one _ = err not_found

-- `service` or `name`: a service object, or a name
pub data Target : Type 0 where
  service : Service → Target
  named : String → Target

module _ (W : World) (self : Runtime W) where
  -- The two filters that every list but that of `get_expired` starts with
  abbrev own : List String → List String
  own labels =
      label_is stack_label self.namespace ∷ label_is "iams.namespace" self.iams_namespace ∷ labels

  abbrev pub of_agent : String → List String
  of_agent name = own (label_is "iams.agent" name ∷ [])

  unfoldable pub get_service : String → W.State → Result Service
  get_service name s = elim (W.services_list s name (own [])) [
    | ok services ↦ exactly_one services
    | err x ↦ err x
  ]

  unfoldable pub get_service_and_name : Target → W.State → Result (Service × String)
  unfolding get_service
  get_service_and_name (service found) s = ok (found, found.name)
  get_service_and_name (named name) s = elim (get_service name s) [
    | ok found ↦ ok (found, name)
    | err x ↦ err x
  ]

  abbrev decoded : List Config → Result (Option String)
  decoded (config ∷ []) = elim (W.decode_base64 config.data_base64) [
    | ok content ↦ ok (some content)
    | err x ↦ err x
  ]
  decoded _ = ok none

  unfoldable pub get_agent_config : Target → W.State → Result (Option String)
  unfolding get_service_and_name
  get_agent_config target s = elim (get_service_and_name target s) [
    | ok (found, name) ↦ (elim (W.configs_list s (some name) (of_agent name)) [
      | ok configs ↦ decoded configs
      | err x ↦ err x
    ])
    | err x ↦ err x
  ]

  -- The plugins that an image's labels name, with their arguments
  unfoldable pub plugins_of : Dict String → List (Plugin W) → List (Plugin W × Option String)
  plugins_of labels [] = []
  plugins_of labels (plugin ∷ plugins) =
      let rest = plugins_of labels plugins in
      elim plugin.label [
        | none ↦ (plugin, none) ∷ rest
        | some label ↦ (elim (lookup label labels) [
          | some argument ↦ (plugin, some argument) ∷ rest
          | none ↦ rest
        ])
      ]

  unfoldable pub get_agent_plugins : Target → W.State → Result (List (Plugin W × Option String))
  unfolding get_service_and_name plugins_of
  get_agent_plugins target s = elim (get_service_and_name target s) [
    | ok (found, name) ↦ (elim (get_image_version found) [
      | some (image, version) ↦ (elim (W.image_labels s (image +++ (":" +++ version))) [
        | ok labels ↦ ok (plugins_of labels self.plugins)
        | err x ↦ err x
      ])
      | none ↦ err value_error
    ])
    | err x ↦ err x
  ]

  unfoldable pub delete_agent_plugins : Service → Method W.State (Unit {0})
  unfolding get_agent_plugins
  delete_agent_plugins found = do
    plugins ← ask (get_agent_plugins (service found))
    for_each (λ p. p.0.remove found p.1) plugins

  unfoldable pub delete_agent_secrets : String → Method W.State (Unit {0})
  delete_agent_secrets name = do
    secrets ← ask (λ s. W.secrets_list s (of_agent name))
    for_each W.remove_secret secrets

  unfoldable pub delete_agent_configs : String → Method W.State (Unit {0})
  delete_agent_configs name = do
    configs ← ask (λ s. W.configs_list s none (of_agent name))
    for_each W.remove_config configs

  -- What `delete_agent` does to a service that is there
  unfoldable pub delete_found : Service × String → Method W.State Bool
  unfolding delete_agent_plugins delete_agent_secrets delete_agent_configs
  delete_found (found, name) = do
    W.remove_service found
    delete_agent_plugins found
    delete_agent_secrets name
    delete_agent_configs name
    give true

  unfoldable pub delete_agent : Target → Method W.State Bool
  unfolding delete_found get_service_and_name
  delete_agent target s = elim (get_service_and_name target s) [
    | ok found ↦ delete_found found s
    | err not_found ↦ (ok true, s)
    | err image_not_found ↦ (ok true, s)
    | err x ↦ (err x, s)
  ]

  -- `service, name = self.get_service(name)`: a service object cannot be unpacked.
  unfoldable pub unpack_service : String → W.State → Result (Service × String)
  unfolding get_service
  unpack_service name s = elim (get_service name s) [ ok found ↦ err type_error | err x ↦ err x ]

  scale_to : ℕ → Service × String → Method W.State (Unit {0})
  scale_to n (found, name) s = elim found.replicas [
    | some m ↦ (if m == n then (ok tt, s) else W.scale found n s)
    | none ↦ (err key_error, s)
  ]

  unfoldable pub wake_agent : String → Method W.State (Unit {0})
  unfolding unpack_service scale_to
  wake_agent name = do found ← ask (unpack_service name); scale_to 1 found

  unfoldable pub sleep_agent : String → Method W.State (Unit {0})
  unfolding unpack_service scale_to
  sleep_agent name = do found ← ask (unpack_service name); scale_to 0 found
