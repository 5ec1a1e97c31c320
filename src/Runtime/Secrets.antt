-- ===== src/Runtime/Secrets.antt =====
-- `set_secret`, `set_config` and `get_expired` of `DockerSwarmRuntime` in iams/runtime.py. The two
-- secrets of a certificate share one dict of labels; each call writes the same keys to it before it
-- is read.
use industrial_ams.Base.{
  String, Bool, true, false, not, ◌||◌, Option, none, some, List, [], ◌∷◌, if◌then◌else◌,
}
use Prim.Native.String.{◌++◌}
use industrial_ams.Base.Int.{ℤ, pos, ltb_ℤ}
use industrial_ams.Py.{type_error, Result, ok, err, Method}
use industrial_ams.Py.Calls.{◌>>=◌, give, ask}
use industrial_ams.Py.Dict.{Dict, lookup, update, add_key}
use industrial_ams.Py.Text.{same_text, slice_to, is_written}
use industrial_ams.Runtime.{World, Runtime, Secret, Config, stack_label}
use industrial_ams.Runtime.Agents.{label_is, pick, of_agent}

module _ (W : World) (self : Runtime W) where
  abbrev pub owner_labels : String → Dict String
  owner_labels name =
      (stack_label, self.namespace)
      ∷ ("iams.namespace", self.iams_namespace)
      ∷ ("iams.agent", name)
      ∷ []

  -- `f"{service}_{name}_{md5}"`
  abbrev pub secret_name : String → String → String → String
  secret_name agent name content =
      agent ++ ("_" ++ (name ++ ("_" ++ slice_to 8 (W.md5 (agent ++ content)))))

  -- The filters of `set_secret`
  abbrev pub of_secret : String → String → List String
  of_secret agent name =
      label_is stack_label self.namespace
      ∷ label_is "iams.namespace" self.iams_namespace
      ∷ label_is "iams.agent" agent
      ∷ label_is "iams.secret" name
      ∷ []

  -- The secret that was found, or a new one
  unfoldable pub secret_or_new :
      String → String → String → Dict String → Option Secret → Method W.State Secret
  secret_or_new agent name content labels (some secret) = give secret
  secret_or_new agent name content labels none =
      W.create_secret (secret_name agent name content) content (
        update labels (
          (stack_label, self.namespace)
          ∷ ("iams.namespace", self.iams_namespace)
          ∷ ("iams.agent", agent)
          ∷ ("iams.secret", name)
          ∷ []))

  unfoldable pub set_secret :
      String → String → String → Dict String → Method W.State (Secret × List Secret)
  unfolding secret_or_new pick
  set_secret agent name content labels = do
    secrets ← ask (λ s. W.secrets_list s (of_secret agent name))
    let found = pick (λ x. x.name) (some (secret_name agent name content)) secrets (none, [])
    secret ← secret_or_new agent name content labels found.0
    give (secret, found.1)

  -- `f"{service}_{md5}"`, or None without data
  unfoldable pub config_name : String → String → Option String
  config_name agent content =
      if is_written content then some (agent ++ ("_" ++ slice_to 8 (W.md5 content))) else none

  -- The config that was found, or a new one where there is a name for it
  unfoldable pub config_or_new :
      String → String → Option String → Option Config → Method W.State (Option Config)
  config_or_new agent content wanted (some config) = give (some config)
  config_or_new agent content none none = give none
  config_or_new agent content (some name) none = do
    config ← W.create_config name content (owner_labels agent)
    give (some config)

  unfoldable pub set_config : String → String → Method W.State (Option Config × List Config)
  unfolding config_or_new config_name pick
  set_config agent content = do
    configs ← ask (λ s. W.configs_list s none (of_agent W self agent))
    let wanted = config_name agent content
    let found = pick (λ x. x.name) wanted configs (none, [])
    config ← config_or_new agent content wanted found.0
    give (config, found.1)

  unfoldable pub is_certificate : Option String → Bool
  is_certificate (some filename) = same_text filename "peer.crt" || same_text filename "peer.key"
  is_certificate none = false

  -- The `continue` on `delta.days > 2`; a date that is no date, such as the empty text, is passed over.
  abbrev pub is_late : Option ℤ → Bool
  is_late (some days) = not (ltb_ℤ (pos 2) days)
  is_late none = true

  -- `str(agent)`, where the label may be missing
  abbrev pub agent_text : Option String → String
  agent_text (some agent) = agent
  agent_text none = "None"

  -- `datetime.fromisoformat(None)` is a TypeError, which is not caught.
  unfoldable pub late_at : W.State → Option String → Result Bool
  late_at s none = err type_error
  late_at s (some text) = ok (is_late (W.days_left s text))

  -- Whether a secret counts, after the two `continue`s
  unfoldable pub is_expired : W.State → Option (Dict String) → Result Bool
  unfolding is_certificate late_at
  is_expired s none = ok false
  is_expired s (some labels) =
      if is_certificate (lookup "iams.secret" labels)
      then late_at s (lookup "iams.certificate.expire" labels)
      else ok false

  abbrev pub agent_of : Option (Dict String) → String
  agent_of none = "None"
  agent_of (some labels) = agent_text (lookup "iams.agent" labels)

  -- `secrets[str(agent)].append(secret)`, of which only the keys are returned
  abbrev pub note_expired : Secret → List String → Result Bool → Result (List String)
  note_expired secret keys (ok expired) =
      ok (if expired then add_key (agent_of secret.labels) keys else keys)
  note_expired secret keys (err x) = err x

  unfoldable pub collect_expired : W.State → List Secret → List String → Result (List String)
  unfolding is_expired add_key
  collect_expired s [] keys = ok keys
  collect_expired s (secret ∷ secrets) keys =
      elim (note_expired secret keys (is_expired s secret.labels)) [
        | ok keys ↦ collect_expired s secrets keys
        | err x ↦ err x
      ]

  unfoldable pub get_expired : W.State → Result (List String)
  unfolding collect_expired
  get_expired s = elim (W.secrets_list s (label_is stack_label self.namespace ∷ [])) [
    | ok secrets ↦ collect_expired s secrets []
    | err x ↦ err x
  ]
