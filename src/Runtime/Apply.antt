-- ===== src/Runtime/Apply.antt =====
-- What `DockerSwarmRuntime.update_agent` in iams/runtime.py does with the docker daemon once a change is
-- planned. A set of networks is a list without duplicates, in the order in which they were added.
use industrial_ams.Base.{
  ℕ, String, Bool, true, false, not, ◌&&◌, Option, none, some, List, [], ◌∷◌, if◌then◌else◌, ◌++◌,
  is_some,
}
use industrial_ams.Py.{Result, ok, err, Method, image_not_found, raise_if, type_error}
use industrial_ams.Py.Calls.{◌>>=◌, ◌>>◌, give, ask, lift, for_each}
use industrial_ams.Py.Dict.{Dict, lookup, update, add_key}
use industrial_ams.Py.Text.{is_written}
use industrial_ams.Runtime.{
  World, Runtime, Secret, Config, Plugin, stack_label, Field, is_given, bytes, text, Request,
  Additions, Generated, Reference, Spec,
}
use industrial_ams.Runtime.Secrets.{set_secret, set_config}
use industrial_ams.Runtime.Update.{
  Change, creation, replacement, find_agent, plan, image_name, text_of,
}

abbrev add_keys : List String → List String → List String
add_keys [] found = found
add_keys (k ∷ ks) found = add_keys ks (add_key k found)

-- `for plugin in self.plugins` accumulates what the plugins add.
unfoldable pub combine : Additions → Additions → Additions
unfolding add_key
combine all more = record {
  env = update all.env more.env;
  labels = update all.labels more.labels;
  networks = add_keys more.networks all.networks;
  secrets = update all.secrets more.secrets;
  generated = all.generated ++ more.generated;
}

abbrev pub no_additions : Additions
no_additions = record { env = []; labels = []; networks = []; secrets = []; generated = [] }

abbrev reference : String → Secret → Reference
reference filename secret = record { id = secret.id; name = secret.name; filename = filename }

-- `if request.config`: the data of a `str` or an `int` cannot be hashed.
abbrev used_config : Option Field → Result (Option String)
used_config none = ok none
used_config (some (bytes s)) = ok (if is_written s then some s else none)
used_config (some v) = if is_given v then err type_error else ok none

abbrev address_env : Option String → Dict Field
address_env none = []
address_env (some s) = if is_written s then ("IAMS_ADDRESS", text s) ∷ [] else []

abbrev port_env : Option Field → Dict Field
port_env none = []
port_env (some v) = if is_given v then ("IAMS_PORT", v) ∷ [] else []

-- `request.preferences.append("node.labels.worker")` where there is none
abbrev preferences_of : List String → List String
preferences_of [] = "node.labels.worker" ∷ []
preferences_of ps = ps

abbrev config_reference : Option Config → List Reference
config_reference none = []
config_reference (some config) =
    record { id = config.id; name = config.name; filename = "/config" } ∷ []

-- Everything that goes into the arguments of the last call
pub record Parts : Type 0 where
  pub additions : Additions
  pub secrets : List Reference
  pub configs : List Reference
  pub old_secrets : List Secret
  pub old_configs : List Config

module _ (W : World) (self : Runtime W) where
  -- A plugin is called when the image has its label; no image has the label None.
  apply_plugins : Request → Dict String → List (Plugin W) → Additions → Method W.State Additions
  unfolding combine lookup
  apply_plugins request labels [] all = give all
  apply_plugins request labels (plugin ∷ plugins) all = elim plugin.label [
    | none ↦ apply_plugins request labels plugins all
    | some label ↦ (elim (lookup label labels) [
      | some argument ↦
          (plugin.call request.name (text_of request.image) (text_of request.version) argument
            >>= λ more. apply_plugins request labels plugins (combine all more))
      | none ↦ apply_plugins request labels plugins all
    ])
  ]

  -- The certificate and the key, where the authority gives them
  certificate_secrets : Option (String × String) → Result (List Generated)
  certificate_secrets none = ok []
  certificate_secrets (some (certificate, private_key)) = elim (W.not_valid_after certificate) [
    | ok expire ↦ ok (
        record {
          secret_name = "peer.crt";
          filename = "peer.crt";
          content = certificate;
          additional = ("iams.certificate.expire", expire) ∷ [];
        }
        ∷ record {
          secret_name = "peer.key";
          filename = "peer.key";
          content = private_key;
          additional = ("iams.certificate.expire", expire) ∷ [];
        }
        ∷ [])
    | err x ↦ err x
  ]

  -- The loop over `generated`: the references, and the old secrets
  set_secrets : String → List Generated → Method W.State (List Reference × List Secret)
  unfolding set_secret
  set_secrets name [] = give ([], [])
  set_secrets name (g ∷ gs) = do
    set ← set_secret W self name g.secret_name g.content g.additional
    rest ← set_secrets name gs
    give (reference g.filename set.0 ∷ rest.0, set.1 ++ rest.1)

  -- The loop over the preconfigured secrets
  get_secrets : Dict String → Method W.State (List Reference)
  get_secrets [] = give []
  get_secrets ((key, filename) ∷ rest) = do
    secret ← ask (λ s. W.secrets_get s key)
    references ← get_secrets rest
    give (reference filename secret ∷ references)

  set_used_config : String → Option String → Method W.State (List Reference × List Config)
  unfolding set_config
  set_used_config name none = give ([], [])
  set_used_config name (some content) = do
    set ← set_config W self name content
    give (config_reference set.0, set.1)

  unfoldable pub gather : Request → Dict String → Method W.State Parts
  unfolding apply_plugins certificate_secrets set_secrets get_secrets set_used_config
  gather request labels = do
    additions ← apply_plugins request labels self.plugins no_additions
    secrets ← lift (W.get_ca_secret additions.secrets self.namespace)
    pair ← lift (W.get_agent_certificate request.name)
    certificate ← lift (certificate_secrets pair)
    set ← set_secrets request.name (additions.generated ++ certificate)
    references ← get_secrets secrets
    content ← lift (used_config request.config)
    config ← set_used_config request.name content
    give (record {
      additions = additions;
      secrets = set.0 ++ references;
      configs = config.0;
      old_secrets = set.1;
      old_configs = config.1;
    })

  -- The labels of the service
  unfoldable pub service_labels : Request → Dict String → Dict String
  service_labels request labels = update labels (
      (stack_label, self.namespace)
      ∷ ("iams.namespace", self.iams_namespace)
      ∷ ("iams.agent", request.name)
      ∷ ("iams.image", text_of request.image)
      ∷ [])

  unfoldable pub service_env : Request → Dict Field → Dict Field
  service_env request env =
      update (update (update env (address_env request.address)) (port_env request.port))
        (("IAMS_AGENT", text request.name) ∷ ("IAMS_SERVICE", text self.servername) ∷ [])

  abbrev with_network : Option String → List String → List String
  with_network none networks = networks
  with_network (some network) networks = add_key network networks

  unfoldable pub make_spec : Request → ℕ → Parts → Spec
  unfolding service_labels service_env add_key
  make_spec request scale parts = record {
    name = request.name;
    image = image_name request;
    labels = service_labels request parts.additions.labels;
    env = service_env request parts.additions.env;
    configs = parts.configs;
    secrets = parts.secrets;
    networks = with_network self.network parts.additions.networks;
    constraints = request.constraints;
    preferences = preferences_of request.preferences;
    replicas = scale;
  }

  -- From the test of the image to the arguments of the last call
  unfoldable pub prepare : Request → Bool → Method W.State Parts
  unfolding gather
  prepare request skip_label_test = do
    labels ← ask (λ s. W.image_labels s (image_name request))
    lift (
        raise_if (not skip_label_test && not (is_some (lookup "iams.services.agent" labels)))
          image_not_found)
    gather request labels

  -- A service is created, or replaced and then its old secrets and configs are removed.
  unfoldable pub change_agent : Bool → Change → Method W.State (Option Bool)
  unfolding prepare make_spec
  change_agent skip (creation request scale) = do
    parts ← prepare request skip
    W.create_service (make_spec request scale parts)
    give (some true)
  change_agent skip (replacement found request scale) = do
    parts ← prepare request skip
    W.update_service found.id found.version (make_spec request scale parts)
    for_each W.remove_secret parts.old_secrets
    for_each W.remove_config parts.old_configs
    give (some false)

  unfoldable pub change_if : Bool → Option Change → Method W.State (Option Bool)
  unfolding change_agent
  change_if skip none = give none
  change_if skip (some change) = change_agent skip change

  unfoldable pub update_agent : Request → Bool → Bool → Bool → Method W.State (Option Bool)
  unfolding find_agent plan change_if
  update_agent request create forced skip_label_test = do
    found ← ask (find_agent W self request)
    change ← lift (plan request create forced found)
    change_if skip_label_test change
