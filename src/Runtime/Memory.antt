-- ===== src/Runtime/Memory.antt =====
-- A docker daemon in memory, for the tests: every secret and config is the agent's, a checksum is the
-- data's length, and every certificate date but "soon" is far.
use industrial_ams.Base.{String, none, some, List, [], ◌∷◌, if◌then◌else◌}
use industrial_ams.Base.Int.{pos}
use industrial_ams.Py.{Result, ok, err, not_found}
use industrial_ams.Py.Text.{same_text}
use industrial_ams.Py.Dict.{Dict}
use industrial_ams.Runtime.{World, Runtime, Service, Secret, Config, Spec}

pub record Daemon : Type 0 where
  pub services : List Service
  pub secrets : List Secret
  pub configs : List Config

abbrev services_named : String → List Service → List Service
services_named name [] = []
services_named name (x ∷ xs) =
    let rest = services_named name xs in if same_text x.name name then x ∷ rest else rest

abbrev started_service : Spec → Service
started_service spec = record {
  id = spec.name;
  name = spec.name;
  image = spec.image;
  version = 1;
  replicas = some spec.replicas;
  env = some ("IAMS_ADDRESS=host" ∷ []);
}

-- The images `plain` have no labels.
abbrev labels_of : String → Result (Dict String)
labels_of image = if same_text image "plain:1" then ok [] else ok (("iams.services.agent", "") ∷ [])

abbrev pub daemon : World
daemon = record {
  State = Daemon;
  services_list = λ s name labels. ok (services_named name s.services);
  secrets_list = λ s labels. ok s.secrets;
  configs_list = λ s name labels. ok s.configs;
  secrets_get = λ s key. err not_found;
  image_labels = λ s image. labels_of image;
  create_secret = λ name content labels s.
      let secret : Secret = record { id = name; name = name; labels = some labels } in
      (ok secret, record s { secrets = secret ∷ s.secrets });
  create_config = λ name content labels s.
      let config : Config = record { id = name; name = name; data_base64 = content } in
      (ok config, record s { configs = config ∷ s.configs });
  create_service = λ spec s. (ok tt, record s { services = started_service spec ∷ s.services });
  update_service = λ id version spec s. (ok tt, s);
  scale = λ service n s. (ok tt, s);
  remove_service = λ service s. (ok tt, record s { services = [] });
  remove_secret = λ secret s. (ok tt, record s { secrets = [] });
  remove_config = λ config s. (ok tt, record s { configs = [] });
  md5 = λ content. "0123456789";
  decode_base64 = λ content. ok content;
  get_ca_secret = λ secrets namespace. ok secrets;
  get_agent_certificate = λ name. ok none;
  not_valid_after = λ certificate. ok "2030-01-01";
  days_left = λ s date. if same_text date "soon" then some (pos 2) else some (pos 300);
}

abbrev pub runtime : Runtime daemon
runtime = record {
  iams_namespace = "prod";
  namespace = "stack";
  servername = "tasks.iams";
  network = none;
  plugins = [];
}

abbrev pub running : Service
running = record {
  id = "1";
  name = "prod_a1";
  image = "worker:1";
  version = 7;
  replicas = some 1;
  env = some ("IAMS_ADDRESS=host" ∷ []);
}

abbrev secret_of : String → String → String → Secret
secret_of name agent expire = record {
  id = name;
  name = name;
  labels = some (
      ("iams.agent", agent)
      ∷ ("iams.secret", "peer.crt")
      ∷ ("iams.certificate.expire", expire)
      ∷ []);
}

abbrev pub swarm : Daemon
swarm = record {
  services = running ∷ [];
  secrets =
      secret_of "prod_a1_peer.crt_01234567" "prod_a1" "soon"
      ∷ secret_of "other" "prod_a2" "late"
      ∷ [];
  configs = [];
}

abbrev pub empty_swarm : Daemon
empty_swarm = record { services = []; secrets = []; configs = [] }
