-- ===== src/Runtime.antt =====
-- The Docker runtime of iams/runtime.py and its interface in iams/interfaces/runtime.py: the objects that
-- `DockerSwarmRuntime` reads and writes. The docker daemon, the packages docker, hashlib, base64 and
-- cryptography and the certificate authority are the fields of a `World` whose state is not known.
pub mod Names
pub mod Naming
pub mod Picked
pub mod Unchanged
pub mod Created
pub mod Refusals
pub mod Agents
pub mod Secrets
pub mod Expiry
pub mod Update
pub mod Apply
pub mod Memory
mod Tests
use industrial_ams.Base.Int.{ℤ}
use Prim.Native.String.{count, ◌++◌ as ◌+++◌}
use industrial_ams.Base.{
  ◌+◌, ℕ, zero, suc, Bool, true, false, String, Option, none, some, List, [], ◌∷◌, ◌++◌, ◌==◌,
}
use industrial_ams.Py.{Result, Method}
use industrial_ams.Py.Text.{same_text, is_written, slice_from}
use industrial_ams.Py.Dict.{Dict}

-- A value of a request: `str`, `bytes` or `int`
pub data Field : Type 0 where
  text bytes : String → Field
  integer : ℕ → Field

-- `bool(v)`
abbrev pub is_given : Field → Bool
is_given (text s) = is_written s
is_given (bytes s) = is_written s
is_given (integer zero) = false
is_given (integer (suc n)) = true

-- `v == w`
abbrev pub same_field : Field → Field → Bool
same_field (text s) (text t) = same_text s t
same_field (bytes s) (bytes t) = same_text s t
same_field (integer m) (integer n) = m == n
same_field _ _ = false

-- A service of the swarm, with the parts of `attrs['Spec']` that are read; a service that is not
-- replicated has no `replicas`, one without variables has no `env`.
pub record Service : Type 0 where
  pub id : String
  pub name : String
  pub image : String
  pub version : ℕ
  pub replicas : Option ℕ
  pub env : Option (List String)

-- A secret with `attrs['Spec']['Labels']`, which may be missing
pub record Secret : Type 0 where
  pub id : String
  pub name : String
  pub labels : Option (Dict String)

-- A config; its data is in base64.
pub record Config : Type 0 where
  pub id : String
  pub name : String
  pub data_base64 : String

-- `docker.types.SecretReference` and `ConfigReference`
pub record Reference : Type 0 where
  pub id : String
  pub name : String
  pub filename : String

-- The arguments of `create_service` and `update_service`, with the ones that are the same in each
-- call left out: `init=True` and the log driver.
pub record Spec : Type 0 where
  pub name : String
  pub image : String
  pub labels : Dict String
  pub env : Dict Field
  pub configs : List Reference
  pub secrets : List Reference
  pub networks : List String
  pub constraints : List String
  pub preferences : List String
  pub replicas : ℕ

-- A secret that a plugin generates: `(secret_name, filename, data, additional)`
pub record Generated : Type 0 where
  pub secret_name : String
  pub filename : String
  pub content : String
  pub additional : Dict String

-- What calling a plugin returns: `(e, l, n, s, g)`
pub record Additions : Type 0 where
  pub env : Dict Field
  pub labels : Dict String
  pub networks : List String
  pub secrets : Dict String
  pub generated : List Generated

-- `framework_pb2.AgentData`, or an object with its attributes
pub record Request : Type 0 where
  pub name : String
  pub image : Option String
  pub version : Option String
  pub address : Option String
  pub port : Option Field
  pub config : Option Field
  pub autostart : Bool
  pub constraints : List String
  pub preferences : List String

-- What the runtime calls: a read may raise, a call that writes may raise and changes the state.
pub record World : Type 1 where
  pub State : Type 0
  pub services_list : State → String → List String → Result (List Service)
  pub secrets_list : State → List String → Result (List Secret)
  pub configs_list : State → Option String → List String → Result (List Config)
  pub secrets_get : State → String → Result Secret
  pub image_labels : State → String → Result (Dict String)
  pub create_secret : String → String → Dict String → Method State Secret
  pub create_config : String → String → Dict String → Method State Config
  pub create_service : Spec → Method State (Unit {0})
  pub update_service : String → ℕ → Spec → Method State (Unit {0})
  pub scale : Service → ℕ → Method State (Unit {0})
  pub remove_service : Service → Method State (Unit {0})
  pub remove_secret : Secret → Method State (Unit {0})
  pub remove_config : Config → Method State (Unit {0})
  pub md5 : String → String
  pub decode_base64 : String → Result String
  pub get_ca_secret : Dict String → String → Result (Dict String)
  pub get_agent_certificate : String → Result (Option (String × String))
  pub not_valid_after : String → Result String
  -- `(datetime.fromisoformat(text) - now).days`; `none` is a ValueError.
  pub days_left : State → String → Option ℤ

-- `interfaces/plugin.py`: a plugin's methods, which its subclasses define
pub record Plugin (W : World) : Type 0 where
  pub label : Option String
  pub call : String → String → String → String → Method W.State Additions
  pub remove : Service → Option String → Method W.State (Unit {0})

-- `DockerSwarmRuntime`, after `__call__`; `network` is the environment's IAMS_NETWORK.
pub record Runtime (W : World) : Type 0 where
  pub iams_namespace : String
  pub namespace : String
  pub servername : String
  pub network : Option String
  pub plugins : List (Plugin W)

-- `self.label`
abbrev pub stack_label : String
stack_label = "com.docker.stack.namespace"

-- `os.environ.get(key, default)`
abbrev given_or : String → Option String → String
given_or default none = default
given_or default (some v) = v

-- The runtime after `__init__` and `__call__`, of IAMS_NAMESPACE, IAMS_NETWORK and the names of the
-- stack and of the service that its own container has for labels
unfoldable pub started : (W : World) → Option String → Option String → String → String → Runtime W
unfolding slice_from
started W iams_namespace network namespace service = record {
  iams_namespace = given_or "prod" iams_namespace;
  namespace = namespace;
  servername = "tasks." +++ slice_from (count namespace + 1) service;
  network = network;
  plugins = [];
}

-- `RuntimeInterface.register_plugin`, of an instance of `Plugin`
unfoldable pub register_plugin : (W : World) → Plugin W → Runtime W → Runtime W
register_plugin W plugin self = record self { plugins = self.plugins ++ (plugin ∷ []) }

module _ (W : World) (self : Runtime W) where
  -- `get_address`: the port is None.
  pub get_address : String × Option ℕ
  get_address = (self.servername, none)

  pub get_namespace : String
  get_namespace = self.namespace
