-- ===== src/Runtime/Update.antt =====
-- `DockerSwarmRuntime.update_agent` in iams/runtime.py. The request that it fills in is passed on as a
-- value: its callers read no more than the name, the image and the version of it.
use industrial_ams.Base.{
  suc, ℕ, zero, suc, String, Bool, true, false, not, ◌&&◌, ◌||◌, Option, none, some, List,
  if◌then◌else◌,
}
use Prim.Native.String.{◌++◌ as ◌+++◌}
use industrial_ams.Py.{
  Result, ok, err, not_found, image_not_found, key_error, value_error, raise_if,
}
use industrial_ams.Py.Text.{same_text, is_written}
use industrial_ams.Runtime.{same_field, text, World, Runtime, Service, Field, bytes, Request}
use industrial_ams.Runtime.Agents.{service, get_service, get_agent_config}
use industrial_ams.Runtime.Names.{read_env, get_image_version}

-- What is read of the service that is there
pub record Current : Type 0 where
  pub scale : ℕ
  pub image : String
  pub version : String
  pub address : Option String
  pub port : Option Field
  pub config : Option Field

pub data Found : Type 0 where
  absent : Found
  present : Service → Current → Found

-- `int(request.autostart)`
abbrev pub as_int : Bool → ℕ
as_int true = 1
as_int false = 0

-- `replicas or int(request.autostart)`
abbrev pub scale_or : ℕ → Bool → ℕ
scale_or zero autostart = as_int autostart
scale_or (suc n) autostart = suc n

abbrev as_text : Option String → Option Field
as_text (some s) = some (text s)
as_text none = none

abbrev as_bytes : Option String → Option Field
as_bytes (some s) = some (bytes s)
as_bytes none = none

-- `a == b` where a side may be None
abbrev pub same_option {ℓ} : {A : Type ℓ} → (A → A → Bool) → Option A → Option A → Bool
same_option same none none = true
same_option same (some a) (some b) = same a b
same_option same _ _ = false

-- `if request.x is None: request.x = x elif request.x != x: update = True`
unfoldable pub merged {ℓ} : {A : Type ℓ} → (A → A → Bool) → Option A → Option A → Option A × Bool
merged same none current = (current, false)
merged same (some v) current = (some v, not (same_option same (some v) current))

-- A config that differs and is `'-'` is taken away.
abbrev pub without_dash : Option Field × Bool → Option Field × Bool
without_dash (some (text s), true) = if same_text s "-" then (none, true) else (some (text s), true)
without_dash (config, differs) = (config, differs)

unfoldable pub merge : Request → Current → Request × Bool
unfolding merged
merge request current =
    let image = merged same_text request.image (some current.image) in
    let version = merged same_text request.version (some current.version) in
    let address = merged same_text request.address current.address in
    let port = merged same_field request.port current.port in
    let config = without_dash (merged same_field request.config current.config) in
    (
      record request {
        image = image.0;
        version = version.0;
        address = address.0;
        port = port.0;
        config = config.0;
      },
      image.1 || version.1 || address.1 || port.1 || config.1,
    )

-- `not request.image or not request.version` is false.
abbrev pub is_set_text : Option String → Bool
is_set_text (some s) = is_written s
is_set_text none = false

abbrev pub text_of : Option String → String
text_of (some s) = s
text_of none = "None"

-- `f'{request.image!s}:{request.version!s}'`
abbrev pub image_name : Request → String
image_name request = text_of request.image +++ (":" +++ text_of request.version)

-- What is to be done with which request: `create` or `update`
pub data Change : Type 0 where
  creation : Request → ℕ → Change
  replacement : Service → Request → ℕ → Change

unfoldable pub checked : Request → Result (Unit {0})
checked request =
    raise_if (not (is_set_text request.image && is_set_text request.version)) value_error

abbrev pub planned : Result (Unit {0}) → Option Change → Result (Option Change)
planned (ok u) change = ok change
planned (err x) change = err x

-- The two ValueErrors, and None where nothing changes, of a service that is there
unfoldable pub replan : Service → Request → ℕ → Bool → Bool → Result (Option Change)
unfolding checked
replan found request scale create changed =
    if create && changed
    then err value_error
    else planned (checked request) (
        if create
        then some (creation request scale)
        else (if changed then some (replacement found request scale) else none))

-- The same of every agent: a service that is absent is created.
unfoldable pub plan : Request → Bool → Bool → Found → Result (Option Change)
unfolding replan checked merge
plan request create forced absent =
    if forced
    then err value_error
    else planned (checked request) (some (creation request (as_int request.autostart)))
plan request create forced (present found current) =
    let (request', differs) = merge request current in
    replan found request' current.scale create (forced || differs)

module _ (W : World) (self : Runtime W) where
  abbrev current_of :
      Service
      → Bool
      → Option ℕ
      → Option (String × String)
      → Option (List String)
      → Result (Option String)
      → Result Found
  current_of found autostart none image env config = err key_error
  current_of found autostart (some n) none env config = err value_error
  current_of found autostart (some n) (some iv) none config = err key_error
  current_of found autostart (some n) (some (image, version)) (some env) (err x) = err x
  current_of found autostart (some n) (some (image, version)) (some env) (ok config) =
      let (address, port) = read_env env (none, none) in
      ok (
        present found (record {
          scale = scale_or n autostart;
          image = image;
          version = version;
          address = address;
          port = as_text port;
          config = as_bytes config;
        }))

  -- The reads of the `try` block
  unfoldable pub read_service : Request → W.State → Result Found
  unfolding get_service get_agent_config get_image_version read_env
  read_service request s = elim (get_service W self request.name s) [
    | ok found ↦
        current_of found request.autostart found.replicas (get_image_version found) found.env
          (get_agent_config W self (service found) s)
    | err x ↦ err x
  ]

  -- `except docker.errors.NotFound`
  unfoldable pub find_agent : Request → W.State → Result Found
  unfolding read_service
  find_agent request s = elim (read_service request s) [
    | ok found ↦ ok found
    | err not_found ↦ ok absent
    | err image_not_found ↦ ok absent
    | err x ↦ err x
  ]
