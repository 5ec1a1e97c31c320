-- ===== src/Servicer.antt =====
-- The gRPC servicers of iams/servicer.py, and the decorator `credentials` of iams/utils/grpc.py,
-- which they apply to the context. The context and the thread pool are those of the package grpc
-- and of Python.
pub mod Answers
mod Tests
use industrial_ams.Base.{
  ℕ, String, Bool, true, false, not, ◌||◌, Option, none, some, List, [], ◌∷◌, if◌then◌else◌,
}
use industrial_ams.Py.{
  Error, Result, ok, err, Method, aborted, invalid_argument, missing, unauthenticated, StatusCode,
  attribute_error, type_error, not_implemented, not_found, image_not_found, invalid_agent_name,
}
use industrial_ams.Py.Calls.{continue, ◌>>=◌, ◌>>◌, give, lift}
use industrial_ams.Py.Text.{same_text, is_written}
use industrial_ams.Runtime.{World, Runtime, Request, text, bytes, integer}
use industrial_ams.Runtime.Names.{get_valid_agent_name}
use industrial_ams.Runtime.Agents.{named, delete_agent, sleep_agent, wake_agent}
use industrial_ams.Runtime.Apply.{update_agent}

-- What the code has of a call: its context, or the function that `credentials(context)` returns
pub data Handle : Type 0 where
  the_context the_function : Handle

-- `handle.abort(code, message)`: a function has no such attribute.
abbrev pub abort : Handle → StatusCode → Error
abort the_context code = aborted code
abort the_function code = attribute_error

-- `framework_pb2.AgentData(name=name)`: a field of proto3 that is not given is not None.
abbrev pub agent_data : String → Request
agent_data name = record {
  name = name;
  image = some "";
  version = some "";
  address = some "";
  port = some (integer 0);
  config = some (bytes "");
  autostart = false;
  constraints = [];
  preferences = [];
}

pub record RenewRequest : Type 0 where
  pub name : String
  pub hard : Bool

-- What `renew` answers: a task for the thread pool, or the certificate and the key
pub data Renewal : Type 0 where
  submitted : Request → Renewal
  renewed : Option (String × String) → Renewal

-- A context, as the decorator reads it: the attribute `credentials`, where it is a set, and the
-- identities of the peer, which may be None
pub record Context : Type 0 where
  pub credentials : Option (List String)
  pub peer_identities : Option (List String)

unfoldable pub is_local : String → Bool
is_local x = same_text x "127.0.0.1" || same_text x "localhost"

-- The set of the identities that are not local
unfoldable pub peers : List String → List String
unfolding is_local
peers [] = []
peers (x ∷ xs) = let rest = peers xs in if is_local x then rest else x ∷ rest

-- `wrapped` in `credentials`, of a handler and its context
unfoldable pub credentials_call {κ ℓ} :
    {S : Type κ} {A : Type ℓ}
    → Bool
    → (Context → Method S A)
    → Option (List String)
    → Option (List String)
    → Method S A
unfolding peers
credentials_call optional handler (some set) identities s =
    handler (record { credentials = some set; peer_identities = identities }) s
credentials_call optional handler none (some identities) s =
    handler (record { credentials = some (peers identities); peer_identities = some identities }) s
credentials_call optional handler none none s =
    if optional
    then handler (record { credentials = some []; peer_identities = none }) s
    else (err (aborted unauthenticated), s)

abbrev pub wrapped {κ ℓ} :
    {S : Type κ} {A : Type ℓ} → Bool → (Context → Method S A) → Context → Method S A
wrapped optional handler context =
    credentials_call optional handler context.credentials context.peer_identities

module _ (W : World) (self : Runtime W) where
  -- `except InvalidAgentName`
  abbrev name_or_abort : Handle → Result String → Result String
  name_or_abort context (ok name) = ok name
  name_or_abort context (err invalid_agent_name) = err (abort context invalid_argument)
  name_or_abort context (err x) = err x

  abbrev given_name : Handle → Option Handle → Option String → Result String
  given_name context none none = err (abort context invalid_argument)
  given_name context (some identities) none = err type_error
  given_name context identities (some name) =
      name_or_abort context (get_valid_agent_name self.iams_namespace name)

  -- `get_agent_name`, with its parameters in the order of its signature. Identities are a handle, which a
  -- request's name cannot be set to; a name of proto3 is not None.
  unfoldable pub get_agent_name : Option Handle → Handle → Option String → Result String
  get_agent_name identities context name = given_name context identities name

  -- `self.get_agent_name(context, identities, request.name)`
  unfoldable pub called_name : String → Result String
  unfolding get_agent_name
  called_name name = get_agent_name (some the_context) the_function (some name)

  abbrev found_or_abort {ℓ} : {A : Type ℓ} → Result A × W.State → Result A × W.State
  found_or_abort (ok a, s) = (ok a, s)
  found_or_abort (err image_not_found, s) = (err (aborted invalid_argument), s)
  found_or_abort (err not_found, s) = (err (aborted missing), s)
  found_or_abort (err x, s) = (err x, s)

  -- RPC `update`: the answer is the name.
  unfoldable pub update : Request → Method W.State String
  unfolding called_name
  update request = do
    name ← lift (called_name request.name)
    created ← λ s.
        found_or_abort (update_agent W self (record request { name = name }) false false false s)
    give name

  -- RPC `create`
  pub create : Request → Method W.State (Unit {0})
  create request = lift (err not_implemented)

  -- RPC `upgrade`
  unfoldable pub upgrade : String → Method W.State (Unit {0})
  upgrade name = do created ← update_agent W self (agent_data name) false true false; give tt

  -- `except docker_errors.NotFound` around the name
  abbrev name_found : Result String → Result String
  name_found (ok name) = ok name
  name_found (err not_found) = err (aborted missing)
  name_found (err image_not_found) = err (aborted missing)
  name_found (err x) = err x

  -- RPC `destroy`
  unfoldable pub destroy : String → Method W.State (Unit {0})
  unfolding called_name
  destroy name = do
    valid ← lift (name_found (called_name name))
    deleted ← delete_agent W self (named valid)
    give tt

  -- RPC `sleep`
  unfoldable pub sleep : String → Method W.State (Unit {0})
  unfolding called_name
  sleep name = do valid ← lift (name_found (called_name name)); sleep_agent W self valid; give tt

  -- RPC `wake`
  unfoldable pub wake : String → Method W.State (Unit {0})
  unfolding called_name
  wake name = do valid ← lift (name_found (called_name name)); wake_agent W self valid; give tt

  -- The rest of `renew`, once the request has its name
  finish_renewal : RenewRequest → Result Renewal
  finish_renewal request =
      if not (is_written request.name)
      then err (aborted invalid_argument)
      else (if request.hard
          then ok (submitted (agent_data request.name))
          else (elim (W.get_agent_certificate request.name) [
            | ok pair ↦ ok (renewed pair)
            | err x ↦ err x
          ]))

  -- `renew`, of what `credentials(context)` returned and of the context's own credentials: a set
  -- cannot be the name of a request.
  unfoldable pub renew_as :
      (String → Bool) → Option Handle → Option (List String) → RenewRequest → Result Renewal
  unfolding finish_renewal
  renew_as validate_certificate (some identities) none request = err attribute_error
  renew_as validate_certificate (some identities) (some set) request = err type_error
  renew_as validate_certificate none credentials request =
      if validate_certificate request.name
      then err (aborted unauthenticated)
      else finish_renewal (record request { hard = true })

  -- RPC `renew`
  unfoldable pub renew : (String → Bool) → Context → RenewRequest → Result Renewal
  unfolding renew_as
  renew validate_certificate context request =
      renew_as validate_certificate (some the_function) context.credentials request
