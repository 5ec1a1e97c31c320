-- ===== src/Runtime/Refusals.antt =====
-- The errors that the runtime of iams/runtime.py raises before it has asked the docker daemon to change
-- anything.
use industrial_ams.Base.{◌≡◌, refl, Bool, false, inl, inr, none, some, String}
use industrial_ams.Py.{Error, ok, err, image_not_found, type_error, Result-cases}
use industrial_ams.Py.Dict.{Dict, lookup}
use industrial_ams.Runtime.{World, Runtime, Request}
use industrial_ams.Runtime.Agents.{unpack_service, wake_agent, sleep_agent, get_service}
use industrial_ams.Runtime.Update.{
  Found, plan, find_agent, Change, creation, replacement, image_name,
}
use industrial_ams.Runtime.Apply.{update_agent, change_if, change_agent, prepare}

abbrev pub request_of : Change → Request
request_of (creation request scale) = request
request_of (replacement service request scale) = request

module _ (W : World) (self : Runtime W) where
  unpack_service-raises :
      (name : String) (s : W.State) → (x : Error) × (unpack_service W self name s ≡ err x)
  unfolding unpack_service
  unpack_service-raises name s = elim (Result-cases (get_service W self name s)) [
    | inl (found, eq) ↦ (type_error, rw (eq, unpack_service) refl)
    | inr (x, eq) ↦ (x, rw (eq, unpack_service) refl)
  ]

  -- No agent can be woken or put to sleep: both calls raise for every name, and scale nothing.
  pub wake_agent-raises :
      (name : String) (s : W.State)
      → (x : Error) × (wake_agent W self name s ≡ (err x, s))
        × (sleep_agent W self name s ≡ (err x, s))
  unfolding wake_agent sleep_agent
  wake_agent-raises name s =
      let (x, eq) = unpack_service-raises name s in (x, rw eq refl, rw eq refl)

  prepare_unlabelled :
      (request : Request) (s : W.State) (labels : Dict String)
      → W.image_labels s (image_name request) ≡ ok labels
      → lookup "iams.services.agent" labels ≡ none
      → prepare W self request false s ≡ (err image_not_found, s)
  unfolding prepare
  prepare_unlabelled request s labels h k = rw (h, k) refl

  change_if_unlabelled :
      (change : Change) (s : W.State) (labels : Dict String)
      → W.image_labels s (image_name (request_of change)) ≡ ok labels
      → lookup "iams.services.agent" labels ≡ none
      → change_if W self false (some change) s ≡ (err image_not_found, s)
  unfolding change_if change_agent
  change_if_unlabelled (creation request scale) s labels h k =
      rw (prepare_unlabelled request s labels h k) refl
  change_if_unlabelled (replacement service request scale) s labels h k =
      rw (prepare_unlabelled request s labels h k) refl

  -- If a change is due and the image of the filled-in request has no label `iams.services.agent`, then
  -- `update_agent` raises ImageNotFound and has asked the docker daemon to change nothing; the label is
  -- tested whether the service is created or replaced.
  pub update_agent_unlabelled :
      (request : Request) (create forced : Bool) (s : W.State) (found : Found) (change : Change)
      (labels : Dict String)
      → find_agent W self request s ≡ ok found
      → plan request create forced found ≡ ok (some change)
      → W.image_labels s (image_name (request_of change)) ≡ ok labels
      → lookup "iams.services.agent" labels ≡ none
      → update_agent W self request create forced false s ≡ (err image_not_found, s)
  unfolding update_agent
  update_agent_unlabelled request create forced s found change labels hf hp hl hn =
      rw (hf, hp) (change_if_unlabelled change s labels hl hn)
