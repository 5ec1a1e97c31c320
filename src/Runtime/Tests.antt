-- ===== src/Runtime/Tests.antt =====
-- The theorems about the runtime at a docker daemon in memory.
use industrial_ams.Base.{String, ◌≡◌, refl, inl, inr, ◌⊎◌, ◌↔◌, true, false, none, some, [], ◌∷◌}
use industrial_ams.Base.{◌⊎◌}
use industrial_ams.Py.{ok}
use industrial_ams.Py.Calls.{for_each}
use industrial_ams.Py.Dict.{lookup, Dict}
use industrial_ams.Runtime.{Request, Service, integer}
use industrial_ams.Runtime.Names.{get_image_version}
use industrial_ams.Runtime.Naming.{get_image_version-image_name}
use industrial_ams.Runtime.Memory.{daemon, runtime, running, swarm, empty_swarm, Daemon}
use industrial_ams.Runtime.Secrets.{get_expired}
use industrial_ams.Runtime.Update.{Current, absent, present, find_agent, plan, creation}
use industrial_ams.Runtime.Apply.{update_agent}
use industrial_ams.Runtime.Unchanged.{update_agent-none, IsUnchanged}
use industrial_ams.Runtime.Expiry.{has, get_expired-has, SomeDue}

abbrev request : Request
request = record {
  name = "prod_a1";
  image = some "worker";
  version = none;
  address = none;
  port = none;
  config = none;
  autostart = true;
  constraints = [];
  preferences = [];
}

abbrev registry : Service
registry = record running { image = "r:5/a:v1@sha" }

get_image_version-image_name_example : get_image_version registry ≡ some ("r:5/a", "v1")
get_image_version-image_name_example =
    get_image_version-image_name registry
      (record request { image = some "r:5/a"; version = some "v1" }) "r:5/a" "v1" "sha" refl refl
      (refl, (refl, (refl, (refl, (refl, tt))))) (refl, (refl, tt)) (refl, (refl, tt)) (inr refl)

abbrev current : Current
current = record {
  scale = 1;
  image = "worker";
  version = "1";
  address = some "host";
  port = none;
  config = none;
}

found_agent : find_agent daemon runtime request swarm ≡ ok (present running current)
unfolding find_agent
found_agent = refl

unchanged : IsUnchanged request current
unchanged = record {
  image = inr refl;
  version = inl refl;
  address = inl refl;
  port = inl refl;
  config = inl refl;
  image_set = refl;
  version_set = refl;
}

update_agent-none_example :
    (update_agent daemon runtime request false false false swarm ≡ (ok none, swarm)) ↔ (
      (false ≡ false)
      × (false ≡ false)
      × (swarm ≡ swarm)
      × (service : Service) × (current : Current) × (find_agent daemon runtime request swarm
          ≡ ok (present service current))
      × IsUnchanged request current)
update_agent-none_example = update_agent-none daemon runtime request false false false swarm swarm

not_updated : update_agent daemon runtime request false false false swarm ≡ (ok none, swarm)
not_updated =
    update_agent-none_example.1 (refl, refl, refl, running, current, found_agent, unchanged)

abbrev wanted : Request
wanted = record request { version = some "2"; port = some (integer 5555) }

-- The swarm after the request for a new agent
abbrev created_swarm : Daemon
created_swarm = (update_agent daemon runtime wanted false false false empty_swarm).1

abbrev plain : Request
plain = record request { image = some "plain"; version = some "1" }

not_found_agent : find_agent daemon runtime plain empty_swarm ≡ ok absent
unfolding find_agent
not_found_agent = refl

due : plan plain false false absent ≡ ok (some (creation plain 1))
unfolding plan
due = refl

abbrev no_labels : Dict String
no_labels = []

unlabelled : lookup "iams.services.agent" no_labels ≡ none
unfolding lookup
unlabelled = refl

expiring : get_expired daemon runtime swarm ≡ ok ("prod_a1" ∷ [])
unfolding get_expired lookup
expiring = refl

get_expired-has_example :
    (has "prod_a1" ("prod_a1" ∷ []) ≡ true) ↔ SomeDue daemon runtime swarm "prod_a1" swarm.secrets
get_expired-has_example =
    get_expired-has daemon runtime swarm swarm.secrets ("prod_a1" ∷ []) "prod_a1" refl expiring

-- The swarm after a request for another version of a running agent
abbrev updated_swarm : Daemon
updated_swarm = (update_agent daemon runtime wanted false false false swarm).1

was_replaced :
    update_agent daemon runtime wanted false false false swarm ≡ (ok (some false), updated_swarm)
unfolding update_agent for_each
was_replaced = refl
