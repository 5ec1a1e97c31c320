-- ===== src/Servicer/Tests.antt =====
-- The theorems about the servicers at a docker daemon in memory.
use industrial_ams.Base.{String, ◌≡◌, refl, false, none, some, List, [], ◌∷◌}
use industrial_ams.Runtime.{Request}
use industrial_ams.Runtime.Memory.{daemon, runtime, swarm}
use industrial_ams.Py.{attribute_error, err, invalid_agent_name, Method}
use industrial_ams.Py.Text.{slice_to}
use industrial_ams.Py.Calls.{give}
use industrial_ams.Runtime.Names.{get_valid_agent_name}
use industrial_ams.Servicer.{update, destroy, sleep, wake, wrapped, Context}
use industrial_ams.Servicer.Answers.{calls_invalid_name, wrapped-credentials, IsAnswered}

bad_name : get_valid_agent_name "prod" "no_name" ≡ err invalid_agent_name
unfolding get_valid_agent_name slice_to
bad_name = refl

abbrev anonymous : Context
anonymous = record { credentials = none; peer_identities = some ("localhost" ∷ "agent" ∷ []) }

-- A handler that answers with the context that it was given
abbrev echo : Context → Method (List String) Context
echo context = give context

wrapped-credentials_example :
    IsAnswered echo [] false none
      (some ("localhost" ∷ "agent" ∷ []))
      (wrapped false echo anonymous [])
wrapped-credentials_example = wrapped-credentials echo [] false anonymous

abbrev misnamed : Request
misnamed = record {
  name = "no_name";
  image = none;
  version = none;
  address = none;
  port = none;
  config = none;
  autostart = false;
  constraints = [];
  preferences = [];
}

calls_invalid_name_example :
    (update daemon runtime misnamed swarm ≡ (err attribute_error, swarm))
    × (destroy daemon runtime "no_name" swarm ≡ (err attribute_error, swarm))
    × (sleep daemon runtime "no_name" swarm ≡ (err attribute_error, swarm))
    × (wake daemon runtime "no_name" swarm ≡ (err attribute_error, swarm))
calls_invalid_name_example = calls_invalid_name daemon runtime misnamed swarm bad_name
