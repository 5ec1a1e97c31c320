-- ===== src/Simulation/Agents/Tests.antt =====
-- Two agents, of which one has no `stop`; the state is the list of those that were stopped.
use industrial_ams.Base.{String, Bool, true, false, List, [], ◌∷◌}
use mathlib.Core.List.Perm
use industrial_ams.Py.{ok, err, attribute_error, Method}
use industrial_ams.Py.Dict.{Dict}

abbrev agents : List String → Dict Bool
agents log = ("robot", true) ∷ ("sensor", false) ∷ []

abbrev stop : Bool → Method (List String) (Unit {0})
stop true log = (ok tt, "stopped" ∷ log)
stop false log = (err attribute_error, log)

abbrev as_given : List String → List String
as_given names = names
