-- ===== src/Runtime/Created.antt =====
-- When `update_agent` of iams/runtime.py creates a service, and what the service is.
use industrial_ams.Base.{String, ◌≡◌, Option, none, some}
use industrial_ams.Py.Dict.{Dict, lookup, update, lookup-put}
use industrial_ams.Runtime.{World, Runtime, Request, stack_label}
use industrial_ams.Runtime.Update.{Change, creation, replacement}
use industrial_ams.Runtime.Apply.{service_labels}

-- Names that a creation keeps
abbrev IsCreation : Request → Option Change → Type 0
IsCreation request none = Unit
IsCreation request (some (creation r scale)) = r.name ≡ request.name
IsCreation request (some (replacement service r scale)) = Unit

-- The labels by which the runtime finds a service again
pub record IsLabelled (namespace iams_namespace name : String) (labels : Dict String) : Type 0 where
  pub stack : lookup stack_label labels ≡ some namespace
  pub instance_of : lookup "iams.namespace" labels ≡ some iams_namespace
  pub agent : lookup "iams.agent" labels ≡ some name

module _ (W : World) (self : Runtime W) where
  pub service_labels-IsLabelled :
      (request : Request) (labels : Dict String)
      → IsLabelled self.namespace self.iams_namespace request.name
          (service_labels W self request labels)
  unfolding service_labels update
  service_labels-IsLabelled request labels = record {
    stack = rw (lookup-put, lookup-put, lookup-put, lookup-put);
    instance_of = rw (lookup-put, lookup-put, lookup-put);
    agent = rw (lookup-put, lookup-put);
  }
