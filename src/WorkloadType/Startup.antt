-- ===== src/WorkloadType/Startup.antt =====
-- The informers that `Start` of processor.go creates. The informers of client-go are a parameter.
use solarwinds_otel_collecto.Base.{
  Bool, false, ◌&&◌, ◌||◌, List, [], ◌∷◌, Option, none, some, String, Dict, contains, Result, ok,
  err, if◌then◌else◌, ◌=s=◌,
}
use solarwinds_otel_collecto.WorkloadType.{
  Informer, pods_workload_type, pod_kind, service_kind, replica_set_kind,
}
use solarwinds_otel_collecto.WorkloadType.Resources.{ResourceKind}
use solarwinds_otel_collecto.WorkloadType.Mappings.{MappingConfig}

-- What `Start` chooses for an informer: the transform function with its flag, and so the indexes.
pub data Setup : Type 0 where
  pod_setup replica_set_setup : Bool → Setup
  service_setup : Setup
  generic_setup : String → Setup

unfoldable pub setup_of : Bool → String → Setup
setup_of copy_owners kind =
    if kind =s= pod_kind
    then pod_setup copy_owners
    else if kind =s= service_kind
    then service_setup
    else if kind =s= replica_set_kind
    then replica_set_setup copy_owners
    else generic_setup kind

unfoldable pub copies_owners : List MappingConfig → Bool
copies_owners [] = false
copies_owners (m ∷ ms) =
    (m.prefer_owner_for_pods && contains pods_workload_type m.expected_types) || copies_owners ms

pub data StartError : Type 0 where
  informer_failed : String → StartError

-- The loop of `Start`: `create` makes an informer with its transform and indexes; none is an error.
unfoldable pub start_informers :
    (ResourceKind → Setup → Option Informer)
    → Bool
    → Dict ResourceKind
    → Result StartError (Dict Informer)
start_informers create copy_owners [] = ok []
start_informers create copy_owners ((type, kind) ∷ mapped) =
    elim (create kind (setup_of copy_owners kind.kind)) [
      | none ↦ err (informer_failed type)
      | some informer ↦ elim (start_informers create copy_owners mapped) [
        | err e ↦ err e
        | ok informers ↦ ok ((type, informer) ∷ informers)
      ]
    ]

unfoldable pub start :
    (ResourceKind → Setup → Option Informer)
    → List MappingConfig
    → Dict ResourceKind
    → Result StartError (Dict Informer)
start create mappings mapped = start_informers create (copies_owners mappings) mapped
