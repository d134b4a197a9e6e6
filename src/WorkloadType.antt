-- ===== src/WorkloadType.antt =====
-- processor/swok8sworkloadtypeprocessor/internal/lookup.go: the kind, name and namespace of the
-- workload that a name, an address or a host name stands for. The informers of client-go are of a
-- package outside the repository; logging is left out.
pub mod Owners
pub mod Hostnames
pub mod Hosts
pub mod Instrumentation
pub mod Agreement
pub mod Caches
pub mod Transforms
pub mod Resources
pub mod Mappings
pub mod Startup
pub mod Decoration
pub mod Safety
pub mod Passed
pub mod Validated
pub mod Started
pub mod Frame
pub mod Examples
pub mod RunningExamples
use solarwinds_otel_collecto.Base.{
  ℕ, zero, suc, Bool, true, false, not, ◌&&◌, ◌||◌, List, [], ◌∷◌, Option, none, some, String, Dict,
  lookup, if◌then◌else◌, ◌=s=◌, contains_text, split_dots, ◌++ₛ◌, Result, ok, err,
}

abbrev pub service_kind : String
service_kind = "Service"

abbrev pub pod_kind : String
pod_kind = "Pod"

abbrev pub replica_set_kind : String
replica_set_kind = "ReplicaSet"

abbrev pub pods_workload_type : String
pods_workload_type = "pods"

abbrev pub services_workload_type : String
services_workload_type = "services"

abbrev pub replica_sets_workload_type : String
replica_sets_workload_type = "replicasets"

pub record LookupResult : Type 0 where
  pub name : String
  pub namespace : String
  pub kind : String

abbrev pub empty_lookup_result : LookupResult
empty_lookup_result = record { name = ""; namespace = ""; kind = "" }

-- `r == EmptyLookupResult`.
abbrev pub is_empty : LookupResult → Bool
is_empty r = r.name =s= "" && (r.namespace =s= "" && r.kind =s= "")

pub record OwnerReference : Type 0 where
  pub kind : String
  pub name : String

-- What `metav1.Object` gives.
pub record Meta : Type 0 where
  pub name : String
  pub namespace : String
  pub owner_references : List OwnerReference
  pub labels : Dict String
  pub annotations : Dict String

-- The Go type of a cached object: the two types that the source names, or the name of another.
pub data GoType : Type 0 where
  service_type pod_type : GoType
  other_type : String → GoType

-- An object of a cache: whether it is a `runtime.Object`, with its kind, and its metadata if it is a
-- `metav1.Object`.
pub record Workload : Type 0 where
  pub is_runtime_object : Bool
  pub kind : String
  pub go_type : GoType
  pub metadata : Option Meta

-- `GetByKey` of the store and `ByIndex` of the indexer; an outer none is an error.
pub record Informer : Type 0 where
  pub get_by_key : String → Option (Option Workload)
  pub by_index : String → String → Option (List Workload)

abbrev pub pod_ip_index : String
pod_ip_index = "podIpIndex"

abbrev pub service_ip_index : String
service_ip_index = "serviceIpIndex"

-- The kind, from the Go type if the object does not say it.
unfoldable pub resolve_kind : Workload → String
resolve_kind w = if not (w.kind =s= "") then w.kind else elim w.go_type [
  | service_type ↦ service_kind
  | pod_type ↦ pod_kind
  | other_type type_name ↦
      if contains_text ".Service" type_name
      then service_kind
      else if contains_text ".Pod" type_name
      then pod_kind
      else if contains_text ".Deployment" type_name
      then "Deployment"
      else if contains_text ".StatefulSet" type_name
      then "StatefulSet"
      else if contains_text ".ReplicaSet" type_name
      then replica_set_kind
      else ""
]

-- What stops a look-up: the model's fuel, or a panic on a nil informer.
pub data Stop : Type 0 where
  no_fuel nil_informer : Stop

abbrev pub Outcome : Type 0
Outcome = Result Stop LookupResult

module _ (informers : Dict Informer) where
  abbrev pub workload_key : String → String → String
  workload_key name namespace = if namespace =s= "" then name else namespace ++ₛ "/" ++ₛ name

  -- `lookupWorkloadByNameAndNamespace`: the first of the types whose cache has the key.
  unfoldable pub lookup_workload : String → String → List String → Option Workload
  lookup_workload name namespace [] = none
  lookup_workload name namespace (type ∷ types) =
      let rest = lookup_workload name namespace types in
      elim (lookup type informers) [
        | none ↦ rest
        | some informer ↦ elim (informer.get_by_key (workload_key name namespace)) [
          | some (some workload) ↦ some workload
          | _ ↦ rest
        ]
      ]

  -- The loop of `lookupOwnerForWorkload`; `find` looks up the owner of a replica set by its name.
  unfoldable pub scan_owners : (String → Outcome) → String → List OwnerReference → Outcome
  scan_owners find namespace [] = ok empty_lookup_result
  scan_owners find namespace (owner ∷ owners) =
      let rest = scan_owners find namespace owners in
      let itself : Outcome =
        if not (owner.kind =s= "")
        then ok (record { name = owner.name; namespace = namespace; kind = owner.kind })
        else rest in
      if owner.kind =s= replica_set_kind
      then elim (find owner.name) [
        | err e ↦ err e
        | ok found ↦ if not (is_empty found) then ok found else itself
      ]
      else itself

  -- `lookupOwnerForWorkload` and `lookupOwnerKindByNameAndNamespace` call each other, as long as an
  -- owner is a cached replica set.
  unfoldable pub lookup_owner : ℕ → Workload → Outcome
  lookup_owner zero w = err no_fuel
  lookup_owner (suc fuel) w = elim w.metadata [
    | none ↦ ok empty_lookup_result
    | some meta ↦
        scan_owners
          (λ name. elim (lookup_workload name meta.namespace (replica_sets_workload_type ∷ [])) [
            | none ↦ ok empty_lookup_result
            | some replica_set ↦ lookup_owner fuel replica_set
          ])
          meta.namespace meta.owner_references
  ]

  -- `lookupOwnerKindByNameAndNamespace`.
  unfoldable pub lookup_owner_kind : ℕ → String → String → String → Outcome
  lookup_owner_kind fuel name namespace type = elim (lookup_workload name namespace (type ∷ [])) [
    | none ↦ ok empty_lookup_result
    | some workload ↦ lookup_owner fuel workload
  ]

  unfoldable pub extract_workload_kind : ℕ → Bool → Workload → Outcome
  extract_workload_kind fuel prefer_pod_owner w =
      let kind = resolve_kind w in
      let itself : LookupResult = if kind =s= "" then empty_lookup_result else elim w.metadata [
        | none ↦ empty_lookup_result
        | some meta ↦ record { name = meta.name; namespace = meta.namespace; kind = kind }
      ] in
      if not w.is_runtime_object
      then ok empty_lookup_result
      else if prefer_pod_owner && kind =s= pod_kind
      then elim (lookup_owner fuel w) [
        | err e ↦ err e
        | ok owner ↦ if not (is_empty owner) then ok owner else ok itself
      ]
      else ok itself

  -- `LookupWorkloadKindByNameAndNamespace`.
  unfoldable pub lookup_by_name : ℕ → Bool → List String → String → String → Outcome
  lookup_by_name fuel prefer_pod_owner types name namespace =
      elim (lookup_workload name namespace types) [
        | none ↦ ok empty_lookup_result
        | some workload ↦ extract_workload_kind fuel prefer_pod_owner workload
      ]

  -- The index of a type, if the type can be searched by address.
  abbrev pub indexer_name : String → Option String
  indexer_name type =
      if type =s= pods_workload_type
      then some pod_ip_index
      else if type =s= services_workload_type
      then some service_ip_index
      else none

  -- `LookupWorkloadKindByIp`: the first type with exactly one object for the address. The
  -- source does not check that there is an informer.
  unfoldable pub lookup_by_ip : ℕ → Bool → String → List String → Outcome
  lookup_by_ip fuel prefer_pod_owner ip [] = ok empty_lookup_result
  lookup_by_ip fuel prefer_pod_owner ip (type ∷ types) =
      let rest = lookup_by_ip fuel prefer_pod_owner ip types in
      elim (indexer_name type) [
        | none ↦ rest
        | some index ↦ elim (lookup type informers) [
          | none ↦ err nil_informer
          | some informer ↦ elim (informer.by_index index ip) [
            | some (workload ∷ []) ↦ extract_workload_kind fuel prefer_pod_owner workload
            | _ ↦ rest
          ]
        ]
      ]
