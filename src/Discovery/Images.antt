-- ===== src/Discovery/Images.antt =====
-- discovery_images.go: databases among the containers of pods.
use solarwinds_otel_collecto.Base.{
  Bool, false, not, ◌&&◌, ◌||◌, List, [], ◌∷◌, ◌++◌, keep, Option, none, some, String, contains,
  if◌then◌else◌, ◌=s=◌, ◌++ₛ◌, ℤ, pos, ◌==ℤ◌,
}
use solarwinds_otel_collecto.Discovery.Services.{
  ContainerPort, PodContainer, Pod, Service, Addresses, match_service_for_pod,
  build_address_with_port,
}
use solarwinds_otel_collecto.Discovery.Workloads.{Client, resolve_workload}
use solarwinds_otel_collecto.Discovery.Rules.{ImageRule, any_match}
use solarwinds_otel_collecto.Discovery.Events.{DatabaseEvent}

abbrev pub container_ports : List ContainerPort → List ℤ
container_ports [] = []
container_ports (p ∷ ps) = p.container_port ∷ container_ports ps

abbrev pub any_port : ℤ → List ContainerPort → Bool
any_port n [] = false
any_port n (p ∷ ps) = p.container_port ==ℤ n || any_port n ps

unfoldable pub resolve_container_ports : PodContainer → ℤ → List ℤ
resolve_container_ports c default_port =
    if not (default_port ==ℤ pos 0) && any_port default_port c.ports
    then default_port ∷ []
    else container_ports c.ports

-- The first rule with a pattern that matches.
unfoldable pub matched_image_rule : List ImageRule → String → Option ImageRule
matched_image_rule [] image = none
matched_image_rule (r ∷ rs) image =
    if any_match r.patterns_compiled image then some r else matched_image_rule rs image

-- The services of a namespace.
abbrev pub services_in : String → List Service → List Service
services_in namespace = keep (λ (svc : Service). svc.namespace =s= namespace)

-- What a container adds: the key of its workload if it has one, the one port that is resolved, which
-- the key is made of, and the event.
pub record Discovered : Type 0 where
  pub key : Option String
  pub port : ℤ
  pub event : DatabaseEvent

module _ (net : Addresses) (client : Client) (services : List Service) where
  unfoldable pub event_of : Pod → ImageRule → String → List ℤ → DatabaseEvent
  event_of pod rule svc_name ports =
      let (kind, name) = resolve_workload client pod in
      let endpoint =
        if pod.namespace =s= "" then svc_name else svc_name ++ₛ "." ++ₛ pod.namespace in
      record {
        name = endpoint;
        address = elim ports as (λ _. String) [
          | p ∷ [] ↦ build_address_with_port net endpoint p
          | _ ↦ endpoint
        ];
        database_type = rule.database_type;
        namespace = pod.namespace;
        workload_kind = kind;
        workload_name = name;
      }

  -- The key of `emittedWorkloads`, for the one port that is resolved.
  unfoldable pub workload_key_of : Pod → ImageRule → ℤ → Option String
  workload_key_of pod rule port =
      let (kind, name) = resolve_workload client pod in
      if kind =s= "" || name =s= ""
      then none
      else some (
          pod.namespace
          ++ₛ "|"
          ++ₛ kind
          ++ₛ "|"
          ++ₛ name
          ++ₛ "|"
          ++ₛ rule.database_type
          ++ₛ "|"
          ++ₛ net.itoa port)

  -- A container with exactly one port that a rule matches. The service counts if it has ports.
  unfoldable pub discover_container : List ImageRule → Pod → PodContainer → Option Discovered
  discover_container rules pod container = elim (matched_image_rule rules container.image) [
    | none ↦ none
    | some rule ↦ elim (resolve_container_ports container rule.default_port) [
      | port ∷ [] ↦
          let (svc_name, svc_ports) =
            match_service_for_pod pod container (port ∷ []) (services_in pod.namespace services) in
          some (record {
            key = workload_key_of pod rule port;
            port = port;
            event = elim svc_ports [
              | [] ↦ event_of pod rule pod.name (port ∷ [])
              | p ∷ ps ↦ event_of pod rule svc_name (p ∷ ps)
            ];
          })
      | _ ↦ none
    ]
  ]

  unfoldable pub discover_all : List ImageRule → Pod → List PodContainer → List Discovered
  discover_all rules pod [] = []
  discover_all rules pod (c ∷ cs) =
      let rest = discover_all rules pod cs in
      elim (discover_container rules pod c) [ none ↦ rest | some d ↦ d ∷ rest ]

  unfoldable pub discover_pods : List ImageRule → List Pod → List Discovered
  discover_pods rules [] = []
  discover_pods rules (pod ∷ pods) =
      discover_all rules pod pod.containers ++ discover_pods rules pods

-- The events that are published: an event whose workload key was published before is skipped.
unfoldable pub emit : List String → List Discovered → List Discovered
emit emitted [] = []
emit emitted (d ∷ ds) = elim d.key [
  | none ↦ d ∷ emit emitted ds
  | some key ↦
      let rest = emit emitted ds in
      let added = emit (key ∷ emitted) ds in if contains key emitted then rest else d ∷ added
]

unfoldable pub discover_by_images :
    Addresses → Client → List Service → List ImageRule → List Pod → List Discovered
discover_by_images net client services rules pods =
    emit [] (discover_pods net client services rules pods)
