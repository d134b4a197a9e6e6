-- ===== src/Discovery/Identities.antt =====
-- The workload, the database and the port of a discovery, and the key that stands for them.
use solarwinds_otel_collecto.Base.{
  ◌≡◌, refl, subst, Bool, true, false, not, ◌||◌, List, [], ◌∷◌, Option, none, some, String,
  if◌then◌else◌, ◌=s=◌, ◌++ₛ◌, ℤ, All, All-append, Option-cases, inl, inr,
}
use solarwinds_otel_collecto.Discovery.Services.{
  PodContainer, Pod, Service, Addresses, match_service_for_pod,
}
use solarwinds_otel_collecto.Discovery.Workloads.{Client}
use solarwinds_otel_collecto.Discovery.Rules.{ImageRule}
use solarwinds_otel_collecto.Discovery.Images.{
  Discovered, event_of, workload_key_of, matched_image_rule, resolve_container_ports, services_in,
  discover_container, discover_all, discover_pods,
}

-- The event has the kind and the name of a workload.
abbrev pub has_workload : Discovered → Bool
has_workload d = not (d.event.workload_kind =s= "" || d.event.workload_name =s= "")

-- The workload of a discovery, its database and its port, as one text.
abbrev pub identity : Addresses → Discovered → String
identity net d =
    d.event.namespace
    ++ₛ "|"
    ++ₛ d.event.workload_kind
    ++ₛ "|"
    ++ₛ d.event.workload_name
    ++ₛ "|"
    ++ₛ d.event.database_type
    ++ₛ "|"
    ++ₛ net.itoa d.port

module _ (net : Addresses) where
  -- The key is the identity of a discovery with a workload.
  abbrev pub IsKeyed : Discovered → Type 0
  IsKeyed d = d.key ≡ (if has_workload d then some (identity net d) else none)

  if_not : {A : Type 0} (b : Bool) (x y : A) → (if b then x else y) ≡ (if not b then y else x)
  if_not true x y = refl
  if_not false x y = refl

  module _ (client : Client) (services : List Service) (rules : List ImageRule) where
    AllKeyed : Option Discovered → Type 0
    AllKeyed none = Unit
    AllKeyed (some d) = IsKeyed d

    keyed :
        (pod : Pod) (rule : ImageRule) (port : ℤ) (svc_name : String) (svc_ports : List ℤ)
        → IsKeyed (record {
          key = workload_key_of net client services pod rule port;
          port = port;
          event = elim svc_ports [
            | [] ↦ event_of net client services pod rule pod.name (port ∷ [])
            | p ∷ ps ↦ event_of net client services pod rule svc_name (p ∷ ps)
          ];
        })
    unfolding workload_key_of event_of
    keyed pod rule port svc_name [] = if_not _ none (some _)
    keyed pod rule port svc_name (p ∷ ps) = if_not _ none (some _)

    of_ports :
        (pod : Pod) (rule : ImageRule) (container : PodContainer) (ports : List ℤ)
        → AllKeyed (elim ports [
          | port ∷ [] ↦
              let (svc_name, svc_ports) =
                match_service_for_pod pod container
                  (port ∷ [])
                  (services_in pod.namespace services) in
              some (record {
                key = workload_key_of net client services pod rule port;
                port = port;
                event = elim svc_ports [
                  | [] ↦ event_of net client services pod rule pod.name (port ∷ [])
                  | p ∷ ps ↦ event_of net client services pod rule svc_name (p ∷ ps)
                ];
              })
          | _ ↦ none
        ])
    unfolding AllKeyed
    of_ports pod rule container [] = tt
    of_ports pod rule container (port ∷ []) =
        let found =
          match_service_for_pod pod container (port ∷ []) (services_in pod.namespace services) in
        keyed pod rule port found.0 found.1
    of_ports pod rule container (port ∷ q ∷ ports) = tt

    discover_container-IsKeyed :
        (pod : Pod) (container : PodContainer)
        → AllKeyed (discover_container net client services rules pod container)
    unfolding discover_container AllKeyed
    discover_container-IsKeyed pod container =
        elim (Option-cases (matched_image_rule rules container.image)) [
          | inl e ↦ rw (e, discover_container) tt
          | inr (rule, e) ↦
              rw (e, discover_container)
                (of_ports pod rule container (resolve_container_ports container rule.default_port))
        ]

    discover_all-IsKeyed :
        (pod : Pod) (containers : List PodContainer)
        → All IsKeyed (discover_all net client services rules pod containers)
    unfolding discover_all AllKeyed
    discover_all-IsKeyed pod [] = tt
    discover_all-IsKeyed pod (c ∷ cs) =
        let rest = discover_all-IsKeyed pod cs in
        let here = discover_container-IsKeyed pod c in
        elim (Option-cases (discover_container net client services rules pod c)) [
          | inl e ↦ rw (e, discover_all) rest
          | inr (d, e) ↦ rw (e, discover_all) (subst AllKeyed e here, rest)
        ]

    pub discover_pods-IsKeyed :
        (pods : List Pod) → All IsKeyed (discover_pods net client services rules pods)
    unfolding discover_pods
    discover_pods-IsKeyed [] = tt
    discover_pods-IsKeyed (pod ∷ pods) =
        All-append IsKeyed (discover_all net client services rules pod pod.containers) _
          (discover_all-IsKeyed pod pod.containers) (discover_pods-IsKeyed pods)
