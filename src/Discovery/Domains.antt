-- ===== src/Discovery/Domains.antt =====
-- discovery_domains.go: databases among the services with an external name.
use solarwinds_otel_collecto.Base.{
  Bool, false, ◌||◌, List, [], ◌∷◌, keep, Option, none, some, String, if◌then◌else◌, ◌=s=◌,
  contains_text,
}
use solarwinds_otel_collecto.Discovery.Services.{Service, Addresses, build_address_with_port}
use solarwinds_otel_collecto.Discovery.Workloads.{kind_service}
use solarwinds_otel_collecto.Discovery.Rules.{DomainRule, any_match}
use solarwinds_otel_collecto.Discovery.Events.{DatabaseEvent}

unfoldable pub matching_rules : String → List DomainRule → List DomainRule
matching_rules external = keep (λ (r : DomainRule). any_match r.patterns_compiled external)

unfoldable pub any_hint : String → String → List String → Bool
any_hint external name [] = false
any_hint external name (hint ∷ hints) =
    (contains_text hint external || contains_text hint name) || any_hint external name hints

-- A rule that the external name or the name of the service speaks for.
unfoldable pub is_preferred : String → String → DomainRule → Bool
is_preferred external name r =
    (contains_text r.database_type external || contains_text r.database_type name)
    || any_hint external name r.domain_hints

unfoldable pub first_preferred : String → String → List DomainRule → Option DomainRule
first_preferred external name [] = none
first_preferred external name (r ∷ rs) =
    if is_preferred external name r then some r else first_preferred external name rs

module _ (lower : String → String) (net : Addresses) where
  -- The rule of a service: the only one that matches, or the first of several that is preferred.
  unfoldable pub matched_domain_rule : List DomainRule → Service → Option DomainRule
  matched_domain_rule rules svc = elim (matching_rules svc.external_name rules) [
    | [] ↦ none
    | r ∷ [] ↦ some r
    | r ∷ s ∷ rs ↦ first_preferred (lower svc.external_name) (lower svc.name) (r ∷ s ∷ rs)
  ]

  abbrev pub domain_event : Service → DomainRule → DatabaseEvent
  domain_event svc rule = record {
    name = svc.external_name;
    address = build_address_with_port net svc.external_name rule.default_port;
    database_type = rule.database_type;
    namespace = svc.namespace;
    workload_kind = kind_service;
    workload_name = svc.name;
  }

  unfoldable pub discover_by_domains : List DomainRule → List Service → List DatabaseEvent
  discover_by_domains rules [] = []
  discover_by_domains rules (svc ∷ services) =
      let rest = discover_by_domains rules services in
      if svc.external_name =s= "" then rest else elim (matched_domain_rule rules svc) [
        | none ↦ rest
        | some rule ↦ domain_event svc rule ∷ rest
      ]
