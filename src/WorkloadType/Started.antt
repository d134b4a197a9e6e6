-- ===== src/WorkloadType/Started.antt =====
-- From a validated configuration to the attributes that it processes: the informers that `Start`
-- creates are those that the look-ups need.
use solarwinds_otel_collecto.Base.{
  none, some, ℕ, ◌≡◌, Bool, true, not, List, [], ◌∷◌, Option, String, Dict, ok, ok_inj, lookup, has,
  contains, ◌=s=◌, arith, Result-cases, Option-cases, inl, inr, subst, All, All-imp,
}
use solarwinds_otel_collecto.Connector.Pdata.{Pdata}
use solarwinds_otel_collecto.WorkloadType.{Informer, Outcome, empty_lookup_result}
use solarwinds_otel_collecto.WorkloadType.Resources.{ResourceKind, Discovery, is_set}
use solarwinds_otel_collecto.WorkloadType.Startup.{
  Setup, start_informers, start, copies_owners, setup_of,
}
use solarwinds_otel_collecto.WorkloadType.Mappings.{
  data_point_context, metric_context, scope_context, resource_context, MappingConfig, validate,
}
use solarwinds_otel_collecto.WorkloadType.Safety.{
  Safe->>=, Safe, safe_ok, safe_no_fuel, Safe-passed_on, Safe-if, Safe-or_try, Safe-lookup_by_name,
  Safe-lookup_by_hostname, Safe-lookup_by_service_name, Safe-lookup_by_ip,
}
use solarwinds_otel_collecto.WorkloadType.Decoration.{
  Metric, ScopeMetrics, ResourceMetrics, process_datapoints, process_points, process_metric_list,
  process_scopes, process_metrics, Net, get_attribute, lookup_by_name_attr, lookup_by_address_attr,
  write_found, process_mapping, process_attributes,
}
use solarwinds_otel_collecto.WorkloadType.Validated.{validate-IsReady}

has-start_informers :
    (create : ResourceKind → Setup → Option Informer) (copy_owners : Bool)
    (mapped : Dict ResourceKind) (informers : Dict Informer)
    → start_informers create copy_owners mapped ≡ ok informers
    → (t : String) → has t mapped ≡ true
    → has t informers ≡ true
unfolding start_informers has lookup
has-start_informers create copy_owners [] informers h t c = absurd (ground arith)
has-start_informers create copy_owners ((type, kind) ∷ mapped) informers h t c =
    elim (Option-cases (create kind (setup_of copy_owners kind.kind))) [
      | inl e ↦ absurd (ground (arith, rw (e, start_informers) at h))
      | inr (informer, e) ↦ elim (Result-cases (start_informers create copy_owners mapped)) [
        | inr (f, failed) ↦ absurd (ground (arith, rw (e, failed, start_informers) at h))
        | inl (rest, started) ↦
            let same = ok_inj (rw (e, started, start_informers) at h) in
            subst (λ i. has t i ≡ true) same
              (ground (arith, has-start_informers create copy_owners mapped rest started t))
      ]
    ]

module _ (pd : Pdata) (net : Net) (informers : Dict Informer) (fuel : ℕ) where
  Safe-write_found :
      (m : MappingConfig) (attributes : pd.Map) {found : Outcome}
      → Safe found
      → Safe (write_found pd m attributes found)
  Safe-write_found m attributes (safe_ok r) = safe_ok _
  Safe-write_found m attributes safe_no_fuel = safe_no_fuel

  Safe-lookup_by_name_attr :
      (m : MappingConfig) (attributes resource_attributes : pd.Map)
      → Safe (lookup_by_name_attr pd net informers fuel m attributes resource_attributes)
  unfolding lookup_by_name_attr
  Safe-lookup_by_name_attr m attributes resource_attributes =
      Safe-if (get_attribute pd attributes m.name_attr =s= "") (safe_ok empty_lookup_result)
        (Safe-lookup_by_name informers fuel m.prefer_owner_for_pods m.expected_types _ _)

  Safe-lookup_by_address_attr :
      (m : MappingConfig) (attributes resource_attributes : pd.Map)
      → ((t : String) → contains t m.expected_types ≡ true → has t informers ≡ true)
      → Safe (lookup_by_address_attr pd net informers fuel m attributes resource_attributes)
  unfolding lookup_by_address_attr
  Safe-lookup_by_address_attr m attributes resource_attributes h =
      Safe-if _ (safe_ok empty_lookup_result) (
        Safe-if _ (Safe-lookup_by_ip informers fuel m.prefer_owner_for_pods _ m.expected_types h) (
          Safe-if _ (safe_ok empty_lookup_result) (
            Safe-or_try true
              (Safe-lookup_by_hostname informers fuel m.prefer_owner_for_pods m.expected_types _ _)
              (Safe-lookup_by_service_name informers fuel m.prefer_owner_for_pods m.expected_types _
                _))))

  Safe-process_mapping :
      (m : MappingConfig) (context : String) (resource_attributes attributes : pd.Map)
      → ((t : String) → contains t m.expected_types ≡ true → has t informers ≡ true)
      → Safe (process_mapping pd net informers fuel m context resource_attributes attributes)
  unfolding process_mapping
  Safe-process_mapping m context resource_attributes attributes h =
      Safe-if (not (m.context =s= context)) (safe_ok attributes) (
        Safe-if (is_set (get_attribute pd attributes m.workload_type_attr)) (safe_ok attributes) (
          Safe-if (is_set m.name_attr)
            (Safe-write_found m attributes
              (Safe-lookup_by_name_attr m attributes resource_attributes))
            (Safe-if (is_set m.address_attr)
              (Safe-write_found m attributes
                (Safe-lookup_by_address_attr m attributes resource_attributes h))
              (safe_ok attributes))))

  Safe-process_attributes :
      (ms : List MappingConfig) (context : String) (resource_attributes attributes : pd.Map)
      → All (λ m. (t : String) → contains t m.expected_types ≡ true → has t informers ≡ true) ms
      → Safe (process_attributes pd net informers fuel ms context resource_attributes attributes)
  unfolding process_attributes
  Safe-process_attributes [] context resource_attributes attributes h = safe_ok attributes
  Safe-process_attributes (m ∷ ms) context resource_attributes attributes h =
      Safe-passed_on (Safe-process_mapping m context resource_attributes attributes h.0)
        (λ attributes'. Safe-process_attributes ms context resource_attributes attributes' h.1)

  -- Each mapping's types have informers.
  abbrev Served : List MappingConfig → Type 0
  Served = All (λ m. (t : String) → contains t m.expected_types ≡ true → has t informers ≡ true)

  module _ (ms : List MappingConfig) (served : Served ms) where
    Safe-process_datapoints :
        (resource_attributes : pd.Map) (points : List pd.Map)
        → Safe (process_datapoints pd net informers fuel ms resource_attributes points)
    unfolding process_datapoints
    Safe-process_datapoints resource_attributes [] = safe_ok []
    Safe-process_datapoints resource_attributes (point ∷ points) =
        Safe->>= (Safe-process_attributes ms data_point_context resource_attributes point served)
          (λ point'.
            Safe->>= (Safe-process_datapoints resource_attributes points)
              (λ points'. safe_ok (point' ∷ points')))

    Safe-process_points :
        (resource_attributes : pd.Map) (points : Option (List pd.Map))
        → Safe (process_points pd net informers fuel ms resource_attributes points)
    unfolding process_points
    Safe-process_points resource_attributes none = safe_ok none
    Safe-process_points resource_attributes (some points) =
        Safe->>= (Safe-process_datapoints resource_attributes points) (λ points'. safe_ok _)

    Safe-process_metric_list :
        (resource_attributes : pd.Map) (metrics : List (Metric pd))
        → Safe (process_metric_list pd net informers fuel ms resource_attributes metrics)
    unfolding process_metric_list
    Safe-process_metric_list resource_attributes [] = safe_ok []
    Safe-process_metric_list resource_attributes (metric ∷ metrics) =
        Safe->>= (Safe-process_attributes ms metric_context pd.new_map metric.metadata served)
          (λ metadata.
            Safe->>= (Safe-process_points resource_attributes metric.data_points) (λ points.
              Safe->>= (Safe-process_metric_list resource_attributes metrics)
                (λ metrics'. safe_ok _)))

    Safe-process_scopes :
        (resource_attributes : pd.Map) (scopes : List (ScopeMetrics pd))
        → Safe (process_scopes pd net informers fuel ms resource_attributes scopes)
    unfolding process_scopes
    Safe-process_scopes resource_attributes [] = safe_ok []
    Safe-process_scopes resource_attributes (scope ∷ scopes) =
        Safe->>= (Safe-process_attributes ms scope_context pd.new_map scope.attributes served)
          (λ attributes.
            Safe->>= (Safe-process_metric_list resource_attributes scope.metrics) (λ metrics.
              Safe->>= (Safe-process_scopes resource_attributes scopes) (λ scopes'. safe_ok _)))

    Safe-process_metrics :
        (resources : List (ResourceMetrics pd))
        → Safe (process_metrics pd net informers fuel ms resources)
    unfolding process_metrics
    Safe-process_metrics [] = safe_ok []
    Safe-process_metrics (resource ∷ resources) =
        Safe->>= (Safe-process_attributes ms resource_context pd.new_map resource.attributes served)
          (λ attributes.
            Safe->>= (Safe-process_scopes attributes resource.scopes)
              (λ scopes. Safe->>= (Safe-process_metrics resources) (λ resources'. safe_ok _)))

module _ (pd : Pdata) (net : Net) where
  -- A configuration that is accepted, and whose informers start, never makes the processor use an
  -- informer that is nil, whatever metrics it processes.
  pub process_metrics-Safe :
      (d : Discovery) (ms : List (Option MappingConfig)) (ns : List MappingConfig)
      (before mapped : Dict ResourceKind) (create : ResourceKind → Setup → Option Informer)
      (informers : Dict Informer)
      → validate d before ms ≡ ok (ns, mapped)
      → start create ns mapped ≡ ok informers
      → (fuel : ℕ) (metrics : List (ResourceMetrics pd))
      → Safe (process_metrics pd net informers fuel ns metrics)
  unfolding start
  process_metrics-Safe d ms ns before mapped create informers valid_ok start_ok fuel metrics =
      let (_, _, ready) = validate-IsReady d before mapped ms ns valid_ok in
      let kept = has-start_informers create (copies_owners ns) mapped informers start_ok in
      Safe-process_metrics pd net informers fuel ns
        (All-imp (λ n r t c. kept t (r.types_mapped t c)) ns ready) metrics
