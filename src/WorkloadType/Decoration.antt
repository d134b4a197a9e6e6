-- ===== src/WorkloadType/Decoration.antt =====
-- processor.go: the attributes that a mapping writes. The Go standard library's parsers of URLs and
-- addresses are the parameter `Net`.
use solarwinds_otel_collecto.Base.{
  ℕ, Bool, true, not, ◌&&◌, List, [], ◌∷◌, Option, none, some, String, Dict, Result, ok, err, ◌>>=◌,
  if◌then◌else◌, ◌=s=◌, contains_text,
}
use solarwinds_otel_collecto.Connector.Pdata.{Pdata, is_text}
use solarwinds_otel_collecto.WorkloadType.{
  LookupResult, empty_lookup_result, Informer, Stop, Outcome, lookup_by_name, lookup_by_ip,
}
use solarwinds_otel_collecto.WorkloadType.Hostnames.{
  extract_name_and_namespace_and_type, lookup_by_hostname, or_try,
}
use solarwinds_otel_collecto.WorkloadType.Instrumentation.{lookup_by_service_name}
use solarwinds_otel_collecto.WorkloadType.Resources.{is_set}
use solarwinds_otel_collecto.WorkloadType.Mappings.{
  MappingConfig, resource_context, scope_context, metric_context, data_point_context,
}

-- The host of `url.Parse`, the host of `net.SplitHostPort` (none is an error), and whether
-- `net.ParseIP` accepts a text.
pub record Net : Type 0 where
  pub url_host : String → Option String
  pub split_host_port : String → Option String
  pub is_ip : String → Bool

-- `ExtractHostFromAddress`.
unfoldable pub extract_host_from_address : Net → String → String
extract_host_from_address net addr =
    let host =
      if contains_text "://" addr
      then elim (net.url_host addr) as (λ _. String) [
        | none ↦ addr
        | some host ↦ if is_set host then host else addr
      ]
      else addr in
    elim (net.split_host_port host) [ none ↦ host | some h ↦ h ]

-- A metric: its metadata, and its data points, none for a type that the source does not support.
pub record Metric (pd : Pdata) : Type 0 where
  pub metadata : pd.Map
  pub data_points : Option (List pd.Map)

pub record ScopeMetrics (pd : Pdata) : Type 0 where
  pub attributes : pd.Map
  pub metrics : List (Metric pd)

pub record ResourceMetrics (pd : Pdata) : Type 0 where
  pub attributes : pd.Map
  pub scopes : List (ScopeMetrics pd)

module _ (pd : Pdata) where
  unfoldable pub get_attribute : pd.Map → String → String
  get_attribute attributes name = elim (pd.get attributes name) [
    | none ↦ ""
    | some v ↦ if is_text (pd.type_of v) then pd.str v else ""
  ]

  unfoldable pub get_attribute_with_fallback : pd.Map → pd.Map → String → String
  get_attribute_with_fallback attributes resource_attributes name =
      let own = get_attribute attributes name in
      if own =s= "" then get_attribute resource_attributes name else own

  -- A write, if there is a value and an attribute for it.
  abbrev pub put_if : Bool → String → String → pd.Map → pd.Map
  put_if condition attr value attributes =
      if condition then pd.put_str attributes attr value else attributes

  -- The three writes at the end of a round.
  unfoldable pub write_result : MappingConfig → LookupResult → pd.Map → pd.Map
  write_result m res attributes =
      put_if (is_set res.namespace && is_set m.workload_namespace_attr) m.workload_namespace_attr
        res.namespace
        (put_if (is_set res.name && is_set m.workload_name_attr) m.workload_name_attr res.name
          (put_if (is_set res.kind) m.workload_type_attr res.kind attributes))

  abbrev pub write_found : MappingConfig → pd.Map → Outcome → Result Stop pd.Map
  write_found m attributes (err e) = err e
  write_found m attributes (ok res) = ok (write_result m res attributes)

  module _ (net : Net) (informers : Dict Informer) (fuel : ℕ) where
    -- `lookupWorkloadTypeByNameAttrWithResourceFallback`.
    unfoldable pub lookup_by_name_attr : MappingConfig → pd.Map → pd.Map → Outcome
    lookup_by_name_attr m attributes resource_attributes =
        let name = get_attribute attributes m.name_attr in
        let namespace =
          get_attribute_with_fallback attributes resource_attributes m.namespace_attr in
        if name =s= ""
        then ok empty_lookup_result
        else lookup_by_name informers fuel m.prefer_owner_for_pods m.expected_types name namespace

    -- `lookupWorkloadTypeByAddressAttrWithResourceFallback`.
    unfoldable pub lookup_by_address_attr : MappingConfig → pd.Map → pd.Map → Outcome
    lookup_by_address_attr m attributes resource_attributes =
        let addr = get_attribute attributes m.address_attr in
        let host = extract_host_from_address net addr in
        let namespace =
          get_attribute_with_fallback attributes resource_attributes m.namespace_attr in
        let from_hostname = (extract_name_and_namespace_and_type host).namespace in
        if addr =s= ""
        then ok empty_lookup_result
        else if net.is_ip host
        then lookup_by_ip informers fuel m.prefer_owner_for_pods host m.expected_types
        else if is_set m.namespace_attr && (namespace =s= "" && from_hostname =s= "")
        then ok empty_lookup_result
        else or_try
            (lookup_by_hostname informers fuel m.prefer_owner_for_pods m.expected_types host
              namespace)
            true
            (lookup_by_service_name informers fuel m.prefer_owner_for_pods m.expected_types host
              namespace)

    -- A round of `processAttributesWithResourceFallback`.
    unfoldable pub process_mapping : MappingConfig → String → pd.Map → pd.Map → Result Stop pd.Map
    process_mapping m context resource_attributes attributes =
        if not (m.context =s= context)
        then ok attributes
        else if is_set (get_attribute attributes m.workload_type_attr)
        then ok attributes
        else if is_set m.name_attr
        then write_found m attributes (lookup_by_name_attr m attributes resource_attributes)
        else if is_set m.address_attr
        then write_found m attributes (lookup_by_address_attr m attributes resource_attributes)
        else ok attributes

    -- `processAttributesWithResourceFallback`.
    unfoldable pub process_attributes :
        List MappingConfig → String → pd.Map → pd.Map → Result Stop pd.Map
    process_attributes [] context resource_attributes attributes = ok attributes
    process_attributes (m ∷ ms) context resource_attributes attributes =
        elim (process_mapping m context resource_attributes attributes) [
          | err e ↦ err e
          | ok attributes' ↦ process_attributes ms context resource_attributes attributes'
        ]

    -- `processDatapoints`.
    unfoldable pub process_datapoints :
        List MappingConfig → pd.Map → List pd.Map → Result Stop (List pd.Map)
    process_datapoints ms resource_attributes [] = ok []
    process_datapoints ms resource_attributes (point ∷ points) =
        process_attributes ms data_point_context resource_attributes point >>= λ point'.
        process_datapoints ms resource_attributes points >>= λ points'. ok (point' ∷ points')

    -- The `switch` on the type of a metric.
    unfoldable pub process_points :
        List MappingConfig → pd.Map → Option (List pd.Map) → Result Stop (Option (List pd.Map))
    process_points ms resource_attributes none = ok none
    process_points ms resource_attributes (some points) =
        process_datapoints ms resource_attributes points >>= λ points'. ok (some points')

    -- `processMetrics`, from the metrics outwards.
    unfoldable pub process_metric_list :
        List MappingConfig → pd.Map → List (Metric pd) → Result Stop (List (Metric pd))
    process_metric_list ms resource_attributes [] = ok []
    process_metric_list ms resource_attributes (metric ∷ metrics) =
        process_attributes ms metric_context pd.new_map metric.metadata >>= λ metadata.
        process_points ms resource_attributes metric.data_points >>= λ points.
        process_metric_list ms resource_attributes metrics >>= λ metrics'.
        ok (record { metadata = metadata; data_points = points } ∷ metrics')

    unfoldable pub process_scopes :
        List MappingConfig → pd.Map → List (ScopeMetrics pd) → Result Stop (List (ScopeMetrics pd))
    process_scopes ms resource_attributes [] = ok []
    process_scopes ms resource_attributes (scope ∷ scopes) =
        process_attributes ms scope_context pd.new_map scope.attributes >>= λ attributes.
        process_metric_list ms resource_attributes scope.metrics >>= λ metrics.
        process_scopes ms resource_attributes scopes >>= λ scopes'.
        ok (record { attributes = attributes; metrics = metrics } ∷ scopes')

    unfoldable pub process_metrics :
        List MappingConfig → List (ResourceMetrics pd) → Result Stop (List (ResourceMetrics pd))
    process_metrics ms [] = ok []
    process_metrics ms (resource ∷ resources) =
        process_attributes ms resource_context pd.new_map resource.attributes >>= λ attributes.
        process_scopes ms attributes resource.scopes >>= λ scopes.
        process_metrics ms resources >>= λ resources'.
        ok (record { attributes = attributes; scopes = scopes } ∷ resources')
