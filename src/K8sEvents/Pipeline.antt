-- ===== src/K8sEvents/Pipeline.antt =====
-- processor.go: the manifests of a batch of log records, and the records that are generated from them.
-- The two goroutines of `processLogs` are joined by channels without a buffer, so the second
-- handles the manifests one after another in the order of the first. JSON decoding, the clock and
-- the order in which Go walks a map are parameters.
use solarwinds_otel_collecto.Base.{
  ℕ, suc, Bool, true, not, List, [], ◌∷◌, ◌++◌, map, Option, none, some, String, Dict, Result, ok,
  err, ◌>>=◌, if◌then◌else◌, ◌=s=◌, ◌==◌,
}
use solarwinds_otel_collecto.Connector.Pdata.{Pdata}
use solarwinds_otel_collecto.K8sEvents.Constants.{k8s_log_type, otel_entity_event_as_log}
use solarwinds_otel_collecto.K8sEvents.Manifests.{
  Reference, PodManifest, EndpointManifest, EndpointSliceManifest, Container, ServiceMapping,
  endpoint_mapping, slice_mapping, get_containers,
}
use solarwinds_otel_collecto.K8sEvents.Records.{
  Packages, LogRecord, container_logs, container_image_entity_logs, relates_to_logs,
  container_image_logs, container_image_relations_logs, service_mapping_logs,
}
use solarwinds_otel_collecto.K8sEvents.Reports.{Floats, VulnerabilityReport}
use solarwinds_otel_collecto.K8sEvents.Vulnerabilities.{
  vulnerability_entity_logs, finding_logs, report_image_log,
}

abbrev pub k8s_object_kind : String
k8s_object_kind = "k8s.object.kind"

-- A record with the text of its body.
pub record Logged (pd : Pdata) : Type 0 where
  pub record_of : LogRecord pd
  pub body : String

pub record ScopeLogs (pd : Pdata) : Type 0 where
  pub attributes : pd.Map
  pub records : List (Logged pd)

pub record ResourceLogs (pd : Pdata) : Type 0 where
  pub attributes : pd.Map
  pub scopes : List (ScopeLogs pd)

-- `json.Unmarshal` into each of the manifests; none is an error.
pub record Decoders (F : Type 0) : Type 0 where
  pub decode_pod : String → Option PodManifest
  pub decode_endpoints : String → Option EndpointManifest
  pub decode_slice : String → Option EndpointSliceManifest
  pub decode_report : String → Option (VulnerabilityReport F)

-- The time of a `pcommon.Timestamp` and the current time, as a time in nanoseconds from the first
-- of January of the year 1, at which `IsZero` holds; and the timestamp of the current time.
pub record Clock : Type 0 where
  pub as_time : ℕ → ℕ
  pub now : ℕ

-- The order of a walk over a map, in the walks of one batch by their number.
pub record Walks : Type 0 where
  pub containers : ℕ → ℕ → Dict Container → List Container
  pub keys : ℕ → List String → List String

pub data Found (F : Type 0) : Type 0 where
  pod_found : PodManifest → Found F
  mapping_found : ServiceMapping → Found F
  report_found : VulnerabilityReport F → Found F

-- The struct `result`.
pub record Manifest (F : Type 0) : Type 0 where
  pub found : Found F
  pub timestamp : ℕ
  pub cluster_uid : String

pub data DecodeError : Type 0 where
  decode_failed : DecodeError

abbrev decoded :
    {F A : Type 0} → (A → Option (Found F)) → Option A → Result DecodeError (Option (Found F))
decoded f none = err decode_failed
decoded f (some a) = ok (f a)

abbrev pub is_zero : ℕ → Bool
is_zero time = time == 0

-- The records that one manifest adds: entity events, and service mappings.
pub record Generated (pd : Pdata) : Type 0 where
  pub events : List (LogRecord pd)
  pub mappings : List (LogRecord pd)

module _ (pd : Pdata) where
  unfoldable pub extract_manifest :
      Decoders pd.Double → Logged pd → Result DecodeError (Option (Found pd.Double))
  extract_manifest d lr = elim (pd.get lr.record_of.attributes k8s_object_kind) [
    | none ↦ ok none
    | some kind ↦
        let object_type = pd.str kind in
        if object_type =s= "Pod"
        then decoded (λ m. some (pod_found m)) (d.decode_pod lr.body)
        else if object_type =s= "Endpoints"
        then decoded (λ m. some (mapping_found (endpoint_mapping m))) (d.decode_endpoints lr.body)
        else if object_type =s= "EndpointSlice"
        then decoded (λ m. some (mapping_found (slice_mapping m))) (d.decode_slice lr.body)
        else if object_type =s= "VulnerabilityReport"
        then decoded
            (λ m.
              if m.api_version =s= "aquasecurity.github.io/v1alpha1"
              then some (report_found m)
              else none)
            (d.decode_report lr.body)
        else ok none
  ]

  unfoldable pub get_timestamp : Clock → LogRecord pd → ℕ
  get_timestamp clock lr =
      if not (is_zero (clock.as_time lr.observed_timestamp))
      then lr.observed_timestamp
      else if not (is_zero (clock.as_time lr.timestamp))
      then lr.timestamp
      else clock.now

  module _ (d : Decoders pd.Double) (clock : Clock) where
    -- `generateManifests`, from the records outwards.
    unfoldable pub record_manifests :
        String → List (Logged pd) → Result DecodeError (List (Manifest pd.Double))
    record_manifests cluster_uid [] = ok []
    record_manifests cluster_uid (lr ∷ lrs) = extract_manifest d lr >>= λ found.
        record_manifests cluster_uid lrs >>= λ rest.
        ok (elim found as (λ _. List (Manifest pd.Double)) [
          | none ↦ rest
          | some f ↦
              record {
                found = f;
                timestamp = get_timestamp clock lr.record_of;
                cluster_uid = cluster_uid;
              }
              ∷ rest
        ])

    unfoldable pub scope_manifests :
        String → List (ScopeLogs pd) → Result DecodeError (List (Manifest pd.Double))
    scope_manifests cluster_uid [] = ok []
    scope_manifests cluster_uid (sl ∷ sls) = record_manifests cluster_uid sl.records >>= λ first.
        scope_manifests cluster_uid sls >>= λ rest. ok (first ++ rest)

    abbrev pub cluster_uid_of : pd.Map → String
    cluster_uid_of attributes = elim (pd.get attributes "sw.k8s.cluster.uid") [
      | none ↦ ""
      | some uid ↦ pd.str uid
    ]

    unfoldable pub generate_manifests :
        List (ResourceLogs pd) → Result DecodeError (List (Manifest pd.Double))
    generate_manifests [] = ok []
    generate_manifests (rl ∷ rls) =
        scope_manifests (cluster_uid_of rl.attributes) rl.scopes >>= λ first.
        generate_manifests rls >>= λ rest. ok (first ++ rest)

module _ (pd : Pdata) (ext : Packages pd) (fl : Floats pd.Double) (upper : String → String)
    (parse_reference : String → Option Reference) where
  -- The case of a pod in `generateLogRecords`.
  unfoldable pub pod_logs :
      (ℕ → Dict Container → List Container) → PodManifest → ℕ → String → List (LogRecord pd)
  pod_logs walk m t cluster_uid =
      let containers = get_containers parse_reference m in
      container_logs pd ext m.metadata t cluster_uid (walk 0 containers)
      ++ (container_image_entity_logs pd ext t (walk 1 containers)
          ++ (relates_to_logs pd ext t cluster_uid (walk 2 containers)
              ++ (container_image_logs pd ext t cluster_uid (walk 3 containers)
                  ++ container_image_relations_logs pd ext m.metadata t cluster_uid
                      (walk 4 containers))))

  unfoldable pub report_logs : VulnerabilityReport pd.Double → ℕ → String → List (LogRecord pd)
  report_logs m t cluster_uid =
      vulnerability_entity_logs pd ext fl upper parse_reference m t
      ++ (finding_logs pd ext fl upper parse_reference m t cluster_uid
          ++ report_image_log pd ext fl upper parse_reference m t cluster_uid)

  module _ (walks : Walks) where
    -- `generateLogRecords`; the number of the manifest is that of its walks.
    unfoldable pub generate_log_records : ℕ → List (Manifest pd.Double) → Generated pd
    generate_log_records n [] = record { events = []; mappings = [] }
    generate_log_records n (r ∷ rs) =
        let rest = generate_log_records (suc n) rs in
        elim r.found [
          | pod_found m ↦ record rest {
            events = pod_logs (walks.containers n) m r.timestamp r.cluster_uid ++ rest.events;
          }
          | mapping_found m ↦ record rest {
            mappings =
                service_mapping_logs pd ext (record m { addresses = walks.keys n m.addresses })
                  r.timestamp r.cluster_uid
                ++ rest.mappings;
          }
          | report_found m ↦ record rest {
            events = report_logs m r.timestamp r.cluster_uid ++ rest.events;
          }
        ]

    abbrev pub generated_scope : pd.Map → List (LogRecord pd) → ScopeLogs pd
    generated_scope attributes records = record {
      attributes = attributes;
      records = map (λ (r : LogRecord pd). record { record_of = r; body = "" }) records;
    }

    -- `addEntityStateEventResourceLog`, if there are records.
    abbrev pub entity_state_event_resource_log : List (LogRecord pd) → List (ResourceLogs pd)
    entity_state_event_resource_log [] = []
    entity_state_event_resource_log (r ∷ rs) =
        record {
          attributes = pd.put_str pd.new_map k8s_log_type "entitystateevent";
          scopes =
              generated_scope (pd.put_bool pd.new_map otel_entity_event_as_log true) (r ∷ rs) ∷ [];
        }
        ∷ []

    -- `addServiceMappingsResourceLog`, if there are records.
    abbrev pub service_mappings_resource_log : List (LogRecord pd) → List (ResourceLogs pd)
    service_mappings_resource_log [] = []
    service_mappings_resource_log (r ∷ rs) =
        record {
          attributes = pd.put_str pd.new_map k8s_log_type "serviceendpointsmapping";
          scopes = generated_scope pd.new_map (r ∷ rs) ∷ [];
        }
        ∷ []

    unfoldable pub process_logs :
        Decoders pd.Double
        → Clock
        → List (ResourceLogs pd)
        → Result DecodeError (List (ResourceLogs pd))
    process_logs d clock ld = generate_manifests pd d clock ld >>= λ found.
        let generated = generate_log_records 0 found in
        ok (
          ld
          ++ (entity_state_event_resource_log generated.events
              ++ service_mappings_resource_log generated.mappings))
