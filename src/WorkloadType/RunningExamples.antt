-- ===== src/WorkloadType/RunningExamples.antt =====
-- The theorems about configurations, stored objects and attributes at concrete inputs: a cluster with
-- one pod, whose address a data point carries.
use solarwinds_otel_collecto.Base.{
  ℕ, ◌≡◌, refl, true, false, List, [], ◌∷◌, Option, none, some, String, Dict, lookup, insert, has,
  contains, ok, All, cut_at, contains_text, has_prefix, ◌=s=◌, not,
}
use solarwinds_otel_collecto.Connector.Samples.{sample, sample_laws, SampleValue, text}
use solarwinds_otel_collecto.WorkloadType.{
  LookupResult, Workload, pod_type, Informer, lookup_by_ip, extract_workload_kind, resolve_kind,
  scan_owners, lookup_owner,
}
use solarwinds_otel_collecto.WorkloadType.Instrumentation.{choose_workload, owners_from, add_owner}
use solarwinds_otel_collecto.WorkloadType.Agreement
use solarwinds_otel_collecto.WorkloadType.Agreement.{Owned}
use solarwinds_otel_collecto.WorkloadType.Caches.{
  Object, pod, pod_transform, pod_ip_indexer, label_indexer, annotation_indexer, to_workload,
}
use solarwinds_otel_collecto.WorkloadType.Transforms
use solarwinds_otel_collecto.WorkloadType.Resources.{
  ResourceKind, Discovery, valid_objects, valid_objects_from, add_resources,
}
use solarwinds_otel_collecto.WorkloadType.Mappings.{
  MappingConfig, validate, validate_mapping, validate_mappings, extract_all, extract_context,
  map_types,
}
use solarwinds_otel_collecto.WorkloadType.Validated
use solarwinds_otel_collecto.WorkloadType.Validated.{IsReady}
use solarwinds_otel_collecto.WorkloadType.Startup.{Setup, start, start_informers}
use solarwinds_otel_collecto.WorkloadType.Safety.{Safe}
use solarwinds_otel_collecto.WorkloadType.Started
use solarwinds_otel_collecto.WorkloadType.Decoration.{
  ResourceMetrics, process_metrics, Net, process_attributes, process_mapping, get_attribute,
  lookup_by_address_attr, extract_host_from_address, write_result,
}
use solarwinds_otel_collecto.WorkloadType.Frame
use solarwinds_otel_collecto.WorkloadType.Frame.{written_at, writes}

abbrev discovered : Discovery
discovered = record {
  groups =
      some
        (record { group_version = "v1"; resources = ("pods", "Pod") ∷ ("bindings", "") ∷ [] } ∷ []);
  failure = none;
}

abbrev pods : ResourceKind
pods = record { group = ""; version = "v1"; resource = "pods"; kind = "Pod" }

abbrev mapping_of : String → String → String → MappingConfig
mapping_of address type context = record {
  name_attr = "";
  namespace_attr = "";
  address_attr = address;
  workload_name_attr = "";
  workload_namespace_attr = "";
  workload_type_attr = type;
  expected_types = "pods" ∷ [];
  prefer_owner_for_pods = false;
  context = context;
}

abbrev configured : MappingConfig
configured = mapping_of "datapoint.ip" "datapoint.kind" ""

abbrev accepted : MappingConfig
accepted = mapping_of "ip" "kind" "datapoint"

accepted_ok :
    validate discovered [] (some configured ∷ []) ≡ ok (accepted ∷ [], ("pods", pods) ∷ [])
unfolding validate valid_objects valid_objects_from add_resources validate_mappings validate_mapping
    extract_all extract_context map_types lookup insert has contains cut_at
accepted_ok = refl

validate-IsReady_example :
    (valid : Dict (List ResourceKind)) × (valid_objects discovered ≡ ok valid)
    × All (IsReady valid (("pods", pods) ∷ [])) (accepted ∷ [])
validate-IsReady_example =
    Validated.validate-IsReady discovered [] (("pods", pods) ∷ []) (some configured ∷ [])
      (accepted ∷ []) accepted_ok

abbrev the_pod : Workload
the_pod = record {
  is_runtime_object = true;
  kind = "Pod";
  go_type = pod_type;
  metadata = some (record {
    name = "web";
    namespace = "default";
    owner_references = record { kind = "StatefulSet"; name = "set" } ∷ [];
    labels = [];
    annotations = [];
  });
}

abbrev pod_informer : Informer
pod_informer = record {
  get_by_key = λ key. some (some the_pod);
  by_index = λ index key. some (the_pod ∷ []);
}

abbrev create : ResourceKind → Setup → Option Informer
create kind setup = some pod_informer

abbrev running : Dict Informer
running = ("pods", pod_informer) ∷ []

started : start create (accepted ∷ []) (("pods", pods) ∷ []) ≡ ok running
unfolding start start_informers
started = refl

abbrev net : Net
net = record {
  url_host = λ url. none;
  split_host_port = λ host. none;
  is_ip = λ host. host =s= "10.0.0.1";
}

abbrev point : Dict SampleValue
point = ("ip", text "10.0.0.1") ∷ ("host", text "a") ∷ []

abbrev metrics : List (ResourceMetrics sample)
metrics =
    record {
      attributes = [];
      scopes =
          record {
            attributes = [];
            metrics = record { metadata = []; data_points = some (point ∷ []) } ∷ [];
          }
          ∷ [];
    }
    ∷ []

process_metrics-Safe_example : Safe (process_metrics sample net running 3 (accepted ∷ []) metrics)
process_metrics-Safe_example =
    Started.process_metrics-Safe sample net discovered (some configured ∷ []) (accepted ∷ []) []
      (("pods", pods) ∷ []) create running accepted_ok started 3 metrics

-- The point after the processor has visited it.
abbrev decorated : Dict SampleValue
decorated = ("ip", text "10.0.0.1") ∷ ("host", text "a") ∷ ("kind", text "Pod") ∷ []

decorated_ok :
    process_attributes sample net running 3 (accepted ∷ []) "datapoint" [] point ≡ ok decorated
unfolding process_attributes process_mapping get_attribute lookup_by_address_attr
    extract_host_from_address lookup_by_ip extract_workload_kind resolve_kind lookup insert
    write_result contains_text has_prefix
decorated_ok = refl

get-process_attributes_example : sample.get decorated "host" ≡ sample.get point "host"
unfolding writes
get-process_attributes_example =
    Frame.get-process_attributes sample sample_laws net running 3 (accepted ∷ []) "datapoint" "host"
      [] point decorated decorated_ok (refl, tt)

abbrev found : LookupResult
found = record { name = "web"; namespace = "default"; kind = "Pod" }

found_ok : lookup_by_address_attr sample net running 3 accepted point [] ≡ ok found
unfolding lookup_by_address_attr get_attribute extract_host_from_address lookup_by_ip
    extract_workload_kind resolve_kind lookup contains_text has_prefix
found_ok = refl

untyped : not (get_attribute sample point "kind" =s= "") ≡ false
unfolding get_attribute lookup
untyped = refl

get-process_mapping_example :
    (after : Dict SampleValue) × (process_mapping sample net running 3 accepted "datapoint" [] point
      ≡ ok after)
    × ((k : String)
        → sample.get after k ≡ (elim (written_at accepted found k) [
          | none ↦ sample.get point k
          | some v ↦ some (text v)
        ]))
get-process_mapping_example =
    Frame.get-process_mapping sample sample_laws net running 3 accepted [] point found refl untyped
      found_ok

abbrev set : LookupResult
set = record { name = "set"; namespace = "default"; kind = "StatefulSet" }

agreed : choose_workload running 3 true (the_pod ∷ the_pod ∷ []) ≡ ok set
unfolding choose_workload owners_from add_owner lookup_owner scan_owners
agreed = refl

choose_workload-Owned_example :
    All (Owned running 3 (λ owner. owner ≡ set)) (the_pod ∷ the_pod ∷ [])
choose_workload-Owned_example =
    Agreement.choose_workload-Owned running 3 the_pod the_pod [] set agreed refl

abbrev stored : Object ℕ
stored = pod (record {
  kind = "Pod";
  meta = record {
    name = "web";
    namespace = "default";
    owner_references = record { kind = "StatefulSet"; name = "set"; rest = 1 } ∷ [];
    labels = some (("app.kubernetes.io/name", "shop") ∷ ("zone", "a") ∷ []);
    annotations = none;
    rest = 2;
  };
  host_network = false;
  pod_ips = "10.0.0.1" ∷ [];
  rest = 3;
})

pod_transform-Same_example :
    (pod_ip_indexer (pod_transform 0 true stored) ≡ pod_ip_indexer stored)
    × (label_indexer (pod_transform 0 true stored) ≡ label_indexer stored)
    × (annotation_indexer (pod_transform 0 true stored) ≡ annotation_indexer stored)
    × (lookup_owner running 3 (to_workload (pod_transform 0 true stored))
        ≡ lookup_owner running 3 (to_workload stored))
pod_transform-Same_example = Transforms.pod_transform-Same 0 stored true running 3
