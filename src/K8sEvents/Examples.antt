-- ===== src/K8sEvents/Examples.antt =====
-- The theorems about records from manifests at concrete inputs: a pod with one container, a report
-- with one vulnerability, and a service.
use mathlib.Core.List.{Memᴰ}
use solarwinds_otel_collecto.Base.{
  ℕ, ◌≡◌, refl, true, not, ◌&&◌, ◌||◌, List, [], ◌∷◌, Option, none, some, String, Dict, values,
  lookup, insert, has, contains, ◌=s=◌, eq_iff, ltb, leb, trim_prefix, cut_at, keep,
}
use solarwinds_otel_collecto.Connector.Samples.{sample, sample_laws, nothing}
use solarwinds_otel_collecto.K8sEvents.Constants.{
  src_entity_type, dest_entity_type, relationship_src_entity_ids, relationship_dest_entity_ids,
}
use solarwinds_otel_collecto.K8sEvents.Manifests.{
  Reference, PodManifest, Container, EndpointManifest, EndpointSliceManifest, get_containers,
  endpoint_mapping, slice_mapping, add_containers, add_init_containers, fill_container_images,
  process_specs, process_init_specs, each_status, update,
}
use solarwinds_otel_collecto.K8sEvents.Digests.{extract_sha256_digest}
use solarwinds_otel_collecto.K8sEvents.Records.{
  Packages, LogRecord, each_once, is_seen, observed, relates_to_attributes, relates_to_logs,
  valid_identity_of, valid_digest_of,
}
use solarwinds_otel_collecto.K8sEvents.Reports.{Floats, Vulnerability, VulnerabilityReport}
use solarwinds_otel_collecto.K8sEvents.Vulnerabilities.{finding_attributes, finding_logs, stamped}
use solarwinds_otel_collecto.K8sEvents.Pipeline.{get_timestamp, pod_logs, report_logs}
use solarwinds_otel_collecto.K8sEvents.Once
use solarwinds_otel_collecto.K8sEvents.Once.{IsOnce}
use solarwinds_otel_collecto.K8sEvents.Ends
use solarwinds_otel_collecto.K8sEvents.Ends.{HasEnd}
use solarwinds_otel_collecto.K8sEvents.Findings
use solarwinds_otel_collecto.K8sEvents.Containers
use solarwinds_otel_collecto.K8sEvents.Containers.{IsNamed, specifies, specifies_init}
use solarwinds_otel_collecto.K8sEvents.Times
use solarwinds_otel_collecto.K8sEvents.Times.{unix_time}
use solarwinds_otel_collecto.K8sEvents.Addresses
use solarwinds_otel_collecto.K8sEvents.Addresses.{listed, listed_in_slice, no_repeat}

abbrev ext : Packages sample
ext = record {
  pod_name_key = "k8s.pod.name";
  namespace_name_key = "k8s.namespace.name";
  container_name_key = "k8s.container.name";
  container_id_key = "container.id";
  container_image_name_key = "container.image.name";
  lower = λ s. s;
  is_valid_digest = λ d. true;
  put_texts = λ m k v. insert k nothing m;
}

abbrev fl : Floats ℕ
fl = record { lt = ltb; le = leb; zero_score = 0; four = 40; seven = 70; nine = 90; ten = 100 }

abbrev parse_reference : String → Option Reference
parse_reference image = some (record { context_name = image; tag = none })

abbrev upper : String → String
upper s = s

abbrev pod : PodManifest
pod = record {
  metadata = record { name = "web"; namespace = "default"; labels = [] };
  container_statuses =
      record { name = "app"; container_id = "c1"; state = some "running"; image_id = "sha256:ab" }
      ∷ [];
  init_container_statuses = [];
  containers = record { name = "app"; image = "nginx" } ∷ [];
  init_containers = [];
}

get_containers-IsNamed_example :
    IsNamed (get_containers parse_reference pod)
    × ((k : String)
        → has k (get_containers parse_reference pod)
          ≡ (specifies k pod.containers || specifies_init k pod.init_containers))
get_containers-IsNamed_example = Containers.get_containers-IsNamed parse_reference pod

abbrev walk : ℕ → Dict Container → List Container
walk n containers = values containers

abbrev relation : LogRecord sample
relation =
    observed sample ext 5
      (relates_to_attributes sample ext "u" (record { digest = "sha256:ab"; name = "nginx" }))

relation_found :
    Memᴰ relation (relates_to_logs sample ext 5 "u" (walk 2 (get_containers parse_reference pod)))
unfolding relates_to_logs get_containers add_containers add_init_containers fill_container_images
    process_specs process_init_specs each_status update lookup insert each_once is_seen
    valid_identity_of valid_digest_of extract_sha256_digest trim_prefix cut_at
relation_found = Memᴰ.head refl

pod_logs-HasEnd_example :
    HasEnd sample sample_laws ext src_entity_type relationship_src_entity_ids
      (pod_logs sample ext fl upper parse_reference walk pod 5 "u")
      relation
    × HasEnd sample sample_laws ext dest_entity_type relationship_dest_entity_ids
        (pod_logs sample ext fl upper parse_reference walk pod 5 "u")
        relation
pod_logs-HasEnd_example =
    Ends.pod_logs-HasEnd sample sample_laws ext fl upper parse_reference walk pod 5 "u"
      (λ n containers c. (λ m. m, λ m. m)) relation relation_found

each_once-IsOnce_example :
    IsOnce (valid_digest_of sample ext) (values (get_containers parse_reference pod)) (
      each_once ◌=s=◌ (valid_digest_of sample ext) [] (values (get_containers parse_reference pod)))
each_once-IsOnce_example =
    Once.each_once-IsOnce ◌=s=◌ (valid_digest_of sample ext) eq_iff
      (values (get_containers parse_reference pod))

abbrev weakness : Vulnerability ℕ
weakness = record {
  vulnerability_id = "CVE-1";
  severity = "HIGH";
  title = "t";
  description = "";
  score = 80;
  nvd = record { v2_score = 0; v3_score = 75 };
  red_hat = record { v2_score = 0; v3_score = 0 };
  resource = "lib";
  installed_version = "1";
  fixed_version = "2";
  published_date = "";
  last_modified_date = "";
  primary_link = "";
  links = [];
}

abbrev report : VulnerabilityReport ℕ
report = record {
  api_version = "aquasecurity.github.io/v1alpha1";
  digest = "sha256:ab";
  repository = "nginx";
  tag = "1";
  server = "index.docker.io";
  scanner_name = "Trivy";
  scanner_vendor = "Aqua";
  scanner_version = "1";
  vulnerabilities = weakness ∷ [];
}

abbrev finding : LogRecord sample
finding =
    stamped sample ext fl upper parse_reference 5
      (finding_attributes sample ext fl upper parse_reference report "u" weakness)

finding_found : Memᴰ finding (finding_logs sample ext fl upper parse_reference report 5 "u")
unfolding finding_logs keep
finding_found = Memᴰ.head refl

report_logs-HasEnd_example :
    HasEnd sample sample_laws ext src_entity_type relationship_src_entity_ids
      (report_logs sample ext fl upper parse_reference report 5 "u")
      finding
    × HasEnd sample sample_laws ext dest_entity_type relationship_dest_entity_ids
        (report_logs sample ext fl upper parse_reference report 5 "u")
        finding
report_logs-HasEnd_example =
    Findings.report_logs-HasEnd sample sample_laws ext fl upper parse_reference report 5 "u" finding
      finding_found

abbrev unset : LogRecord sample
unset = record { timestamp = 7; observed_timestamp = 0; attributes = [] }

get_timestamp-observed_example :
    get_timestamp sample (record { as_time = unix_time; now = 9 }) unset ≡ 0
get_timestamp-observed_example =
    Times.get_timestamp-observed sample (record { as_time = unix_time; now = 9 }) unset (λ t. refl)

abbrev endpoints : EndpointManifest
endpoints = record {
  name = "web";
  namespace = "default";
  subsets =
      record { addresses = "10.0.0.1" ∷ []; not_ready_addresses = "10.0.0.1" ∷ "10.0.0.2" ∷ [] }
      ∷ [];
}

abbrev slice : EndpointSliceManifest
slice = record {
  service_name = "web";
  namespace = "default";
  endpoints = ("10.0.0.1" ∷ "" ∷ []) ∷ [];
}

addresses-listed_example :
    (contains "10.0.0.2" (endpoint_mapping endpoints).addresses
      ≡ listed "10.0.0.2" endpoints.subsets)
    × (no_repeat (endpoint_mapping endpoints).addresses ≡ true)
    × (contains "10.0.0.2" (slice_mapping slice).addresses
        ≡ (not ("10.0.0.2" =s= "") && listed_in_slice "10.0.0.2" slice.endpoints))
    × (no_repeat (slice_mapping slice).addresses ≡ true)
addresses-listed_example = Addresses.addresses-listed endpoints slice "10.0.0.2"
