-- ===== src/K8sEvents/Constants.antt =====
-- internal/constants/constants.go, and the constants of log_constructor.go: the names and the values
-- of attributes.
use solarwinds_otel_collecto.Base.{String}

abbrev pub attribute_otel_entity_event_type : String
attribute_otel_entity_event_type = "otel.entity.event.type"

abbrev pub attribute_otel_entity_type : String
attribute_otel_entity_type = "otel.entity.type"

abbrev pub attribute_otel_entity_id : String
attribute_otel_entity_id = "otel.entity.id"

abbrev pub attribute_otel_entity_attributes : String
attribute_otel_entity_attributes = "otel.entity.attributes"

abbrev pub attribute_otel_entity_relationship_type : String
attribute_otel_entity_relationship_type = "otel.entity_relationship.type"

abbrev pub attribute_otel_entity_relationship_source_entity_id : String
attribute_otel_entity_relationship_source_entity_id = "otel.entity_relationship.source_entity.id"

abbrev pub attribute_otel_entity_relationship_destination_entity_id : String
attribute_otel_entity_relationship_destination_entity_id =
    "otel.entity_relationship.destination_entity.id"

abbrev pub attribute_otel_entity_relationship_attributes : String
attribute_otel_entity_relationship_attributes = "otel.entity_relationship.attributes"

abbrev pub event_type_entity_state : String
event_type_entity_state = "entity_state"

abbrev pub event_type_entity_relationship_state : String
event_type_entity_relationship_state = "entity_relationship_state"

abbrev pub entity_type_vulnerability : String
entity_type_vulnerability = "VulnerabilityDetail"

abbrev pub relationship_type_vulnerability_finding : String
relationship_type_vulnerability_finding = "VulnerabilityFinding"

abbrev pub attribute_vulnerability_id : String
attribute_vulnerability_id = "vulnerability.id"

abbrev pub attribute_vulnerability_description : String
attribute_vulnerability_description = "vulnerability.description"

abbrev pub attribute_vulnerability_severity : String
attribute_vulnerability_severity = "vulnerability.severity"

abbrev pub attribute_vulnerability_score_base : String
attribute_vulnerability_score_base = "vulnerability.score.base"

abbrev pub attribute_vulnerability_score_version : String
attribute_vulnerability_score_version = "vulnerability.score.version"

abbrev pub attribute_vulnerability_enumeration : String
attribute_vulnerability_enumeration = "vulnerability.enumeration"

abbrev pub attribute_vulnerability_reference : String
attribute_vulnerability_reference = "vulnerability.reference"

abbrev pub attribute_vulnerability_classification : String
attribute_vulnerability_classification = "vulnerability.classification"

abbrev pub attribute_vulnerability_published_date : String
attribute_vulnerability_published_date = "vulnerability.published_date"

abbrev pub attribute_vulnerability_last_modified_date : String
attribute_vulnerability_last_modified_date = "vulnerability.last_modified_date"

abbrev pub attribute_vulnerability_resource : String
attribute_vulnerability_resource = "vulnerability.resource"

abbrev pub attribute_vulnerability_installed_version : String
attribute_vulnerability_installed_version = "vulnerability.installed_version"

abbrev pub attribute_vulnerability_fixed_version : String
attribute_vulnerability_fixed_version = "vulnerability.fixed_version"

abbrev pub attribute_vulnerability_vendor_severity : String
attribute_vulnerability_vendor_severity = "vulnerability.severity.vendor"

abbrev pub attribute_vulnerability_score_environmental : String
attribute_vulnerability_score_environmental = "vulnerability.score.environmental"

abbrev pub attribute_vulnerability_vendor_severity_category : String
attribute_vulnerability_vendor_severity_category = "sw.vulnerability.severity.vendor_category"

abbrev pub attribute_scanner_vendor : String
attribute_scanner_vendor = "scannerVendor"

abbrev pub attribute_scanner_name : String
attribute_scanner_name = "scannerName"

abbrev pub attribute_scanner_version : String
attribute_scanner_version = "scannerVersion"

abbrev pub attribute_oci_manifest_digest : String
attribute_oci_manifest_digest = "oci.manifest.digest"

abbrev pub attribute_container_image_tags : String
attribute_container_image_tags = "container.image.tags"

abbrev pub attribute_image_tag : String
attribute_image_tag = "imageTag"

abbrev pub vendor_severity_category_critical : String
vendor_severity_category_critical = "CRITICAL"

abbrev pub vendor_severity_category_high : String
vendor_severity_category_high = "HIGH"

abbrev pub vendor_severity_category_medium : String
vendor_severity_category_medium = "MEDIUM"

abbrev pub vendor_severity_category_low : String
vendor_severity_category_low = "LOW"

abbrev pub vendor_severity_category_unknown : String
vendor_severity_category_unknown = "UNKNOWN"

abbrev pub k8s_log_type : String
k8s_log_type = "sw.k8s.log.type"

abbrev pub k8s_container_entity_type : String
k8s_container_entity_type = "KubernetesContainer"

abbrev pub k8s_container_image_entity_type : String
k8s_container_image_entity_type = "KubernetesContainerImage"

abbrev pub kubernetes_resource_uses_image_relation_type : String
kubernetes_resource_uses_image_relation_type = "KubernetesResourceUsesImage"

abbrev pub entity_state : String
entity_state = "entity_state"

abbrev pub relationship_update_event_type : String
relationship_update_event_type = "entity_relationship_state"

abbrev pub container_image_entity_type : String
container_image_entity_type = "ContainerImage"

abbrev pub relates_to_relation_type : String
relates_to_relation_type = "RelatesTo"

abbrev pub otel_entity_event_as_log : String
otel_entity_event_as_log = "otel.entity.event_as_log"

abbrev pub otel_entity_event_type : String
otel_entity_event_type = "otel.entity.event.type"

abbrev pub sw_entity_type : String
sw_entity_type = "otel.entity.type"

abbrev pub otel_entity_id : String
otel_entity_id = "otel.entity.id"

abbrev pub sw_k8s_cluster_uid : String
sw_k8s_cluster_uid = "sw.k8s.cluster.uid"

abbrev pub sw_k8s_workload_ip : String
sw_k8s_workload_ip = "sw.k8s.workload.ip"

abbrev pub service_name : String
service_name = "k8s.service.name"

abbrev pub relationship_src_entity_ids : String
relationship_src_entity_ids = "otel.entity_relationship.source_entity.id"

abbrev pub relationship_dest_entity_ids : String
relationship_dest_entity_ids = "otel.entity_relationship.destination_entity.id"

abbrev pub relationship_type : String
relationship_type = "otel.entity_relationship.type"

abbrev pub src_entity_type : String
src_entity_type = "otel.entity_relationship.source_entity.type"

abbrev pub dest_entity_type : String
dest_entity_type = "otel.entity_relationship.destination_entity.type"

abbrev pub otel_entity_attributes : String
otel_entity_attributes = "otel.entity.attributes"

abbrev pub k8s_container_status : String
k8s_container_status = "sw.k8s.container.status"

abbrev pub k8s_container_init : String
k8s_container_init = "sw.k8s.container.init"

abbrev pub k8s_container_sidecar : String
k8s_container_sidecar = "sw.k8s.container.sidecar"

abbrev pub k8s_container_deployed_by_k8s_collector : String
k8s_container_deployed_by_k8s_collector = "sw.k8s.deployedbycollector"
