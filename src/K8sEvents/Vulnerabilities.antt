-- ===== src/K8sEvents/Vulnerabilities.antt =====
-- The log records of a vulnerability report, from vulnerability_log_constructor.go. strings.ToUpper on
-- Unicode is a parameter.
use solarwinds_otel_collecto.Base.{
  ℕ, List, [], ◌∷◌, map, keep, Option, String, if◌then◌else◌, ◌=s=◌,
}
use solarwinds_otel_collecto.Connector.Pdata.{Pdata}
use solarwinds_otel_collecto.K8sEvents.Manifests.{Reference}
use solarwinds_otel_collecto.K8sEvents.Digests.{extract_sha256_digest, normalize_image}
use solarwinds_otel_collecto.K8sEvents.Records.{
  Packages, LogRecord, put_str_to, put_map_to, image_ids, observed, image_attributes,
}
use solarwinds_otel_collecto.K8sEvents.Constants
use solarwinds_otel_collecto.K8sEvents.Constants.{
  k8s_container_image_entity_type, src_entity_type, dest_entity_type,
  vendor_severity_category_critical, vendor_severity_category_high, vendor_severity_category_medium,
  vendor_severity_category_low, vendor_severity_category_unknown, event_type_entity_state,
  event_type_entity_relationship_state, entity_type_vulnerability,
  relationship_type_vulnerability_finding,
}
use solarwinds_otel_collecto.K8sEvents.Reports.{
  Floats, Vulnerability, VulnerabilityReport, is_some_text, category_of, enumeration_of,
  is_positive, extract_cvss_score, calculate_severity, references,
}

module _ (pd : Pdata) (ext : Packages pd) where
  abbrev pub put_some_text : String → String → pd.Map → pd.Map
  put_some_text k v m = if is_some_text v then pd.put_str m k v else m

  abbrev pub put_double_to : String → pd.Double → pd.Map → pd.Map
  put_double_to k v m = pd.put_double m k v

  module _ (fl : Floats pd.Double) (upper : String → String)
      (parse_reference : String → Option Reference) where
    -- The composite key of a vulnerability.
    abbrev pub vulnerability_ids : Vulnerability pd.Double → pd.Map
    vulnerability_ids v =
        put_str_to pd ext Constants.attribute_vulnerability_installed_version v.installed_version (
          put_str_to pd ext Constants.attribute_vulnerability_resource v.resource
            (put_str_to pd ext Constants.attribute_vulnerability_id v.vulnerability_id pd.new_map))

    -- The base score with the severity that is calculated from it.
    abbrev pub put_severity : pd.Double → pd.Map → pd.Map
    put_severity score =
        put_some_text Constants.attribute_vulnerability_severity (calculate_severity fl score)

    unfoldable pub put_scores : Vulnerability pd.Double → pd.Map → pd.Map
    put_scores v m =
        let (cvss, version) = extract_cvss_score fl v in
        if is_positive fl cvss
        then put_severity cvss (
            put_str_to pd ext Constants.attribute_vulnerability_score_version version
              (put_double_to Constants.attribute_vulnerability_score_base cvss m))
        else if is_positive fl v.score
        then put_severity v.score
            (put_double_to Constants.attribute_vulnerability_score_base v.score m)
        else m

    -- What the scanner says of the severity, and the score that depends on the environment.
    unfoldable pub put_vendor_severity : Vulnerability pd.Double → pd.Map → pd.Map
    put_vendor_severity v m =
        let graded =
          if is_some_text v.severity
          then put_str_to pd ext Constants.attribute_vulnerability_vendor_severity_category
              (category_of (upper v.severity))
              (put_str_to pd ext Constants.attribute_vulnerability_vendor_severity v.severity m)
          else m in
        if is_positive fl v.score
        then put_double_to Constants.attribute_vulnerability_score_environmental v.score graded
        else graded

    abbrev pub description_of : Vulnerability pd.Double → String
    description_of v = if v.description =s= "" then v.title else v.description

    unfoldable pub entity_details : Vulnerability pd.Double → pd.Map
    entity_details v =
        let scored = put_scores v (
          put_str_to pd ext Constants.attribute_vulnerability_description (description_of v) (
            put_str_to pd ext Constants.attribute_vulnerability_id v.vulnerability_id
              pd.new_map)) in
        let dated =
          put_some_text Constants.attribute_vulnerability_last_modified_date v.last_modified_date (
            put_some_text Constants.attribute_vulnerability_published_date v.published_date
              (put_str_to pd ext Constants.attribute_vulnerability_classification "CVSS" scored)) in
        let referenced =
          ext.put_texts
            (put_some_text Constants.attribute_vulnerability_enumeration
              (enumeration_of v.vulnerability_id) dated)
            Constants.attribute_vulnerability_reference (references fl v) in
        put_vendor_severity v (
          put_str_to pd ext Constants.attribute_vulnerability_fixed_version v.fixed_version (
            put_str_to pd ext Constants.attribute_vulnerability_installed_version
              v.installed_version
              (put_str_to pd ext Constants.attribute_vulnerability_resource v.resource referenced)))

    unfoldable pub vulnerability_attributes : Vulnerability pd.Double → pd.Map
    vulnerability_attributes v =
        put_map_to pd ext Constants.attribute_otel_entity_attributes (entity_details v) (
          put_map_to pd ext Constants.attribute_otel_entity_id (vulnerability_ids v) (
            put_str_to pd ext Constants.attribute_otel_entity_type entity_type_vulnerability (
              put_str_to pd ext Constants.attribute_otel_entity_event_type event_type_entity_state
                pd.new_map)))

    abbrev pub stamped : ℕ → pd.Map → LogRecord pd
    stamped t attributes = record { timestamp = t; observed_timestamp = t; attributes = attributes }

    -- Vulnerabilities with a resource.
    abbrev pub with_resource : List (Vulnerability pd.Double) → List (Vulnerability pd.Double)
    with_resource = keep (λ (v : Vulnerability pd.Double). is_some_text v.resource)

    -- `transformVulnerabilitiesToEntityLogs`.
    unfoldable pub vulnerability_entity_logs :
        VulnerabilityReport pd.Double → ℕ → List (LogRecord pd)
    vulnerability_entity_logs m t =
        map (λ v. stamped t (vulnerability_attributes v)) (with_resource m.vulnerabilities)

    abbrev pub report_image_ids : VulnerabilityReport pd.Double → String → pd.Map
    report_image_ids m cluster_uid =
        image_ids pd ext cluster_uid (extract_sha256_digest ext.lower m.digest)
          (normalize_image parse_reference m.server m.repository m.tag)

    unfoldable pub finding_attributes :
        VulnerabilityReport pd.Double → String → Vulnerability pd.Double → pd.Map
    finding_attributes m cluster_uid v =
        put_map_to pd ext Constants.attribute_otel_entity_relationship_attributes
          (put_str_to pd ext Constants.attribute_scanner_version m.scanner_version (
            put_str_to pd ext Constants.attribute_scanner_name m.scanner_name
              (put_str_to pd ext Constants.attribute_scanner_vendor m.scanner_vendor pd.new_map)))
          (put_map_to pd ext Constants.attribute_otel_entity_relationship_destination_entity_id
            (report_image_ids m cluster_uid)
            (put_map_to pd ext Constants.attribute_otel_entity_relationship_source_entity_id
              (vulnerability_ids v)
              (put_str_to pd ext dest_entity_type k8s_container_image_entity_type (
                put_str_to pd ext src_entity_type entity_type_vulnerability (
                  put_str_to pd ext Constants.attribute_otel_entity_relationship_type
                    relationship_type_vulnerability_finding
                    (put_str_to pd ext Constants.attribute_otel_entity_event_type
                      event_type_entity_relationship_state pd.new_map))))))

    -- `transformVulnerabilitiesToFindingLogs`.
    unfoldable pub finding_logs : VulnerabilityReport pd.Double → ℕ → String → List (LogRecord pd)
    finding_logs m t cluster_uid =
        if m.digest =s= ""
        then []
        else if cluster_uid =s= ""
        then []
        else map (λ v. stamped t (finding_attributes m cluster_uid v))
            (with_resource m.vulnerabilities)

    -- `transformVulnerabilityReportToContainerImageLog`.
    unfoldable pub report_image_log :
        VulnerabilityReport pd.Double → ℕ → String → List (LogRecord pd)
    report_image_log m t cluster_uid =
        if cluster_uid =s= ""
        then []
        else if m.digest =s= ""
        then []
        else observed pd ext t (
            image_attributes pd ext cluster_uid (extract_sha256_digest ext.lower m.digest)
              (normalize_image parse_reference m.server m.repository m.tag) m.tag)
          ∷ []
