-- ===== src/K8sEvents/Findings.antt =====
-- The findings of a vulnerability report lead from and to entities that are reported with them.
use mathlib.Core.List.Memᴰ
use mathlib.Core.List.{Memᴰ}
use solarwinds_otel_collecto.Base.{
  ℕ, ◌≡◌, refl, sym, false, Option, String, ◌=s=◌, Bool-cases, inl, inr, subst,
}
use solarwinds_otel_collecto.Connector.Pdata.{Pdata, Laws}
use solarwinds_otel_collecto.K8sEvents.Constants.{
  src_entity_type, dest_entity_type, relationship_src_entity_ids, relationship_dest_entity_ids,
}
use solarwinds_otel_collecto.K8sEvents.Manifests.{Reference}
use solarwinds_otel_collecto.K8sEvents.Digests.{extract_sha256_digest, normalize_image}
use solarwinds_otel_collecto.K8sEvents.Records.{Packages, LogRecord, observed, image_attributes}
use solarwinds_otel_collecto.K8sEvents.Reports.{Floats, Vulnerability, VulnerabilityReport}
use solarwinds_otel_collecto.K8sEvents.Vulnerabilities.{
  vulnerability_attributes, finding_attributes, vulnerability_entity_logs, finding_logs,
  report_image_log, stamped, with_resource,
}
use solarwinds_otel_collecto.K8sEvents.Pipeline.{report_logs}
use solarwinds_otel_collecto.K8sEvents.Once.{map-Memᴰ, Memᴰ-map}
use solarwinds_otel_collecto.K8sEvents.Ends.{IsEnd, HasEnd}

module _ (pd : Pdata) (laws : Laws pd) (ext : Packages pd) (fl : Floats pd.Double)
    (upper : String → String) (parse_reference : String → Option Reference)
    (m : VulnerabilityReport pd.Double) (t : ℕ) (cluster_uid : String) where
  source-IsEnd :
      (v : Vulnerability pd.Double)
      → IsEnd pd laws ext src_entity_type relationship_src_entity_ids
          (vulnerability_attributes pd ext fl upper parse_reference v)
          (finding_attributes pd ext fl upper parse_reference m cluster_uid v)
  unfolding vulnerability_attributes finding_attributes
  source-IsEnd v = (simp (laws.get-put_map, laws.get-put_str), simp laws.get-put_map)

  target-IsEnd :
      (v : Vulnerability pd.Double)
      → IsEnd pd laws ext dest_entity_type relationship_dest_entity_ids
          (image_attributes pd ext cluster_uid
            (extract_sha256_digest ext.lower m.digest)
            (normalize_image parse_reference m.server m.repository m.tag)
            m.tag)
          (finding_attributes pd ext fl upper parse_reference m cluster_uid v)
  unfolding image_attributes finding_attributes
  target-IsEnd v = (simp (laws.get-put_map, laws.get-put_str), simp laws.get-put_map)

  -- The records of a report of an image that is known.
  module _ (digest_set : (m.digest =s= "") ≡ false) (uid_set : (cluster_uid =s= "") ≡ false) where
    source-HasEnd :
        (v : Vulnerability pd.Double)
        → Memᴰ v (with_resource pd ext fl upper parse_reference m.vulnerabilities)
        → HasEnd pd laws ext src_entity_type relationship_src_entity_ids
            (report_logs pd ext fl upper parse_reference m t cluster_uid)
            (stamped pd ext fl upper parse_reference t
              (finding_attributes pd ext fl upper parse_reference m cluster_uid v))
    unfolding report_logs vulnerability_entity_logs
    source-HasEnd v w = (
      stamped pd ext fl upper parse_reference t
          (vulnerability_attributes pd ext fl upper parse_reference v),
      Memᴰ.append_left _ (Memᴰ-map _ w),
      source-IsEnd v,
    )

    target-HasEnd :
        (v : Vulnerability pd.Double)
        → HasEnd pd laws ext dest_entity_type relationship_dest_entity_ids
            (report_logs pd ext fl upper parse_reference m t cluster_uid)
            (stamped pd ext fl upper parse_reference t
              (finding_attributes pd ext fl upper parse_reference m cluster_uid v))
    unfolding report_logs report_image_log
    target-HasEnd v = (
      observed pd ext t (
          image_attributes pd ext cluster_uid (extract_sha256_digest ext.lower m.digest)
            (normalize_image parse_reference m.server m.repository m.tag) m.tag),
      Memᴰ.append_right (vulnerability_entity_logs pd ext fl upper parse_reference m t) (
          Memᴰ.append_right (finding_logs pd ext fl upper parse_reference m t cluster_uid)
            (rw (uid_set, digest_set, report_image_log) (Memᴰ.head refl))),
      target-IsEnd v,
    )

  -- Each finding of a vulnerability report comes with a record of the vulnerability and with a record
  -- of the image that it leads to, the same in type and ID.
  pub report_logs-HasEnd :
      (r : LogRecord pd)
      → Memᴰ r (finding_logs pd ext fl upper parse_reference m t cluster_uid)
      → HasEnd pd laws ext src_entity_type relationship_src_entity_ids
          (report_logs pd ext fl upper parse_reference m t cluster_uid)
          r
        × HasEnd pd laws ext dest_entity_type relationship_dest_entity_ids
            (report_logs pd ext fl upper parse_reference m t cluster_uid)
            r
  unfolding finding_logs
  report_logs-HasEnd r i = elim (Bool-cases (m.digest =s= "")) [
    | inl e ↦ absurd (Memᴰ.not-nil (rw (e, finding_logs) at i))
    | inr e ↦ elim (Bool-cases (cluster_uid =s= "")) [
      | inl g ↦ absurd (Memᴰ.not-nil (rw (e, g, finding_logs) at i))
      | inr g ↦
          let (v, w, made) = map-Memᴰ _ _ (rw (e, g, finding_logs) at i) in
          subst
            (λ r.
              HasEnd pd laws ext src_entity_type relationship_src_entity_ids
                (report_logs pd ext fl upper parse_reference m t cluster_uid) r
              × HasEnd pd laws ext dest_entity_type relationship_dest_entity_ids
                  (report_logs pd ext fl upper parse_reference m t cluster_uid) r)
            (sym made) (source-HasEnd e g v w, target-HasEnd e g v)
    ]
  ]
