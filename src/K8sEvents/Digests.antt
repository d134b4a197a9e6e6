-- ===== src/K8sEvents/Digests.antt =====
-- Digests and names of images, from vulnerability_log_constructor.go. strings.ToLower on Unicode and
-- name.ParseReference are parameters.
use solarwinds_otel_collecto.Base.{
  List, [], ◌∷◌, Option, none, some, String, if◌then◌else◌, ◌=s=◌, ◌++ₛ◌, trim_prefix, cut_at,
}
use solarwinds_otel_collecto.K8sEvents.Manifests.{Reference}

abbrev pub trim_prefixes : List String → String → String
trim_prefixes [] digest = digest
trim_prefixes (prefix ∷ prefixes) digest = trim_prefixes prefixes (trim_prefix prefix digest)

abbrev pub runtime_prefixes : List String
runtime_prefixes = "docker://" ∷ "containerd://" ∷ "cri-o://" ∷ "docker-pullable://" ∷ []

unfoldable pub extract_sha256_digest : (String → String) → String → String
extract_sha256_digest lower full_digest =
    let trimmed = trim_prefixes runtime_prefixes full_digest in
    let digest = elim (cut_at b'@' trimmed) as (λ _. String) [
      | none ↦ trimmed
      | some (_, after) ↦ after
    ] in
    if full_digest =s= "" then "" else elim (cut_at b':' digest) [
      | none ↦ "sha256:" ++ₛ digest
      | some (algorithm, hash) ↦ lower algorithm ++ₛ ":" ++ₛ lower hash
    ]

-- `normalizeVulnerabilityReportImage`.
unfoldable pub normalize_image : (String → Option Reference) → String → String → String → String
normalize_image parse_reference registry repository tag =
    let with_registry = if registry =s= "" then repository else registry ++ₛ "/" ++ₛ repository in
    let image_ref = if tag =s= "" then with_registry else with_registry ++ₛ ":" ++ₛ tag in
    if repository =s= ""
    then ""
    else elim (parse_reference image_ref) [ none ↦ image_ref | some ref ↦ ref.context_name ]
