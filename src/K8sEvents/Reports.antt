-- ===== src/K8sEvents/Reports.antt =====
-- internal/manifests/vulnerabilityreport.go, and the scores and severities of
-- vulnerability_log_constructor.go. Floating point numbers are a parameter, with the operations that the
-- source uses.
use solarwinds_otel_collecto.Base.{
  Bool, not, ◌&&◌, ◌||◌, List, [], ◌∷◌, ◌++◌, keep, String, if◌then◌else◌, ◌=s=◌, has_prefix,
}
use solarwinds_otel_collecto.K8sEvents.Constants.{
  vendor_severity_category_critical, vendor_severity_category_high, vendor_severity_category_medium,
  vendor_severity_category_low, vendor_severity_category_unknown,
}

module _ (F : Type 0) where
  -- `<` and `<=` on float64, and the numbers that the source compares with.
  pub record Floats : Type 0 where
    pub lt : F → F → Bool
    pub le : F → F → Bool
    pub zero_score : F
    pub four : F
    pub seven : F
    pub nine : F
    pub ten : F

  pub record CvssSource : Type 0 where
    pub v2_score : F
    pub v3_score : F

  pub record Vulnerability : Type 0 where
    pub vulnerability_id : String
    pub severity : String
    pub title : String
    pub description : String
    pub score : F
    pub nvd : CvssSource
    pub red_hat : CvssSource
    pub resource : String
    pub installed_version : String
    pub fixed_version : String
    pub published_date : String
    pub last_modified_date : String
    pub primary_link : String
    pub links : List String

  pub record VulnerabilityReport : Type 0 where
    pub api_version : String
    pub digest : String
    pub repository : String
    pub tag : String
    pub server : String
    pub scanner_name : String
    pub scanner_vendor : String
    pub scanner_version : String
    pub vulnerabilities : List Vulnerability

abbrev pub is_some_text : String → Bool
is_some_text s = not (s =s= "")

-- `mapVendorSeverityToCategory`, of a text in upper case.
unfoldable pub category_of : String → String
category_of severity =
    if severity =s= "CRITICAL"
    then vendor_severity_category_critical
    else if severity =s= "HIGH" || severity =s= "IMPORTANT"
    then vendor_severity_category_high
    else if severity =s= "MEDIUM" || severity =s= "MODERATE"
    then vendor_severity_category_medium
    else if severity =s= "LOW"
    then vendor_severity_category_low
    else vendor_severity_category_unknown

-- The enumeration of an ID, or the empty text.
abbrev pub enumeration_of : String → String
enumeration_of id =
    if has_prefix "CVE" id
    then "CVE"
    else if has_prefix "GHSA" id
    then "GHSA"
    else if has_prefix "OSV" id
    then "OSV"
    else ""

module _ {F : Type 0} (fl : Floats F) where
  abbrev pub is_positive : F → Bool
  is_positive score = fl.lt fl.zero_score score

  unfoldable pub extract_cvss_score : Vulnerability F → F × String
  extract_cvss_score v =
      if is_positive v.nvd.v3_score
      then (v.nvd.v3_score, "3.0")
      else if is_positive v.red_hat.v3_score
      then (v.red_hat.v3_score, "3.0")
      else if is_positive v.nvd.v2_score
      then (v.nvd.v2_score, "2.0")
      else if is_positive v.red_hat.v2_score
      then (v.red_hat.v2_score, "2.0")
      else (fl.zero_score, "")

  unfoldable pub calculate_severity : F → String
  calculate_severity score =
      let capped = if fl.lt fl.ten score then fl.ten else score in
      if fl.le score fl.zero_score
      then ""
      else if fl.le fl.nine capped
      then "CRITICAL"
      else if fl.le fl.seven capped
      then "HIGH"
      else if fl.le fl.four capped
      then "MEDIUM"
      else "LOW"

  -- The texts of `vulnerability.reference`.
  unfoldable pub references : Vulnerability F → List String
  references v =
      (if is_some_text v.primary_link then v.primary_link ∷ [] else [])
      ++ keep (λ link. is_some_text link && not (link =s= v.primary_link)) v.links
