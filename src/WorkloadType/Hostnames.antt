-- ===== src/WorkloadType/Hostnames.antt =====
-- The look-up by host name of internal/lookup.go: `ExtractNameAndNamespaceAndType` and
-- `LookupWorkloadKindByHostname`.
use solarwinds_otel_collecto.Base.{
  ℕ, Bool, not, ◌&&◌, ◌||◌, List, [], ◌∷◌, String, Dict, if◌then◌else◌, ◌=s=◌, split_dots, ok, err,
}
use solarwinds_otel_collecto.WorkloadType.{
  empty_lookup_result, is_empty, Informer, Outcome, pod_kind, service_kind, pods_workload_type,
  lookup_by_name, lookup_owner_kind,
}

abbrev pub service_type_short : String
service_type_short = "svc"

abbrev pub pod_type_short : String
pod_type_short = "pod"

-- A name, a namespace and a short type.
pub record HostName : Type 0 where
  pub name : String
  pub namespace : String
  pub type_short : String

abbrev pub unknown_format : HostName
unknown_format = record { name = ""; namespace = ""; type_short = "" }

abbrev pub is_short : String → Bool
is_short s = s =s= service_type_short || s =s= pod_type_short

-- The `switch` of `ExtractNameAndNamespaceAndType`, on the parts in reverse order.
abbrev pub classify : List String → HostName
classify (a ∷ []) = record { name = a; namespace = ""; type_short = "" }
classify (a ∷ b ∷ []) = record { name = b; namespace = a; type_short = "" }
classify (a ∷ b ∷ c ∷ []) =
    if is_short a then record { name = c; namespace = b; type_short = a } else unknown_format
classify (a ∷ b ∷ c ∷ d ∷ e ∷ []) =
    if is_short c && (b =s= "cluster" && a =s= "local")
    then record { name = e; namespace = d; type_short = c }
    else unknown_format
classify (a ∷ b ∷ c ∷ d ∷ e ∷ f ∷ []) =
    if is_short d && (c =s= "cluster" && (b =s= "local" && a =s= ""))
    then record { name = f; namespace = e; type_short = d }
    else unknown_format
classify _ = unknown_format

-- `slices.Reverse`, in front of what is reversed already.
abbrev pub reverse_onto {ℓ} : {A : Type ℓ} → List A → List A → List A
reverse_onto reversed [] = reversed
reverse_onto reversed (x ∷ xs) = reverse_onto (x ∷ reversed) xs

unfoldable pub extract_name_and_namespace_and_type : String → HostName
extract_name_and_namespace_and_type host = classify (reverse_onto [] (split_dots host))

-- Another attempt, if the first found nothing and the condition holds.
abbrev pub or_try : Outcome → Bool → Outcome → Outcome
or_try (err e) condition next = err e
or_try (ok r) condition next = if is_empty r && condition then next else ok r

module _ (informers : Dict Informer) where
  -- `LookupWorkloadKindByHostname`.
  unfoldable pub lookup_by_hostname : ℕ → Bool → List String → String → String → Outcome
  lookup_by_hostname fuel prefer_pod_owner types hostname namespace_from_attr =
      let host = extract_name_and_namespace_and_type hostname in
      let name = host.name in
      let namespace = host.namespace in
      let unclear = name =s= "" || namespace =s= "" in
      let by_name = lookup_by_name informers fuel prefer_pod_owner types in
      let the_pod : Outcome = ok (record { name = name; namespace = namespace; kind = pod_kind }) in
      let the_service : Outcome =
        ok (record { name = name; namespace = namespace; kind = service_kind }) in
      if host.type_short =s= pod_type_short
      then if unclear
        then ok empty_lookup_result
        else if prefer_pod_owner
        then elim (lookup_owner_kind informers fuel name namespace pods_workload_type) [
          | err e ↦ err e
          | ok owner ↦ if not (is_empty owner) then ok owner else the_pod
        ]
        else the_pod
      else if host.type_short =s= service_type_short
      then if unclear then ok empty_lookup_result else the_service
      else or_try
          (or_try
            (or_try (ok empty_lookup_result) (not (name =s= "") && not (namespace =s= ""))
              (by_name name namespace))
            (not (name =s= "") && (namespace =s= "" && not (namespace_from_attr =s= "")))
            (by_name name namespace_from_attr))
          (not (hostname =s= "") && not (namespace_from_attr =s= ""))
          (by_name hostname namespace_from_attr)
