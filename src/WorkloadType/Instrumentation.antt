-- ===== src/WorkloadType/Instrumentation.antt =====
-- internal/otel_instrumentation_lookup.go: the workload of a service name that pods carry in a label
-- or an annotation.
use solarwinds_otel_collecto.Base.{
  ℕ, Bool, true, false, not, ◌&&◌, ◌||◌, List, [], ◌∷◌, none, some, String, Dict, lookup, contains,
  Result, ok, err, if◌then◌else◌, ◌=s=◌,
}
use solarwinds_otel_collecto.WorkloadType.{
  LookupResult, empty_lookup_result, is_empty, Meta, Workload, Informer, Stop, Outcome,
  pods_workload_type, lookup_owner, extract_workload_kind,
}
use solarwinds_otel_collecto.WorkloadType.Hostnames.{extract_name_and_namespace_and_type, or_try}

abbrev pub otel_service_name_annotation : String
otel_service_name_annotation = "resource.opentelemetry.io/service.name"

abbrev pub otel_service_namespace_annotation : String
otel_service_namespace_annotation = "resource.opentelemetry.io/service.namespace"

abbrev pub kubernetes_app_name_label : String
kubernetes_app_name_label = "app.kubernetes.io/name"

abbrev pub kubernetes_app_partof_label : String
kubernetes_app_partof_label = "app.kubernetes.io/part-of"

abbrev pub service_name_from_pod_label_index : String
service_name_from_pod_label_index = "serviceNameFromPodLabelIndex"

abbrev pub service_name_from_pod_annotation_index : String
service_name_from_pod_annotation_index = "serviceNameFromPodAnnotationIndex"

-- `m[k]` of a map of texts: the empty text for a key that is missing.
abbrev pub text_at : String → Dict String → String
text_at k m = elim (lookup k m) [ none ↦ "" | some v ↦ v ]

-- `==` of two results.
abbrev pub same_result : LookupResult → LookupResult → Bool
same_result a b = a.name =s= b.name && (a.namespace =s= b.namespace && a.kind =s= b.kind)

-- The keys of the map `owners`.
unfoldable pub add_owner : LookupResult → List LookupResult → List LookupResult
add_owner owner [] = owner ∷ []
add_owner owner (o ∷ owners) =
    let rest = add_owner owner owners in if same_result o owner then o ∷ owners else o ∷ rest

module _ (informers : Dict Informer) where
  -- The pods of the right namespace: that of the host name, if it has one, must be that of the pod's
  -- labels or annotations, or that of the attributes.
  unfoldable pub found_pods : (Meta → String) → String → String → List Workload → List Workload
  found_pods get_namespace from_hostname from_attr [] = []
  found_pods get_namespace from_hostname from_attr (pod ∷ pods) =
      let rest = found_pods get_namespace from_hostname from_attr pods in
      elim pod.metadata [
        | none ↦ rest
        | some meta ↦
            if from_hostname =s= ""
              || (get_namespace meta =s= from_hostname || from_attr =s= from_hostname)
            then pod ∷ rest
            else rest
      ]

  -- The owners of the pods, those that are not empty, each once.
  unfoldable pub owners_from :
      ℕ → List LookupResult → List Workload → Result Stop (List LookupResult)
  owners_from fuel owners [] = ok owners
  owners_from fuel owners (pod ∷ pods) = elim (lookup_owner informers fuel pod) [
    | err e ↦ err e
    | ok owner ↦ owners_from fuel (if is_empty owner then owners else add_owner owner owners) pods
  ]

  -- The `switch` on the number of pods.
  unfoldable pub choose_workload : ℕ → Bool → List Workload → Outcome
  choose_workload fuel prefer_pod_owner [] = ok empty_lookup_result
  choose_workload fuel prefer_pod_owner (pod ∷ []) =
      extract_workload_kind informers fuel prefer_pod_owner pod
  choose_workload fuel false (pod ∷ pods) = ok empty_lookup_result
  choose_workload fuel true (pod ∷ pods) = elim (owners_from fuel [] (pod ∷ pods)) [
    | err e ↦ err e
    | ok (owner ∷ []) ↦ ok owner
    | ok _ ↦ ok empty_lookup_result
  ]

  -- The closure `lookupByIndex`. An error of the index leaves no pods.
  unfoldable pub lookup_by_index :
      ℕ → Bool → Informer → String → String → String → String → (Meta → String) → Outcome
  lookup_by_index fuel prefer_pod_owner informer name from_hostname from_attr index get_namespace =
      let pods : List Workload = elim (informer.by_index index name) [
        | none ↦ []
        | some pods ↦ pods
      ] in
      choose_workload fuel prefer_pod_owner (found_pods get_namespace from_hostname from_attr pods)

  -- `LookupWorkloadByOtelInstrumentationServiceName`: labels first, then annotations.
  unfoldable pub lookup_by_service_name : ℕ → Bool → List String → String → String → Outcome
  lookup_by_service_name fuel prefer_pod_owner types service_name from_attr =
      let host = extract_name_and_namespace_and_type service_name in
      if host.name =s= ""
      then ok empty_lookup_result
      else elim (lookup pods_workload_type informers) [
        | none ↦ ok empty_lookup_result
        | some informer ↦
            let by_index =
              lookup_by_index fuel prefer_pod_owner informer host.name host.namespace from_attr in
            let by_label =
              by_index service_name_from_pod_label_index
                (λ meta. text_at kubernetes_app_partof_label meta.labels) in
            let by_annotation =
              by_index service_name_from_pod_annotation_index
                (λ meta. text_at otel_service_namespace_annotation meta.annotations) in
            if not (contains pods_workload_type types)
            then ok empty_lookup_result
            else or_try by_label true by_annotation
      ]
