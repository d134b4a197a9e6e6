-- ===== src/WorkloadType/Transforms.antt =====
-- The objects that an informer stores serve the look-ups as the objects themselves do.
use solarwinds_otel_collecto.Base.{
  ℕ, zero, suc, ◌≡◌, refl, ◌∙◌, ap, Bool, true, List, [], ◌∷◌, map, keep, Option, none, some,
  String, Dict, lookup, contains, ◌=s=◌, arith, Bool-cases, inl, inr, eq_iff, eq_refl,
}
use solarwinds_otel_collecto.WorkloadType.{Informer, OwnerReference, Meta, Workload, lookup_owner}
use solarwinds_otel_collecto.WorkloadType.Instrumentation.{
  otel_service_name_annotation, otel_service_namespace_annotation, kubernetes_app_name_label,
  kubernetes_app_partof_label,
}
use solarwinds_otel_collecto.WorkloadType.Caches.{
  ApiOwner, Object, pod, service, generic, opaque_object, filter_map, copy_owner_references,
  pod_transform, pod_ip_indexer, name_in, label_indexer, annotation_indexer, to_workload,
}

lookup-keep :
    (k : String) (keys : List String) (m : Dict String)
    → contains k keys ≡ true
    → lookup k (keep (λ (entry : String × String). contains entry.0 keys) m) ≡ lookup k m
unfolding lookup keep
lookup-keep k keys [] h = refl
lookup-keep k keys ((j, v) ∷ m) h = elim (Bool-cases (j =s= k)) [
  | inl same ↦
      let e = (eq_iff j k).0 same in
      let kept : contains j keys ≡ true = ap (λ x. contains x keys) e ∙ h in
      ground (arith, same, kept)
  | inr other ↦ ground (arith, other, lookup-keep k keys m h)
]

-- A filtered map shows the same text at a key that is kept.
name_in-filter_map :
    (k l : String) (ls : List String) (m : Option (Dict String))
    → contains k (l ∷ ls) ≡ true
    → name_in k (filter_map m (l ∷ ls)) ≡ name_in k m
unfolding filter_map
name_in-filter_map k l ls none h = refl
name_in-filter_map k l ls (some m) h = rw (lookup-keep k (l ∷ ls) m h, name_in) refl

contains_head : (k : String) (ks : List String) → contains k (k ∷ ks) ≡ true
unfolding contains
contains_head k ks = rw (eq_refl k) refl

-- The owner depends on the namespace and the references alone.
lookup_owner-metadata :
    (informers : Dict Informer) (fuel : ℕ) (v w : Workload) (m n : Meta)
    → v.metadata ≡ some m
    → w.metadata ≡ some n
    → m.namespace ≡ n.namespace
    → m.owner_references ≡ n.owner_references
    → lookup_owner informers fuel v ≡ lookup_owner informers fuel w
unfolding lookup_owner
lookup_owner-metadata informers zero v w m n a b c d = refl
lookup_owner-metadata informers (suc fuel) v w m n a b c d =
    rw (a, b, lookup_owner) (rw (c, d) refl)

module _ {R : Type 0} (zero_rest : R) where
  same_owners :
      (refs : List (ApiOwner R))
      → map
          (λ (o : ApiOwner R).
            let ref : OwnerReference = record { kind = o.kind; name = o.name } in ref)
          (copy_owner_references zero_rest refs)
        ≡ map
            (λ (o : ApiOwner R).
              let ref : OwnerReference = record { kind = o.kind; name = o.name } in ref)
            refs
  same_owners [] = refl
  same_owners (o ∷ refs) = ap (◌∷◌ (record { kind = o.kind; name = o.name })) (same_owners refs)

  -- What an informer of pods stores has the same addresses, the same service names in labels and
  -- annotations, and, where owners are kept, the same owner as the object itself.
  pub pod_transform-Same :
      (o : Object R) (keep_owners : Bool) (informers : Dict Informer) (fuel : ℕ)
      → (pod_ip_indexer (pod_transform zero_rest keep_owners o) ≡ pod_ip_indexer o)
        × (label_indexer (pod_transform zero_rest keep_owners o) ≡ label_indexer o)
        × (annotation_indexer (pod_transform zero_rest keep_owners o) ≡ annotation_indexer o)
        × (lookup_owner informers fuel (to_workload (pod_transform zero_rest true o))
            ≡ lookup_owner informers fuel (to_workload o))
  unfolding pod_transform pod_ip_indexer label_indexer annotation_indexer to_workload
  pod_transform-Same (service s) keep_owners informers fuel = (refl, refl, refl, refl)
  pod_transform-Same (generic t k m) keep_owners informers fuel = (refl, refl, refl, refl)
  pod_transform-Same (opaque_object r) keep_owners informers fuel = (refl, refl, refl, refl)
  pod_transform-Same (pod p) keep_owners informers fuel = (
    refl,
    ap (λ n. n ∷ [])
        (name_in-filter_map kubernetes_app_name_label kubernetes_app_name_label
          (kubernetes_app_partof_label ∷ []) p.meta.labels
          (contains_head kubernetes_app_name_label (kubernetes_app_partof_label ∷ []))),
    ap (λ n. n ∷ [])
        (name_in-filter_map otel_service_name_annotation otel_service_name_annotation
          (otel_service_namespace_annotation ∷ []) p.meta.annotations
          (contains_head otel_service_name_annotation (otel_service_namespace_annotation ∷ []))),
    lookup_owner-metadata informers fuel _ _ _ _ refl refl refl
        (same_owners p.meta.owner_references),
  )
