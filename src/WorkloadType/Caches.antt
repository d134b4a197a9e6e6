-- ===== src/WorkloadType/Caches.antt =====
-- internal/cache.go: what the informers store of an object, and the keys under which they index it.
-- `R` stands for all fields of the Kubernetes objects that the processor does not read.
use solarwinds_otel_collecto.Base.{
  Bool, true, false, not, ◌&&◌, List, [], ◌∷◌, ◌++◌, map, keep, Option, none, some, String, Dict,
  lookup, contains, if◌then◌else◌, ◌=s=◌,
}
use solarwinds_otel_collecto.WorkloadType.{
  OwnerReference, Meta, Workload, service_type, pod_type, other_type, pod_kind, service_kind,
}
use solarwinds_otel_collecto.WorkloadType.Instrumentation.{
  otel_service_name_annotation, otel_service_namespace_annotation, kubernetes_app_name_label,
  kubernetes_app_partof_label,
}

module _ (R : Type 0) where
  pub record ApiOwner : Type 0 where
    pub kind : String
    pub name : String
    pub rest : R

  -- `metav1.ObjectMeta`; a map that is none is nil.
  pub record ObjectMeta : Type 0 where
    pub name : String
    pub namespace : String
    pub owner_references : List ApiOwner
    pub labels : Option (Dict String)
    pub annotations : Option (Dict String)
    pub rest : R

  pub record PodObject : Type 0 where
    pub kind : String
    pub meta : ObjectMeta
    pub host_network : Bool
    pub pod_ips : List String
    pub rest : R

  pub record ServiceObject : Type 0 where
    pub kind : String
    pub meta : ObjectMeta
    pub cluster_ips : List String
    pub external_ips : List String
    pub rest : R

  -- A pod, a service, another object with metadata, or any other value.
  pub data Object : Type 0 where
    pod : PodObject → Object
    service : ServiceObject → Object
    generic : String → String → ObjectMeta → Object
    opaque_object : R → Object

  abbrev pub meta_of : Object → Option ObjectMeta
  meta_of (pod p) = some p.meta
  meta_of (service s) = some s.meta
  meta_of (generic type kind m) = some m
  meta_of (opaque_object r) = none

-- `filterMap`.
unfoldable pub filter_map : Option (Dict String) → List String → Option (Dict String)
filter_map none keys_to_keep = none
filter_map (some input) [] = none
filter_map (some input) (k ∷ ks) =
    some (keep (λ (entry : String × String). contains entry.0 (k ∷ ks)) input)

module _ {R : Type 0} (zero_rest : R) where
  abbrev pub copy_owner_references : List (ApiOwner R) → List (ApiOwner R)
  copy_owner_references = map (λ (ref : ApiOwner R). record ref { rest = zero_rest })

  -- The references of the owners, if they are kept, and the name and the namespace.
  abbrev pub kept_meta : Bool → ObjectMeta R → ObjectMeta R
  kept_meta keep_owners m = record {
    name = m.name;
    namespace = m.namespace;
    owner_references = if keep_owners then copy_owner_references m.owner_references else [];
    labels = none;
    annotations = none;
    rest = zero_rest;
  }

  unfoldable pub pod_transform : Bool → Object R → Object R
  pod_transform keep_owners (pod p) = pod (record {
    kind = pod_kind;
    meta = record (kept_meta keep_owners p.meta) {
      labels =
          filter_map p.meta.labels (kubernetes_app_name_label ∷ kubernetes_app_partof_label ∷ []);
      annotations =
          filter_map p.meta.annotations
            (otel_service_name_annotation ∷ otel_service_namespace_annotation ∷ []);
    };
    host_network = p.host_network;
    pod_ips = p.pod_ips;
    rest = zero_rest;
  })
  pod_transform keep_owners (service s) = service s
  pod_transform keep_owners (generic type kind m) = generic type kind m
  pod_transform keep_owners (opaque_object r) = opaque_object r

  unfoldable pub service_transform : Object R → Object R
  service_transform (service s) = service (record {
    kind = service_kind;
    meta = kept_meta false s.meta;
    cluster_ips = s.cluster_ips;
    external_ips = s.external_ips;
    rest = zero_rest;
  })
  service_transform (pod p) = pod p
  service_transform (generic type kind m) = generic type kind m
  service_transform (opaque_object r) = opaque_object r

  -- The stored object has the Go type `PartialObjectMetadata`.
  unfoldable pub generic_transform : String → Bool → Object R → Object R
  generic_transform kind keep_owners o = elim (meta_of R o) [
    | none ↦ o
    | some m ↦ generic "*v1.PartialObjectMetadata" kind (kept_meta keep_owners m)
  ]

abbrev is_address : String → Bool
is_address ip = not (ip =s= "") && not (ip =s= "None")

-- A service name, or the empty text.
abbrev pub name_in : String → Option (Dict String) → String
name_in k none = ""
name_in k (some m) = elim (lookup k m) [ none ↦ "" | some name ↦ name ]

abbrev entries : Option (Dict String) → Dict String
entries none = []
entries (some m) = m

module _ {R : Type 0} where
  unfoldable pub pod_ip_indexer : Object R → List String
  pod_ip_indexer (pod p) = if not p.host_network then p.pod_ips else []
  pod_ip_indexer (service _) = []
  pod_ip_indexer (generic _ _ _) = []
  pod_ip_indexer (opaque_object _) = []

  unfoldable pub service_ip_indexer : Object R → List String
  service_ip_indexer (service s) = keep is_address s.cluster_ips ++ keep is_address s.external_ips
  service_ip_indexer (pod _) = []
  service_ip_indexer (generic _ _ _) = []
  service_ip_indexer (opaque_object _) = []

  unfoldable pub label_indexer : Object R → List String
  label_indexer (pod p) = name_in kubernetes_app_name_label p.meta.labels ∷ []
  label_indexer (service _) = []
  label_indexer (generic _ _ _) = []
  label_indexer (opaque_object _) = []

  unfoldable pub annotation_indexer : Object R → List String
  annotation_indexer (pod p) = name_in otel_service_name_annotation p.meta.annotations ∷ []
  annotation_indexer (service _) = []
  annotation_indexer (generic _ _ _) = []
  annotation_indexer (opaque_object _) = []

  -- A stored object as the look-ups see it.
  abbrev pub to_meta : ObjectMeta R → Meta
  to_meta m = record {
    name = m.name;
    namespace = m.namespace;
    owner_references =
        map
          (λ (o : ApiOwner R).
            let ref : OwnerReference = record { kind = o.kind; name = o.name } in ref)
          m.owner_references;
    labels = entries m.labels;
    annotations = entries m.annotations;
  }

  unfoldable pub to_workload : Object R → Workload
  to_workload (pod p) = record {
    is_runtime_object = true;
    kind = p.kind;
    go_type = pod_type;
    metadata = some (to_meta p.meta);
  }
  to_workload (service s) = record {
    is_runtime_object = true;
    kind = s.kind;
    go_type = service_type;
    metadata = some (to_meta s.meta);
  }
  to_workload (generic type kind m) = record {
    is_runtime_object = true;
    kind = kind;
    go_type = other_type type;
    metadata = some (to_meta m);
  }
  to_workload (opaque_object _) = record {
    is_runtime_object = false;
    kind = "";
    go_type = other_type "";
    metadata = none;
  }
