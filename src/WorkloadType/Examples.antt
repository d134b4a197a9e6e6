-- ===== src/WorkloadType/Examples.antt =====
-- The theorems about look-ups of workloads at concrete inputs.
use mathlib.Core.List.Memᴰ
use mathlib.Core.List.{Memᴰ}
use solarwinds_otel_collecto.Base.{
  ℕ, ◌<◌, ◌≡◌, refl, sym, ◌∙◌, true, List, [], ◌∷◌, none, some, String, Dict, lookup, ok, err, All,
  arith, length, dot_free,
}
use solarwinds_otel_collecto.WorkloadType.{
  LookupResult, OwnerReference, Workload, other_type, Informer, no_fuel, lookup_workload,
  lookup_owner,
}
use solarwinds_otel_collecto.WorkloadType.Hostnames.{extract_name_and_namespace_and_type}
use solarwinds_otel_collecto.WorkloadType.Owners
use solarwinds_otel_collecto.WorkloadType.Owners.{owners_of, kindless, IsOwner}
use solarwinds_otel_collecto.WorkloadType.Hosts
use solarwinds_otel_collecto.WorkloadType.Hosts.{suffixes, dns_name}

abbrev workload : String → List OwnerReference → Workload
workload kind owners = record {
  is_runtime_object = true;
  kind = kind;
  go_type = other_type "";
  metadata = some (record {
    name = "w";
    namespace = "default";
    owner_references = owners;
    labels = [];
    annotations = [];
  });
}

-- A replica set without owners, under every key.
abbrev orphan : Workload
orphan = workload "ReplicaSet" []

abbrev informer_of : Workload → Informer
informer_of w = record { get_by_key = λ key. some (some w); by_index = λ index key. none }

abbrev informers : Dict Informer
informers = ("replicasets", informer_of orphan) ∷ []

abbrev owned : Workload
owned = workload "Pod" (record { kind = "ReplicaSet"; name = "rs" } ∷ [])

abbrev rank : Workload → ℕ
rank w = length (owners_of w.metadata)

not_empty :
    (owner : OwnerReference) (owners : List OwnerReference) → Memᴰ owner owners → 0 < length owners
not_empty owner [] m = absurd (Memᴰ.not-nil m)
not_empty owner (o ∷ owners) m = omega arith

only_orphan :
    (name namespace : String)
    → lookup_workload informers name namespace ("replicasets" ∷ []) ≡ some orphan
unfolding lookup_workload lookup
only_orphan name namespace = refl

some_inj : {v w : Workload} → some v ≡ some w → v ≡ w
some_inj h = cc

ranked : (w replica_set : Workload) → IsOwner informers replica_set w → rank replica_set < rank w
ranked w replica_set (meta, owner, e, m, _, found) =
    let same : orphan ≡ replica_set =
      some_inj (sym (only_orphan owner.name meta.namespace) ∙ found) in
    rw (sym same, e) (not_empty owner meta.owner_references m)

lookup_owner-ranked_example : (r : LookupResult) × (lookup_owner informers 2 owned ≡ ok r)
lookup_owner-ranked_example = Owners.lookup_owner-ranked informers rank ranked 2 owned (omega arith)

-- A replica set that owns itself.
abbrev circular : Workload
circular = workload "ReplicaSet" (record { kind = "ReplicaSet"; name = "w" } ∷ [])

abbrev circular_informers : Dict Informer
circular_informers = ("replicasets", informer_of circular) ∷ []

circular_cached :
    lookup_workload circular_informers "w" "default" ("replicasets" ∷ []) ≡ some circular
unfolding lookup_workload lookup
circular_cached = refl

lookup_owner-circle_example : lookup_owner circular_informers 100 circular ≡ err no_fuel
lookup_owner-circle_example =
    Owners.lookup_owner-circle circular_informers circular
      (record {
        name = "w";
        namespace = "default";
        owner_references = record { kind = "ReplicaSet"; name = "w" } ∷ [];
        labels = [];
        annotations = [];
      })
      (record { kind = "ReplicaSet"; name = "w" }) [] refl refl refl circular_cached 100

dot_free_texts : (dot_free "web" ≡ true) × (dot_free "default" ≡ true)
unfolding dot_free
dot_free_texts = (refl, refl)

extract_name_and_namespace_and_type-dns_name_example :
    All
      (λ suffix.
        extract_name_and_namespace_and_type (dns_name "web" "default" "pod" suffix)
        ≡ record { name = "web"; namespace = "default"; type_short = "pod" })
      suffixes
extract_name_and_namespace_and_type-dns_name_example =
    Hosts.extract_name_and_namespace_and_type-dns_name "web" "default" "pod" dot_free_texts.0
      dot_free_texts.1 refl
