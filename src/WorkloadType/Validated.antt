-- ===== src/WorkloadType/Validated.antt =====
-- What `Validate` ensures of the mappings that it accepts.
use solarwinds_otel_collecto.Base.{
  ◌≡◌, ap, true, not, ◌&&◌, List, [], ◌∷◌, Option, none, some, String, Dict, ok, ok_inj, has,
  contains, contains-append, contains-last, passed, ◌==◌, length, arith, Bool-cases, Result-cases,
  inl, inr, subst, All,
}
use solarwinds_otel_collecto.WorkloadType.{pods_workload_type, replica_sets_workload_type}
use solarwinds_otel_collecto.WorkloadType.Resources.{
  ResourceKind, Discovery, valid_objects, is_set, mappings_empty,
}
use solarwinds_otel_collecto.WorkloadType.Mappings.{
  MappingConfig, all_expected_types, is_context, validate_mapping, validate_mappings, validate,
}
use solarwinds_otel_collecto.WorkloadType.Passed.{has-map_types, validate_mapping-IsPassed}

-- A mapping that a running processor can use: it looks up by one of a name and an address, its
-- context is one of the four, and the types that it expects, and replica sets if it prefers the
-- owners of pods and the cluster has them, are mapped.
pub record IsReady (valid : Dict (List ResourceKind)) (mapped : Dict ResourceKind)
    (n : MappingConfig) : Type 0 where
  pub one_key : is_set n.name_attr ≡ not (is_set n.address_attr)
  pub known_context : is_context n.context ≡ true
  pub types_mapped : (t : String) → contains t n.expected_types ≡ true → has t mapped ≡ true
  pub owners_mapped :
      has replica_sets_workload_type valid ≡ true
      → (n.prefer_owner_for_pods && contains pods_workload_type n.expected_types) ≡ true
      → has replica_sets_workload_type mapped ≡ true

IsReady-mono :
    (valid : Dict (List ResourceKind)) (mapped mapped' : Dict ResourceKind) (n : MappingConfig)
    → ((t : String) → has t mapped ≡ true → has t mapped' ≡ true)
    → IsReady valid mapped n
    → IsReady valid mapped' n
IsReady-mono valid mapped mapped' n more r = record {
  one_key = r.one_key;
  known_context = r.known_context;
  types_mapped = λ t c. more t (r.types_mapped t c);
  owners_mapped = λ v p. more replica_sets_workload_type (r.owners_mapped v p);
}

contains-all_expected_types :
    (valid : Dict (List ResourceKind)) (m : MappingConfig) (t : String)
    → contains t m.expected_types ≡ true
    → contains t (all_expected_types valid m) ≡ true
contains-all_expected_types valid m t c =
    elim (Bool-cases (
      has replica_sets_workload_type valid
      && (m.prefer_owner_for_pods && contains pods_workload_type m.expected_types))) [
        | inl e ↦ rw e (contains-append t m.expected_types (replica_sets_workload_type ∷ []) c)
        | inr e ↦ rw e c
      ]

contains-owners :
    (valid : Dict (List ResourceKind)) (m : MappingConfig)
    → has replica_sets_workload_type valid ≡ true
    → (m.prefer_owner_for_pods && contains pods_workload_type m.expected_types) ≡ true
    → contains replica_sets_workload_type (all_expected_types valid m) ≡ true
contains-owners valid m v o = rw (v, o) (contains-last replica_sets_workload_type m.expected_types)

validate_mapping-IsReady :
    (valid : Dict (List ResourceKind)) (mapped mapped' : Dict ResourceKind) (m n : MappingConfig)
    → validate_mapping valid mapped m ≡ ok (n, mapped')
    → IsReady valid mapped' n × ((t : String) → has t mapped ≡ true → has t mapped' ≡ true)
validate_mapping-IsReady valid mapped mapped' m n h =
    let p = validate_mapping-IsPassed valid mapped mapped' m n h in
    let now = has-map_types valid (all_expected_types valid m) mapped mapped' p.types_mapped in
    (
      record {
        one_key = p.one_key;
        known_context = p.known_context;
        types_mapped = λ t c. now t (
            ground (
              arith,
              contains-all_expected_types valid m t
                  (subst (λ ts. contains t ts ≡ true) p.same_types c),
            ));
        owners_mapped = λ v o.
            now replica_sets_workload_type (
              ground
                (arith, contains-owners valid m v (rw (p.same_preference, p.same_types) at o)));
      },
      λ t c. now t (ground arith),
    )

validate_mappings-IsReady :
    (valid : Dict (List ResourceKind)) (ms : List (Option MappingConfig))
    (mapped mapped' : Dict ResourceKind) (ns : List MappingConfig)
    → validate_mappings valid mapped ms ≡ ok (ns, mapped')
    → All (IsReady valid mapped') ns × ((t : String) → has t mapped ≡ true → has t mapped' ≡ true)
unfolding validate_mappings
validate_mappings-IsReady valid [] mapped mapped' ns h =
    let same = ok_inj h in
    (
      subst (All (IsReady valid mapped')) (ap (λ p. p.0) same) tt,
      λ t c. subst (λ m. has t m ≡ true) (ap (λ p. p.1) same) c,
    )
validate_mappings-IsReady valid (none ∷ ms) mapped mapped' ns h = absurd (ground arith)
validate_mappings-IsReady valid (some m ∷ ms) mapped mapped' ns h =
    elim (Result-cases (validate_mapping valid mapped m)) [
      | inr (e, failed) ↦ absurd (ground (arith, rw (failed, validate_mappings) at h))
      | inl ((n, mapped₁), done) ↦ elim (Result-cases (validate_mappings valid mapped₁ ms)) [
        | inr (e, failed) ↦ absurd (ground (arith, rw (done, failed, validate_mappings) at h))
        | inl ((ns', mapped₂), rest_done) ↦
            let same = ok_inj (rw (done, rest_done, validate_mappings) at h) in
            let (ready, more) = validate_mapping-IsReady valid mapped mapped₁ m n done in
            let (rest, more_rest) =
              validate_mappings-IsReady valid ms mapped₁ mapped₂ ns' rest_done in
            subst
              (λ (k : List MappingConfig × Dict ResourceKind).
                All (IsReady valid k.1) k.0
                × ((t : String) → has t mapped ≡ true → has t k.1 ≡ true))
              same
              (
                (IsReady-mono valid mapped₁ mapped₂ n more_rest ready, rest),
                λ t c. more_rest t (more t c),
              )
      ]
    ]

-- Each mapping of a configuration that is accepted is ready to be used: it has exactly one of a name
-- attribute and an address attribute, its context is one of the four that the processor visits, and
-- each type that it expects is mapped, replica sets too if owners of pods are preferred and the
-- cluster has replica sets.
pub validate-IsReady :
    (d : Discovery) (mapped mapped' : Dict ResourceKind) (ms : List (Option MappingConfig))
    (ns : List MappingConfig)
    → validate d mapped ms ≡ ok (ns, mapped')
    → (valid : Dict (List ResourceKind)) × (valid_objects d ≡ ok valid)
      × All (IsReady valid mapped') ns
unfolding validate
validate-IsReady d mapped mapped' ms ns h =
    let (_, h₁) = passed mappings_empty (length ms == 0) h in
    elim (Result-cases (valid_objects d)) [
      | inr (e, failed) ↦ absurd (ground (arith, rw failed at h₁))
      | inl (valid, found) ↦
          (valid, found, (validate_mappings-IsReady valid ms mapped mapped' ns (rw found at h₁)).0)
    ]
