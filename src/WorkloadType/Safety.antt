-- ===== src/WorkloadType/Safety.antt =====
-- What the look-ups need of the informers, so that none of them is nil where it is used.
use solarwinds_otel_collecto.Base.{
  ℕ, zero, suc, ◌≡◌, Bool, true, false, not, ◌&&◌, ◌||◌, List, [], ◌∷◌, Option, none, some, String,
  Dict, Result, ok, err, lookup, has, lookup_of_has, contains, if◌then◌else◌, ◌=s=◌, arith,
  Result-cases, Option-cases, inl, inr, eq_refl, subst, ◌>>=◌,
}
use solarwinds_otel_collecto.WorkloadType.{
  LookupResult, empty_lookup_result, is_empty, OwnerReference, Workload, Informer, Stop, no_fuel,
  Outcome, lookup_owner, scan_owners, lookup_owner_kind, extract_workload_kind, lookup_by_name,
  lookup_by_ip, indexer_name, resolve_kind, replica_set_kind, pods_workload_type, pod_kind,
}
use solarwinds_otel_collecto.WorkloadType.Hostnames.{
  lookup_by_hostname, or_try, extract_name_and_namespace_and_type, pod_type_short,
  service_type_short,
}
use solarwinds_otel_collecto.WorkloadType.Instrumentation.{
  owners_from, choose_workload, lookup_by_index, lookup_by_service_name, add_owner,
}

-- A look-up that did not panic on a nil informer.
pub data Safe {ℓ} {A : Type ℓ} : Result Stop A → Type ℓ where
  safe_ok : (a : A) → Safe (ok a)
  safe_no_fuel : Safe (err no_fuel)

-- A condition chooses between two look-ups.
pub Safe-if {ℓ} :
    {A : Type ℓ} {a b : Result Stop A} (c : Bool) → Safe a → Safe b → Safe (if c then a else b)
Safe-if true h g = h
Safe-if false h g = g

pub Safe->>= {ℓ κ} :
    {A : Type ℓ} {B : Type κ} {a : Result Stop A} {f : A → Result Stop B}
    → Safe a
    → ((r : A) → Safe (f r))
    → Safe (a >>= f)
Safe->>= (safe_ok r) h = h r
Safe->>= safe_no_fuel h = safe_no_fuel

pub Safe-passed_on {ℓ κ} :
    {A : Type ℓ} {B : Type κ} {a : Result Stop A} {f : A → Result Stop B}
    → Safe a
    → ((r : A) → Safe (f r))
    → Safe (elim a as (λ _. Result Stop B) [ err e ↦ err e | ok r ↦ f r ])
Safe-passed_on (safe_ok r) h = h r
Safe-passed_on safe_no_fuel h = safe_no_fuel

pub Safe-or_try : {a b : Outcome} (c : Bool) → Safe a → Safe b → Safe (or_try a c b)
Safe-or_try c (safe_ok r) g = Safe-if (is_empty r && c) g (safe_ok r)
Safe-or_try c safe_no_fuel g = safe_no_fuel

-- A look-up for what was found, if anything was.
Safe-if_found :
    {find : Workload → Outcome} (found : Option Workload)
    → ((w : Workload) → Safe (find w))
    → Safe (elim found as (λ _. Outcome) [ none ↦ ok empty_lookup_result | some w ↦ find w ])
Safe-if_found none h = safe_ok empty_lookup_result
Safe-if_found (some w) h = h w

-- A first result if it is not empty, else another.
Safe-or_else :
    {a b : Outcome}
    → Safe a
    → Safe b
    → Safe
        (elim a as (λ _. Outcome) [ err e ↦ err e | ok r ↦ if not (is_empty r) then ok r else b ])
Safe-or_else h g = Safe-passed_on h (λ r. Safe-if (not (is_empty r)) (safe_ok r) g)

Safe-err {ℓ κ} : {A : Type ℓ} {B : Type κ} {e : Stop} → Safe {A = A} (err e) → Safe {A = B} (err e)
Safe-err safe_no_fuel = safe_no_fuel

ruleset safe_rules =
    (safe_ok, safe_no_fuel, Safe-if, Safe-or_else, Safe-passed_on, Safe-if_found, Safe-or_try)

module _ (informers : Dict Informer) where
  Safe-scan_owners :
      (find : String → Outcome) (namespace : String) (owners : List OwnerReference)
      → ((name : String) → Safe (find name))
      → Safe (scan_owners informers find namespace owners)
  unfolding scan_owners
  Safe-scan_owners find namespace [] h = safe_ok empty_lookup_result
  Safe-scan_owners find namespace (owner ∷ owners) h =
      let rest = Safe-scan_owners find namespace owners h in
      let named : LookupResult = record {
        name = owner.name;
        namespace = namespace;
        kind = owner.kind;
      } in
      let itself = Safe-if (not (owner.kind =s= "")) (safe_ok named) rest in
      Safe-if (owner.kind =s= replica_set_kind) (Safe-or_else (h owner.name) itself) itself

  Safe-lookup_owner : (fuel : ℕ) (w : Workload) → Safe (lookup_owner informers fuel w)
  unfolding lookup_owner
  Safe-lookup_owner zero w = safe_no_fuel
  Safe-lookup_owner (suc fuel) w = elim (Option-cases w.metadata) [
    | inl e ↦ rw (e, lookup_owner) (safe_ok empty_lookup_result)
    | inr (meta, e) ↦
        rw (e, lookup_owner)
          (Safe-scan_owners _ meta.namespace meta.owner_references
            (λ name. Safe-if_found _ (Safe-lookup_owner fuel)))
  ]

  Safe-lookup_owner_kind :
      (fuel : ℕ) (name namespace type : String)
      → Safe (lookup_owner_kind informers fuel name namespace type)
  unfolding lookup_owner_kind
  Safe-lookup_owner_kind fuel name namespace type = Safe-if_found _ (Safe-lookup_owner fuel)

  Safe-extract_workload_kind :
      (fuel : ℕ) (prefer : Bool) (w : Workload)
      → Safe (extract_workload_kind informers fuel prefer w)
  unfolding extract_workload_kind
  Safe-extract_workload_kind fuel prefer w =
      Safe-if (not w.is_runtime_object) (safe_ok empty_lookup_result) (
        Safe-if (prefer && resolve_kind w =s= pod_kind)
          (Safe-or_else (Safe-lookup_owner fuel w) (safe_ok _)) (safe_ok _))

  pub Safe-lookup_by_name :
      (fuel : ℕ) (prefer : Bool) (types : List String) (name namespace : String)
      → Safe (lookup_by_name informers fuel prefer types name namespace)
  unfolding lookup_by_name
  Safe-lookup_by_name fuel prefer types name namespace =
      Safe-if_found _ (Safe-extract_workload_kind fuel prefer)

  pub Safe-lookup_by_hostname :
      (fuel : ℕ) (prefer : Bool) (types : List String) (hostname from_attr : String)
      → Safe (lookup_by_hostname informers fuel prefer types hostname from_attr)
  unfolding lookup_by_hostname
  Safe-lookup_by_hostname fuel prefer types hostname from_attr =
      let host = extract_name_and_namespace_and_type hostname in
      let unclear = host.name =s= "" || host.namespace =s= "" in
      let by_name = Safe-lookup_by_name fuel prefer types in
      Safe-if (host.type_short =s= pod_type_short)
        (Safe-if unclear (safe_ok empty_lookup_result) (
          Safe-if prefer
            (Safe-or_else (Safe-lookup_owner_kind fuel host.name host.namespace pods_workload_type)
              (safe_ok _))
            (safe_ok _)))
        (Safe-if (host.type_short =s= service_type_short)
          (Safe-if unclear (safe_ok empty_lookup_result) (safe_ok _))
          (Safe-or_try _
            (Safe-or_try _
              (Safe-or_try _ (safe_ok empty_lookup_result) (by_name host.name host.namespace))
              (by_name host.name from_attr))
            (by_name hostname from_attr)))

  Safe-owners_from :
      (fuel : ℕ) (pods : List Workload) (owners : List LookupResult)
      → Safe (owners_from informers fuel owners pods)
  unfolding owners_from
  Safe-owners_from fuel [] owners = safe_ok owners
  Safe-owners_from fuel (pod ∷ pods) owners = Safe-passed_on (Safe-lookup_owner fuel pod) (λ owner.
      Safe-owners_from fuel pods (if is_empty owner then owners else add_owner owner owners))

  Safe-choose_workload :
      (fuel : ℕ) (prefer : Bool) (pods : List Workload)
      → Safe (choose_workload informers fuel prefer pods)
  unfolding choose_workload
  Safe-choose_workload fuel prefer [] = safe_ok empty_lookup_result
  Safe-choose_workload fuel prefer (pod ∷ []) = Safe-extract_workload_kind fuel prefer pod
  Safe-choose_workload fuel false (pod ∷ second ∷ pods) = safe_ok empty_lookup_result
  Safe-choose_workload fuel true (pod ∷ second ∷ pods) =
      elim (Result-cases (owners_from informers fuel [] (pod ∷ second ∷ pods))) [
        | inl ([], e) ↦ rw (e, choose_workload) (safe_ok empty_lookup_result)
        | inl (owner ∷ [], e) ↦ rw (e, choose_workload) (safe_ok owner)
        | inl (owner ∷ other ∷ owners, e) ↦ rw (e, choose_workload) (safe_ok empty_lookup_result)
        | inr (stop, e) ↦
            rw (e, choose_workload)
              (Safe-err (subst Safe e (Safe-owners_from fuel (pod ∷ second ∷ pods) [])))
      ]

  pub Safe-lookup_by_service_name :
      (fuel : ℕ) (prefer : Bool) (types : List String) (name from_attr : String)
      → Safe (lookup_by_service_name informers fuel prefer types name from_attr)
  unfolding lookup_by_service_name lookup_by_index
  Safe-lookup_by_service_name fuel prefer types name from_attr =
      elim (Option-cases (lookup pods_workload_type informers)) [
        | inl e ↦ rw (e, lookup_by_service_name) (search (safe_ok, Safe-if))
        | inr (informer, e) ↦
            rw (e, lookup_by_service_name)
              (search (safe_ok, Safe-if, Safe-or_try, Safe-choose_workload))
      ]

  -- `LookupWorkloadKindByIp` needs an informer of each type that it is given.
  pub Safe-lookup_by_ip :
      (fuel : ℕ) (prefer : Bool) (ip : String) (types : List String)
      → ((type : String) → contains type types ≡ true → has type informers ≡ true)
      → Safe (lookup_by_ip informers fuel prefer ip types)
  unfolding lookup_by_ip contains has
  Safe-lookup_by_ip fuel prefer ip [] h = safe_ok empty_lookup_result
  Safe-lookup_by_ip fuel prefer ip (type ∷ types) h =
      let rest = Safe-lookup_by_ip fuel prefer ip types (λ t c. h t (ground arith)) in
      let (informer, found) =
        lookup_of_has type informers (h type (ground (arith, eq_refl type))) in
      elim (Option-cases (indexer_name informers type)) [
        | inl e ↦ rw (e, lookup_by_ip) rest
        | inr (index, e) ↦ elim (Option-cases (informer.by_index index ip)) [
          | inl g ↦ rw (e, found, g, lookup_by_ip) rest
          | inr ([], g) ↦ rw (e, found, g, lookup_by_ip) rest
          | inr (pod ∷ [], g) ↦
              rw (e, found, g, lookup_by_ip) (Safe-extract_workload_kind fuel prefer pod)
          | inr (pod ∷ second ∷ pods, g) ↦ rw (e, found, g, lookup_by_ip) rest
        ]
      ]
