-- ===== src/WorkloadType/Hosts.antt =====
-- Host names of workloads.
use Prim.Native.String.{[], ◌∷◌}
use solarwinds_otel_collecto.Base.{
  ℕ, ◌≡◌, refl, ◌∙◌, ap, Bool, true, List, String, Dict, ok, All, if◌then◌else◌, ◌=s=◌, arith,
  ◌++ₛ◌, split_on, split_dots, split_dots-append, dot_free, Bool-cases, inl, inr, eq_iff, ◌≢◌, ◌⊎◌,
  Result-cases,
}
use solarwinds_otel_collecto.WorkloadType.{
  empty_lookup_result, Informer, lookup_by_name, service_kind,
}
use solarwinds_otel_collecto.WorkloadType.Hostnames.{
  HostName, is_short, classify, reverse_onto, extract_name_and_namespace_and_type,
  lookup_by_hostname, service_type_short,
}

-- What may follow the type in the DNS name of a service or a pod.
abbrev pub suffixes : List String
suffixes = List.◌∷◌ "" (List.◌∷◌ ".cluster.local" (List.◌∷◌ ".cluster.local." List.[]))

abbrev pub dns_name : String → String → String → String → String
dns_name name namespace short suffix = name ++ₛ "." ++ₛ namespace ++ₛ "." ++ₛ short ++ₛ suffix

split_dns_name :
    (name namespace short suffix : String)
    → dot_free name ≡ true
    → dot_free namespace ≡ true
    → split_dots (dns_name name namespace short suffix)
      ≡ List.◌∷◌ name (List.◌∷◌ namespace (split_dots (short ++ₛ suffix)))
split_dns_name name namespace short suffix n m =
    split_dots-append name _ n ∙ ap (List.◌∷◌ name) (split_dots-append namespace _ m)

read_back :
    (name namespace short suffix : String) (parts : List String) (host : HostName)
    → dot_free name ≡ true
    → dot_free namespace ≡ true
    → split_dots (short ++ₛ suffix) ≡ parts
    → classify (reverse_onto List.[] (List.◌∷◌ name (List.◌∷◌ namespace parts))) ≡ host
    → extract_name_and_namespace_and_type (dns_name name namespace short suffix) ≡ host
unfolding extract_name_and_namespace_and_type
read_back name namespace short suffix parts host n m split classified =
    ap (λ ps. classify (reverse_onto List.[] ps))
      (split_dns_name name namespace short suffix n m
        ∙ ap (λ ps. List.◌∷◌ name (List.◌∷◌ namespace ps)) split)
    ∙ classified

is_short_cases : (short : String) → is_short short ≡ true → (short ≡ "svc") ⊎ (short ≡ "pod")
is_short_cases short h = ground (arith, eq_iff short "svc", eq_iff short "pod")

-- The name, the namespace and the type are read back from a DNS name of a service or a pod, in each
-- of its three forms.
pub extract_name_and_namespace_and_type-dns_name :
    (name namespace short : String)
    → dot_free name ≡ true
    → dot_free namespace ≡ true
    → is_short short ≡ true
    → All
        (λ suffix.
          extract_name_and_namespace_and_type (dns_name name namespace short suffix)
          ≡ record { name = name; namespace = namespace; type_short = short })
        suffixes
unfolding extract_name_and_namespace_and_type split_on
extract_name_and_namespace_and_type-dns_name name namespace short n m s =
    elim (is_short_cases short s) [
      | inl e ↦ rw e (
        read_back name namespace "svc" "" _ _ n m refl refl,
        (
          read_back name namespace "svc" ".cluster.local" _ _ n m refl refl,
          (read_back name namespace "svc" ".cluster.local." _ _ n m refl refl, tt),
        ),
      )
      | inr e ↦ rw e (
        read_back name namespace "pod" "" _ _ n m refl refl,
        (
          read_back name namespace "pod" ".cluster.local" _ _ n m refl refl,
          (read_back name namespace "pod" ".cluster.local." _ _ n m refl refl, tt),
        ),
      )
    ]

-- The DNS name of a service stands for that service, whatever the caches and the attributes say.
lookup_by_hostname-dns_name :
    (informers : Dict Informer) (fuel : ℕ) (prefer_pod_owner : Bool) (types : List String)
    (name namespace namespace_from_attr : String)
    → dot_free name ≡ true
    → dot_free namespace ≡ true
    → name ≢ ""
    → namespace ≢ ""
    → All
        (λ suffix.
          lookup_by_hostname informers fuel prefer_pod_owner types
            (dns_name name namespace service_type_short suffix)
            namespace_from_attr
          ≡ ok (record { name = name; namespace = namespace; kind = service_kind }))
        suffixes
unfolding lookup_by_hostname
lookup_by_hostname-dns_name informers fuel prefer types name namespace attr n m ne me =
    let (a, (b, (c, _))) =
      extract_name_and_namespace_and_type-dns_name name namespace service_type_short n m refl in
    (by_host "" a, (by_host ".cluster.local" b, (by_host ".cluster.local." c, tt)))
  where
    by_host :
        (suffix : String)
        → extract_name_and_namespace_and_type (dns_name name namespace service_type_short suffix)
          ≡ record { name = name; namespace = namespace; type_short = service_type_short }
        → lookup_by_hostname informers fuel prefer types
            (dns_name name namespace service_type_short suffix)
            attr
          ≡ ok (record { name = name; namespace = namespace; kind = service_kind })
    by_host suffix e =
        rw (e, lookup_by_hostname) (ground (arith, eq_iff name "", eq_iff namespace "", ne, me))

split_dots-dot_free : (s : String) → dot_free s ≡ true → split_dots s ≡ List.◌∷◌ s List.[]
unfolding split_on dot_free
split_dots-dot_free [] h = refl
split_dots-dot_free (c ∷ s) h = ground (arith, split_dots-dot_free s)

-- A host name without a dot is looked up once, as a name in the namespace of the attributes; without
-- such a namespace nothing is found.
lookup_by_hostname-lookup_by_name :
    (informers : Dict Informer) (fuel : ℕ) (prefer_pod_owner : Bool) (types : List String)
    (host namespace_from_attr : String)
    → dot_free host ≡ true
    → host ≢ ""
    → lookup_by_hostname informers fuel prefer_pod_owner types host namespace_from_attr ≡ (
        if namespace_from_attr =s= ""
        then ok empty_lookup_result
        else lookup_by_name informers fuel prefer_pod_owner types host namespace_from_attr)
unfolding lookup_by_hostname extract_name_and_namespace_and_type
lookup_by_hostname-lookup_by_name informers fuel prefer types host attr d n =
    let by_name = lookup_by_name informers fuel prefer types host attr in
    rw (split_dots-dot_free host d) (elim (Bool-cases (attr =s= "")) [
      | inl e ↦ ground (arith, e, eq_iff host "", n)
      | inr e ↦ elim (Result-cases by_name) [
        | inl (r, f) ↦ ground (arith, e, f, eq_iff host "", n)
        | inr (x, f) ↦ ground (arith, e, f, eq_iff host "", n)
      ]
    ])
