-- ===== src/WorkloadType/Owners.antt =====
-- The search for the owner of a workload: when it ends, and when it finds an owner.
use mathlib.Core.List.{Memᴰ}
use solarwinds_otel_collecto.Base.{
  ℕ, zero, suc, ◌<◌, ◌≡◌, refl, sym, ◌∙◌, ap, Bool, true, false, not, ◌&&◌, List, [], ◌∷◌, Option,
  none, some, String, Dict, ok, err, if◌then◌else◌, ◌=s=◌, arith, Bool-cases, Option-cases,
  Result-cases, ok_inj, inl, inr, eq_iff,
}
use solarwinds_otel_collecto.WorkloadType.{
  LookupResult, empty_lookup_result, is_empty, OwnerReference, Meta, Workload, Informer, no_fuel,
  Outcome, replica_set_kind, replica_sets_workload_type, lookup_workload, scan_owners, lookup_owner,
}

abbrev pub owners_of : Option Meta → List OwnerReference
owners_of none = []
owners_of (some meta) = meta.owner_references

-- No owner reference has a kind.
unfoldable pub kindless : List OwnerReference → Bool
kindless [] = true
kindless (owner ∷ owners) = owner.kind =s= "" && kindless owners

replica_set-has_kind :
    (owner : OwnerReference)
    → (owner.kind =s= replica_set_kind) ≡ true
    → (owner.kind =s= "") ≡ false
replica_set-has_kind owner h = rw ((eq_iff owner.kind replica_set_kind).0 h) refl

-- A look-up that may find nothing, and then a search from what it finds.
found_or_empty :
    (found : Option Workload) (find : Workload → Outcome)
    → ((w : Workload) → found ≡ some w → (r : LookupResult) × (find w ≡ ok r))
    → (r : LookupResult) × (elim found [ none ↦ ok empty_lookup_result | some w ↦ find w ] ≡ ok r)
found_or_empty none find h = (empty_lookup_result, refl)
found_or_empty (some w) find h = h w refl

itself-kindless :
    (owner : OwnerReference) (owners : List OwnerReference) (namespace : String) (rest : Outcome)
    (r : LookupResult)
    → (if not (owner.kind =s= "")
        then ok (record { name = owner.name; namespace = namespace; kind = owner.kind })
        else rest)
      ≡ ok r
    → (rest ≡ ok r → is_empty r ≡ kindless owners)
    → is_empty r ≡ kindless (owner ∷ owners)
unfolding kindless
itself-kindless owner owners namespace rest r h below = elim (Bool-cases (owner.kind =s= "")) [
  | inl e ↦ rw e (below (rw e at h))
  | inr e ↦
      let named : LookupResult = record {
        name = owner.name;
        namespace = namespace;
        kind = owner.kind;
      } in
      let same : named ≡ r = ok_inj (rw e at h) in ap is_empty (sym same) ∙ ground (arith, e)
]

module _ (informers : Dict Informer) where
  scan_owners-kindless :
      (find : String → Outcome) (namespace : String) (owners : List OwnerReference)
      (r : LookupResult)
      → scan_owners informers find namespace owners ≡ ok r
      → is_empty r ≡ kindless owners
  unfolding scan_owners kindless
  scan_owners-kindless find namespace [] r h = ap is_empty (sym (ok_inj h))
  scan_owners-kindless find namespace (owner ∷ owners) r h =
      let rest = scan_owners informers find namespace owners in
      let below = scan_owners-kindless find namespace owners r in
      elim (Bool-cases (owner.kind =s= replica_set_kind)) [
        | inr other ↦ itself-kindless owner owners namespace rest r (rw other at h) below
        | inl set ↦ elim (Result-cases (find owner.name)) [
          | inr (e, failed) ↦ absurd (ground arith)
          | inl (found, f) ↦ elim (Bool-cases (is_empty found)) [
            | inl e ↦ itself-kindless owner owners namespace rest r (rw (set, f, e) at h) below
            | inr e ↦
                let same : found ≡ r = ok_inj (rw (set, f, e) at h) in
                let kind = (eq_iff owner.kind replica_set_kind).0 set in
                ap is_empty (sym same) ∙ e ∙ rw kind refl
          ]
        ]
      ]

  -- If the search ends, its result is empty exactly if the workload has no metadata or none of its
  -- owner references has a kind. So an owner that is a replica set is never lost: if the replica set
  -- is not cached or has no owner, it is the result itself.
  lookup_owner-kindless :
      (fuel : ℕ) (w : Workload) (r : LookupResult)
      → lookup_owner informers fuel w ≡ ok r
      → is_empty r ≡ kindless (owners_of w.metadata)
  unfolding lookup_owner kindless
  lookup_owner-kindless zero w r h = absurd (ground arith)
  lookup_owner-kindless (suc fuel) w r h = elim (Option-cases w.metadata) [
    | inl e ↦ rw e (ap is_empty (sym (ok_inj (rw (e, lookup_owner) at h))))
    | inr (meta, e) ↦
        rw e (
          scan_owners-kindless _ meta.namespace meta.owner_references r (rw (e, lookup_owner) at h))
  ]

  -- The cached replica sets that own a workload: an owner reference of the kind names them.
  abbrev pub IsOwner : Workload → Workload → Type 0
  IsOwner replica_set w =
      (meta : Meta) × (owner : OwnerReference) × (w.metadata ≡ some meta)
      × Memᴰ owner meta.owner_references
      × (owner.kind ≡ replica_set_kind)
      × (lookup_workload informers owner.name meta.namespace (replica_sets_workload_type ∷ [])
          ≡ some replica_set)

  scan_owners-ok :
      (find : String → Outcome) (namespace : String) (owners : List OwnerReference)
      → ((owner : OwnerReference)
          → Memᴰ owner owners
          → owner.kind ≡ replica_set_kind
          → (r : LookupResult) × (find owner.name ≡ ok r))
      → (r : LookupResult) × (scan_owners informers find namespace owners ≡ ok r)
  unfolding scan_owners
  scan_owners-ok find namespace [] h = (empty_lookup_result, refl)
  scan_owners-ok find namespace (owner ∷ owners) h =
      let (r, rest) = scan_owners-ok find namespace owners (λ o m. h o (Memᴰ.tail m)) in
      let itself : LookupResult = record {
        name = owner.name;
        namespace = namespace;
        kind = owner.kind;
      } in
      elim (Bool-cases (owner.kind =s= replica_set_kind)) [
        | inr other ↦ elim (Bool-cases (owner.kind =s= "")) [
          | inl e ↦ (r, rw (other, e) rest)
          | inr e ↦ (itself, rw (other, e) refl)
        ]
        | inl set ↦
            let (found, here) =
              h owner (Memᴰ.head refl) ((eq_iff owner.kind replica_set_kind).0 set) in
            let e = replica_set-has_kind owner set in
            elim (Bool-cases (is_empty found)) [
              | inl f ↦ (itself, rw (set, here, f, e) refl)
              | inr f ↦ (found, rw (set, here, f) refl)
            ]
      ]

  -- The search ends if the cached replica sets do not own each other in a circle of references of
  -- the kind ReplicaSet: if they can be
  -- ranked so that an owner is below what it owns, fuel above the rank suffices.
  pub lookup_owner-ranked :
      (rank : Workload → ℕ)
      → ((w replica_set : Workload) → IsOwner replica_set w → rank replica_set < rank w)
      → (fuel : ℕ) (w : Workload) → rank w < fuel
      → (r : LookupResult) × (lookup_owner informers fuel w ≡ ok r)
  unfolding lookup_owner
  lookup_owner-ranked rank below zero w h = absurd (omega arith)
  lookup_owner-ranked rank below (suc fuel) w h = elim (Option-cases w.metadata) [
    | inl e ↦ (empty_lookup_result, rw (e, lookup_owner) refl)
    | inr (meta, e) ↦
        let (r, ended) = scan_owners-ok _ meta.namespace meta.owner_references (λ owner m set.
          found_or_empty
            (lookup_workload informers owner.name meta.namespace (replica_sets_workload_type ∷ []))
            (lookup_owner informers fuel)
            (λ replica_set found.
              let lower = below w replica_set (meta, owner, e, m, set, found) in
              lookup_owner-ranked rank below fuel replica_set (omega arith))) in
        (r, rw (e, lookup_owner) ended)
  ]

  -- It does not end at a cached replica set whose first owner reference is the replica set itself.
  pub lookup_owner-circle :
      (w : Workload) (meta : Meta) (owner : OwnerReference) (owners : List OwnerReference)
      → w.metadata ≡ some meta
      → meta.owner_references ≡ owner ∷ owners
      → owner.kind ≡ replica_set_kind
      → lookup_workload informers owner.name meta.namespace (replica_sets_workload_type ∷ [])
        ≡ some w
      → (fuel : ℕ) → lookup_owner informers fuel w ≡ err no_fuel
  unfolding lookup_owner scan_owners
  lookup_owner-circle w meta owner owners m o k c zero = refl
  lookup_owner-circle w meta owner owners m o k c (suc fuel) =
      let again = lookup_owner-circle w meta owner owners m o k c fuel in
      rw (m, o, lookup_owner) (rw (k, scan_owners) (rw (c) (rw again refl)))
