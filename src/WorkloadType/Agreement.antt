-- ===== src/WorkloadType/Agreement.antt =====
-- A service name of several pods: their owner, if they agree on it.
use mathlib.Core.Bool.{false≢true}
use solarwinds_otel_collecto.Base.{
  ℕ, ◌≡◌, refl, sym, ◌∙◌, ap, Bool, true, false, ◌||◌, List, [], ◌∷◌, Dict, ok, ok_inj,
  if◌then◌else◌, arith, All, All-imp, Bool-cases, Result-cases, inl, inr, eq_iff, eq_refl, ◌⊎◌,
}
use solarwinds_otel_collecto.WorkloadType.{
  LookupResult, empty_lookup_result, is_empty, Workload, Informer, Outcome, lookup_owner,
}
use solarwinds_otel_collecto.WorkloadType.Instrumentation.{
  same_result, add_owner, owners_from, choose_workload,
}

same_result-eq : (a b : LookupResult) → same_result a b ≡ true → a ≡ b
same_result-eq a b h =
    ground (arith, eq_iff a.name b.name, eq_iff a.namespace b.namespace, eq_iff a.kind b.kind)

member : LookupResult → List LookupResult → Bool
member r [] = false
member r (o ∷ owners) = same_result o r || member r owners

member-add_owner :
    (r owner : LookupResult) (owners : List LookupResult)
    → member r (add_owner owner owners) ≡ (same_result owner r || member r owners)
unfolding member add_owner
member-add_owner r owner [] = refl
member-add_owner r owner (o ∷ owners) = elim (Bool-cases (same_result o owner)) [
  | inl same ↦ rw (same, same_result-eq o owner same) (ground arith)
  | inr other ↦ rw (other, member-add_owner r owner owners) (ground arith)
]

same_result_self : (r : LookupResult) → same_result r r ≡ true
same_result_self r = ground (arith, eq_refl r.name, eq_refl r.namespace, eq_refl r.kind)

module _ (informers : Dict Informer) (fuel : ℕ) where
  -- The owner of a pod was looked up, and is none or has a property.
  abbrev pub Owned : (LookupResult → Type 0) → Workload → Type 0
  Owned P pod =
      (owner : LookupResult) × (lookup_owner informers fuel pod ≡ ok owner)
      × ((is_empty owner ≡ true) ⊎ P owner)

  abbrev next_owners : LookupResult → List LookupResult → List LookupResult
  next_owners owner owners = if is_empty owner then owners else add_owner owner owners

  owners_from-member :
      (r : LookupResult) (owners result : List LookupResult) (pods : List Workload)
      → owners_from informers fuel owners pods ≡ ok result
      → member r owners ≡ true
      → member r result ≡ true
  unfolding owners_from
  owners_from-member r owners result [] h m = ap (member r) (sym (ok_inj h)) ∙ m
  owners_from-member r owners result (pod ∷ pods) h m =
      elim (Result-cases (lookup_owner informers fuel pod)) [
        | inr (e, failed) ↦ absurd (ground arith)
        | inl (owner, found) ↦
            owners_from-member r (next_owners owner owners) result pods
              (rw (found, owners_from) at h) (ground (arith, m, member-add_owner r owner owners))
      ]

  owners_from-Owned :
      (owners result : List LookupResult) (pods : List Workload)
      → owners_from informers fuel owners pods ≡ ok result
      → All (Owned (λ owner. member owner result ≡ true)) pods
  unfolding owners_from
  owners_from-Owned owners result [] h = tt
  owners_from-Owned owners result (pod ∷ pods) h =
      elim (Result-cases (lookup_owner informers fuel pod)) [
        | inr (e, failed) ↦ absurd (ground arith)
        | inl (owner, found) ↦
            let next = rw (found, owners_from) at h in
            let rest = owners_from-Owned (next_owners owner owners) result pods next in
            elim (Bool-cases (is_empty owner)) [
              | inl none_here ↦ ((owner, found, inl none_here), rest)
              | inr full ↦
                  let added : member owner (next_owners owner owners) ≡ true =
                    ground
                      (arith, full, member-add_owner owner owner owners, same_result_self owner) in
                  (
                    (
                      owner,
                      found,
                      inr (
                          owners_from-member owner (next_owners owner owners) result pods next
                            added),
                    ),
                    rest,
                  )
            ]
      ]

  member-one : (r owner : LookupResult) → member owner (r ∷ []) ≡ true → owner ≡ r
  unfolding member
  member-one r owner h = sym (same_result-eq r owner (ground arith))

  one_owner :
      (owners : List LookupResult) (r : LookupResult)
      → ◌≡◌ {A = Outcome}
          (elim owners [ owner ∷ [] ↦ ok owner | _ ↦ ok empty_lookup_result ])
          (ok r)
      → is_empty r ≡ false
      → owners ≡ r ∷ []
  one_owner [] r h full = absurd (false≢true (sym full ∙ ap is_empty (sym (ok_inj h))))
  one_owner (o ∷ []) r h full = ap (λ x. x ∷ []) (ok_inj h)
  one_owner (o ∷ p ∷ owners) r h full =
      absurd (false≢true (sym full ∙ ap is_empty (sym (ok_inj h))))

  -- If several pods carry a service name and their owners are preferred, a result that is not empty
  -- is the owner of each of them that has one: there are no two pods with different owners.
  pub choose_workload-Owned :
      (pod second : Workload) (pods : List Workload) (r : LookupResult)
      → choose_workload informers fuel true (pod ∷ second ∷ pods) ≡ ok r
      → is_empty r ≡ false
      → All (Owned (λ owner. owner ≡ r)) (pod ∷ second ∷ pods)
  unfolding choose_workload
  choose_workload-Owned pod second pods r h full =
      elim (Result-cases (owners_from informers fuel [] (pod ∷ second ∷ pods))) [
        | inr (e, failed) ↦ absurd (ground arith)
        | inl (owners, found) ↦
            let one : owners ≡ r ∷ [] =
              one_owner owners r (rw (found, choose_workload) at h) full in
            All-imp
              (λ p (owner, looked_up, o). (
                owner,
                looked_up,
                elim o [ inl e ↦ inl e | inr m ↦ inr (member-one r owner (rw one at m)) ],
              ))
              (pod ∷ second ∷ pods) (owners_from-Owned [] owners (pod ∷ second ∷ pods) found)
      ]
