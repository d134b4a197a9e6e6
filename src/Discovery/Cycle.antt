-- ===== src/Discovery/Cycle.antt =====
-- `performDiscoveryCycle` of receiver.go. Listing pods and services is a parameter: none is an error.
-- The discoveries by images and by domains run at the same time: what is published is an
-- interleaving of their events.
use mathlib.Core.List.{Memᴰ}
use solarwinds_otel_collecto.Base.{
  ◌≡◌, refl, sym, ◌∙◌, ap, true, false, List, [], ◌∷◌, map, Option, none, some, String, contains,
  ◌=s=◌, arith, Bool-cases, Option-cases, inl, inr, eq_iff, ◌⊎◌, All, All-imp, subst,
}
use solarwinds_otel_collecto.Discovery.Services.{Pod, Service, Addresses}
use solarwinds_otel_collecto.Discovery.Workloads.{Client}
use solarwinds_otel_collecto.Discovery.Rules.{DatabaseConfig}
use solarwinds_otel_collecto.Discovery.Events.{DatabaseEvent}
use solarwinds_otel_collecto.Discovery.Images.{Discovered, emit, discover_by_images}
use solarwinds_otel_collecto.Discovery.Domains.{discover_by_domains}

-- The elements of two lists, in an order that keeps that of each.
pub data Interleaved {A : Type 0} : List A → List A → List A → Type 0 where
  both_done : Interleaved [] [] []
  from_left : {a : A} {xs ys zs : List A} → Interleaved xs ys zs → Interleaved (a ∷ xs) ys (a ∷ zs)
  from_right : {a : A} {xs ys zs : List A} → Interleaved xs ys zs → Interleaved xs (a ∷ ys) (a ∷ zs)

-- Events with their discovery ID.
abbrev pub labelled : String → List DatabaseEvent → List (String × DatabaseEvent)
labelled id = map (λ ev. (id, ev))

abbrev pub listed : Option (List Service) → List Service
listed none = []
listed (some services) = services

abbrev pub events_of : List Discovered → List DatabaseEvent
events_of = map (λ (d : Discovered). d.event)

module _ (lower : String → String) (net : Addresses) (client : Client) (cluster_uid : String) where
  -- What a cycle may publish.
  unfoldable pub PublishedBy :
      Option DatabaseConfig
      → Option (List Pod)
      → Option (List Service)
      → List (String × DatabaseEvent)
      → Type 0
  PublishedBy none pods services published = published ≡ []
  PublishedBy (some c) none services published = published ≡ []
  PublishedBy (some c) (some pods) services published =
      Interleaved
        (labelled cluster_uid
          (events_of (discover_by_images net client (listed services) c.image_rules pods)))
        (labelled "external" (discover_by_domains lower net c.domain_rules (listed services)))
        published

-- No workload key of the list stands twice, and none was published before.
abbrev pub FreshKeys : List String → List Discovered → Type 0
FreshKeys emitted [] = Unit
FreshKeys emitted (d ∷ ds) = elim d.key [
  | none ↦ FreshKeys emitted ds
  | some key ↦ (contains key emitted ≡ false) × FreshKeys (key ∷ emitted) ds
]

pub emit-FreshKeys :
    (emitted : List String) (ds : List Discovered) → FreshKeys emitted (emit emitted ds)
unfolding emit
emit-FreshKeys emitted [] = tt
emit-FreshKeys emitted (d ∷ ds) = elim (Option-cases d.key) [
  | inl e ↦ rw (e, emit) (rw e (emit-FreshKeys emitted ds))
  | inr (key, e) ↦ elim (Bool-cases (contains key emitted)) [
    | inl g ↦ rw (e, g, emit) (emit-FreshKeys emitted ds)
    | inr g ↦ rw (e, g, emit) (rw e (g, emit-FreshKeys (key ∷ emitted) ds))
  ]
]

-- The discovery has a workload key that was published before, or is among those that are published,
-- itself or another with its key.
abbrev pub Published : List String → List Discovered → Discovered → Type 0
Published emitted published d = elim d.key [
  | none ↦ Memᴰ d published
  | some key ↦
      (contains key emitted ≡ true)
      ⊎ ((other : Discovered) × Memᴰ other published × (other.key ≡ some key))
]

abbrev pub AllPublished : List String → List Discovered → List Discovered → Type 0
AllPublished emitted published = All (Published emitted published)

Published-cons :
    (emitted : List String) (d : Discovered) (published : List Discovered) (k : Discovered)
    → Published emitted published k
    → Published emitted (d ∷ published) k
Published-cons emitted d published k h = elim (Option-cases k.key) [
  | inl e ↦ rw e (Memᴰ.tail (rw e at h))
  | inr (key, e) ↦ rw e (elim (rw e at h) [
    | inl seen ↦ inl seen
    | inr (other, m, same) ↦ inr (other, Memᴰ.tail m, same)
  ])
]

-- A key that is published with its discovery.
Published-key :
    (emitted : List String) (d : Discovered) (key : String) (published : List Discovered)
    (k : Discovered)
    → d.key ≡ some key
    → Published (key ∷ emitted) published k
    → Published emitted (d ∷ published) k
unfolding contains
Published-key emitted d key published k here h = elim (Option-cases k.key) [
  | inl e ↦ rw e (Memᴰ.tail (rw e at h))
  | inr (other_key, e) ↦ rw e (elim (rw e at h) [
    | inr (other, m, same) ↦ inr (other, Memᴰ.tail m, same)
    | inl seen ↦ elim (Bool-cases (key =s= other_key)) [
      | inl same ↦ inr (d, Memᴰ.head refl, here ∙ ap some ((eq_iff key other_key).0 same))
      | inr different ↦ inl (ground arith)
    ]
  ])
]

Published-head :
    (emitted : List String) (d : Discovered) (key : String) (published : List Discovered)
    → d.key ≡ some key
    → Published emitted (d ∷ published) d
Published-head emitted d key published e =
    subst
      (λ k. elim k as (λ _. Type 0) [
        | none ↦ Memᴰ d (d ∷ published)
        | some key ↦
            (contains key emitted ≡ true)
            ⊎ ((other : Discovered) × Memᴰ other (d ∷ published) × (other.key ≡ some key))
      ])
      (sym e) (inr (d, Memᴰ.head refl, e))

pub emit-Published :
    (emitted : List String) (ds : List Discovered) → AllPublished emitted (emit emitted ds) ds
unfolding emit
emit-Published emitted [] = tt
emit-Published emitted (d ∷ ds) = elim (Option-cases d.key) [
  | inl e ↦
      let published = emit emitted ds in
      let same : d ∷ published ≡ emit emitted (d ∷ ds) = ground arith in
      subst (λ out. AllPublished emitted out (d ∷ ds)) same
        (
          rw e (Memᴰ.head refl),
          All-imp (Published-cons emitted d published) ds (emit-Published emitted ds),
        )
  | inr (key, e) ↦ elim (Bool-cases (contains key emitted)) [
    | inl g ↦
        let published = emit emitted ds in
        let same : published ≡ emit emitted (d ∷ ds) = ground arith in
        subst (λ out. AllPublished emitted out (d ∷ ds)) same
          (rw e (inl g), emit-Published emitted ds)
    | inr g ↦
        let published = emit (key ∷ emitted) ds in
        let same : d ∷ published ≡ emit emitted (d ∷ ds) = ground arith in
        subst (λ out. AllPublished emitted out (d ∷ ds)) same
          (
            Published-head emitted d key published e,
            All-imp (λ k. Published-key emitted d key published k e) ds
                (emit-Published (key ∷ emitted) ds),
          )
  ]
]
