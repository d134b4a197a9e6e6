-- ===== src/Discovery/Once.antt =====
-- The discovery by images publishes a workload once, by database and port.
use mathlib.Core.List.{Memᴰ}
use mathlib.Core.Bool.{false≢true}
use solarwinds_otel_collecto.Base.{
  ◌≡◌, refl, sym, ◌∙◌, subst, Bool, true, false, ◌&&◌, ◌||◌, List, [], ◌∷◌, Option, none, some,
  String, contains, if◌then◌else◌, ◌=s=◌, arith, All, All-imp, Bool-cases, Option-cases, ◌⊎◌, inl,
  inr,
}
use solarwinds_otel_collecto.Base.{All-Memᴰ}
use solarwinds_otel_collecto.Discovery.Services.{Pod, Service, Addresses}
use solarwinds_otel_collecto.Discovery.Workloads.{Client}
use solarwinds_otel_collecto.Discovery.Rules.{ImageRule}
use solarwinds_otel_collecto.Discovery.Images.{Discovered, discover_pods, emit, discover_by_images}
use solarwinds_otel_collecto.Discovery.Cycle.{FreshKeys, emit-FreshKeys, Published, emit-Published}
use solarwinds_otel_collecto.Discovery.Identities.{
  has_workload, identity, IsKeyed, discover_pods-IsKeyed,
}

All-zip :
    {P Q R : Discovered → Type 0}
    → ((d : Discovered) → P d → Q d → R d)
    → (ds : List Discovered) → All P ds
    → All Q ds
    → All R ds
All-zip f [] p q = tt
All-zip f (d ∷ ds) p q = (f d p.0 q.0, All-zip f ds p.1 q.1)

module _ (net : Addresses) where
  -- Two discoveries that do not have the same workload, database and port.
  abbrev pub Different : Discovered → Discovered → Type 0
  Different d e = (has_workload d && (has_workload e && identity net d =s= identity net e)) ≡ false

  abbrev pub NoRepeat : List Discovered → Type 0
  NoRepeat [] = Unit
  NoRepeat (d ∷ ds) = All (Different d) ds × NoRepeat ds

  -- What became of a discovery: it is among the published ones, or, if it has a workload, one with
  -- the same workload, database and port is.
  abbrev pub IsPublished : List Discovered → Discovered → Type 0
  IsPublished published d =
      if has_workload d
      then ((other : Discovered) × Memᴰ other published
          × (has_workload other ≡ true)
          × (identity net other ≡ identity net d))
      else Memᴰ d published

  emit-All :
      (P : Discovered → Type 0) (emitted : List String) (ds : List Discovered)
      → All P ds
      → All P (emit emitted ds)
  unfolding emit
  emit-All P emitted [] h = tt
  emit-All P emitted (d ∷ ds) h = elim (Option-cases d.key) [
    | inl e ↦ rw (e, emit) (h.0, emit-All P emitted ds h.1)
    | inr (key, e) ↦ elim (Bool-cases (contains key emitted)) [
      | inl g ↦ rw (e, g, emit) (emit-All P emitted ds h.1)
      | inr g ↦ rw (e, g, emit) (h.0, emit-All P (key ∷ emitted) ds h.1)
    ]
  ]

  some_inj : {A : Type 0} {a b : A} → some a ≡ some b → a ≡ b
  some_inj h = cc

  or_false : (a b : Bool) → a || b ≡ false → (a ≡ false) × (b ≡ false)
  or_false true b h = absurd (false≢true (sym h))
  or_false false b h = (refl, h)

  -- The key of a discovery is not in a list.
  KeyNew : List String → Discovered → Type 0
  KeyNew emitted d = elim d.key [ none ↦ Unit | some key ↦ contains key emitted ≡ false ]

  KeyNew-tail :
      (k : String) (emitted : List String) (d : Discovered)
      → KeyNew (k ∷ emitted) d
      → KeyNew emitted d
  unfolding KeyNew contains
  KeyNew-tail k emitted d h = elim (Option-cases d.key) [
    | inl e ↦ rw e tt
    | inr (key, e) ↦ rw e (let h' = rw e at h in ground (arith, h'))
  ]

  FreshKeys-KeyNew :
      (emitted : List String) (ds : List Discovered)
      → FreshKeys emitted ds
      → All (KeyNew emitted) ds
  unfolding KeyNew
  FreshKeys-KeyNew emitted [] h = tt
  FreshKeys-KeyNew emitted (d ∷ ds) h = elim (Option-cases d.key) [
    | inl e ↦ (rw e tt, FreshKeys-KeyNew emitted ds (rw e at h))
    | inr (key, e) ↦
        let (new, rest) = rw e at h in
        (rw e new, All-imp (KeyNew-tail key emitted) ds (FreshKeys-KeyNew (key ∷ emitted) ds rest))
  ]

  KeyNew-Different :
      (k : String) (emitted : List String) (d e : Discovered)
      → IsKeyed net d
      → IsKeyed net e
      → d.key ≡ some k
      → KeyNew (k ∷ emitted) e
      → Different d e
  unfolding KeyNew contains
  KeyNew-Different k emitted d e kd ke here new = elim (Bool-cases (has_workload d)) [
    | inr unnamed ↦ rw unnamed refl
    | inl named ↦ elim (Bool-cases (has_workload e)) [
      | inr unnamed ↦ rw (named, unnamed) refl
      | inl named_e ↦
          let same_d : k ≡ identity net d = some_inj (sym here ∙ rw named at kd) in
          let key_e : e.key ≡ some (identity net e) = rw named_e at ke in
          let new_e : contains (identity net e) (k ∷ emitted) ≡ false = rw key_e at new in
          let not_k : (k =s= identity net e) ≡ false = (or_false _ _ new_e).0 in
          rw (named, named_e) (subst (λ j. (j =s= identity net e) ≡ false) same_d not_k)
    ]
  ]

  -- A key that is none or some text says whether there is a workload.
  keyless : (d : Discovered) → IsKeyed net d → d.key ≡ none → has_workload d ≡ false
  keyless d kd e = elim (Bool-cases (has_workload d)) [
    | inr unnamed ↦ unnamed
    | inl named ↦
        let key : d.key ≡ some (identity net d) = rw named at kd in absurd (ground (arith, key, e))
  ]

  keyed_as :
      (d : Discovered) (key : String)
      → IsKeyed net d
      → d.key ≡ some key
      → (has_workload d ≡ true) × (identity net d ≡ key)
  keyed_as d key kd e = elim (Bool-cases (has_workload d)) [
    | inl named ↦ (named, some_inj (sym (rw named at kd) ∙ e))
    | inr unnamed ↦
        let none_there : d.key ≡ none = rw unnamed at kd in absurd (ground (arith, none_there, e))
  ]

  FreshKeys-NoRepeat :
      (emitted : List String) (ds : List Discovered)
      → All (IsKeyed net) ds
      → FreshKeys emitted ds
      → NoRepeat ds
  FreshKeys-NoRepeat emitted [] keyed h = tt
  FreshKeys-NoRepeat emitted (d ∷ ds) keyed h = elim (Option-cases d.key) [
    | inl e ↦
        let unnamed : has_workload d ≡ false = keyless d keyed.0 e in
        (
          All-imp (λ other _. rw unnamed refl) ds keyed.1,
          FreshKeys-NoRepeat emitted ds keyed.1 (rw e at h),
        )
    | inr (key, e) ↦
        let (new, rest) = rw e at h in
        let news = FreshKeys-KeyNew (key ∷ emitted) ds rest in
        (
          All-zip (λ other ke n. KeyNew-Different key emitted d other keyed.0 ke e n) ds keyed.1
              news,
          FreshKeys-NoRepeat (key ∷ emitted) ds keyed.1 rest,
        )
  ]

  -- `Published` of a discovery with a given key.
  abbrev PublishedWith : List Discovered → Discovered → Option String → Type 0
  PublishedWith published d key = elim key [
    | none ↦ Memᴰ d published
    | some key ↦
        (contains key [] ≡ true)
        ⊎ ((other : Discovered) × Memᴰ other published × (other.key ≡ some key))
  ]

  Published-IsPublished :
      (published : List Discovered) (d : Discovered)
      → All (IsKeyed net) published
      → IsKeyed net d
      → Published [] published d
      → IsPublished published d
  unfolding contains
  Published-IsPublished published d all kd h = elim (Bool-cases (has_workload d)) [
    | inr unnamed ↦
        let key : d.key ≡ none = rw unnamed at kd in
        let there : Memᴰ d published = subst (PublishedWith published d) key h in rw unnamed there
    | inl named ↦
        let key : d.key ≡ some (identity net d) = rw named at kd in
        rw named (elim (subst (PublishedWith published d) key h) [
          | inl seen ↦ absurd (false≢true seen)
          | inr (other, m, same) ↦
              let (w, i) =
                keyed_as other (identity net d) (All-Memᴰ (IsKeyed net) published all m) same in
              (other, m, w, i)
        ])
  ]

  -- The discovery by images never publishes two events of workloads with the same namespace, kind,
  -- name, database and port, compared as one text with bars between them. Whatever it discovers
  -- without a workload is published, and for a discovery with a workload one with the same text is.
  pub discover_by_images-once :
      (client : Client) (services : List Service) (rules : List ImageRule) (pods : List Pod)
      → NoRepeat (discover_by_images net client services rules pods)
        × All
            (IsPublished (discover_by_images net client services rules pods))
            (discover_pods net client services rules pods)
  unfolding discover_by_images
  discover_by_images-once client services rules pods =
      let discovered = discover_pods net client services rules pods in
      let keyed = discover_pods-IsKeyed net client services rules pods in
      let published_keyed = emit-All (IsKeyed net) [] discovered keyed in
      (
        FreshKeys-NoRepeat [] (emit [] discovered) published_keyed (emit-FreshKeys [] discovered),
        All-zip (λ d kd h. Published-IsPublished (emit [] discovered) d published_keyed kd h)
            discovered keyed (emit-Published [] discovered),
      )
