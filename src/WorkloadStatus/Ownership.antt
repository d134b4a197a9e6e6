-- ===== src/WorkloadStatus/Ownership.antt =====
-- Which pods the processor finds for a workload: those that name it as an owner.
use Prim.Native.Char.{Char, code}
use Prim.Native.String.{[], ◌∷◌}
use mathlib.Core.Bool.{false≢true}
use text.Mathlib.TextLemmas.{nil-append, cons-append, head-eq_of_cons-eq, tail-eq_of_cons-eq}
use solarwinds_otel_collecto.Base.{
  ◌≡◌, refl, sym, ◌∙◌, ap, ap₂, Bool, true, not, ◌&&◌, List, map, keep, Option, some, String, ◌=s=◌,
  ◌==◌, arith, contains, ◌++ₛ◌, All, Bool-cases, inl, inr, eq_iff,
}
use solarwinds_otel_collecto.WorkloadStatus.{
  OwnerReference, Pod, Object, pod, unexpected, copy_owner_references, pod_transform, owner_key,
  workload_owner_index, pods_of, get_pods_for_workload,
}
use solarwinds_otel_collecto.WorkloadStatus.Statuses.{any}

-- A text without a slash, as the names of namespaces and kinds are.
unfoldable pub slash_free : String → Bool
slash_free [] = true
slash_free (c ∷ s) = not (code c == b'/') && slash_free s

slash : Char
slash = "/"

-- What stands before the first slash, and behind it.
first_slash :
    (a c b d : String)
    → slash_free a ≡ true
    → slash_free c ≡ true
    → a ++ₛ (slash ∷ b) ≡ c ++ₛ (slash ∷ d)
    → (a ≡ c) × (b ≡ d)
unfolding slash_free slash
first_slash [] [] b d fa fc e = (refl, tail-eq_of_cons-eq (rw (nil-append, nil-append) at e))
first_slash [] (y ∷ c) b d fa fc e =
    let f : (slash ∷ b) ≡ (y ∷ (c ++ₛ (slash ∷ d))) = rw (nil-append, cons-append) at e in
    let same = head-eq_of_cons-eq f in
    absurd (false≢true (ap (λ x. not (code x == b'/') && slash_free c) same ∙ fc))
first_slash (x ∷ a) [] b d fa fc e =
    let f : (x ∷ (a ++ₛ (slash ∷ b))) ≡ (slash ∷ d) = rw (nil-append, cons-append) at e in
    let same = head-eq_of_cons-eq f in
    absurd (false≢true (ap (λ x. not (code x == b'/') && slash_free a) (sym same) ∙ fa))
first_slash (x ∷ a) (y ∷ c) b d fa fc e =
    let f : (x ∷ (a ++ₛ (slash ∷ b))) ≡ (y ∷ (c ++ₛ (slash ∷ d))) =
      rw (cons-append, cons-append) at e in
    let (p, q) = first_slash a c b d (ground arith) (ground arith) (tail-eq_of_cons-eq f) in
    (ap₂ ◌∷◌ (head-eq_of_cons-eq f) p, q)

slash-append : (s : String) → "/" ++ₛ s ≡ slash ∷ s
unfolding slash
slash-append s = cons-append slash "" s ∙ ap (◌∷◌ slash) (nil-append s)

owner_key-slashes :
    (ns kind name : String) → owner_key ns kind name ≡ ns ++ₛ (slash ∷ (kind ++ₛ (slash ∷ name)))
owner_key-slashes ns kind name =
    ap (λ t. ns ++ₛ t)
      (slash-append (kind ++ₛ "/" ++ₛ name) ∙ ap (λ t. slash ∷ (kind ++ₛ t)) (slash-append name))

owner_key-inj :
    (ns ns' kind kind' name name' : String)
    → slash_free ns ≡ true
    → slash_free ns' ≡ true
    → slash_free kind ≡ true
    → slash_free kind' ≡ true
    → owner_key ns kind name ≡ owner_key ns' kind' name'
    → (ns ≡ ns') × (kind ≡ kind') × (name ≡ name')
owner_key-inj ns ns' kind kind' name name' a b c d e =
    let (p, rest) =
      first_slash ns ns' _ _ a b
        (sym (owner_key-slashes ns kind name) ∙ e ∙ owner_key-slashes ns' kind' name') in
    let (q, r) = first_slash kind kind' name name' c d rest in (p, q, r)

module _ {R : Type 0} where
  abbrev pub names : String → String → OwnerReference R → Bool
  names kind name owner = owner.kind =s= kind && owner.name =s= name

  -- The pod is of the namespace, and one of its owner references names the workload.
  abbrev pub is_owned : String → String → String → Pod R → Bool
  is_owned namespace kind name p =
      p.namespace =s= namespace && any (names kind name) p.owner_references

  abbrev pub Slashless : Pod R → Type 0
  Slashless p =
      (slash_free p.namespace ≡ true)
      × All (λ (o : OwnerReference R). slash_free o.kind ≡ true) p.owner_references

  module _ (zero_rest : R) (namespace kind name : String) where
    contains-owner_key :
        (ns : String) (owners : List (OwnerReference R))
        → slash_free ns ≡ true
        → slash_free namespace ≡ true
        → slash_free kind ≡ true
        → All (λ (o : OwnerReference R). slash_free o.kind ≡ true) owners
        → contains (owner_key namespace kind name) (
            map
              (λ (o : OwnerReference R). owner_key ns o.kind o.name)
              (copy_owner_references zero_rest owners))
          ≡ (ns =s= namespace && any (names kind name) owners)
    unfolding contains any
    contains-owner_key ns List.[] a b c d = ground arith
    contains-owner_key ns (List.◌∷◌ o owners) a b c d =
        let rest = contains-owner_key ns owners a b c d.1 in
        let inj = owner_key-inj ns namespace o.kind kind o.name name a b d.0 c in
        let key = owner_key namespace kind name in
        let here = owner_key ns o.kind o.name in
        elim (Bool-cases (here =s= key)) [
          | inl e ↦
              let (p, q, r) = inj ((eq_iff here key).0 e) in
              ground (
                arith,
                e,
                (eq_iff ns namespace).1 p,
                (eq_iff o.kind kind).1 q,
                (eq_iff o.name name).1 r,
              )
          | inr n ↦ ground (
            arith,
            n,
            rest,
            eq_iff ns namespace,
            eq_iff o.kind kind,
            eq_iff o.name name,
            eq_iff here key,
            λ (p : ns ≡ namespace) (q : o.kind ≡ kind) (r : o.name ≡ name).
                ap₂ (λ a b. a ++ₛ "/" ++ₛ b) p (ap₂ (λ a b. a ++ₛ "/" ++ₛ b) q r),
          )
        ]

    pods_of-keep :
        (objs : List (Object R))
        → slash_free namespace ≡ true
        → slash_free kind ≡ true
        → All Slashless (pods_of objs)
        → map
            (λ p. p.phase)
            (pods_of (
              keep
                (λ o. contains (owner_key namespace kind name) (workload_owner_index o))
                (map (pod_transform zero_rest) objs)))
          ≡ map (λ p. p.phase) (keep (is_owned namespace kind name) (pods_of objs))
    unfolding pods_of keep pod_transform workload_owner_index contains
    pods_of-keep List.[] b c d = refl
    pods_of-keep (List.◌∷◌ (unexpected r) objs) b c d = pods_of-keep objs b c d
    pods_of-keep (List.◌∷◌ (pod p) objs) b c d =
        let rest = pods_of-keep objs b c d.1 in
        let here = contains-owner_key p.namespace p.owner_references d.0.0 b c d.0.1 in
        elim (Bool-cases (is_owned namespace kind name p)) [
          | inl owned ↦ rw (here, owned) (ap (List.◌∷◌ p.phase) rest)
          | inr other ↦ rw (here, other) rest
        ]

  -- `ByIndex` of client-go: the objects that the index function puts under the key.
  abbrev pub IsIndex : (String → Option (List (Object R))) → List (Object R) → Type 0
  IsIndex by_index objs =
      (key : String) → by_index key ≡ some (keep (λ o. contains key (workload_owner_index o)) objs)

  -- If the informer has stored and indexed pods whose namespaces and owner kinds have no slash, the
  -- phases that count for a workload are those of the pods of its namespace that name its kind and
  -- name in an owner reference, all of them and no others.
  pub get_pods_for_workload-is_owned :
      (zero_rest : R) (by_index : String → Option (List (Object R))) (objs : List (Object R))
      (name namespace kind : String)
      → IsIndex by_index (map (pod_transform zero_rest) objs)
      → All Slashless (pods_of objs)
      → slash_free namespace ≡ true
      → slash_free kind ≡ true
      → map (λ p. p.phase) (get_pods_for_workload (some by_index) name namespace kind)
        ≡ map (λ p. p.phase) (keep (is_owned namespace kind name) (pods_of objs))
  unfolding get_pods_for_workload
  get_pods_for_workload-is_owned zero_rest by_index objs name namespace kind index d b c =
      rw (index (owner_key namespace kind name), get_pods_for_workload)
        (pods_of-keep zero_rest namespace kind name objs b c d)
