-- ===== src/K8sEvents/Containers.antt =====
-- The map of containers that `GetContainers` returns.
use solarwinds_otel_collecto.Base.{
  ◌≡◌, refl, sym, ◌∙◌, ap, Bool, true, false, ◌||◌, List, [], ◌∷◌, Option, some, String, Dict,
  lookup, insert, has, lookup-insert, has-insert, ◌=s=◌, arith, Bool-cases, Option-cases, eq_iff,
  inl, inr,
}
use solarwinds_otel_collecto.K8sEvents.Manifests.{
  Reference, SpecContainer, InitContainer, StatusContainer, PodManifest, Container, is_deployed,
  new_container, add_containers, add_init_containers, update, process_status, fill_container,
  each_status, process_spec, process_specs, process_init_specs, fill_container_images, fill_states,
  get_containers,
}

-- A container of the specification has the name.
unfoldable pub specifies : String → List SpecContainer → Bool
specifies k [] = false
specifies k (c ∷ cs) = c.name =s= k || specifies k cs

unfoldable pub specifies_init : String → List InitContainer → Bool
specifies_init k [] = false
specifies_init k (c ∷ cs) = c.spec.name =s= k || specifies_init k cs

-- Each container stands under its name.
abbrev pub IsNamed : Dict Container → Type 0
IsNamed containers = (k : String) (c : Container) → lookup k containers ≡ some c → c.name ≡ k

some_inj : {c d : Container} → some c ≡ some d → c ≡ d
some_inj h = cc

IsNamed-insert :
    (name : String) (c : Container) (containers : Dict Container)
    → c.name ≡ name
    → IsNamed containers
    → IsNamed (insert name c containers)
IsNamed-insert name c containers here named k d h =
    let read = sym (lookup-insert name k c containers) ∙ h in
    elim (Bool-cases (name =s= k)) [
      | inl e ↦ ap (λ x. x.name) (sym (some_inj (rw e at read))) ∙ here ∙ (eq_iff name k).0 e
      | inr e ↦ named k d (rw e at read)
    ]

-- A step that keeps the names and the keys.
record Keeps (before after : Dict Container) : Type 0 where
  named : IsNamed before → IsNamed after
  keys : (k : String) → has k after ≡ has k before

Keeps-refl : (containers : Dict Container) → Keeps containers containers
Keeps-refl containers = record { named = λ n. n; keys = λ k. refl }

Keeps-trans : (a b c : Dict Container) → Keeps a b → Keeps b c → Keeps a c
Keeps-trans a b c f g = record { named = λ n. g.named (f.named n); keys = λ k. g.keys k ∙ f.keys k }

Keeps-update :
    (name : String) (change : Container → Container) (containers : Dict Container)
    → ((c : Container) → (change c).name ≡ c.name)
    → Keeps containers (update name change containers)
unfolding update has
Keeps-update name change containers same = elim (Option-cases (lookup name containers)) [
  | inl e ↦ rw (e, update) (Keeps-refl containers)
  | inr (c, e) ↦
      rw (e, update)
        (record {
          named = λ n. IsNamed-insert name (change c) containers (same c ∙ n name c e) n;
          keys = λ k. ground (arith, lookup-insert name k (change c) containers, eq_iff name k);
        })
]

Keeps-each_status :
    (f : StatusContainer → Dict Container → Dict Container)
    → ((sc : StatusContainer) (containers : Dict Container) → Keeps containers (f sc containers))
    → (scs : List StatusContainer) (containers : Dict Container)
    → Keeps containers (each_status f scs containers)
unfolding each_status
Keeps-each_status f keeps [] containers = Keeps-refl containers
Keeps-each_status f keeps (sc ∷ scs) containers =
    Keeps-trans containers (f sc containers) (each_status f scs (f sc containers))
      (keeps sc containers) (Keeps-each_status f keeps scs (f sc containers))

module _ (parse_reference : String → Option Reference) where
  Keeps-process_spec :
      (sc : SpecContainer) (containers : Dict Container)
      → Keeps containers (process_spec parse_reference sc containers)
  Keeps-process_spec sc containers = elim (Option-cases (parse_reference sc.image)) [
    | inl e ↦ rw (e, process_spec) (Keeps-refl containers)
    | inr (ref, e) ↦ rw (e, process_spec) (Keeps-update sc.name _ containers (λ c. refl))
  ]

  Keeps-process_specs :
      (scs : List SpecContainer) (containers : Dict Container)
      → Keeps containers (process_specs parse_reference scs containers)
  unfolding process_specs
  Keeps-process_specs [] containers = Keeps-refl containers
  Keeps-process_specs (sc ∷ scs) containers =
      Keeps-trans containers _ _ (Keeps-process_spec sc containers)
        (Keeps-process_specs scs (process_spec parse_reference sc containers))

  Keeps-process_init_specs :
      (scs : List InitContainer) (containers : Dict Container)
      → Keeps containers (process_init_specs parse_reference scs containers)
  unfolding process_init_specs
  Keeps-process_init_specs [] containers = Keeps-refl containers
  Keeps-process_init_specs (sc ∷ scs) containers =
      Keeps-trans containers _ _ (Keeps-process_spec sc.spec containers)
        (Keeps-process_init_specs scs (process_spec parse_reference sc.spec containers))

  Keeps-process_status :
      (sc : StatusContainer) (containers : Dict Container)
      → Keeps containers (process_status sc containers)
  Keeps-process_status sc containers = Keeps-update sc.name _ containers (λ c. refl)

  Keeps-fill_container :
      (sc : StatusContainer) (containers : Dict Container)
      → Keeps containers (fill_container sc containers)
  Keeps-fill_container sc containers = Keeps-update sc.name _ containers (λ c. refl)

  Keeps-fill_container_images :
      (m : PodManifest) (containers : Dict Container)
      → Keeps containers (fill_container_images parse_reference m containers)
  unfolding fill_container_images
  Keeps-fill_container_images m containers =
      let status = Keeps-each_status process_status Keeps-process_status in
      Keeps-trans containers _ _ (Keeps-process_specs m.containers containers) (
        Keeps-trans _ _ _ (Keeps-process_init_specs m.init_containers _)
          (Keeps-trans _ _ _ (status m.container_statuses _) (status m.init_container_statuses _)))

  Keeps-fill_states :
      (m : PodManifest) (containers : Dict Container)
      → Keeps containers (fill_states parse_reference m containers)
  Keeps-fill_states m containers =
      let status = Keeps-each_status fill_container Keeps-fill_container in
      Keeps-trans containers _ _ (status m.container_statuses containers)
        (status m.init_container_statuses _)

add_containers-IsNamed :
    (deployed : Bool) (cs : List SpecContainer) (containers : Dict Container)
    → IsNamed containers
    → IsNamed (add_containers deployed cs containers)
      × ((k : String)
          → has k (add_containers deployed cs containers) ≡ (specifies k cs || has k containers))
unfolding add_containers specifies
add_containers-IsNamed deployed [] containers named = (named, λ k. refl)
add_containers-IsNamed deployed (c ∷ cs) containers named =
    let new = new_container c.name false false deployed in
    let (rest, keys) =
      add_containers-IsNamed deployed cs (insert c.name new containers)
        (IsNamed-insert c.name new containers refl named) in
    (rest, λ k. keys k ∙ ground (arith, has-insert c.name k new containers))

add_init_containers-IsNamed :
    (deployed : Bool) (cs : List InitContainer) (containers : Dict Container)
    → IsNamed containers
    → IsNamed (add_init_containers deployed cs containers)
      × ((k : String)
          → has k (add_init_containers deployed cs containers)
            ≡ (specifies_init k cs || has k containers))
unfolding add_init_containers specifies_init
add_init_containers-IsNamed deployed [] containers named = (named, λ k. refl)
add_init_containers-IsNamed deployed (c ∷ cs) containers named =
    let new = new_container c.spec.name true (c.restart_policy =s= "Always") deployed in
    let (rest, keys) =
      add_init_containers-IsNamed deployed cs (insert c.spec.name new containers)
        (IsNamed-insert c.spec.name new containers refl named) in
    (rest, λ k. keys k ∙ ground (arith, has-insert c.spec.name k new containers))

empty-IsNamed : IsNamed []
unfolding lookup
empty-IsNamed k c h = absurd (ground arith)

-- Each container that a pod yields stands under its own name, and the names are those that the
-- specification of the pod gives to containers and init containers: a status adds none.
pub get_containers-IsNamed :
    (parse_reference : String → Option Reference) (m : PodManifest)
    → IsNamed (get_containers parse_reference m)
      × ((k : String)
          → has k (get_containers parse_reference m)
            ≡ (specifies k m.containers || specifies_init k m.init_containers))
unfolding get_containers has lookup
get_containers-IsNamed parse_reference m =
    let deployed = is_deployed m.metadata.labels in
    let (named, keys) = add_containers-IsNamed deployed m.containers [] empty-IsNamed in
    let specified = add_containers deployed m.containers [] in
    let (init_named, init_keys) =
      add_init_containers-IsNamed deployed m.init_containers specified named in
    let added = add_init_containers deployed m.init_containers specified in
    let kept : Keeps added (get_containers parse_reference m) =
      Keeps-trans added _ _ (Keeps-fill_container_images parse_reference m added)
        (Keeps-fill_states parse_reference m _) in
    (kept.named init_named, λ k. kept.keys k ∙ init_keys k ∙ ground (arith, keys k))
