-- ===== src/K8sEvents/Manifests.antt =====
-- internal/manifests/pod.go, endpoint.go and endpointslice.go. What JSON decoding yields is the state
-- of these records. go-containerregistry's name.ParseReference is a parameter.
use solarwinds_otel_collecto.Base.{
  Bool, true, false, List, [], ◌∷◌, Option, none, some, String, Dict, lookup, insert, if◌then◌else◌,
  ◌=s=◌,
}

-- A parsed reference: the name of its context, and its tag if it is a `name.Tag`.
pub record Reference : Type 0 where
  pub context_name : String
  pub tag : Option String

pub record SpecContainer : Type 0 where
  pub name : String
  pub image : String

pub record InitContainer : Type 0 where
  pub spec : SpecContainer
  pub restart_policy : String

-- A container in the status of a pod; of the map `state`, the key that the walk meets first.
pub record StatusContainer : Type 0 where
  pub name : String
  pub container_id : String
  pub state : Option String
  pub image_id : String

pub record PodMetadata : Type 0 where
  pub name : String
  pub namespace : String
  pub labels : Dict String

pub record PodManifest : Type 0 where
  pub metadata : PodMetadata
  pub container_statuses : List StatusContainer
  pub init_container_statuses : List StatusContainer
  pub containers : List SpecContainer
  pub init_containers : List InitContainer

pub record Image : Type 0 where
  pub image_id : String
  pub name : String
  pub tag : String

pub record Container : Type 0 where
  pub name : String
  pub container_id : String
  pub state : String
  pub is_init_container : Bool
  pub is_sidecar_container : Bool
  pub image : Image
  pub is_deployed_by_k8s_collector : Bool

abbrev pub deployed_label : String
deployed_label = "swo.cloud.solarwinds.com/deployed-with-k8s-collector"

abbrev pub is_deployed : Dict String → Bool
is_deployed labels = elim (lookup deployed_label labels) [ none ↦ false | some v ↦ v =s= "true" ]

abbrev pub new_container : String → Bool → Bool → Bool → Container
new_container name is_init is_sidecar deployed = record {
  name = name;
  container_id = "";
  state = "";
  is_init_container = is_init;
  is_sidecar_container = is_sidecar;
  image = record { image_id = ""; name = ""; tag = "" };
  is_deployed_by_k8s_collector = deployed;
}

unfoldable pub add_containers : Bool → List SpecContainer → Dict Container → Dict Container
add_containers deployed [] containers = containers
add_containers deployed (c ∷ cs) containers =
    add_containers deployed cs
      (insert c.name (new_container c.name false false deployed) containers)

unfoldable pub add_init_containers : Bool → List InitContainer → Dict Container → Dict Container
add_init_containers deployed [] containers = containers
add_init_containers deployed (c ∷ cs) containers = add_init_containers deployed cs (
    insert c.spec.name (new_container c.spec.name true (c.restart_policy =s= "Always") deployed)
      containers)

-- `getState`.
abbrev pub get_state : Option String → String
get_state none = ""
get_state (some key) = key

-- An entry that is there is written again, changed.
unfoldable pub update : String → (Container → Container) → Dict Container → Dict Container
update name change containers = elim (lookup name containers) [
  | none ↦ containers
  | some c ↦ insert name (change c) containers
]

-- `fillContainer`.
abbrev pub fill_container : StatusContainer → Dict Container → Dict Container
fill_container sc =
    update sc.name (λ c. record c { container_id = sc.container_id; state = get_state sc.state })

-- The closure `processStatus`.
abbrev pub process_status : StatusContainer → Dict Container → Dict Container
process_status sc =
    update sc.name (λ c. record c { image = record (c.image) { image_id = sc.image_id } })

-- A loop over the statuses.
unfoldable pub each_status :
    (StatusContainer → Dict Container → Dict Container)
    → List StatusContainer
    → Dict Container
    → Dict Container
each_status f [] containers = containers
each_status f (sc ∷ scs) containers = each_status f scs (f sc containers)

module _ (parse_reference : String → Option Reference) where
  -- `parseImageNameAndTag`.
  abbrev pub parse_image_name_and_tag : String → Option (String × String)
  parse_image_name_and_tag image = elim (parse_reference image) [
    | none ↦ none
    | some ref ↦
        some (ref.context_name, elim ref.tag as (λ _. String) [ none ↦ "latest" | some tag ↦ tag ])
  ]

  -- The closure `processSpec`.
  abbrev pub process_spec : SpecContainer → Dict Container → Dict Container
  process_spec sc containers = elim (parse_image_name_and_tag sc.image) [
    | none ↦ containers
    | some (name, tag) ↦
        update sc.name (λ c. record c { image = record (c.image) { name = name; tag = tag } })
          containers
  ]

  unfoldable pub process_specs : List SpecContainer → Dict Container → Dict Container
  process_specs [] containers = containers
  process_specs (sc ∷ scs) containers = process_specs scs (process_spec sc containers)

  unfoldable pub process_init_specs : List InitContainer → Dict Container → Dict Container
  process_init_specs [] containers = containers
  process_init_specs (sc ∷ scs) containers =
      process_init_specs scs (process_spec sc.spec containers)

  unfoldable pub fill_container_images : PodManifest → Dict Container → Dict Container
  fill_container_images m containers = each_status process_status m.init_container_statuses (
      each_status process_status m.container_statuses
        (process_init_specs m.init_containers (process_specs m.containers containers)))

  -- `fillStates`.
  abbrev pub fill_states : PodManifest → Dict Container → Dict Container
  fill_states m containers =
      each_status fill_container m.init_container_statuses
        (each_status fill_container m.container_statuses containers)

  unfoldable pub get_containers : PodManifest → Dict Container
  get_containers m =
      let deployed = is_deployed m.metadata.labels in
      fill_states m (
        fill_container_images m (
          add_init_containers deployed m.init_containers (add_containers deployed m.containers [])))

pub record EndpointSubset : Type 0 where
  pub addresses : List String
  pub not_ready_addresses : List String

pub record EndpointManifest : Type 0 where
  pub name : String
  pub namespace : String
  pub subsets : List EndpointSubset

pub record EndpointSliceManifest : Type 0 where
  pub service_name : String
  pub namespace : String
  pub endpoints : List (List String)

-- The keys of a map from addresses, in the order of insertion.
unfoldable pub add_address : String → List String → List String
add_address ip [] = ip ∷ []
add_address ip (a ∷ addresses) =
    let rest = add_address ip addresses in if a =s= ip then a ∷ addresses else a ∷ rest

unfoldable pub add_addresses : List String → List String → List String
add_addresses [] addresses = addresses
add_addresses (ip ∷ ips) addresses = add_addresses ips (add_address ip addresses)

unfoldable pub add_subsets : List EndpointSubset → List String → List String
add_subsets [] addresses = addresses
add_subsets (s ∷ subsets) addresses =
    add_subsets subsets (add_addresses s.not_ready_addresses (add_addresses s.addresses addresses))

-- Addresses of an endpoint slice; an empty one is left out.
unfoldable pub add_slice_addresses : List String → List String → List String
add_slice_addresses [] addresses = addresses
add_slice_addresses (ip ∷ ips) addresses =
    add_slice_addresses ips (if ip =s= "" then addresses else add_address ip addresses)

unfoldable pub add_endpoints : List (List String) → List String → List String
add_endpoints [] addresses = addresses
add_endpoints (e ∷ endpoints) addresses = add_endpoints endpoints (add_slice_addresses e addresses)

-- The interface `ServiceMapping`.
pub record ServiceMapping : Type 0 where
  pub addresses : List String
  pub service_name : String
  pub namespace : String

abbrev pub endpoint_mapping : EndpointManifest → ServiceMapping
endpoint_mapping m = record {
  addresses = add_subsets m.subsets [];
  service_name = m.name;
  namespace = m.namespace;
}

abbrev pub slice_mapping : EndpointSliceManifest → ServiceMapping
slice_mapping m = record {
  addresses = add_endpoints m.endpoints [];
  service_name = m.service_name;
  namespace = m.namespace;
}
