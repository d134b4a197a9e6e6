-- ===== src/K8sEvents/Records.antt =====
-- log_constructor.go: the log records about the containers of a pod, their images, and services. A map
-- of containers is walked in an order that Go does not fix: each function takes the containers as a
-- list, in the order of its walk.
use solarwinds_otel_collecto.Base.{
  ℕ, Bool, false, not, ◌&&◌, ◌||◌, List, [], ◌∷◌, map, Option, none, some, String, if◌then◌else◌,
  ◌=s=◌,
}
use solarwinds_otel_collecto.Connector.Pdata.{Pdata}
use solarwinds_otel_collecto.K8sEvents.Manifests.{PodMetadata, Image, Container, ServiceMapping}
use solarwinds_otel_collecto.K8sEvents.Digests.{extract_sha256_digest}
use solarwinds_otel_collecto.K8sEvents.Constants.{
  k8s_container_entity_type, k8s_container_image_entity_type,
  kubernetes_resource_uses_image_relation_type, entity_state, relationship_update_event_type,
  container_image_entity_type, relates_to_relation_type, otel_entity_event_type, sw_entity_type,
  otel_entity_id, sw_k8s_cluster_uid, sw_k8s_workload_ip, service_name, relationship_src_entity_ids,
  relationship_dest_entity_ids, relationship_type, src_entity_type, dest_entity_type,
  otel_entity_attributes, k8s_container_status, k8s_container_init, k8s_container_sidecar,
  k8s_container_deployed_by_k8s_collector, attribute_oci_manifest_digest,
  attribute_container_image_tags, attribute_otel_entity_relationship_attributes,
  attribute_image_tag,
}

-- What other packages give: the keys of the semantic conventions, strings.ToLower, the validation of
-- digests by go-digest, and in pcommon `PutEmptySlice` with the texts that are appended to it.
pub record Packages (pd : Pdata) : Type 0 where
  pub pod_name_key : String
  pub namespace_name_key : String
  pub container_name_key : String
  pub container_id_key : String
  pub container_image_name_key : String
  pub lower : String → String
  pub is_valid_digest : String → Bool
  pub put_texts : pd.Map → String → List String → pd.Map

pub record LogRecord (pd : Pdata) : Type 0 where
  pub timestamp : ℕ
  pub observed_timestamp : ℕ
  pub attributes : pd.Map

pub record ImageIdentity : Type 0 where
  pub digest : String
  pub name : String

abbrev pub same_identity : ImageIdentity → ImageIdentity → Bool
same_identity a b = a.digest =s= b.digest && a.name =s= b.name

module _ {K : Type 0} (same : K → K → Bool) where
  -- A key of the map `seen`.
  unfoldable pub is_seen : K → List K → Bool
  is_seen k [] = false
  is_seen k (s ∷ seen) = same s k || is_seen k seen

  -- The loops over containers that write a record for a key that was not seen before; a container
  -- without a key is skipped.
  unfoldable pub each_once : (Container → Option K) → List K → List Container → List (K × Container)
  each_once key_of seen [] = []
  each_once key_of seen (c ∷ cs) = elim (key_of c) [
    | none ↦ each_once key_of seen cs
    | some k ↦
        let rest = each_once key_of seen cs in
        let added = each_once key_of (k ∷ seen) cs in
        if is_seen k seen then rest else (k, c) ∷ added
  ]

module _ (pd : Pdata) (ext : Packages pd) where
  abbrev pub digest_of : Image → String
  digest_of i = extract_sha256_digest ext.lower i.image_id

  abbrev pub observed : ℕ → pd.Map → LogRecord pd
  observed t attributes = record { timestamp = 0; observed_timestamp = t; attributes = attributes }

  abbrev pub put_str_to : String → String → pd.Map → pd.Map
  put_str_to k v m = pd.put_str m k v

  abbrev pub put_map_to : String → pd.Map → pd.Map → pd.Map
  put_map_to k v m = pd.put_map m k v

  abbrev pub container_ids : PodMetadata → Container → String → pd.Map
  container_ids md c cluster_uid = put_str_to sw_k8s_cluster_uid cluster_uid (
      put_str_to ext.container_name_key c.name (
        put_str_to ext.namespace_name_key md.namespace
          (put_str_to ext.pod_name_key md.name pd.new_map)))

  abbrev pub image_ids : String → String → String → pd.Map
  image_ids cluster_uid digest name = put_str_to ext.container_image_name_key name (
      put_str_to attribute_oci_manifest_digest digest
        (put_str_to sw_k8s_cluster_uid cluster_uid pd.new_map))

  abbrev pub digest_ids : String → pd.Map
  digest_ids digest = put_str_to attribute_oci_manifest_digest digest pd.new_map

  -- `addContainerAttributes`.
  unfoldable pub add_container_attributes : PodMetadata → Container → String → pd.Map
  add_container_attributes md c cluster_uid =
      let filled =
        pd.put_bool
          (pd.put_bool
            (put_str_to k8s_container_status c.state
              (put_str_to ext.container_id_key c.container_id pd.new_map))
            k8s_container_init c.is_init_container)
          k8s_container_sidecar c.is_sidecar_container in
      put_map_to otel_entity_attributes
        (if c.is_deployed_by_k8s_collector
          then pd.put_bool filled k8s_container_deployed_by_k8s_collector
              c.is_deployed_by_k8s_collector
          else filled)
        (put_map_to otel_entity_id (container_ids md c cluster_uid) (
          put_str_to sw_entity_type k8s_container_entity_type
            (put_str_to otel_entity_event_type entity_state pd.new_map)))

  -- `transformContainersToContainerLogs`.
  unfoldable pub container_logs : PodMetadata → ℕ → String → List Container → List (LogRecord pd)
  container_logs md t cluster_uid =
      map (λ c. observed t (add_container_attributes md c cluster_uid))

  -- `transformManifestToServiceMappingLogs`.
  unfoldable pub service_mapping_logs : ServiceMapping → ℕ → String → List (LogRecord pd)
  service_mapping_logs m t cluster_uid =
      map
        (λ addr. observed t (
          put_str_to sw_k8s_cluster_uid cluster_uid (
            put_str_to sw_k8s_workload_ip addr (
              put_str_to ext.namespace_name_key m.namespace
                (put_str_to service_name m.service_name pd.new_map)))))
        m.addresses

  abbrev pub image_tags : String → pd.Map
  image_tags tag =
      ext.put_texts pd.new_map attribute_container_image_tags
        (if not (tag =s= "") then tag ∷ [] else [])

  -- The attributes of an image as an entity of a cluster.
  unfoldable pub image_attributes : String → String → String → String → pd.Map
  image_attributes cluster_uid digest name tag =
      put_map_to otel_entity_attributes (image_tags tag) (
        put_map_to otel_entity_id (image_ids cluster_uid digest name) (
          put_str_to sw_entity_type k8s_container_image_entity_type
            (put_str_to otel_entity_event_type entity_state pd.new_map)))

  -- The key of `processedValidImages`.
  unfoldable pub image_key : Container → Option ImageIdentity
  image_key c =
      if c.image.image_id =s= ""
      then none
      else some (record { digest = digest_of c.image; name = c.image.name })

  -- `transformContainersToContainerImageLogs`.
  unfoldable pub container_image_logs : ℕ → String → List Container → List (LogRecord pd)
  container_image_logs t cluster_uid containers =
      if cluster_uid =s= ""
      then []
      else map
          (λ e.
            observed t (
              image_attributes cluster_uid (digest_of (e.1.image)) (e.1.image.name)
                (e.1.image.tag)))
          (each_once same_identity image_key [] containers)

  -- `addContainerImageRelationAttributes`.
  unfoldable pub container_image_relation_attributes : PodMetadata → Container → String → pd.Map
  container_image_relation_attributes md c cluster_uid =
      put_map_to attribute_otel_entity_relationship_attributes
        (put_str_to attribute_image_tag c.image.tag pd.new_map)
        (put_str_to dest_entity_type k8s_container_image_entity_type (
          put_str_to src_entity_type k8s_container_entity_type (
            put_map_to relationship_dest_entity_ids
              (image_ids cluster_uid (digest_of c.image) c.image.name)
              (put_map_to relationship_src_entity_ids (container_ids md c cluster_uid) (
                put_str_to relationship_type kubernetes_resource_uses_image_relation_type
                  (put_str_to otel_entity_event_type relationship_update_event_type pd.new_map))))))

  -- `transformContainersToContainerImageRelationsLogs`.
  unfoldable pub container_image_relations_logs :
      PodMetadata → ℕ → String → List Container → List (LogRecord pd)
  container_image_relations_logs md t cluster_uid containers =
      if cluster_uid =s= ""
      then []
      else map (λ c. observed t (container_image_relation_attributes md c cluster_uid)) containers

  -- The digest of an image with an ID that is well formed.
  unfoldable pub valid_digest_of : Container → Option String
  valid_digest_of c =
      if c.image.image_id =s= ""
      then none
      else if digest_of c.image =s= "" || not (ext.is_valid_digest (digest_of c.image))
      then none
      else some (digest_of c.image)

  unfoldable pub image_entity_attributes : String → pd.Map
  image_entity_attributes digest = put_map_to otel_entity_id (digest_ids digest) (
      put_str_to sw_entity_type container_image_entity_type
        (put_str_to otel_entity_event_type entity_state pd.new_map))

  -- `transformContainersToContainerImageEntityLogs`.
  unfoldable pub container_image_entity_logs : ℕ → List Container → List (LogRecord pd)
  container_image_entity_logs t containers =
      map (λ e. observed t (image_entity_attributes e.0))
        (each_once ◌=s=◌ valid_digest_of [] containers)

  unfoldable pub relates_to_attributes : String → ImageIdentity → pd.Map
  relates_to_attributes cluster_uid i =
      put_map_to relationship_dest_entity_ids (image_ids cluster_uid i.digest i.name) (
        put_str_to dest_entity_type k8s_container_image_entity_type (
          put_map_to relationship_src_entity_ids (digest_ids i.digest) (
            put_str_to src_entity_type container_image_entity_type (
              put_str_to relationship_type relates_to_relation_type
                (put_str_to otel_entity_event_type relationship_update_event_type pd.new_map)))))

  unfoldable pub valid_identity_of : Container → Option ImageIdentity
  valid_identity_of c = elim (valid_digest_of c) [
    | none ↦ none
    | some digest ↦ some (record { digest = digest; name = c.image.name })
  ]

  -- `transformContainersToContainerImageRelatesToLogs`.
  unfoldable pub relates_to_logs : ℕ → String → List Container → List (LogRecord pd)
  relates_to_logs t cluster_uid containers =
      if cluster_uid =s= ""
      then []
      else map (λ e. observed t (relates_to_attributes cluster_uid e.0))
          (each_once same_identity valid_identity_of [] containers)
