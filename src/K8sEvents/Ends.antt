-- ===== src/K8sEvents/Ends.antt =====
-- The relations between images lead from and to entities that are reported with them.
use mathlib.Core.List.Memᴰ
use mathlib.Core.List.{Memᴰ}
use solarwinds_otel_collecto.Base.{
  ℕ, ◌≡◌, sym, ◌∙◌, ap, true, false, List, [], Option, some, inl, inr, String, ◌=s=◌, arith,
  Bool-cases, Option-cases, eq_iff, subst, Dict, values, ◌↔◌,
}
use solarwinds_otel_collecto.Connector.Pdata.{Pdata, Laws}
use solarwinds_otel_collecto.K8sEvents.Manifests.{Container, PodManifest, Reference, get_containers}
use solarwinds_otel_collecto.K8sEvents.Constants.{
  otel_entity_id, sw_entity_type, src_entity_type, dest_entity_type, relationship_src_entity_ids,
  relationship_dest_entity_ids,
}
use solarwinds_otel_collecto.K8sEvents.Records.{
  Packages, LogRecord, ImageIdentity, same_identity, digest_of, observed, image_attributes,
  image_key, container_image_logs, valid_digest_of, image_entity_attributes,
  container_image_entity_logs, relates_to_attributes, valid_identity_of, relates_to_logs,
  container_logs,
}
use solarwinds_otel_collecto.K8sEvents.Reports.{Floats}
use solarwinds_otel_collecto.K8sEvents.Pipeline.{pod_logs}
use solarwinds_otel_collecto.K8sEvents.Once.{map-Memᴰ, Memᴰ-map, each_once-Memᴰ, each_once-entry}

same_text : (a b : String) → (a =s= b) ≡ true → a ≡ b
same_text a b = (eq_iff a b).0

same_identity-eq : (a b : ImageIdentity) → same_identity a b ≡ true → a ≡ b
same_identity-eq a b h = ground (arith, eq_iff a.digest b.digest, eq_iff a.name b.name)

module _ (pd : Pdata) (laws : Laws pd) (ext : Packages pd) where
  -- A record of an entity is about an end of a relation: the type and the ID are the same.
  abbrev pub IsEnd : String → String → pd.Map → pd.Map → Type 0
  IsEnd type_key ids_key entity relation =
      (pd.get entity sw_entity_type ≡ pd.get relation type_key)
      × (pd.get entity otel_entity_id ≡ pd.get relation ids_key)

  valid_digest_of-image :
      (c : Container) (digest : String)
      → valid_digest_of pd ext c ≡ some digest
      → image_key pd ext c ≡ some (record { digest = digest; name = c.image.name })
  unfolding valid_digest_of image_key
  valid_digest_of-image c digest h = ground arith

  source-IsEnd :
      (cluster_uid : String) (i : ImageIdentity)
      → IsEnd src_entity_type relationship_src_entity_ids
          (image_entity_attributes pd ext i.digest)
          (relates_to_attributes pd ext cluster_uid i)
  unfolding image_entity_attributes relates_to_attributes
  source-IsEnd cluster_uid i =
      (simp (laws.get-put_map, laws.get-put_str), simp (laws.get-put_map, laws.get-put_str))

  image_key-parts :
      (c : Container) (i : ImageIdentity)
      → image_key pd ext c ≡ some i
      → (digest_of pd ext c.image ≡ i.digest) × (c.image.name ≡ i.name)
  unfolding image_key
  image_key-parts c i h = (ground arith, ground arith)

  target-IsEnd :
      (cluster_uid tag : String) (i : ImageIdentity)
      → IsEnd dest_entity_type relationship_dest_entity_ids
          (image_attributes pd ext cluster_uid i.digest i.name tag)
          (relates_to_attributes pd ext cluster_uid i)
  unfolding image_attributes relates_to_attributes
  target-IsEnd cluster_uid tag i =
      (simp (laws.get-put_map, laws.get-put_str), simp laws.get-put_map)

  -- A record among some records that is about an end of a relation.
  abbrev pub HasEnd : String → String → List (LogRecord pd) → LogRecord pd → Type 0
  HasEnd type_key ids_key records relation =
      (entity : LogRecord pd) × Memᴰ entity records
      × IsEnd type_key ids_key entity.attributes relation.attributes

  module _ (t : ℕ) (cluster_uid : String) where
    valid_identity_of-digest :
        (c : Container) (i : ImageIdentity)
        → valid_identity_of pd ext c ≡ some i
        → (valid_digest_of pd ext c ≡ some i.digest) × (image_key pd ext c ≡ some i)
    unfolding valid_identity_of
    valid_identity_of-digest c i h = elim (Option-cases (valid_digest_of pd ext c)) [
      | inl e ↦ absurd (ground arith)
      | inr (digest, e) ↦
          let same : record { digest = digest; name = c.image.name } ≡ i = ground arith in
          (e ∙ ap some (ap (λ j. j.digest) same), valid_digest_of-image c digest e ∙ ap some same)
    ]

    source-HasEnd :
        (i : ImageIdentity) (c : Container) (containers : List Container)
        → Memᴰ c containers
        → valid_identity_of pd ext c ≡ some i
        → HasEnd src_entity_type relationship_src_entity_ids
            (container_image_entity_logs pd ext t containers)
            (observed pd ext t (relates_to_attributes pd ext cluster_uid i))
    unfolding container_image_entity_logs
    source-HasEnd i c containers m h =
        let (d, entry) =
          each_once-entry ◌=s=◌ (valid_digest_of pd ext) same_text i.digest c containers m
            (valid_identity_of-digest c i h).0 in
        (
          observed pd ext t (image_entity_attributes pd ext i.digest),
          Memᴰ-map _ entry,
          source-IsEnd cluster_uid i,
        )

    target-HasEnd :
        (i : ImageIdentity) (c : Container) (containers : List Container)
        → (cluster_uid =s= "") ≡ false
        → Memᴰ c containers
        → valid_identity_of pd ext c ≡ some i
        → HasEnd dest_entity_type relationship_dest_entity_ids
            (container_image_logs pd ext t cluster_uid containers)
            (observed pd ext t (relates_to_attributes pd ext cluster_uid i))
    unfolding container_image_logs
    target-HasEnd i c containers set m h =
        let (d, entry) =
          each_once-entry same_identity (image_key pd ext) same_identity-eq i c containers m
            (valid_identity_of-digest c i h).1 in
        let (_, key) = each_once-Memᴰ same_identity (image_key pd ext) i d [] containers entry in
        let (digest, name) = image_key-parts d i key in
        (
          observed pd ext t (
              image_attributes pd ext cluster_uid (digest_of pd ext d.image) d.image.name
                d.image.tag),
          rw set (Memᴰ-map _ entry),
          rw (digest, name) (target-IsEnd cluster_uid d.image.tag i),
        )

  -- Whatever the order of the walks, a relation between images leads from an image that is reported
  -- with it to an image of the cluster that is reported with it.
  relates_to_logs-HasEnd :
      (t : ℕ) (cluster_uid : String) (first second third : List Container)
      → ((c : Container) → Memᴰ c second → Memᴰ c first)
      → ((c : Container) → Memᴰ c second → Memᴰ c third)
      → (r : LogRecord pd) → Memᴰ r (relates_to_logs pd ext t cluster_uid second)
      → HasEnd src_entity_type relationship_src_entity_ids
          (container_image_entity_logs pd ext t first)
          r
        × HasEnd dest_entity_type relationship_dest_entity_ids
            (container_image_logs pd ext t cluster_uid third)
            r
  unfolding relates_to_logs
  relates_to_logs-HasEnd t cluster_uid first second third in_first in_third r m =
      elim (Bool-cases (cluster_uid =s= "")) [
        | inl e ↦ absurd (Memᴰ.not-nil (rw (e, relates_to_logs) at m))
        | inr e ↦
            let ((i, c), entry, made) = map-Memᴰ _ _ (rw (e, relates_to_logs) at m) in
            let (walked, key) =
              each_once-Memᴰ same_identity (valid_identity_of pd ext) i c [] second entry in
            subst
              (λ r.
                HasEnd src_entity_type relationship_src_entity_ids
                  (container_image_entity_logs pd ext t first) r
                × HasEnd dest_entity_type relationship_dest_entity_ids
                    (container_image_logs pd ext t cluster_uid third) r)
              (sym made)
              (
                source-HasEnd t cluster_uid i c first (in_first c walked) key,
                target-HasEnd t cluster_uid i c third e (in_third c walked) key,
              )
      ]

  pub HasEnd-mono :
      (type_key ids_key : String) (records more : List (LogRecord pd)) (r : LogRecord pd)
      → ((e : LogRecord pd) → Memᴰ e records → Memᴰ e more)
      → HasEnd type_key ids_key records r
      → HasEnd type_key ids_key more r
  HasEnd-mono type_key ids_key records more r sub (e, m, is_end) = (e, sub e m, is_end)

  module _ (fl : Floats pd.Double) (upper : String → String)
      (parse_reference : String → Option Reference) where
    -- Whatever the order in which the containers of a pod are walked over, each record of a relation
    -- between images that a pod yields comes with records of both images that it relates, the same in
    -- type and ID.
    pub pod_logs-HasEnd :
        (walk : ℕ → Dict Container → List Container) (m : PodManifest) (t : ℕ)
        (cluster_uid : String)
        → ((n : ℕ) (containers : Dict Container) (c : Container)
            → Memᴰ c (walk n containers) ↔ Memᴰ c (values containers))
        → (r : LogRecord pd)
        → Memᴰ r (relates_to_logs pd ext t cluster_uid (walk 2 (get_containers parse_reference m)))
        → HasEnd src_entity_type relationship_src_entity_ids
            (pod_logs pd ext fl upper parse_reference walk m t cluster_uid)
            r
          × HasEnd dest_entity_type relationship_dest_entity_ids
              (pod_logs pd ext fl upper parse_reference walk m t cluster_uid)
              r
    unfolding pod_logs
    pod_logs-HasEnd walk m t cluster_uid same r relation =
        let containers = get_containers parse_reference m in
        let to : (n : ℕ) (c : Container) → Memᴰ c (walk 2 containers) → Memᴰ c (walk n containers) =
          λ n c i. (same n containers c).1 ((same 2 containers c).0 i) in
        let (source, target) =
          relates_to_logs-HasEnd t cluster_uid (walk 1 containers) (walk 2 containers)
            (walk 3 containers) (to 1) (to 3) r relation in
        (
          HasEnd-mono _ _ _ _ r
              (λ e i.
                Memᴰ.append_right
                  (container_logs pd ext m.metadata t cluster_uid (walk 0 containers))
                  (Memᴰ.append_left _ i))
              source,
          HasEnd-mono _ _ _ _ r
              (λ e i.
                Memᴰ.append_right
                  (container_logs pd ext m.metadata t cluster_uid (walk 0 containers))
                  (Memᴰ.append_right (container_image_entity_logs pd ext t (walk 1 containers)) (
                    Memᴰ.append_right (relates_to_logs pd ext t cluster_uid (walk 2 containers))
                      (Memᴰ.append_left _ i))))
              target,
        )
