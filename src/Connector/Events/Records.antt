-- ===== src/Connector/Events/Records.antt =====
-- The attributes of the log records that stand for events.
use solarwinds_otel_collecto.Base.{
  ◌≡◌, sym, true, false, List, [], ◌∷◌, ◌++◌, String, Dict, lookup, insert, lookup-insert, ◌==◌,
  Bool-cases, inl, inr, Bool,
}
use solarwinds_otel_collecto.Connector.Pdata.{Pdata, Laws}
use solarwinds_otel_collecto.Connector.Events.{
  Entity, Relationship, entity_event_type, entity_delete_type_attr_name, entity_update_event_type,
  entity_delete_event_type, relationship_update_event_type, relationship_delete_event_type,
  entity_soft_delete, entity_type, entity_ids, entity_attributes, relationship_src_entity_ids,
  relationship_dest_entity_ids, relationship_attributes, relationship_type, src_entity_type,
  dest_entity_type, entity_delete_attributes, entity_update_attributes,
  relationship_update_attributes, relationship_delete_attributes,
}

-- A map holds what a dictionary lists, and nothing else.
abbrev pub Holds : (pd : Pdata) → pd.Map → Dict pd.Value → Type 0
Holds pd m d = (j : String) → pd.get m j ≡ lookup j d

-- The entries, unless the map they would show is empty.
abbrev pub unless_empty {ℓ} : {A : Type ℓ} → Bool → List A → List A
unless_empty true xs = []
unless_empty false xs = xs

module _ (pd : Pdata) (laws : Laws pd) where
  open pd use {
    Map, Value, get, new_map, put_str, put_bool, put_map, new_str, new_bool, new_map_value,
  }
  open pd use {len}

  new_map-Holds : Holds pd new_map []
  unfolding lookup
  new_map-Holds j = laws.get-new_map j

  put_str-Holds :
      (m : Map) (d : Dict Value) (k s : String)
      → Holds pd m d
      → Holds pd (put_str m k s) (insert k (new_str s) d)
  put_str-Holds m d k s h j =
      rw (laws.get-put_str m k s j, h j) (sym (lookup-insert k j (new_str s) d))

  put_map-Holds :
      (m : Map) (d : Dict Value) (k : String) (n : Map)
      → Holds pd m d
      → Holds pd (put_map m k n) (insert k (new_map_value n) d)
  put_map-Holds m d k n h j =
      rw (laws.get-put_map m k n j, h j) (sym (lookup-insert k j (new_map_value n) d))

  -- The record of a deleted entity has the event type, the soft delete mark, the entity type, the
  -- IDs and the attributes, and nothing else.
  entity_delete_attributes-Holds :
      (e : Entity pd)
      → Holds pd (entity_delete_attributes pd e) (
          (entity_event_type, new_str entity_delete_event_type)
          ∷ (entity_delete_type_attr_name, new_str entity_soft_delete)
          ∷ (entity_type, new_str e.type)
          ∷ (entity_ids, new_map_value e.ids)
          ∷ (entity_attributes, new_map_value e.attributes)
          ∷ [])
  unfolding entity_delete_attributes insert
  entity_delete_attributes-Holds e = put_map-Holds _ _ entity_attributes e.attributes (
      put_map-Holds _ _ entity_ids e.ids (
        put_str-Holds _ _ entity_type e.type (
          put_str-Holds _ _ entity_delete_type_attr_name entity_soft_delete
            (put_str-Holds _ _ entity_event_type entity_delete_event_type new_map-Holds))))

  -- The record of an updated entity has the event type, the entity type and the IDs, the attributes
  -- if there are any, and nothing else.
  entity_update_attributes-Holds :
      (e : Entity pd)
      → Holds pd (entity_update_attributes pd e) (
          (entity_event_type, new_str entity_update_event_type)
          ∷ (entity_type, new_str e.type)
          ∷ (entity_ids, new_map_value e.ids)
          ∷ unless_empty
              (len e.attributes == 0)
              ((entity_attributes, new_map_value e.attributes) ∷ []))
  unfolding entity_update_attributes insert
  entity_update_attributes-Holds e =
      let ids = put_map-Holds _ _ entity_ids e.ids (
        put_str-Holds _ _ entity_type e.type
          (put_str-Holds _ _ entity_event_type entity_update_event_type new_map-Holds)) in
      elim (Bool-cases (len e.attributes == 0)) [
        | inl none_left ↦ rw none_left ids
        | inr some_left ↦ rw some_left (put_map-Holds _ _ entity_attributes e.attributes ids)
      ]

  ends-Holds :
      (r : Relationship pd) (event_type : String)
      → Holds pd
          (put_map
            (put_map
              (put_str new_map entity_event_type event_type)
              relationship_src_entity_ids
              r.source.ids)
            relationship_dest_entity_ids
            r.destination.ids)
          ((entity_event_type, new_str event_type)
            ∷ (relationship_src_entity_ids, new_map_value r.source.ids)
            ∷ (relationship_dest_entity_ids, new_map_value r.destination.ids)
            ∷ [])
  unfolding insert
  ends-Holds r event_type = put_map-Holds _ _ relationship_dest_entity_ids r.destination.ids (
      put_map-Holds _ _ relationship_src_entity_ids r.source.ids
        (put_str-Holds _ _ entity_event_type event_type new_map-Holds))

  types-Holds :
      (r : Relationship pd) (m : Map) (d : Dict Value)
      → Holds pd m d
      → Holds pd
          (put_str
            (put_str (put_str m relationship_type r.type) src_entity_type r.source.type)
            dest_entity_type
            r.destination.type)
          (insert dest_entity_type (new_str r.destination.type) (
            insert src_entity_type
              (new_str r.source.type)
              (insert relationship_type (new_str r.type) d)))
  types-Holds r m d h = put_str-Holds _ _ dest_entity_type r.destination.type (
      put_str-Holds _ _ src_entity_type r.source.type
        (put_str-Holds _ _ relationship_type r.type h))

  -- The record of a deleted relationship has the event type, the IDs and the types of both ends and
  -- the type of the relationship, and nothing else: its attributes are left out.
  relationship_delete_attributes-Holds :
      (r : Relationship pd)
      → Holds pd (relationship_delete_attributes pd r) (
          (entity_event_type, new_str relationship_delete_event_type)
          ∷ (relationship_src_entity_ids, new_map_value r.source.ids)
          ∷ (relationship_dest_entity_ids, new_map_value r.destination.ids)
          ∷ (relationship_type, new_str r.type)
          ∷ (src_entity_type, new_str r.source.type)
          ∷ (dest_entity_type, new_str r.destination.type)
          ∷ [])
  unfolding relationship_delete_attributes insert
  relationship_delete_attributes-Holds r =
      types-Holds r _ _ (ends-Holds r relationship_delete_event_type)

  -- The record of an updated relationship has the same entries with its own event type, and the
  -- attributes of the relationship if there are any.
  relationship_update_attributes-Holds :
      (r : Relationship pd)
      → Holds pd (relationship_update_attributes pd r) (
          (entity_event_type, new_str relationship_update_event_type)
            ∷ (relationship_src_entity_ids, new_map_value r.source.ids)
            ∷ (relationship_dest_entity_ids, new_map_value r.destination.ids)
            ∷ unless_empty
                (len r.attributes == 0)
                ((relationship_attributes, new_map_value r.attributes) ∷ [])
          ++ (relationship_type, new_str r.type)
            ∷ (src_entity_type, new_str r.source.type)
            ∷ (dest_entity_type, new_str r.destination.type)
            ∷ [])
  unfolding relationship_update_attributes insert
  relationship_update_attributes-Holds r =
      let ends = ends-Holds r relationship_update_event_type in
      elim (Bool-cases (len r.attributes == 0)) [
        | inl none_left ↦ rw (none_left, relationship_update_attributes) (types-Holds r _ _ ends)
        | inr some_left ↦
            rw (some_left, relationship_update_attributes)
              (types-Holds r _ _ (put_map-Holds _ _ relationship_attributes r.attributes ends))
      ]
