-- ===== src/Connector/Mapper/Mapping.antt =====
-- What the entities of `getEntity` and `getRelationshipEntities` hold, in terms of the attributes
-- of the resource.
use mathlib.Core.Option
use mathlib.Core.Path.{fun_ext}
use solarwinds_otel_collecto.Base.{
  ◌≡◌, ◌∙◌, ap, ap₂, subst, List, [], ◌∷◌, Option, none, some, String, Dict, lookup, contains, ok,
  if◌then◌else◌, arith, or_else, Option-cases, Result-cases, inl, inr,
}
use solarwinds_otel_collecto.Connector.Pdata.{Pdata, Laws}
use solarwinds_otel_collecto.Connector.Config.{EntityConfig}
use solarwinds_otel_collecto.Connector.Attributes.{
  Attributes, identify_attributes, get_required_attributes, get_optional_attributes, merge_maps,
}
use solarwinds_otel_collecto.Connector.Attributes.Routing.{
  source_origin, destination_origin, common_origin, identify_attributes-get,
  identify_attributes-Distinct,
}
use solarwinds_otel_collecto.Connector.Attributes.Reading.{
  stored, required_ok, get-get_optional_attributes, lookup-merge_maps,
}
use solarwinds_otel_collecto.Connector.Events.{Entity}
use solarwinds_otel_collecto.Connector.Mapper.{create_entity, configured, get_relationship_entities}

-- An entity of a configuration: it has the configured type, and its IDs and attributes are the
-- values that the configured keys have at their origin, as `putAttribute` stores them.
pub record IsMapped (pd : Pdata) (config : EntityConfig) (origin : String → Option pd.Value)
    (e : Entity pd) : Type 0 where
  pub same_type : e.type ≡ config.entity
  pub ids_picked :
      (j : String)
      → pd.get e.ids j ≡ (if contains j config.ids then Option.map (stored pd) (origin j) else none)
  pub attributes_picked :
      (j : String)
      → pd.get e.attributes j
        ≡ (if contains j config.attributes then Option.map (stored pd) (origin j) else none)

module _ (pd : Pdata) (laws : Laws pd) where
  open pd use {Map, Value, get}

  create_entity-IsMapped :
      (config : EntityConfig) (attrs : List (Dict Value)) (e : Entity pd)
      → create_entity pd config attrs ≡ ok e
      → IsMapped pd config (λ k. lookup k (merge_maps pd attrs)) e
  unfolding create_entity
  create_entity-IsMapped config attrs e h =
      elim (Result-cases (get_required_attributes pd config.ids attrs)) [
        | inr (x, failed) ↦ absurd (ground arith)
        | inl (ids, found) ↦
            let same : e.ids ≡ ids = ground arith in
            let same' : e.attributes ≡ get_optional_attributes pd config.attributes attrs =
              ground arith in
            let same_ids = required_ok pd laws config.ids attrs ids found in
            record {
              same_type = ground arith;
              ids_picked = λ j.
                  ap (λ m. get m j) (same ∙ same_ids)
                  ∙ get-get_optional_attributes pd laws config.ids attrs j;
              attributes_picked = λ j.
                  ap (λ m. get m j) same'
                  ∙ get-get_optional_attributes pd laws config.attributes attrs j;
            }
      ]

  module _ (configs : Dict EntityConfig) where
    configured-IsMapped :
        (type : String) (attrs : List (Dict Value)) (e : Entity pd)
        → configured pd configs type attrs ≡ ok e
        → (config : EntityConfig) × (lookup type configs ≡ some config)
          × IsMapped pd config (λ k. lookup k (merge_maps pd attrs)) e
    unfolding configured
    configured-IsMapped type attrs e h = elim (Option-cases (lookup type configs)) [
      | inl missing ↦ absurd (ground arith)
      | inr (config, found) ↦ (config, found, create_entity-IsMapped config attrs e (ground arith))
    ]

    IsMapped-origin :
        {config : EntityConfig} {o o' : String → Option Value} {e : Entity pd}
        → ((k : String) → o k ≡ o' k)
        → IsMapped pd config o e
        → IsMapped pd config o' e
    IsMapped-origin {config} {e = e} same h = subst (λ f. IsMapped pd config f e) (fun_ext same) h

    module _ (m : Map) (src dest : String) where
      abbrev attrs : Attributes pd
      attrs = identify_attributes pd m src dest

      abbrev pub source_first : String → Option Value
      source_first k = or_else (source_origin src k (get m)) (common_origin src dest k (get m))

      abbrev pub destination_first : String → Option Value
      destination_first k =
          or_else (destination_origin src dest k (get m)) (common_origin src dest k (get m))

      merged_source :
          (k : String)
          → lookup k (merge_maps pd (attrs.common ∷ attrs.source ∷ [])) ≡ source_first k
      merged_source k =
          let (s, d, c) = identify_attributes-get pd src dest m k laws in
          let (ds, dd, dc) = identify_attributes-Distinct pd src dest m in
          lookup-merge_maps pd k attrs.common attrs.source dc ds ∙ ap₂ or_else s c

      merged_destination :
          (k : String)
          → lookup k (merge_maps pd (attrs.common ∷ attrs.destination ∷ [])) ≡ destination_first k
      merged_destination k =
          let (s, d, c) = identify_attributes-get pd src dest m k laws in
          let (ds, dd, dc) = identify_attributes-Distinct pd src dest m in
          lookup-merge_maps pd k attrs.common attrs.destination dc dd ∙ ap₂ or_else d c

      -- The two entities of a relationship, if they are found. Each has the type, IDs and attributes
      -- that its configuration names. A key of the source is the resource attribute with the source
      -- prefix in front, if there is one, and else the attribute of that name without a prefix; so
      -- it is for the destination and its prefix.
      pub get_relationship_entities-IsMapped :
          (source_type dest_type : String) (s d : Entity pd)
          → get_relationship_entities pd configs source_type dest_type attrs ≡ ok (s, d)
          → ((config : EntityConfig) × (lookup source_type configs ≡ some config)
              × IsMapped pd config source_first s)
            × ((config : EntityConfig) × (lookup dest_type configs ≡ some config)
                × IsMapped pd config destination_first d)
      unfolding get_relationship_entities
      get_relationship_entities-IsMapped source_type dest_type s d h =
          let at_source = attrs.common ∷ attrs.source ∷ [] in
          let at_destination = attrs.common ∷ attrs.destination ∷ [] in
          let made : configured pd configs source_type at_source ≡ ok s = ground arith in
          let made' : configured pd configs dest_type at_destination ≡ ok d = ground arith in
          let (config, found, mapped) = configured-IsMapped source_type at_source s made in
          let (config', found', mapped') = configured-IsMapped dest_type at_destination d made' in
          (
            (config, found, IsMapped-origin merged_source mapped),
            (config', found', IsMapped-origin merged_destination mapped'),
          )
