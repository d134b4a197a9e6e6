-- ===== src/Connector/Mapper.antt =====
-- connector/solarwindsentityconnector/internal/attribute_mapper.go: entities from attributes.
pub mod Mapping
use solarwinds_otel_collecto.Base.{
  List, [], ◌∷◌, Option, none, some, String, Dict, lookup, Result, ok, err, wrap, ◌>>=◌,
  if◌then◌else◌, ◌=s=◌, ◌==◌, ◌&&◌, length,
}
use solarwinds_otel_collecto.Connector.Pdata.{Pdata}
use solarwinds_otel_collecto.Connector.Config.{EntityConfig}
use solarwinds_otel_collecto.Connector.Attributes.{
  Attributes, ReadError, get_required_attributes, get_optional_attributes,
}
use solarwinds_otel_collecto.Connector.Events.{Entity}

pub data MapperError : Type 0 where
  configuration_not_found : String → MapperError
  failed_to_create : String → ReadError → MapperError
  attributes_empty : MapperError

module _ (pd : Pdata) where
  open pd use {Value}

  unfoldable pub create_entity : EntityConfig → List (Dict Value) → Result ReadError (Entity pd)
  create_entity entity attrs = do
    ids ← get_required_attributes pd entity.ids attrs
    ok (record {
      action = "";
      type = entity.entity;
      ids = ids;
      attributes = get_optional_attributes pd entity.attributes attrs;
    })

  module _ (entity_configs : Dict EntityConfig) where
    -- The look-up of a configuration and `createEntity` with it.
    unfoldable pub configured : String → List (Dict Value) → Result MapperError (Entity pd)
    configured type attrs = elim (lookup type entity_configs) [
      | none ↦ err (configuration_not_found type)
      | some config ↦ wrap (failed_to_create type) (create_entity config attrs)
    ]

    unfoldable pub get_entity : String → Attributes pd → Result MapperError (Entity pd)
    get_entity type attrs = configured type (attrs.common ∷ [])

    unfoldable pub get_relationship_entities :
        String → String → Attributes pd → Result MapperError (Entity pd × Entity pd)
    get_relationship_entities source_type dest_type attrs =
        let found : Result MapperError (Entity pd × Entity pd) =
          configured source_type (attrs.common ∷ attrs.source ∷ []) >>= λ source.
          configured dest_type (attrs.common ∷ attrs.destination ∷ []) >>= λ destination.
          ok (source, destination) in
        if source_type =s= dest_type && (length attrs.source == 0 && length attrs.destination == 0)
        then err attributes_empty
        else found
