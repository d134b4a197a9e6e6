-- ===== src/Connector/Examples/Mapped.antt =====
-- The theorems about attributes, keys and entities at concrete inputs.
use solarwinds_otel_collecto.Base.{
  ℕ, ◌≡◌, refl, [], some, String, ok, lookup, insert, delete, has_prefix, trim_prefix, arith,
}
use solarwinds_otel_collecto.Connector.Samples.{text, nested, end, sample, sample_laws}
use solarwinds_otel_collecto.Connector.Config.{EntityConfig}
use solarwinds_otel_collecto.Connector.Attributes.{
  identify_attributes, put_attribute, get_required_attributes, get_optional_attributes, merge_maps,
  copy_map,
}
use solarwinds_otel_collecto.Connector.Attributes.Routing
use solarwinds_otel_collecto.Connector.Attributes.Routing.{
  source_origin, destination_origin, common_origin,
}
use solarwinds_otel_collecto.Connector.Attributes.Reading
use solarwinds_otel_collecto.Connector.Attributes.Reading.{stored, missing}
use solarwinds_otel_collecto.Connector.Keys.{hex, build_relationship_key}
use solarwinds_otel_collecto.Connector.Keys.Relationships
use solarwinds_otel_collecto.Connector.Mapper.{configured, create_entity, get_relationship_entities}
use solarwinds_otel_collecto.Connector.Mapper.Mapping
use solarwinds_otel_collecto.Connector.Mapper.Mapping.{IsMapped, source_first, destination_first}
use solarwinds_otel_collecto.Connector.Examples.{resource_attributes, attrs, configs, pod_entity}

identify_attributes-get_example :
    let attrs = identify_attributes sample resource_attributes "src." "dst." in
    (lookup "pod" attrs.source ≡ source_origin "src." "pod" (λ k. lookup k resource_attributes))
    × (lookup "pod" attrs.destination
        ≡ destination_origin "src." "dst." "pod" (λ k. lookup k resource_attributes))
    × (lookup "pod" attrs.common
        ≡ common_origin "src." "dst." "pod" (λ k. lookup k resource_attributes))
identify_attributes-get_example =
    Routing.identify_attributes-get sample "src." "dst." resource_attributes "pod" sample_laws

identified : lookup "pod" attrs.source ≡ some (text "a")
unfolding identify_attributes lookup insert has_prefix trim_prefix delete
identified = refl

get-put_attribute_example :
    lookup "tags" (put_attribute sample [] "tags" (nested end)) ≡ some (stored sample (nested end))
get-put_attribute_example =
    Reading.get-put_attribute sample sample_laws [] "tags" (nested end) "tags"

pods_found :
    get_relationship_entities sample configs "Pod" "Pod" attrs ≡ ok (pod_entity "a", pod_entity "b")
unfolding get_relationship_entities configured create_entity identify_attributes
    get_required_attributes merge_maps copy_map put_attribute get_optional_attributes lookup insert
    has_prefix trim_prefix delete
pods_found = refl

get_relationship_entities-IsMapped_example :
    ((config : EntityConfig) × (lookup "Pod" configs ≡ some config)
      × IsMapped sample config
          (source_first sample sample_laws configs resource_attributes "src." "dst.")
          (pod_entity "a"))
    × ((config : EntityConfig) × (lookup "Pod" configs ≡ some config)
        × IsMapped sample config
            (destination_first sample sample_laws configs resource_attributes "src." "dst.")
            (pod_entity "b"))
get_relationship_entities-IsMapped_example =
    Mapping.get_relationship_entities-IsMapped sample sample_laws configs resource_attributes "src."
      "dst." "Pod" "Pod" (pod_entity "a") (pod_entity "b") pods_found

-- A relationship type with a colon.
colon_key : build_relationship_key "a:b" (hex 255) (hex 16) ≡ ok "a:b:ff:10"
unfolding build_relationship_key hex
colon_key = refl

build_relationship_key_inj_example :
    (◌≡◌ {A = String} "a:b" "a:b") × (◌≡◌ {A = ℕ} 255 255) × (◌≡◌ {A = ℕ} 16 16)
build_relationship_key_inj_example =
    Relationships.build_relationship_key_inj "a:b" "a:b" 255 16 255 16 "a:b:ff:10" (ground arith)
      (ground arith) (ground arith) (ground arith) colon_key colon_key
