-- ===== src/Connector/Examples/Consumed.antt =====
-- The theorems about the calls of the connector at concrete inputs.
use mathlib.Core.List.Permᴰ
use solarwinds_otel_collecto.Base.{
  ℕ, ◌≡◌, refl, Bool, true, List, [], ◌∷◌, none, String, ok, All, lookup, insert, has, delete,
  has_prefix, trim_prefix,
}
use solarwinds_otel_collecto.Connector.Samples.{sample, sample_marshal, sample_cache}
use solarwinds_otel_collecto.Connector.Events.{
  Entity, Event, EventLog, entity, relationship_pointer, get_action_string,
}
use solarwinds_otel_collecto.Connector.Attributes.{
  identify_attributes, get_required_attributes, get_optional_attributes, merge_maps, copy_map,
  put_attribute,
}
use solarwinds_otel_collecto.Connector.Keys.{
  build_entity_key, fnv64a, hash_object, hex, hex_digit, hex_from,
}
use solarwinds_otel_collecto.Connector.Mapper.{
  create_entity, configured, get_entity, get_relationship_entities,
}
use solarwinds_otel_collecto.Connector.Detector.{
  detect, process_events, select_from, collect_events, get_entity_events, entity_events_from,
  get_relationship_events, validate_entity_events, validate_from, detect_entity,
  create_relationship, detect_relationship, infer, validate_ends, validate_relationship_entity,
}
use solarwinds_otel_collecto.Connector.Detector.Actions.{IsAction}
use solarwinds_otel_collecto.Connector.Storage.{Cache, StoredEntity, StoredRelationship}
use solarwinds_otel_collecto.Connector.Handlers.{Resource, consume_telemetry}
use solarwinds_otel_collecto.Connector.Handlers.Outcomes.{expected_outcome}
use solarwinds_otel_collecto.Connector.Handlers.Delivery
use solarwinds_otel_collecto.Connector.Handlers.Delivery.{Item, items_of, detect_all}
use solarwinds_otel_collecto.Connector.Handlers.Loops.{flat}
use solarwinds_otel_collecto.Connector.Examples.{
  resource_attributes, configs, logs_of_pods, log_events, pod_entity, a_calls_b, cluster_entity,
}

abbrev in_order : List (Entity sample) → List (Entity sample)
in_order es = es

abbrev clock : ℕ → ℕ
clock n = n

abbrev accept : EventLog sample → Bool
accept _ = true

-- Two log records of the resource; the condition of the events holds of the second alone.
abbrev resources : List (Resource sample logs_of_pods)
resources = record { attributes = resource_attributes; scopes = (0 ∷ []) ∷ (1 ∷ []) ∷ [] } ∷ []

abbrev updated : String → Event sample
updated name = entity (record (pod_entity name) { action = "update" })

abbrev detected : List (Event sample)
detected = entity cluster_entity ∷ relationship_pointer a_calls_b ∷ updated "a" ∷ updated "b" ∷ []

abbrev ec : Cache (StoredEntity sample)
ec = sample_cache (StoredEntity sample)

abbrev rc : Cache StoredRelationship
rc = sample_cache StoredRelationship

abbrev items :
    List (
      Item sample sample_marshal ec rc configs in_order clock "src." "dst." logs_of_pods log_events)
items =
    flat
      (items_of sample sample_marshal ec rc configs in_order clock "src." "dst." logs_of_pods
        log_events)
      resources

updates : All (λ e. IsAction e.definition.action) log_events.entities
unfolding get_action_string
updates = (refl, (refl, tt))

consume_telemetry-written_example :
    consume_telemetry sample sample_marshal ec rc configs in_order clock "src." "dst." logs_of_pods
      log_events accept none resources
    ≡ expected_outcome sample sample_marshal ec rc accept clock (ok detected)
unfolding detect_all detect process_events select_from collect_events get_entity_events
    entity_events_from get_relationship_events validate_entity_events validate_from detect_entity
    get_entity configured lookup create_entity get_required_attributes merge_maps copy_map has
    insert get_optional_attributes put_attribute create_relationship detect_relationship infer
    validate_ends validate_relationship_entity get_action_string build_entity_key fnv64a hash_object
    hex hex_digit hex_from get_relationship_entities identify_attributes has_prefix trim_prefix
    delete
consume_telemetry-written_example =
    Delivery.consume_telemetry-written sample sample_marshal ec rc configs in_order clock "src."
      "dst." logs_of_pods log_events Permᴰ.refl updates accept resources
