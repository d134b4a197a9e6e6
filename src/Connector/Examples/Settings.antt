-- ===== src/Connector/Examples/Settings.antt =====
-- The theorems about the configuration at concrete inputs.
use solarwinds_otel_collecto.Base.{
  ◌+◌, ◌<◌, ◌≡◌, refl, ◌↔◌, [], ◌∷◌, Option, none, some, String, ok, ℤ, length, has, lookup, insert,
  if◌then◌else◌, ◌=s=◌,
}
use solarwinds_otel_collecto.Connector.Samples.{sample_language}
use solarwinds_otel_collecto.Connector.Config.{
  EntityEvent, RelationshipEvent, validate_schema, new_entities,
}
use solarwinds_otel_collecto.Connector.Config.Validation
use solarwinds_otel_collecto.Connector.Config.Validation.{AllConfigured}
use solarwinds_otel_collecto.Connector.Config.Conditions.{
  ParsedEvents, create_parsed_events, process_all, process_event, add_event,
}
use solarwinds_otel_collecto.Connector.Config.Conditions.Parsing
use solarwinds_otel_collecto.Connector.Config.Conditions.Parsing.{Sorted}
use solarwinds_otel_collecto.Connector.Examples.{
  schema, five_minutes, twenty_seconds, calls, cluster_event, pod_event,
}

schema_valid : validate_schema schema ≡ []
unfolding validate_schema has lookup insert
schema_valid = refl

validate_schema_iff_example : (validate_schema schema ≡ []) ↔ (
    (0 < length schema.events.entities + length schema.events.relationships)
    × AllConfigured (new_entities schema) schema)
validate_schema_iff_example = Validation.validate_schema_iff schema

abbrev parse_duration : String → Option ℤ
parse_duration s =
    if s =s= "5m" then some five_minutes else if s =s= "20s" then some twenty_seconds else none

abbrev parsed : ParsedEvents (sample_language "metric") (sample_language "log")
parsed = record {
  metric_events = record {
    entities = record { definition = pod_event; condition_seq = "true" ∷ [] } ∷ [];
    relationships = [];
  };
  log_events = record {
    entities = record { definition = cluster_event; condition_seq = "true" ∷ [] } ∷ [];
    relationships = record { definition = calls; condition_seq = "true" ∷ [] } ∷ [];
  };
}

parsed_ok :
    create_parsed_events (sample_language "metric") (sample_language "log") schema ≡ ok parsed
unfolding create_parsed_events process_all process_event add_event
parsed_ok = refl

create_parsed_events-Sorted_example :
    Sorted
      (sample_language "metric")
      (sample_language "log")
      (λ (e : EntityEvent). e.context)
      (λ e. e.conditions)
      schema.events.entities
      ([], [])
      (parsed.metric_events.entities, parsed.log_events.entities)
    × Sorted
        (sample_language "metric")
        (sample_language "log")
        (λ (r : RelationshipEvent). r.context)
        (λ r. r.conditions)
        schema.events.relationships
        ([], [])
        (parsed.metric_events.relationships, parsed.log_events.relationships)
create_parsed_events-Sorted_example =
    Parsing.create_parsed_events-Sorted (sample_language "metric") (sample_language "log") schema
      parsed parsed_ok
