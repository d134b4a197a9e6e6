-- ===== src/Connector/Examples.antt =====
-- Test data for the connector: a cluster with two pods, one calling the other.
pub mod Settings
pub mod Mapped
pub mod Detected
pub mod Cached
pub mod Consumed
use solarwinds_otel_collecto.Base.{
  ℕ, Bool, true, false, List, [], ◌∷◌, Option, none, some, String, Dict, ℤ, pos,
}
use solarwinds_otel_collecto.Connector.Pdata.{Pdata}
use solarwinds_otel_collecto.Connector.Samples.{SampleValue, text, sample, sample_language}
use solarwinds_otel_collecto.Connector.Config.{
  EntityConfig, EventConfig, EntityEvent, RelationshipEvent, Schema, new_entities,
}
use solarwinds_otel_collecto.Connector.Config.Conditions.{Language, EventsGroup}
use solarwinds_otel_collecto.Connector.Config.Expiration.{ExpirationSettings, ExpirationPolicy}
use solarwinds_otel_collecto.Connector.Attributes.{Attributes, identify_attributes}
use solarwinds_otel_collecto.Connector.Events.{
  Entity, Relationship, Event, entity, relationship_pointer,
}

abbrev pub resource_attributes : Dict SampleValue
resource_attributes = ("src.pod", text "a") ∷ ("dst.pod", text "b") ∷ ("cluster", text "c") ∷ []

abbrev pub attrs : Attributes sample
attrs = identify_attributes sample resource_attributes "src." "dst."

abbrev pub pod : EntityConfig
pod = record { entity = "Pod"; ids = "cluster" ∷ "pod" ∷ []; attributes = "zone" ∷ [] }

abbrev pub cluster : EntityConfig
cluster = record { entity = "Cluster"; ids = "cluster" ∷ []; attributes = [] }

abbrev pub configs : Dict EntityConfig
configs = ("Pod", pod) ∷ ("Cluster", cluster) ∷ []

abbrev pub update_on : String → EventConfig
update_on context = record { action = "update"; context = context; conditions = [] }

abbrev pub calls : RelationshipEvent
calls = record {
  event = update_on "log";
  type = "Calls";
  source = "Pod";
  destination = "Pod";
  attributes = [];
}

abbrev pub cluster_event : EntityEvent
cluster_event = record { event = update_on "log"; entity = "Cluster" }

abbrev pub pod_event : EntityEvent
pod_event = record { event = update_on "metric"; entity = "Pod" }

abbrev pub schema : Schema
schema = record {
  entities = pod ∷ cluster ∷ [];
  events = record { relationships = calls ∷ []; entities = cluster_event ∷ pod_event ∷ [] };
}

abbrev pub five_minutes : ℤ
five_minutes = pos 300000000000

abbrev pub twenty_seconds : ℤ
twenty_seconds = pos 20000000000

abbrev pub settings : ExpirationSettings
settings = record {
  enabled = true;
  interval = "5m";
  max_capacity = pos 1000;
  ttl_cleanup_interval = "20s";
}

abbrev pub policy : ExpirationPolicy
policy = record {
  enabled = true;
  interval = five_minutes;
  ttl_cleanup_interval_seconds = twenty_seconds;
  max_capacity = pos 1000;
}

abbrev pub pod_entity : String → Entity sample
pod_entity name = record {
  action = "";
  type = "Pod";
  ids = ("cluster", text "c") ∷ ("pod", text name) ∷ [];
  attributes = [];
}

abbrev pub a_calls_b : Relationship sample
a_calls_b = record {
  action = "update";
  type = "Calls";
  source = pod_entity "a";
  destination = pod_entity "b";
  attributes = [];
}

-- The same relationship with another action and an attribute.
abbrev pub a_called_b : Relationship sample
a_called_b = record a_calls_b { action = "delete"; attributes = ("port", text "80") ∷ [] }

abbrev pub cluster_entity : Entity sample
cluster_entity = record {
  action = "update";
  type = "Cluster";
  ids = ("cluster", text "c") ∷ [];
  attributes = [];
}

abbrev pub logs_of_pods : Language
logs_of_pods = sample_language "log"

-- The parsed log events of the schema, with pods inferred from their calls.
abbrev pub log_events : EventsGroup logs_of_pods
log_events = record {
  entities =
      record { definition = cluster_event; condition_seq = "true" ∷ [] }
      ∷ record { definition = pod_event; condition_seq = "true" ∷ [] }
      ∷ [];
  relationships = record { definition = calls; condition_seq = "true" ∷ [] } ∷ [];
}
