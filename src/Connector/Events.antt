-- ===== src/Connector/Events.antt =====
-- connector/solarwindsentityconnector/internal: constants.go, event.go, entity.go, relationship.go
-- and `CreateEventLog`.
pub mod Records
use solarwinds_otel_collecto.Base.{
  ℕ, true, List, [], ◌∷◌, ◌++◌, String, Result, ok, err, if◌then◌else◌, ◌=s=◌, ◌==◌,
}
use solarwinds_otel_collecto.Connector.Pdata.{Pdata}

abbrev pub entity_event_as_log : String
entity_event_as_log = "otel.entity.event_as_log"

abbrev pub entity_event_type : String
entity_event_type = "otel.entity.event.type"

abbrev pub entity_delete_type_attr_name : String
entity_delete_type_attr_name = "otel.entity.delete.type"

abbrev pub entity_update_event_type : String
entity_update_event_type = "entity_state"

abbrev pub entity_delete_event_type : String
entity_delete_event_type = "entity_delete"

abbrev pub relationship_update_event_type : String
relationship_update_event_type = "entity_relationship_state"

abbrev pub relationship_delete_event_type : String
relationship_delete_event_type = "entity_relationship_delete"

abbrev pub entity_soft_delete : String
entity_soft_delete = "soft_delete"

abbrev pub event_update_action : String
event_update_action = "update"

abbrev pub event_delete_action : String
event_delete_action = "delete"

abbrev pub entity_type : String
entity_type = "otel.entity.type"

abbrev pub entity_ids : String
entity_ids = "otel.entity.id"

abbrev pub entity_attributes : String
entity_attributes = "otel.entity.attributes"

abbrev pub relationship_src_entity_ids : String
relationship_src_entity_ids = "otel.entity_relationship.source_entity.id"

abbrev pub relationship_dest_entity_ids : String
relationship_dest_entity_ids = "otel.entity_relationship.destination_entity.id"

abbrev pub relationship_attributes : String
relationship_attributes = "otel.entity_relationship.attributes"

abbrev pub relationship_type : String
relationship_type = "otel.entity_relationship.type"

abbrev pub src_entity_type : String
src_entity_type = "otel.entity_relationship.source_entity.type"

abbrev pub dest_entity_type : String
dest_entity_type = "otel.entity_relationship.destination_entity.type"

pub record Entity (pd : Pdata) : Type 0 where
  pub action : String
  pub type : String
  pub ids : pd.Map
  pub attributes : pd.Map

pub record Relationship (pd : Pdata) : Type 0 where
  pub action : String
  pub type : String
  pub source : Entity pd
  pub destination : Entity pd
  pub attributes : pd.Map

-- The types that implement the interface `Event`: both types, as a value and behind a pointer.
pub data Event (pd : Pdata) : Type 0 where
  entity : Entity pd → Event pd
  entity_pointer : Entity pd → Event pd
  relationship : Relationship pd → Event pd
  relationship_pointer : Relationship pd → Event pd

pub data ActionError : Type 0 where
  unknown_action : String → ActionError
  unsupported_event : ActionError

unfoldable pub get_action_string : String → Result ActionError String
get_action_string input =
    if input =s= event_update_action
    then ok event_update_action
    else if input =s= event_delete_action
    then ok event_delete_action
    else err (unknown_action input)

-- The type switch names `Entity` and `*Relationship`.
unfoldable pub get_action_type : {pd : Pdata} → Event pd → Result ActionError String
get_action_type (entity e) = get_action_string e.action
get_action_type (relationship_pointer r) = get_action_string r.action
get_action_type _ = err unsupported_event

-- A log record, as far as the connector writes it.
pub record LogRecord (pd : Pdata) : Type 0 where
  pub observed_timestamp : ℕ
  pub attributes : pd.Map

-- `plog.Logs` with its one resource log and scope log, as `CreateEventLog` leaves it.
pub record EventLog (pd : Pdata) : Type 0 where
  pub scope_attributes : pd.Map
  pub log_records : List (LogRecord pd)

module _ (pd : Pdata) where
  open pd use {Map, new_map, len, put_str, put_bool, put_map}

  unfoldable pub create_event_log : EventLog pd
  create_event_log = record {
    scope_attributes = put_bool new_map entity_event_as_log true;
    log_records = [];
  }

  -- `logRecords.AppendEmpty()`, with the attributes that the caller then sets.
  abbrev append_record : ℕ → Map → List (LogRecord pd) → List (LogRecord pd)
  append_record now attrs records =
      records ++ record { observed_timestamp = now; attributes = attrs } ∷ []

  unfoldable pub entity_delete_attributes : Entity pd → Map
  entity_delete_attributes e =
      let a = put_str new_map entity_event_type entity_delete_event_type in
      let b = put_str a entity_delete_type_attr_name entity_soft_delete in
      let c = put_str b entity_type e.type in
      let d = put_map c entity_ids e.ids in put_map d entity_attributes e.attributes

  unfoldable pub entity_update_attributes : Entity pd → Map
  entity_update_attributes e =
      let a = put_str new_map entity_event_type entity_update_event_type in
      let b = put_str a entity_type e.type in
      let c = put_map b entity_ids e.ids in
      if len e.attributes == 0 then c else put_map c entity_attributes e.attributes

  unfoldable pub relationship_update_attributes : Relationship pd → Map
  relationship_update_attributes r =
      let a = put_str new_map entity_event_type relationship_update_event_type in
      let b = put_map a relationship_src_entity_ids r.source.ids in
      let c = put_map b relationship_dest_entity_ids r.destination.ids in
      let d = if len r.attributes == 0 then c else put_map c relationship_attributes r.attributes in
      let e = put_str d relationship_type r.type in
      let f = put_str e src_entity_type r.source.type in
      put_str f dest_entity_type r.destination.type

  unfoldable pub relationship_delete_attributes : Relationship pd → Map
  relationship_delete_attributes r =
      let a = put_str new_map entity_event_type relationship_delete_event_type in
      let b = put_map a relationship_src_entity_ids r.source.ids in
      let c = put_map b relationship_dest_entity_ids r.destination.ids in
      let d = put_str c relationship_type r.type in
      let e = put_str d src_entity_type r.source.type in
      put_str e dest_entity_type r.destination.type

  -- The methods `Update` and `Delete` of the interface; a pointer's method is its value's.
  -- The first argument is the time that `time.Now` returns.
  unfoldable pub update_event : ℕ → Event pd → List (LogRecord pd) → List (LogRecord pd)
  update_event now (entity e) = append_record now (entity_update_attributes e)
  update_event now (entity_pointer e) = append_record now (entity_update_attributes e)
  update_event now (relationship r) = append_record now (relationship_update_attributes r)
  update_event now (relationship_pointer r) = append_record now (relationship_update_attributes r)

  unfoldable pub delete_event : ℕ → Event pd → List (LogRecord pd) → List (LogRecord pd)
  delete_event now (entity e) = append_record now (entity_delete_attributes e)
  delete_event now (entity_pointer e) = append_record now (entity_delete_attributes e)
  delete_event now (relationship r) = append_record now (relationship_delete_attributes r)
  delete_event now (relationship_pointer r) = append_record now (relationship_delete_attributes r)
