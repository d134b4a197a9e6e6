-- ===== src/Connector/Config.antt =====
-- connector/solarwindsentityconnector/config: config.go, models.go, schema.go.
pub mod Conditions
pub mod Expiration
pub mod Validation
use solarwinds_otel_collecto.Base.{
  ℕ, zero, suc, List, [], ◌∷◌, ◌++◌, Option, none, some, String, Dict, has, insert, not, Result, ok,
  err, if◌then◌else◌, ◌=s=◌, ◌==◌, length, Bool, ◌&&◌, true, false,
}

abbrev pub event_update_action : String
event_update_action = "update"

abbrev pub event_delete_action : String
event_delete_action = "delete"

-- `Entity` of models.go.
pub record EntityConfig : Type 0 where
  pub entity : String
  pub ids : List String
  pub attributes : List String

-- `Event` of models.go, which the two kinds of events embed.
pub record EventConfig : Type 0 where
  pub action : String
  pub context : String
  pub conditions : List String

pub record RelationshipEvent : Type 0 where
  pub event : EventConfig
  pub open event use *
  pub type : String
  pub source : String
  pub destination : String
  pub attributes : List String

pub record EntityEvent : Type 0 where
  pub event : EventConfig
  pub open event use *
  pub entity : String

pub record Events : Type 0 where
  pub relationships : List RelationshipEvent
  pub entities : List EntityEvent

pub record Schema : Type 0 where
  pub entities : List EntityConfig
  pub events : Events

-- The errors that the validators join; an index is the position in the list of events.
pub data ConfigError : Type 0 where
  entity_mandatory ids_mandatory action_mandatory context_mandatory type_mandatory : ConfigError
  source_entity_mandatory destination_entity_mandatory no_events : ConfigError
  action_invalid context_invalid : String → ConfigError
  event_entity_undefined source_undefined destination_undefined : String → ℕ → ConfigError

-- `errs = errors.Join(errs, e)` under a condition: the joined errors are a list, nil is the empty
-- list.
abbrev pub join_if : Bool → ConfigError → List ConfigError → List ConfigError
join_if b e errs = if b then errs ++ e ∷ [] else errs

unfoldable pub validate_entity : EntityConfig → List ConfigError
validate_entity e =
    join_if (length e.ids == 0) ids_mandatory (join_if (e.entity =s= "") entity_mandatory [])

-- The names of the two OTTL contexts, `ottllog.ContextName` and `ottlmetric.ContextName`, are of a
-- package outside the repository.
module _ (log_name metric_name : String) where
  unfoldable pub validate_action_and_context : EventConfig → List ConfigError
  validate_action_and_context e =
      let errs =
        if e.action =s= ""
        then action_mandatory ∷ []
        else if e.action =s= event_update_action
        then []
        else if e.action =s= event_delete_action
        then []
        else action_invalid e.action ∷ [] in
      if e.context =s= ""
      then errs ++ context_mandatory ∷ []
      else if e.context =s= log_name
      then errs
      else if e.context =s= metric_name
      then errs
      else errs ++ context_invalid e.context ∷ []

  unfoldable pub validate_relationship_event : RelationshipEvent → List ConfigError
  unfolding validate_action_and_context
  validate_relationship_event e = join_if (e.destination =s= "") destination_entity_mandatory (
      join_if (e.source =s= "") source_entity_mandatory
        (join_if (e.type =s= "") type_mandatory (validate_action_and_context e.event)))

  unfoldable pub validate_entity_event : EntityEvent → List ConfigError
  unfolding validate_action_and_context
  validate_entity_event e =
      join_if (e.entity =s= "") entity_mandatory (validate_action_and_context e.event)

-- The set `entityTypes`.
entity_types_from : Dict (Unit {0}) → List EntityConfig → Dict (Unit {0})
entity_types_from types [] = types
entity_types_from types (e ∷ es) = entity_types_from (insert e.entity tt types) es

check_entities : Dict (Unit {0}) → ℕ → List EntityEvent → List ConfigError → List ConfigError
check_entities types i [] errs = errs
check_entities types i (e ∷ es) errs =
    check_entities types (suc i) es
      (join_if (not (has e.entity types)) (event_entity_undefined e.entity i) errs)

check_relationships :
    Dict (Unit {0}) → ℕ → List RelationshipEvent → List ConfigError → List ConfigError
check_relationships types i [] errs = errs
check_relationships types i (r ∷ rs) errs = check_relationships types (suc i) rs (
    join_if (not (has r.destination types)) (destination_undefined r.destination i)
      (join_if (not (has r.source types)) (source_undefined r.source i) errs))

unfoldable pub validate_schema : Schema → List ConfigError
unfolding entity_types_from check_entities check_relationships
validate_schema s =
    if length s.events.entities == 0 && length s.events.relationships == 0
    then no_events ∷ []
    else let types = entity_types_from [] s.entities in
      check_relationships types 0 s.events.relationships
        (check_entities types 0 s.events.entities [])

new_entities_from : Dict EntityConfig → List EntityConfig → Dict EntityConfig
new_entities_from entities [] = entities
new_entities_from entities (e ∷ es) = new_entities_from (insert e.entity e entities) es

unfoldable pub new_entities : Schema → Dict EntityConfig
unfolding new_entities_from
new_entities s = new_entities_from [] s.entities
