-- ===== src/Connector/Detector.antt =====
-- connector/solarwindsentityconnector/internal/event_detector.go: the events of one log record or
-- metric. Debug logs are left out.
pub mod Conditions
pub mod Inferred
pub mod Actions
use solarwinds_otel_collecto.Base.{
  Bool, true, false, List, [], ◌∷◌, ◌++◌, map, Option, none, some, String, Dict, has, insert,
  values, Result, ok, err, ◌>>=◌, if◌then◌else◌, ◌=s=◌, wrap,
}
use solarwinds_otel_collecto.Connector.Pdata.{Pdata}
use solarwinds_otel_collecto.Connector.Config.{EntityConfig, EntityEvent, RelationshipEvent}
use solarwinds_otel_collecto.Connector.Config.Conditions.{Language, ParsedEvent, EventsGroup}
use solarwinds_otel_collecto.Connector.Attributes.{Attributes, get_optional_attributes}
use solarwinds_otel_collecto.Connector.Events.{
  Entity, Relationship, Event, entity, relationship_pointer, ActionError, get_action_string,
}
use solarwinds_otel_collecto.Connector.Keys.{Marshal, KeyError, build_entity_key}
use solarwinds_otel_collecto.Connector.Mapper.{get_entity, get_relationship_entities}

pub data DetectError : Type 0 where
  condition_failed : DetectError

module _ (l : Language) (tc : l.TransformContext) where
  -- A loop of `processEvents`: the definitions whose condition holds, behind those found so far.
  unfoldable pub select_from :
      {T : Type 0} → List T → List (ParsedEvent T l) → Result DetectError (List T)
  select_from found [] = ok found
  select_from found (event ∷ events) = elim (l.eval event.condition_seq tc) [
    | none ↦ err condition_failed
    | some true ↦ select_from (found ++ event.definition ∷ []) events
    | some false ↦ select_from found events
  ]

  unfoldable pub process_events :
      EventsGroup l → Result DetectError (List EntityEvent × List RelationshipEvent)
  process_events events = select_from [] events.entities >>= λ entity_events.
      select_from [] events.relationships >>= λ relationship_events.
      ok (entity_events, relationship_events)

module _ (pd : Pdata) where
  unfoldable pub create_relationship :
      RelationshipEvent
      → Entity pd
      → Entity pd
      → Attributes pd
      → Result ActionError (Relationship pd)
  create_relationship event source dest attrs = get_action_string event.action >>= λ action.
      ok (record {
        action = action;
        type = event.type;
        source = source;
        destination = dest;
        attributes = get_optional_attributes pd event.attributes (attrs.common ∷ []);
      })

  module _ (configs : Dict EntityConfig) (attrs : Attributes pd) where
    -- One round of `getRelationshipEvents`; an error leaves the event out.
    unfoldable pub detect_relationship : RelationshipEvent → List (Relationship pd)
    detect_relationship event =
        elim (get_relationship_entities pd configs event.source event.destination attrs) [
          | err _ ↦ []
          | ok (source, dest) ↦ elim (create_relationship event source dest attrs) [
            | err _ ↦ []
            | ok relationship ↦ relationship ∷ []
          ]
        ]

    unfoldable pub get_relationship_events : List RelationshipEvent → List (Relationship pd)
    get_relationship_events [] = []
    get_relationship_events (event ∷ events) =
        detect_relationship event ++ get_relationship_events events

  module _ (marshal : Marshal pd) where
    module _ (configs : Dict EntityConfig) (attrs : Attributes pd) where
      -- One round of `getEntityEvents`: the entity is stored under its key, with the action of the
      -- configured event.
      unfoldable pub detect_entity : Dict (Entity pd) → EntityEvent → Dict (Entity pd)
      detect_entity detected event = elim (get_entity pd configs event.entity attrs) [
        | err _ ↦ detected
        | ok found ↦ elim (build_entity_key pd marshal found) [
          | err _ ↦ detected
          | ok hash ↦ insert hash (record found { action = event.action }) detected
        ]
      ]

      unfoldable pub entity_events_from : Dict (Entity pd) → List EntityEvent → Dict (Entity pd)
      entity_events_from detected [] = detected
      entity_events_from detected (event ∷ events) =
          entity_events_from (detect_entity detected event) events

      unfoldable pub get_entity_events : List EntityEvent → Dict (Entity pd)
      get_entity_events events = entity_events_from [] events

    -- The loop over the configured events of `validateRelationshipEntity`.
    unfoldable pub infer : Entity pd → List EntityEvent → Option (Entity pd)
    infer e [] = none
    infer e (event ∷ events) =
        if event.entity =s= e.type
        then some (record e { action = event.action })
        else infer e events

    unfoldable pub validate_relationship_entity :
        Entity pd → List EntityEvent → Dict (Entity pd) → Result KeyError (Option (Entity pd))
    validate_relationship_entity e valid_events existing = build_entity_key pd marshal e >>= λ hash.
        ok (if has hash existing then none else infer e valid_events)

    abbrev pub append_entity : Option (Entity pd) → List (Event pd) → List (Event pd)
    append_entity none events = events
    append_entity (some e) events = events ++ entity e ∷ []

    -- One round of `validateEntityEvents`: an error at the source passes over the destination.
    unfoldable pub validate_ends :
        List EntityEvent → Dict (Entity pd) → Relationship pd → List (Event pd) → List (Event pd)
    validate_ends valid_events existing r events =
        elim (validate_relationship_entity r.source valid_events existing) [
          | err _ ↦ events
          | ok source ↦ elim (validate_relationship_entity r.destination valid_events existing) [
            | err _ ↦ append_entity source events
            | ok dest ↦ append_entity dest (append_entity source events)
          ]
        ]

    unfoldable pub validate_from :
        List EntityEvent
        → Dict (Entity pd)
        → List (Event pd)
        → List (Relationship pd)
        → List (Event pd)
    validate_from valid_events existing events [] = events
    validate_from valid_events existing events (r ∷ rs) =
        validate_from valid_events existing (validate_ends valid_events existing r events) rs

    unfoldable pub validate_entity_events :
        List EntityEvent → Dict (Entity pd) → List (Relationship pd) → List (Event pd)
    validate_entity_events valid_events existing rs = validate_from valid_events existing [] rs

    -- Go ranges over a map in an order of its own: `range_order` is what it makes of the values.
    module _ (configs : Dict EntityConfig) (range_order : List (Entity pd) → List (Entity pd)) where
      unfoldable pub collect_events :
          Attributes pd → List EntityEvent → List RelationshipEvent → List (Event pd)
      collect_events attrs events relationships =
          let entity_events = get_entity_events configs attrs events in
          let relationship_events = get_relationship_events configs attrs relationships in
          let inferred = validate_entity_events events entity_events relationship_events in
          map entity (range_order (values entity_events))
          ++ (map relationship_pointer relationship_events ++ inferred)

      unfoldable pub detect :
          (l : Language)
          → EventsGroup l
          → Attributes pd
          → l.TransformContext
          → Result DetectError (List (Event pd))
      detect l events attrs tc =
          process_events l tc events >>= λ (selected : List EntityEvent × List RelationshipEvent).
          ok (collect_events attrs selected.0 selected.1)
