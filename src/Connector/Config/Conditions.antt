-- ===== src/Connector/Config/Conditions.antt =====
-- connector/solarwindsentityconnector/config/parsed_events.go: the OTTL conditions of the events,
-- parsed when the connector is created. The parsers are of a package outside the repository.
pub mod Parsing
use solarwinds_otel_collecto.Base.{
  ◌≡◌, refl, Bool, true, false, not, ◌&&◌, List, [], ◌∷◌, ◌++◌, map, keep, Option, none, some,
  String, Dict, Result, ok, err, wrap, ◌>>=◌, if◌then◌else◌, ◌=s=◌, arith,
}
use solarwinds_otel_collecto.Connector.Config.{
  EntityConfig, EntityEvent, RelationshipEvent, Schema, new_entities,
}

-- One OTTL context: its name, its transform contexts, and condition sequences with what parses and
-- evaluates them. `none` is an error.
pub record Language : Type 1 where
  pub context_name : String
  pub TransformContext : Type 0
  pub ConditionSequence : Type 0
  pub parse_conditions : List String → Option ConditionSequence
  pub eval : ConditionSequence → TransformContext → Option Bool

pub record ParsedEvent (T : Type 0) (l : Language) : Type 0 where
  pub definition : T
  pub condition_seq : l.ConditionSequence

pub record EventsGroup (l : Language) : Type 0 where
  pub entities : List (ParsedEvent EntityEvent l)
  pub relationships : List (ParsedEvent RelationshipEvent l)

pub data ParseError : Type 0 where
  unsupported_context : String → ParseError
  failed_to_parse : List String → ParseError

unfoldable pub add_event :
    {T : Type 0} (l : Language)
    → List (ParsedEvent T l)
    → T
    → List String
    → Result ParseError (List (ParsedEvent T l))
add_event l parsed event conditions = elim (l.parse_conditions conditions) [
  | none ↦ err (failed_to_parse conditions)
  | some seq ↦ ok (parsed ++ record { definition = event; condition_seq = seq } ∷ [])
]

-- No condition is the condition "true".
abbrev default_conditions : List String → List String
default_conditions [] = "true" ∷ []
default_conditions (c ∷ cs) = c ∷ cs

module _ (metric log : Language) where
  pub record ParsedEvents : Type 0 where
    pub metric_events : EventsGroup metric
    pub log_events : EventsGroup log

  -- The two slices that `processEvent` is given pointers to are its state.
  unfoldable pub process_event :
      {T : Type 0}
      → T
      → String
      → List String
      → List (ParsedEvent T metric) × List (ParsedEvent T log)
      → Result ParseError (List (ParsedEvent T metric) × List (ParsedEvent T log))
  process_event event context conditions (metric_events, log_events) =
      let cs = default_conditions conditions in
      if context =s= metric.context_name
      then (add_event metric metric_events event cs >>= λ added. ok (added, log_events))
      else if context =s= log.context_name
      then (add_event log log_events event cs >>= λ added. ok (metric_events, added))
      else err (unsupported_context context)

  -- A loop of `createParsedEvents`, over the events of one kind.
  unfoldable pub process_all :
      {T : Type 0}
      → (T → String)
      → (T → List String)
      → List (ParsedEvent T metric) × List (ParsedEvent T log)
      → List T
      → Result ParseError (List (ParsedEvent T metric) × List (ParsedEvent T log))
  process_all context conditions parsed [] = ok parsed
  process_all context conditions parsed (event ∷ events) =
      process_event event (context event) (conditions event) parsed >>= λ added.
      process_all context conditions added events

  unfoldable pub create_parsed_events : Schema → Result ParseError ParsedEvents
  create_parsed_events s = do
    (metric_entities, log_entities) ←
        process_all (λ e. e.context) (λ e. e.conditions) ([], []) s.events.entities
    (metric_relationships, log_relationships) ←
        process_all (λ e. e.context) (λ e. e.conditions) ([], []) s.events.relationships
    ok (record {
      metric_events = record { entities = metric_entities; relationships = metric_relationships };
      log_events = record { entities = log_entities; relationships = log_relationships };
    })

  pub record ParsedSchema : Type 0 where
    pub entities : Dict EntityConfig
    pub events : ParsedEvents

  unfoldable pub unmarshal : Schema → Result ParseError ParsedSchema
  unmarshal s = do
    events ← create_parsed_events s
    ok (record { entities = new_entities s; events = events })
