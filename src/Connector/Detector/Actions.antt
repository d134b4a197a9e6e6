-- ===== src/Connector/Detector/Actions.antt =====
-- The detected events: their keys and their actions.
use mathlib.Core.List.{Permᴰ}
use solarwinds_otel_collecto.Base.{
  All-Memᴰ, ◌≡◌, sym, ◌∙◌, ap, subst, List, [], ◌∷◌, map, none, String, Dict, insert, values, ok,
  ◌=s=◌, arith, Result-cases, Bool-cases, inl, inr, All, All-imp, All-map, All-append, eq_iff,
  error_of,
}
use solarwinds_otel_collecto.Connector.Pdata.{Pdata}
use solarwinds_otel_collecto.Connector.Config.{EntityConfig, EntityEvent, RelationshipEvent}
use solarwinds_otel_collecto.Connector.Attributes.{Attributes}
use solarwinds_otel_collecto.Connector.Events.{
  Entity, Relationship, Event, entity, relationship_pointer, get_action_string, get_action_type,
  event_update_action, event_delete_action,
}
use solarwinds_otel_collecto.Connector.Keys.{Marshal, build_entity_key}
use solarwinds_otel_collecto.Connector.Mapper.{get_entity, get_relationship_entities}
use solarwinds_otel_collecto.Connector.Detector.{
  create_relationship, detect_relationship, get_relationship_events, detect_entity,
  entity_events_from, get_entity_events, validate_entity_events, collect_events,
}
use solarwinds_otel_collecto.Connector.Detector.Inferred.{
  IsInferred, validate_entity_events-IsInferred,
}

-- The action of an event is one that `handleEvent` acts on.
abbrev pub IsAction : String → Type 0
IsAction action = get_action_string action ≡ ok action

abbrev pub HasAction : {pd : Pdata} → Event pd → Type 0
HasAction event = error_of (get_action_type event) ≡ none

get_action_string-IsAction :
    (input action : String) → get_action_string input ≡ ok action → IsAction action
unfolding get_action_string
get_action_string-IsAction input action h = ground (
  arith,
  eq_iff input event_update_action,
  eq_iff input event_delete_action,
  eq_iff event_delete_action event_update_action,
)

All-Permᴰ : {A : Type 0} (P : A → Type 0) {xs ys : List A} → Permᴰ xs ys → All P ys → All P xs
All-Permᴰ P Permᴰ.nil h = h
All-Permᴰ P (Permᴰ.cons e p) h = (subst P (sym e) h.0, All-Permᴰ P p h.1)
All-Permᴰ P (Permᴰ.swap e f) h = (subst P (sym e) h.1.0, (subst P (sym f) h.0, h.1.1))
All-Permᴰ P (Permᴰ.trans p q) h = All-Permᴰ P p (All-Permᴰ P q h)

module _ (pd : Pdata) (configs : Dict EntityConfig) (attrs : Attributes pd) where
  create_relationship-IsAction :
      (event : RelationshipEvent) (source dest : Entity pd) (r : Relationship pd)
      → create_relationship pd event source dest attrs ≡ ok r
      → IsAction r.action
  unfolding create_relationship
  create_relationship-IsAction event source dest r h =
      elim (Result-cases (get_action_string event.action)) [
        | inl (action, valid) ↦
            get_action_string-IsAction event.action r.action (valid ∙ ap ok (ground arith))
        | inr (e, failed) ↦ absurd (ground arith)
      ]

  detect_relationship-IsAction :
      (event : RelationshipEvent)
      → All (λ r. IsAction r.action) (detect_relationship pd configs attrs event)
  unfolding detect_relationship
  detect_relationship-IsAction event =
      elim (Result-cases
        (get_relationship_entities pd configs event.source event.destination attrs)) [
          | inr (e, failed) ↦ rw (failed, detect_relationship) tt
          | inl ((source, dest), found) ↦
              elim (Result-cases (create_relationship pd event source dest attrs)) [
                | inr (e, failed) ↦ rw (found, failed, detect_relationship) tt
                | inl (r, made) ↦
                    rw (found, made, detect_relationship)
                      (create_relationship-IsAction event source dest r made, tt)
              ]
        ]

  get_relationship_events-IsAction :
      (events : List RelationshipEvent)
      → All (λ r. IsAction r.action) (get_relationship_events pd configs attrs events)
  unfolding get_relationship_events
  get_relationship_events-IsAction [] = tt
  get_relationship_events-IsAction (event ∷ events) =
      All-append _ (detect_relationship pd configs attrs event) _
        (detect_relationship-IsAction event) (get_relationship_events-IsAction events)

  module _ (marshal : Marshal pd) where
    -- An entry of `getEntityEvents`: an entity under its key.
    abbrev pub IsKeyed : String × Entity pd → Type 0
    IsKeyed (hash, e) = (build_entity_key pd marshal e ≡ ok hash) × IsAction e.action

    All-insert :
        (P : String × Entity pd → Type 0) (k : String) (e : Entity pd) (m : Dict (Entity pd))
        → P (k, e)
        → All P m
        → All P (insert k e m)
    unfolding insert
    All-insert P k e [] p h = (p, tt)
    All-insert P k e ((j, w) ∷ m) p h = elim (Bool-cases (j =s= k)) [
      | inl t ↦ rw t (p, h.1)
      | inr t ↦ rw t (h.0, All-insert P k e m p h.1)
    ]

    detect_entity-IsKeyed :
        (detected : Dict (Entity pd)) (event : EntityEvent)
        → IsAction event.action
        → All IsKeyed detected
        → All IsKeyed (detect_entity pd marshal configs attrs detected event)
    unfolding detect_entity
    detect_entity-IsKeyed detected event action all =
        elim (Result-cases (get_entity pd configs event.entity attrs)) [
          | inr (e, failed) ↦ rw (failed, detect_entity) all
          | inl (found, mapped) ↦ elim (Result-cases (build_entity_key pd marshal found)) [
            | inr (e, failed) ↦ rw (mapped, failed, detect_entity) all
            | inl (hash, keyed) ↦
                rw (mapped, keyed, detect_entity)
                  (All-insert IsKeyed hash (record found { action = event.action }) detected
                    ((unfold build_entity_key in keyed), action) all)
          ]
        ]

    entity_events_from-IsKeyed :
        (detected : Dict (Entity pd)) (events : List EntityEvent)
        → All (λ e. IsAction e.action) events
        → All IsKeyed detected
        → All IsKeyed (entity_events_from pd marshal configs attrs detected events)
    unfolding entity_events_from
    entity_events_from-IsKeyed detected [] h all = all
    entity_events_from-IsKeyed detected (event ∷ events) h all =
        entity_events_from-IsKeyed (detect_entity pd marshal configs attrs detected event) events
          h.1 (detect_entity-IsKeyed detected event h.0 all)

    -- The entities of entity events are stored under their own keys, each with the action of a
    -- configured event.
    pub get_entity_events-IsKeyed :
        (events : List EntityEvent)
        → All (λ e. IsAction e.action) events
        → All IsKeyed (get_entity_events pd marshal configs attrs events)
    unfolding get_entity_events
    get_entity_events-IsKeyed events h = entity_events_from-IsKeyed [] events h tt

    entity-HasAction : (e : Entity pd) → IsAction e.action → HasAction (entity e)
    unfolding get_action_type
    entity-HasAction e h = rw h

    relationship-HasAction :
        (r : Relationship pd) → IsAction r.action → HasAction (relationship_pointer r)
    unfolding get_action_type
    relationship-HasAction r h = rw h

    IsInferred-HasAction :
        {valid : List EntityEvent} {existing : Dict (Entity pd)} (event : Event pd)
        → All (λ e. IsAction e.action) valid
        → IsInferred pd marshal valid existing event
        → HasAction event
    IsInferred-HasAction {valid} event h i =
        let action = All-Memᴰ (λ e. IsAction e.action) valid h i.is_configured in
        let same : IsAction i.found.action = rw (i.same_action) action in
        rw (i.is_entity) (entity-HasAction i.found same)

    -- Whatever the order in which the map of entities is walked, every detected event has an action
    -- that the connector acts on, if the actions of the entity events are valid; relationship events
    -- with another action are left out.
    pub collect_events-HasAction :
        (range_order : List (Entity pd) → List (Entity pd)) (events : List EntityEvent)
        (relationships : List RelationshipEvent)
        → ((es : List (Entity pd)) → Permᴰ (range_order es) es)
        → All (λ e. IsAction e.action) events
        → All HasAction (collect_events pd marshal configs range_order attrs events relationships)
    unfolding collect_events
    collect_events-HasAction range_order events relationships order h =
        All-append HasAction (map entity (range_order (values detected))) _ entities
          (All-append HasAction (map relationship_pointer found) _ found_act inferred)
      where
        detected : Dict (Entity pd)
        detected = get_entity_events pd marshal configs attrs events

        found : List (Relationship pd)
        found = get_relationship_events pd configs attrs relationships

        act : All (λ (e : Entity pd). HasAction (entity e)) (values detected)
        act =
            All-map _ (λ (entry : String × Entity pd). entry.1) detected
              (All-imp (λ entry keyed. entity-HasAction entry.1 keyed.1) detected
                (get_entity_events-IsKeyed events h))

        entities : All HasAction (map entity (range_order (values detected)))
        entities = All-map HasAction entity _ (All-Permᴰ (λ e. HasAction (entity e)) (order _) act)

        found_act : All HasAction (map relationship_pointer found)
        found_act =
            All-map HasAction relationship_pointer found (
              All-imp relationship-HasAction found (get_relationship_events-IsAction relationships))

        inferred : All HasAction (validate_entity_events pd marshal events detected found)
        inferred =
            All-imp (λ event i. IsInferred-HasAction event h i) _
              (validate_entity_events-IsInferred pd marshal events detected found)
