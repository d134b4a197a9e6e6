-- ===== src/Connector/Handlers/Delivery.antt =====
-- What a call of the connector sends on.
use mathlib.Core.List.{Permᴰ}
use solarwinds_otel_collecto.Base.{
  ℕ, ◌≡◌, refl, sym, ◌∙◌, ap, Bool, List, [], ◌∷◌, ◌++◌, map, Option, none, some, String, Dict,
  Result, ok, err, ok_inj, err_inj, subst, All-append, ◌>>=◌, arith, All, append-All, Result-cases,
  inl, inr,
}
use solarwinds_otel_collecto.Connector.Pdata.{Pdata}
use solarwinds_otel_collecto.Connector.Config.{EntityConfig}
use solarwinds_otel_collecto.Connector.Config.Conditions.{Language, EventsGroup}
use solarwinds_otel_collecto.Connector.Attributes.{Attributes, identify_attributes}
use solarwinds_otel_collecto.Connector.Events.{Entity, Event, LogRecord, EventLog}
use solarwinds_otel_collecto.Connector.Keys.{Marshal}
use solarwinds_otel_collecto.Connector.Detector.{
  DetectError, detect, process_events, collect_events,
}
use solarwinds_otel_collecto.Connector.Detector.Actions.{
  HasAction, IsAction, collect_events-HasAction,
}
use solarwinds_otel_collecto.Connector.Detector.Conditions.{process_events-All}
use solarwinds_otel_collecto.Connector.Storage.{Cache, StoredEntity, StoredRelationship}
use solarwinds_otel_collecto.Connector.Handlers.{
  condition_failed, Resource, Storage, State, fold_until, finish_call, handle_record, handle_scope,
  handle_resource, consume_telemetry,
}
use solarwinds_otel_collecto.Connector.Handlers.Loops.{
  flat, Run, and_then, fold_until-flat, fold_until-map,
}
use solarwinds_otel_collecto.Connector.Handlers.Written.{
  written, state_of, fold_until-written, written-append,
}
use solarwinds_otel_collecto.Connector.Handlers.Outcomes.{
  finish_call-failed, finish_call-written, expected_outcome,
}

module _ (pd : Pdata) (marshal : Marshal pd) (ec : Cache (StoredEntity pd))
    (rc : Cache StoredRelationship) where
  module _ (configs : Dict EntityConfig) (range_order : List (Entity pd) → List (Entity pd))
      (clock : ℕ → ℕ) (source_prefix dest_prefix : String) (l : Language)
      (group : EventsGroup l) where
    abbrev pub Item : Type 0
    Item = Attributes pd × l.TransformContext

    -- The records of a resource, scope by scope, each with the attributes of the resource.
    abbrev pub items_of : Resource pd l → List Item
    items_of r =
        let attrs = identify_attributes pd r.attributes source_prefix dest_prefix in
        flat (map (λ tc. (attrs, tc))) r.scopes

    abbrev pub handle_item : Item → State pd marshal ec rc → (Run pd marshal ec rc)
    handle_item item =
        handle_record pd marshal ec rc configs range_order clock source_prefix dest_prefix l group
          item.0 item.1

    handle_resource-items :
        (r : Resource pd l) (s : State pd marshal ec rc)
        → handle_resource pd marshal ec rc configs range_order clock source_prefix dest_prefix l
            group r s
          ≡ fold_until pd marshal ec rc handle_item (items_of r) s
    unfolding handle_resource handle_scope
    handle_resource-items r s =
        let attrs = identify_attributes pd r.attributes source_prefix dest_prefix in
        fold_until-flat pd marshal ec rc handle_item (map (λ tc. (attrs, tc))) _ r.scopes s
          (λ scope t. fold_until-map pd marshal ec rc handle_item (λ tc. (attrs, tc)) scope t)

    -- The three nested loops of a call are one loop over the records of all resources, in order,
    -- which ends at the first error.
    consume_telemetry-items :
        (consume : EventLog pd → Bool) (storage : Option (Storage pd marshal ec rc))
        (resources : List (Resource pd l))
        → consume_telemetry pd marshal ec rc configs range_order clock source_prefix dest_prefix l
            group consume storage resources
          ≡ finish_call pd marshal ec rc consume (
              fold_until pd marshal ec rc handle_item
                (flat items_of resources)
                (record { storage = storage; records = [] }))
    unfolding consume_telemetry
    consume_telemetry-items consume storage resources =
        ap (finish_call pd marshal ec rc consume) (
          fold_until-flat pd marshal ec rc handle_item items_of _ resources _ handle_resource-items)

    -- The events of all records, or the first error of a condition.
    unfoldable pub detect_all : List Item → Result DetectError (List (Event pd))
    detect_all [] = ok []
    detect_all (item ∷ items) =
        detect pd marshal configs range_order l group item.0 item.1
        >>= λ (events : List (Event pd)).
            detect_all items >>= λ (rest : List (Event pd)). ok (events ++ rest)

    handle_item-failed :
        (item : Item) (e : DetectError) (records : List (LogRecord pd))
        → detect pd marshal configs range_order l group item.0 item.1 ≡ err e
        → handle_item item (state_of pd marshal ec rc records)
          ≡ (state_of pd marshal ec rc records, some (condition_failed e))
    unfolding handle_record
    handle_item-failed item e records h = rw (h, handle_record) refl

    handle_item-written :
        (item : Item) (events : List (Event pd)) (records : List (LogRecord pd))
        → detect pd marshal configs range_order l group item.0 item.1 ≡ ok events
        → All HasAction events
        → handle_item item (state_of pd marshal ec rc records)
          ≡ (state_of pd marshal ec rc (written pd marshal ec rc clock events records), none)
    unfolding handle_record
    handle_item-written item events records d h =
        rw (d, handle_record) (fold_until-written pd marshal ec rc clock events records h)

    handle_items-written :
        (items : List Item) (events : List (Event pd)) (records : List (LogRecord pd))
        → detect_all items ≡ ok events
        → All HasAction events
        → fold_until pd marshal ec rc handle_item items (state_of pd marshal ec rc records)
          ≡ (state_of pd marshal ec rc (written pd marshal ec rc clock events records), none)
    unfolding detect_all fold_until written
    handle_items-written [] events records d h =
        ap (λ es. (state_of pd marshal ec rc (written pd marshal ec rc clock es records), none))
          (ok_inj d)
    handle_items-written (item ∷ items) events records d h =
        elim (Result-cases (detect pd marshal configs range_order l group item.0 item.1)) [
          | inr (e, failed) ↦ absurd (ground arith)
          | inl (found, now) ↦ elim (Result-cases (detect_all items)) [
            | inr (e, failed) ↦ absurd (ground arith)
            | inl (rest, later) ↦
                let same : events ≡ found ++ rest = ground arith in
                let (first, second) = append-All HasAction found rest (rw same at h) in
                ap
                  (λ r. and_then pd marshal ec rc r (fold_until pd marshal ec rc handle_item items))
                  (handle_item-written item found records now first)
                ∙ handle_items-written items rest (written pd marshal ec rc clock found records)
                    later second
                ∙ ap (λ rs. (state_of pd marshal ec rc rs, none))
                    (sym (written-append pd marshal ec rc clock found rest records)
                      ∙ ap (λ es. written pd marshal ec rc clock es records) (sym same))
          ]
        ]

    -- The permutation of the map and the actions of the configured entity events.
    module _ (order : (es : List (Entity pd)) → Permᴰ (range_order es) es)
        (actions : All (λ e. IsAction e.definition.action) group.entities) where
      detect-HasAction :
          (attrs : Attributes pd) (tc : l.TransformContext) (events : List (Event pd))
          → detect pd marshal configs range_order l group attrs tc ≡ ok events
          → All HasAction events
      unfolding detect
      detect-HasAction attrs tc events h = elim (Result-cases (process_events l tc group)) [
        | inr (e, failed) ↦ absurd (ground arith)
        | inl (chosen, found) ↦
            let same : collect_events pd marshal configs range_order attrs chosen.0 chosen.1
                ≡ events =
              ok_inj (rw (found, detect) at h) in
            subst (All HasAction) same (
              collect_events-HasAction pd configs attrs marshal range_order chosen.0 chosen.1 order
                (process_events-All l tc IsAction group chosen actions found))
      ]

      -- The loop over the records with a condition that fails ends with its error.
      handle_items-failed :
          (items : List Item) (e : DetectError) (records : List (LogRecord pd))
          → detect_all items ≡ err e
          → (rs : List (LogRecord pd)) × (fold_until pd marshal ec rc handle_item items
                (state_of pd marshal ec rc records)
              ≡ (state_of pd marshal ec rc rs, some (condition_failed e)))
      unfolding detect_all fold_until handle_record
      handle_items-failed [] e records d = absurd (ground arith)
      handle_items-failed (item ∷ items) e records d =
          elim (Result-cases (detect pd marshal configs range_order l group item.0 item.1)) [
            | inr (f, failed) ↦
                let same : f ≡ e = err_inj (rw (failed, detect_all) at d) in
                (
                  records,
                  ap
                        (λ r.
                          and_then pd marshal ec rc r
                            (fold_until pd marshal ec rc handle_item items))
                        (handle_item-failed item f records failed)
                      ∙ ap (λ x. (state_of pd marshal ec rc records, some (condition_failed x)))
                          same,
                )
            | inl (found, now) ↦ elim (Result-cases (detect_all items)) [
              | inl (rest, later) ↦ absurd (ground arith)
              | inr (f, failed) ↦
                  let same : f ≡ e = err_inj (rw (now, failed, detect_all) at d) in
                  let (rs, ended) =
                    handle_items-failed items e (written pd marshal ec rc clock found records)
                      (failed ∙ ap err same) in
                  (
                    rs,
                    ap
                          (λ r.
                            and_then pd marshal ec rc r
                              (fold_until pd marshal ec rc handle_item items))
                          (handle_item-written item found records now
                            (detect-HasAction item.0 item.1 found now))
                        ∙ ended,
                  )
            ]
          ]

      detect_all-HasAction :
          (items : List Item) (events : List (Event pd))
          → detect_all items ≡ ok events
          → All HasAction events
      unfolding detect_all
      detect_all-HasAction [] events d = subst (All HasAction) (ok_inj d) tt
      detect_all-HasAction (item ∷ items) events d =
          elim (Result-cases (detect pd marshal configs range_order l group item.0 item.1)) [
            | inr (f, failed) ↦ absurd (ground arith)
            | inl (found, now) ↦ elim (Result-cases (detect_all items)) [
              | inr (f, failed) ↦ absurd (ground arith)
              | inl (rest, later) ↦
                  let same : found ++ rest ≡ events = ground arith in
                  subst (All HasAction) same (
                    All-append HasAction found rest (detect-HasAction item.0 item.1 found now)
                      (detect_all-HasAction items rest later))
            ]
          ]

      -- Without the expiration policy, whatever the order in which the map of entities is walked, if
      -- the entity events of the configuration have valid actions: the records of all resources are
      -- taken in order, each with the attributes of its resource. If a condition fails at one of them,
      -- the call fails with the error of the first such record and delivers nothing. Else, if no event
      -- is detected, nothing is delivered; and if there are events, the consumer is given one log, with
      -- one record for each event, in the order of detection, with the attributes that its kind and
      -- its action ask for, and the call fails exactly if the consumer refuses the log.
      pub consume_telemetry-written :
          (consume : EventLog pd → Bool) (resources : List (Resource pd l))
          → consume_telemetry pd marshal ec rc configs range_order clock source_prefix dest_prefix l
              group consume none resources
            ≡ expected_outcome pd marshal ec rc consume clock (detect_all (flat items_of resources))
      unfolding expected_outcome
      consume_telemetry-written consume resources =
          elim (Result-cases (detect_all (flat items_of resources))) [
            | inl (events, d) ↦
                let h = detect_all-HasAction (flat items_of resources) events d in
                consume_telemetry-items consume none resources
                ∙ ap (finish_call pd marshal ec rc consume)
                    (handle_items-written (flat items_of resources) events [] d h)
                ∙ finish_call-written pd marshal ec rc consume clock events h
                ∙ ap (expected_outcome pd marshal ec rc consume clock) (sym d)
            | inr (e, d) ↦
                let (rs, ended) = handle_items-failed (flat items_of resources) e [] d in
                consume_telemetry-items consume none resources
                ∙ ap (finish_call pd marshal ec rc consume) ended
                ∙ finish_call-failed pd marshal ec rc consume clock rs e
                ∙ ap (expected_outcome pd marshal ec rc consume clock) (sym d)
          ]
