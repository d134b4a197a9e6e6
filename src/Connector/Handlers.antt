-- ===== src/Connector/Handlers.antt =====
-- connector/solarwindsentityconnector/connector.go: starting the connector, and the telemetry that
-- it consumes. `ConsumeMetrics` and `ConsumeLogs` are the same code over two OTTL contexts.
pub mod Loops
pub mod Written
pub mod Outcomes
pub mod Delivery
use solarwinds_otel_collecto.Base.{
  ℕ, Bool, true, false, List, [], ◌∷◌, ◌++◌, Option, none, some, String, Dict, Result, ok, err,
  wrap, length, if◌then◌else◌, ◌=s=◌, ◌==◌, ℤ,
}
use solarwinds_otel_collecto.Connector.Pdata.{Pdata}
use solarwinds_otel_collecto.Connector.Config.{EntityConfig}
use solarwinds_otel_collecto.Connector.Config.Conditions.{Language, EventsGroup}
use solarwinds_otel_collecto.Connector.Config.Expiration.{ExpirationPolicy}
use solarwinds_otel_collecto.Connector.Attributes.{Attributes, identify_attributes}
use solarwinds_otel_collecto.Connector.Events.{
  Entity, Event, ActionError, event_update_action, event_delete_action, get_action_type, LogRecord,
  EventLog, create_event_log, update_event, delete_event,
}
use solarwinds_otel_collecto.Connector.Keys.{Marshal}
use solarwinds_otel_collecto.Connector.Detector.{DetectError, detect}
use solarwinds_otel_collecto.Connector.Storage.{
  Cache, StoredEntity, StoredRelationship, StorageError, InternalStorage, new_internal_storage,
}
use solarwinds_otel_collecto.Connector.Manager

pub data HandlerError : Type 0 where
  action_failed : ActionError → HandlerError
  storage_failed : StorageError → HandlerError
  condition_failed : DetectError → HandlerError
  not_consumed : HandlerError

-- A resource with its attributes, and the transform contexts of its records or metrics by scope.
pub record Resource (pd : Pdata) (l : Language) : Type 0 where
  pub attributes : pd.Map
  pub scopes : List (List l.TransformContext)

module _ (pd : Pdata) (marshal : Marshal pd) (ec : Cache (StoredEntity pd))
    (rc : Cache StoredRelationship) where
  abbrev pub Storage : Type 0
  Storage = InternalStorage pd marshal ec rc

  -- What a call of the connector changes: its storage, if the expiration policy is enabled, and the
  -- records of the log that it builds.
  pub record State : Type 0 where
    pub storage : Option Storage
    pub records : List (LogRecord pd)

  -- `Start`: without the policy there is no storage manager.
  unfoldable pub start : (ℤ → ℤ) → ExpirationPolicy → Result StorageError (Option Storage)
  start whole_seconds policy = elim policy.enabled [
    | false ↦ ok none
    | true ↦ elim (new_internal_storage pd marshal ec rc whole_seconds policy) [
      | err e ↦ err e
      | ok storage ↦ ok (some storage)
    ]
  ]

  -- The call of the storage manager, behind the record that is written.
  store :
      (Storage → Event pd → Storage × Option StorageError)
      → Event pd
      → List (LogRecord pd)
      → Option Storage
      → State × Option HandlerError
  store call event records none = (record { storage = none; records = records }, none)
  store call event records (some storage) =
      let (storage', failed) = call storage event in
      let s' : State = record { storage = some storage'; records = records } in
      elim failed [ none ↦ (s', none) | some e ↦ (s', some (storage_failed e)) ]

  -- `handleEvent`; `clock` gives the time of the record, by the number of records before it.
  unfoldable pub handle_event : (ℕ → ℕ) → Event pd → State → State × Option HandlerError
  unfolding store
  handle_event clock event s =
      let now = clock (length s.records) in
      elim (get_action_type event) [
        | err e ↦ (s, some (action_failed e))
        | ok action ↦
            if action =s= event_update_action
            then store (Manager.update pd marshal ec rc) event (update_event pd now event s.records)
                s.storage
            else if action =s= event_delete_action
            then store (Manager.delete pd marshal ec rc) event (delete_event pd now event s.records)
                s.storage
            else (s, none)
      ]

  -- Loops that end at the first error.
  unfoldable pub fold_until {ℓ} :
      {A : Type ℓ}
      → (A → State → State × Option HandlerError)
      → List A
      → State
      → State × Option HandlerError
  fold_until f [] s = (s, none)
  fold_until f (x ∷ xs) s =
      let (s', failed) = f x s in elim failed [ none ↦ fold_until f xs s' | some e ↦ (s', some e) ]

  -- What a call leaves behind: the storage, the log that the consumer was given, and the error.
  pub record Outcome : Type 0 where
    pub storage : Option Storage
    pub delivered : Option (EventLog pd)
    pub failed : Option HandlerError

  -- The end of a call: an error, nothing to send, or one log for the consumer, which may refuse it.
  unfoldable pub finish_call : (EventLog pd → Bool) → State × Option HandlerError → Outcome
  finish_call consume (s, some e) = record {
    storage = s.storage;
    delivered = none;
    failed = some e;
  }
  finish_call consume (s, none) =
      let log : EventLog pd = record (create_event_log pd) { log_records = s.records } in
      if length s.records == 0
      then record { storage = s.storage; delivered = none; failed = none }
      else record {
        storage = s.storage;
        delivered = some log;
        failed = if consume log then none else some not_consumed;
      }

  module _ (configs : Dict EntityConfig) (range_order : List (Entity pd) → List (Entity pd))
      (clock : ℕ → ℕ) (source_prefix dest_prefix : String) (l : Language)
      (group : EventsGroup l) where
    -- The body of the inner loop: the events of one record or metric are handled in turn.
    unfoldable pub handle_record :
        Attributes pd → l.TransformContext → State → State × Option HandlerError
    handle_record attrs tc s = elim (detect pd marshal configs range_order l group attrs tc) [
      | err e ↦ (s, some (condition_failed e))
      | ok events ↦ fold_until (handle_event clock) events s
    ]

    unfoldable pub handle_scope :
        Attributes pd → List l.TransformContext → State → State × Option HandlerError
    handle_scope attrs scope = fold_until (handle_record attrs) scope

    unfoldable pub handle_resource : Resource pd l → State → State × Option HandlerError
    handle_resource resource =
        let attrs = identify_attributes pd resource.attributes source_prefix dest_prefix in
        fold_until (handle_scope attrs) resource.scopes

    -- `ConsumeMetrics` and `ConsumeLogs`.
    unfoldable pub consume_telemetry :
        (EventLog pd → Bool) → Option Storage → List (Resource pd l) → Outcome
    consume_telemetry consume storage resources =
        finish_call consume
          (fold_until handle_resource resources (record { storage = storage; records = [] }))
