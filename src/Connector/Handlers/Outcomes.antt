-- ===== src/Connector/Handlers/Outcomes.antt =====
-- How a call ends.
use solarwinds_otel_collecto.Base.{
  ℕ, suc, false, ◌==◌, length, ◌≡◌, refl, ◌∙◌, ap, Bool, List, [], ◌∷◌, none, some, Result, ok, err,
  if◌then◌else◌, arith, All,
}
use solarwinds_otel_collecto.Connector.Pdata.{Pdata}
use solarwinds_otel_collecto.Connector.Events.{Event, LogRecord, EventLog, create_event_log}
use solarwinds_otel_collecto.Connector.Keys.{Marshal}
use solarwinds_otel_collecto.Connector.Detector.{DetectError}
use solarwinds_otel_collecto.Connector.Detector.Actions.{HasAction}
use solarwinds_otel_collecto.Connector.Storage.{Cache, StoredEntity, StoredRelationship}
use solarwinds_otel_collecto.Connector.Handlers.{
  not_consumed, condition_failed, Outcome, finish_call,
}
use solarwinds_otel_collecto.Connector.Handlers.Written.{
  written, written-recorded, recorded, state_of,
}

module _ (pd : Pdata) (marshal : Marshal pd) (ec : Cache (StoredEntity pd))
    (rc : Cache StoredRelationship) where
  -- What a call leaves behind, without the expiration policy, if the detection gives events or fails.
  unfoldable pub expected_outcome :
      (EventLog pd → Bool)
      → (ℕ → ℕ)
      → Result DetectError (List (Event pd))
      → Outcome pd marshal ec rc
  expected_outcome consume clock (err e) = record {
    storage = none;
    delivered = none;
    failed = some (condition_failed e);
  }
  expected_outcome consume clock (ok []) = record {
    storage = none;
    delivered = none;
    failed = none;
  }
  expected_outcome consume clock (ok (event ∷ events)) =
      let log : EventLog pd = record (create_event_log pd) {
        log_records = recorded pd marshal ec rc clock 0 (event ∷ events);
      } in
      record {
        storage = none;
        delivered = some log;
        failed = if consume log then none else some not_consumed;
      }

  pub finish_call-failed :
      (consume : EventLog pd → Bool) (clock : ℕ → ℕ) (rs : List (LogRecord pd)) (e : DetectError)
      → finish_call pd marshal ec rc consume
          (state_of pd marshal ec rc rs, some (condition_failed e))
        ≡ expected_outcome consume clock (err e)
  unfolding finish_call expected_outcome
  finish_call-failed consume clock rs e = refl

  suc_not_zero : (n : ℕ) → (suc n == 0) ≡ false
  suc_not_zero n = ground arith

  finish_call-some :
      (consume : EventLog pd → Bool) (rs : List (LogRecord pd)) (r : LogRecord pd)
      → finish_call pd marshal ec rc consume (state_of pd marshal ec rc (r ∷ rs), none) ≡ (
          let log : EventLog pd = record (create_event_log pd) { log_records = r ∷ rs } in
          record {
            storage = none;
            delivered = some log;
            failed = if consume log then none else some not_consumed;
          })
  unfolding finish_call
  finish_call-some consume rs r =
      let log : EventLog pd = record (create_event_log pd) { log_records = r ∷ rs } in
      let sent : Outcome pd marshal ec rc = record {
        storage = none;
        delivered = some log;
        failed = if consume log then none else some not_consumed;
      } in
      let nothing : Outcome pd marshal ec rc = record {
        storage = none;
        delivered = none;
        failed = none;
      } in
      ap (λ b. if b then nothing else sent) (suc_not_zero (length rs))

  pub finish_call-written :
      (consume : EventLog pd → Bool) (clock : ℕ → ℕ) (events : List (Event pd))
      → All HasAction events
      → finish_call pd marshal ec rc consume
          (state_of pd marshal ec rc (written pd marshal ec rc clock events []), none)
        ≡ expected_outcome consume clock (ok events)
  unfolding finish_call expected_outcome recorded
  finish_call-written consume clock [] h =
      ap (λ rs. finish_call pd marshal ec rc consume (state_of pd marshal ec rc rs, none))
        (written-recorded pd marshal ec rc clock [] [] h)
  finish_call-written consume clock (event ∷ events) h =
      ap (λ rs. finish_call pd marshal ec rc consume (state_of pd marshal ec rc rs, none))
        (written-recorded pd marshal ec rc clock (event ∷ events) [] h)
      ∙ finish_call-some consume (recorded pd marshal ec rc clock 1 events) _
