-- ===== src/Connector/Manager.antt =====
-- connector/solarwindsentityconnector/internal/storage/storage_manager.go and
-- internal/event_consumer.go: the storage manager, and the goroutine that batches what expires.
pub mod Batches
use solarwinds_otel_collecto.Base.{
  ℕ, ◌<◌, ◌≡◌, Bool, true, false, List, [], ◌∷◌, ◌++◌, Option, none, some, Result, ok, err, ltb,
  length, if◌then◌else◌,
}
use solarwinds_otel_collecto.Connector.Pdata.{Pdata}
use solarwinds_otel_collecto.Connector.Events.{
  Entity, Relationship, Event, entity, entity_pointer, relationship, relationship_pointer,
  LogRecord, EventLog, create_event_log, delete_event,
}
use solarwinds_otel_collecto.Connector.Keys.{Marshal}
use solarwinds_otel_collecto.Connector.Storage.{
  Cache, StoredEntity, StoredRelationship, StorageError, InternalStorage,
}
use solarwinds_otel_collecto.Connector.Storage

module _ (pd : Pdata) (marshal : Marshal pd) (ec : Cache (StoredEntity pd))
    (rc : Cache StoredRelationship) where
  -- `Manager.Update` and `Manager.Delete`: only a pointer to a relationship is stored.
  unfoldable pub update :
      InternalStorage pd marshal ec rc
      → Event pd
      → InternalStorage pd marshal ec rc × Option StorageError
  update cache (relationship_pointer r) = Storage.update pd marshal ec rc cache r
  update cache _ = (cache, none)

  unfoldable pub delete :
      InternalStorage pd marshal ec rc
      → Event pd
      → InternalStorage pd marshal ec rc × Option StorageError
  delete cache (relationship_pointer r) = Storage.delete pd marshal ec rc cache r
  delete cache _ = (cache, none)

-- The panic of `SendExpiredEvents`.
pub data Panic : Type 0 where
  failed_to_consume : Panic

-- The state of `receiveExpired`: the slice `batch`, which may be nil, whether `timerC` is set,
-- whether the loop has returned and closed its channel, and what the logs consumer was sent.
pub record Receiver (pd : Pdata) : Type 0 where
  pub batch : Option (List (Event pd))
  pub timer : Bool
  pub stopped : Bool
  pub sent : List (EventLog pd)

module _ (pd : Pdata) where
  delete_all : ℕ → List (Event pd) → List (LogRecord pd) → List (LogRecord pd)
  delete_all now [] records = records
  delete_all now (e ∷ es) records = delete_all now es (delete_event pd now e records)

  -- The log that `SendExpiredEvents` builds: a delete record for each event.
  unfoldable pub expired_log : ℕ → List (Event pd) → EventLog pd
  unfolding delete_all
  expired_log now events = record (create_event_log pd) {
    log_records = delete_all now events (create_event_log pd).log_records;
  }

  unfoldable pub start : Receiver pd
  start = record { batch = none; timer = false; stopped = false; sent = [] }

  -- `case <-ctx.Done()`: the pending batch is not sent.
  unfoldable pub on_done : Receiver pd → Receiver pd
  on_done s = record s { stopped = true }

  -- `case rel := <-m.expiredCh`: the first event of a batch starts the timer.
  unfoldable pub on_expired : Event pd → Receiver pd → Receiver pd
  on_expired event s = elim s.batch [
    | none ↦ record s { batch = some (event ∷ []); timer = true }
    | some batch ↦ record s { batch = some (batch ++ event ∷ []) }
  ]

  abbrev pub pending : Option (List (Event pd)) → List (Event pd)
  pending none = []
  pending (some batch) = batch

  -- `case <-timerC`; `consume` says whether the consumer accepts a log.
  unfoldable pub on_timer : (EventLog pd → Bool) → ℕ → Receiver pd → Result Panic (Receiver pd)
  on_timer consume now s =
      let log = expired_log now (pending s.batch) in
      if ltb 0 (length (pending s.batch))
      then if consume log
        then ok (record s { batch = none; timer = false; sent = s.sent ++ log ∷ [] })
        else err failed_to_consume
      else ok s

  -- The rounds of the `select` loop, with the events that were received so far. The timer can fire
  -- only while its channel is set, and nothing follows the end of the loop.
  pub data Run (consume : EventLog pd → Bool) : List (Event pd) → Receiver pd → Type 0 where
    begin : Run consume [] start
    expire :
        (event : Event pd) {received : List (Event pd)} {s : Receiver pd}
        → Run consume received s
        → s.stopped ≡ false
        → Run consume (received ++ event ∷ []) (on_expired event s)
    fire :
        (now : ℕ) {received : List (Event pd)} {s t : Receiver pd}
        → Run consume received s
        → s.stopped ≡ false
        → s.timer ≡ true
        → on_timer consume now s ≡ ok t
        → Run consume received t
    finish :
        {received : List (Event pd)} {s : Receiver pd}
        → Run consume received s
        → s.stopped ≡ false
        → Run consume received (on_done s)
