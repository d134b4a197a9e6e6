-- ===== src/Connector/Handlers/Written.antt =====
-- The records that events are written as.
use solarwinds_otel_collecto.Base.{
  ℕ, ◌≡◌, refl, ◌∙◌, ap, List, [], ◌∷◌, ◌++◌, none, String, ok, err, length, if◌then◌else◌, ◌=s=◌,
  arith, All, Result-cases, inl, inr, ◌⊎◌,
}
use mathlib.Core.List.{append-nil, append_assoc}
use solarwinds_otel_collecto.Base.{suc, sym, length-append, Bool-cases, Bool, true, false, error_of}
use solarwinds_otel_collecto.Connector.Pdata.{Pdata}
use solarwinds_otel_collecto.Connector.Events.{
  Event, entity, relationship_pointer, entity_pointer, relationship, entity_update_attributes,
  entity_delete_attributes, relationship_update_attributes, relationship_delete_attributes,
  event_update_action, event_delete_action, get_action_type, get_action_string, LogRecord,
  update_event, delete_event,
}
use solarwinds_otel_collecto.Connector.Keys.{Marshal}
use solarwinds_otel_collecto.Connector.Detector.Actions.{HasAction}
use solarwinds_otel_collecto.Connector.Storage.{Cache, StoredEntity, StoredRelationship}
use solarwinds_otel_collecto.Connector.Handlers.{State, handle_event, fold_until}
use solarwinds_otel_collecto.Connector.Handlers.Loops.{and_then}

action_cases :
    (input action : String)
    → get_action_string input ≡ ok action
    → (action ≡ event_update_action) ⊎ (action ≡ event_delete_action)
unfolding get_action_string
action_cases input action h = ground arith

event_cases :
    {pd : Pdata} (event : Event pd) (action : String)
    → get_action_type event ≡ ok action
    → (action ≡ event_update_action) ⊎ (action ≡ event_delete_action)
unfolding get_action_type
event_cases (entity e) action h = action_cases e.action action h
event_cases (relationship_pointer r) action h = action_cases r.action action h
event_cases _ action h = absurd (ground arith)

module _ (pd : Pdata) (marshal : Marshal pd) (ec : Cache (StoredEntity pd))
    (rc : Cache StoredRelationship) where
  -- A record that is written for an event with a valid action: by `Update` or by `Delete`.
  write_event : (ℕ → ℕ) → Event pd → List (LogRecord pd) → List (LogRecord pd)
  write_event clock event records =
      let now = clock (length records) in
      elim (get_action_type event) [
        | err _ ↦ records
        | ok action ↦
            if action =s= event_update_action
            then update_event pd now event records
            else delete_event pd now event records
      ]

  unfoldable pub written : (ℕ → ℕ) → List (Event pd) → List (LogRecord pd) → List (LogRecord pd)
  unfolding write_event
  written clock [] records = records
  written clock (event ∷ events) records = written clock events (write_event clock event records)

  abbrev pub state_of : List (LogRecord pd) → State pd marshal ec rc
  state_of records = record { storage = none; records = records }

  handle_event-written :
      (clock : ℕ → ℕ) (event : Event pd) (records : List (LogRecord pd))
      → HasAction event
      → handle_event pd marshal ec rc clock event (state_of records)
        ≡ (state_of (write_event clock event records), none)
  unfolding handle_event write_event
  handle_event-written clock event records h = elim (Result-cases (get_action_type event)) [
    | inr (e, failed) ↦ absurd (ground arith)
    | inl (action, found) ↦ elim (event_cases event action found) [
      | inl same ↦ rw (found, same, handle_event, write_event)
      | inr same ↦ rw (found, same, handle_event, write_event)
    ]
  ]

  pub fold_until-written :
      (clock : ℕ → ℕ) (events : List (Event pd)) (records : List (LogRecord pd))
      → All HasAction events
      → fold_until pd marshal ec rc (handle_event pd marshal ec rc clock) events (state_of records)
        ≡ (state_of (written clock events records), none)
  unfolding fold_until written
  fold_until-written clock [] records h = refl
  fold_until-written clock (event ∷ events) records h =
      ap
        (λ r.
          and_then pd marshal ec rc r
            (fold_until pd marshal ec rc (handle_event pd marshal ec rc clock) events))
        (handle_event-written clock event records h.0)
      ∙ fold_until-written clock events (write_event clock event records) h.1

  pub written-append :
      (clock : ℕ → ℕ) (events rest : List (Event pd)) (records : List (LogRecord pd))
      → written clock (events ++ rest) records ≡ written clock rest (written clock events records)
  unfolding written
  written-append clock [] rest records = refl
  written-append clock (event ∷ events) rest records = written-append clock events rest _

  -- The attributes of the record for an event, by its action; the connector detects events of the
  -- first two kinds alone.
  unfoldable pub attributes_for : Event pd → pd.Map
  attributes_for (entity e) =
      if e.action =s= event_update_action
      then entity_update_attributes pd e
      else entity_delete_attributes pd e
  attributes_for (relationship_pointer r) =
      if r.action =s= event_update_action
      then relationship_update_attributes pd r
      else relationship_delete_attributes pd r
  attributes_for _ = pd.new_map

  -- A record for each event, in order, with the times that the clock shows.
  unfoldable pub recorded : (ℕ → ℕ) → ℕ → List (Event pd) → List (LogRecord pd)
  recorded clock n [] = []
  recorded clock n (event ∷ events) =
      record { observed_timestamp = clock n; attributes = attributes_for event }
      ∷ recorded clock (suc n) events

  by_action :
      {A : Type 0} (action : String) (x y z : A)
      → error_of (get_action_string action) ≡ none
      → (elim (get_action_string action) as (λ _. A) [
        | err _ ↦ z
        | ok found ↦ if found =s= event_update_action then x else y
      ])
        ≡ (if action =s= event_update_action then x else y)
  unfolding get_action_string
  by_action action x y z h = elim (Bool-cases (action =s= event_update_action)) [
    | inl e ↦ rw e refl
    | inr e ↦ elim (Bool-cases (action =s= event_delete_action)) [
      | inl f ↦ rw (e, f) refl
      | inr f ↦ absurd (ground (arith, h, e, f))
    ]
  ]

  -- Records, and one more.
  abbrev record_with : ℕ → pd.Map → List (LogRecord pd) → List (LogRecord pd)
  record_with now attrs records =
      records ++ record { observed_timestamp = now; attributes = attrs } ∷ []

  record_with-if :
      (c : Bool) (now : ℕ) (records : List (LogRecord pd)) (x y : pd.Map)
      → (if c then record_with now x records else record_with now y records)
        ≡ record_with now (if c then x else y) records
  record_with-if true now records x y = refl
  record_with-if false now records x y = refl

  write_event-record :
      (clock : ℕ → ℕ) (event : Event pd) (records : List (LogRecord pd))
      → HasAction event
      → write_event clock event records
        ≡ records
          ++ record {
            observed_timestamp = clock (length records);
            attributes = attributes_for event;
          }
            ∷ []
  unfolding write_event attributes_for update_event delete_event get_action_type get_action_string
  write_event-record clock (entity e) records h =
      by_action e.action
        (record_with (clock (length records)) (entity_update_attributes pd e) records)
        (record_with (clock (length records)) (entity_delete_attributes pd e) records) records h
      ∙ record_with-if (e.action =s= event_update_action) (clock (length records)) records
          (entity_update_attributes pd e) (entity_delete_attributes pd e)
  write_event-record clock (relationship_pointer r) records h =
      by_action r.action
        (record_with (clock (length records)) (relationship_update_attributes pd r) records)
        (record_with (clock (length records)) (relationship_delete_attributes pd r) records) records
        h
      ∙ record_with-if (r.action =s= event_update_action) (clock (length records)) records
          (relationship_update_attributes pd r) (relationship_delete_attributes pd r)
  write_event-record clock (entity_pointer e) records h = absurd (ground arith)
  write_event-record clock (relationship r) records h = absurd (ground arith)

  pub written-recorded :
      (clock : ℕ → ℕ) (events : List (Event pd)) (records : List (LogRecord pd))
      → All HasAction events
      → written clock events records ≡ records ++ recorded clock (length records) events
  unfolding written recorded
  written-recorded clock [] records h = sym (append-nil records)
  written-recorded clock (event ∷ events) records h =
      let r : LogRecord pd = record {
        observed_timestamp = clock (length records);
        attributes = attributes_for event;
      } in
      ap (written clock events) (write_event-record clock event records h.0)
      ∙ written-recorded clock events (records ++ r ∷ []) h.1
      ∙ ap (λ n. (records ++ r ∷ []) ++ recorded clock n events)
          (length-append records (r ∷ []) ∙ omega arith)
      ∙ append_assoc records (r ∷ []) (recorded clock (suc (length records)) events)
