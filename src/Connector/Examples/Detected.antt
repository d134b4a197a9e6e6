-- ===== src/Connector/Examples/Detected.antt =====
-- The theorems about detection at concrete inputs.
use mathlib.Core.List.{Permᴰ}
use solarwinds_otel_collecto.Base.{◌≡◌, refl, ◌||◌, List, [], ◌∷◌, ok, err, if◌then◌else◌, All}
use solarwinds_otel_collecto.Connector.Samples.{sample, sample_marshal}
use solarwinds_otel_collecto.Connector.Events.{Entity, get_action_string}
use solarwinds_otel_collecto.Connector.Detector.{
  condition_failed, process_events, validate_entity_events, collect_events,
}
use solarwinds_otel_collecto.Connector.Detector.Conditions
use solarwinds_otel_collecto.Connector.Detector.Conditions.{any_fails, selected}
use solarwinds_otel_collecto.Connector.Detector.Inferred
use solarwinds_otel_collecto.Connector.Detector.Inferred.{IsInferred}
use solarwinds_otel_collecto.Connector.Detector.Actions
use solarwinds_otel_collecto.Connector.Detector.Actions.{HasAction, IsAction}
use solarwinds_otel_collecto.Connector.Examples.{
  attrs, configs, logs_of_pods, log_events, calls, cluster_event, pod_event, a_calls_b,
}

process_events-selected_example : process_events logs_of_pods 1 log_events ≡ (
    if any_fails logs_of_pods 1 log_events.entities
      || any_fails logs_of_pods 1 log_events.relationships
    then err condition_failed
    else ok (
      selected logs_of_pods 1 log_events.entities,
      selected logs_of_pods 1 log_events.relationships,
    ))
process_events-selected_example = Conditions.process_events-selected logs_of_pods 1 log_events

validate_entity_events-IsInferred_example :
    All
      (IsInferred sample sample_marshal (pod_event ∷ []) [])
      (validate_entity_events sample sample_marshal (pod_event ∷ []) [] (a_calls_b ∷ []))
validate_entity_events-IsInferred_example =
    Inferred.validate_entity_events-IsInferred sample sample_marshal (pod_event ∷ []) []
      (a_calls_b ∷ [])

-- The order of the map as it is.
abbrev in_order : List (Entity sample) → List (Entity sample)
in_order es = es

Permᴰ_refl : (es : List (Entity sample)) → Permᴰ es es
Permᴰ_refl [] = Permᴰ.nil
Permᴰ_refl (e ∷ es) = Permᴰ.cons refl (Permᴰ_refl es)

updates : All (λ e. IsAction e.action) (cluster_event ∷ pod_event ∷ [])
unfolding get_action_string
updates = (refl, (refl, tt))

collect_events-HasAction_example : All HasAction (
    collect_events sample sample_marshal configs in_order attrs
      (cluster_event ∷ pod_event ∷ [])
      (calls ∷ []))
collect_events-HasAction_example =
    Actions.collect_events-HasAction sample configs attrs sample_marshal in_order
      (cluster_event ∷ pod_event ∷ []) (calls ∷ []) Permᴰ_refl updates
