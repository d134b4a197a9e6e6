-- ===== src/Connector/Detector/Conditions.antt =====
-- Which configured events take part: those whose conditions hold.
use solarwinds_otel_collecto.Base.{
  ◌≡◌, Bool, true, false, ◌||◌, List, [], ◌∷◌, ◌++◌, map, keep, none, some, ok, err, if◌then◌else◌,
  arith, All, Bool-cases, inl, inr, subst, String,
}
use solarwinds_otel_collecto.Connector.Config.{EntityEvent, RelationshipEvent}
use mathlib.Core.List.{append_assoc, append-nil}
use solarwinds_otel_collecto.Connector.Config.Conditions.{Language, ParsedEvent, EventsGroup}
use solarwinds_otel_collecto.Connector.Detector.{condition_failed, select_from, process_events}

module _ (l : Language) (tc : l.TransformContext) where
  -- The condition is evaluated, and holds.
  abbrev pub passes : {T : Type 0} → ParsedEvent T l → Bool
  passes event = elim (l.eval event.condition_seq tc) [ some true ↦ true | _ ↦ false ]

  -- The evaluation of a condition fails.
  unfoldable pub any_fails : {T : Type 0} → List (ParsedEvent T l) → Bool
  any_fails [] = false
  any_fails (event ∷ events) = elim (l.eval event.condition_seq tc) [
    | none ↦ true
    | some _ ↦ any_fails events
  ]

  abbrev pub selected : {T : Type 0} → List (ParsedEvent T l) → List T
  selected events = map (λ e. e.definition) (keep passes events)

  select_from_lem :
      {T : Type 0} (found : List T) (events : List (ParsedEvent T l))
      → select_from l tc found events
        ≡ (if any_fails events then err condition_failed else ok (found ++ selected events))
  unfolding select_from any_fails keep
  select_from_lem found [] = rw append-nil
  select_from_lem found (event ∷ events) = ground (
    arith,
    select_from_lem (found ++ event.definition ∷ []) events,
    select_from_lem found events,
    append_assoc found (event.definition ∷ []) (selected events),
  )

  -- If the evaluation of a condition fails, so does the whole detection. Else the events whose
  -- condition holds are selected, all of them and no others, in the order of the configuration.
  pub process_events-selected :
      (events : EventsGroup l)
      → process_events l tc events ≡ (
          if any_fails events.entities || any_fails events.relationships
          then err condition_failed
          else ok (selected events.entities, selected events.relationships))
  unfolding process_events
  process_events-selected events =
      ground (arith, select_from_lem [] events.entities, select_from_lem [] events.relationships)

  selected-All :
      {T : Type 0} (P : T → Type 0) (events : List (ParsedEvent T l))
      → All (λ e. P e.definition) events
      → All P (selected events)
  unfolding keep
  selected-All P [] h = tt
  selected-All P (event ∷ events) h = elim (Bool-cases (passes event)) [
    | inl e ↦ rw e (h.0, selected-All P events h.1)
    | inr e ↦ rw e (selected-All P events h.1)
  ]

  -- What holds of the actions of all entity events holds of those that are selected.
  pub process_events-All :
      (P : String → Type 0) (events : EventsGroup l)
      (chosen : List EntityEvent × List RelationshipEvent)
      → All (λ e. P e.definition.action) events.entities
      → process_events l tc events ≡ ok chosen
      → All (λ e. P e.action) chosen.0
  process_events-All P events chosen h found =
      elim (Bool-cases (any_fails events.entities || any_fails events.relationships)) [
        | inl e ↦ absurd (ground (arith, e, found, process_events-selected events))
        | inr e ↦
            let same : selected events.entities ≡ chosen.0 =
              ground (arith, e, found, process_events-selected events) in
            subst (All (λ e. P e.action)) same (selected-All (λ e. P e.action) events.entities h)
      ]
