-- ===== src/Connector/Config/Conditions/Parsing.antt =====
-- Which events are parsed for which context.
use mathlib.Core.List.{map-append, append_assoc, append-nil}
use solarwinds_otel_collecto.Base.{
  ◌≡◌, refl, sym, ◌∙◌, ap, Bool, true, false, not, ◌&&◌, ◌||◌, List, [], ◌∷◌, ◌++◌, map, keep, some,
  String, ok, if◌then◌else◌, ◌=s=◌, arith, inl, inr, Bool-cases, Option-cases, Result-cases, All,
  All-append,
}
use solarwinds_otel_collecto.Connector.Config.{EntityEvent, RelationshipEvent, Schema}
use solarwinds_otel_collecto.Connector.Config.Conditions.{
  Language, ParsedEvent, ParsedEvents, add_event, default_conditions, process_event, process_all,
  create_parsed_events,
}

module _ {T : Type 0} where
  abbrev pub definitions : (l : Language) → List (ParsedEvent T l) → List T
  definitions l = map (λ p. p.definition)

  -- The condition sequences are what the parser makes of the conditions of the event.
  abbrev pub AreParsed : (l : Language) → (T → List String) → List (ParsedEvent T l) → Type 0
  AreParsed l conditions = All (λ p.
      l.parse_conditions (default_conditions (conditions p.definition)) ≡ some p.condition_seq)

  add_event_ok :
      (l : Language) (conditions : T → List String) (parsed added : List (ParsedEvent T l))
      (event : T)
      → AreParsed l conditions parsed
      → add_event l parsed event (default_conditions (conditions event)) ≡ ok added
      → (definitions l added ≡ definitions l parsed ++ event ∷ []) × AreParsed l conditions added
  unfolding add_event
  add_event_ok l conditions parsed added event h e =
      elim (Option-cases (l.parse_conditions (default_conditions (conditions event)))) [
        | inl failed ↦ absurd (ground arith)
        | inr (seq, found) ↦
            let new : ParsedEvent T l = record { definition = event; condition_seq = seq } in
            let same : added ≡ parsed ++ new ∷ [] = ground arith in
            rw same (map-append _ parsed (new ∷ []), All-append _ parsed (new ∷ []) h (found, tt))
      ]

grown_twice :
    {T : Type 0} (b : Bool) (e : T) {x z : List T} (y k : List T)
    → x ≡ y ++ (if b then e ∷ [] else [])
    → z ≡ x ++ k
    → z ≡ y ++ (if b then e ∷ k else k)
grown_twice true e y k p q = q ∙ ap (λ l. l ++ k) p ∙ append_assoc y (e ∷ []) k
grown_twice false e y k p q = q ∙ ap (λ l. l ++ k) p ∙ ap (λ l. l ++ k) (append-nil y)

module _ {T : Type 0} (metric log : Language) (context : T → String)
    (conditions : T → List String) where
  abbrev pub for_metric : T → Bool
  for_metric e = context e =s= metric.context_name

  abbrev pub for_log : T → Bool
  for_log e = not (context e =s= metric.context_name) && (context e =s= log.context_name)

  -- What the loop has put into its two slices: the events of each context, in order, with their
  -- condition sequences, on top of what was there.
  abbrev pub Sorted :
      List T
      → List (ParsedEvent T metric) × List (ParsedEvent T log)
      → List (ParsedEvent T metric) × List (ParsedEvent T log)
      → Type 0
  Sorted es (ms, ls) (ms', ls') =
      (definitions metric ms' ≡ definitions metric ms ++ keep for_metric es)
      × (definitions log ls' ≡ definitions log ls ++ keep for_log es)
      × AreParsed metric conditions ms'
      × AreParsed log conditions ls'
      × All (λ e. (for_metric e || for_log e) ≡ true) es

  process_event-Sorted :
      (e : T) (ms ms' : List (ParsedEvent T metric)) (ls ls' : List (ParsedEvent T log))
      → AreParsed metric conditions ms
      → AreParsed log conditions ls
      → process_event metric log e (context e) (conditions e) (ms, ls) ≡ ok (ms', ls')
      → Sorted (e ∷ []) (ms, ls) (ms', ls')
  unfolding process_event keep
  process_event-Sorted e ms ms' ls ls' hm hl h = elim (Bool-cases (for_metric e)) [
    | inl m ↦
        let added : add_event metric ms e (default_conditions (conditions e)) ≡ ok ms' =
          ground arith in
        let kept : ls' ≡ ls = ground arith in
        let (grown, parsed) = add_event_ok metric conditions ms ms' e hm added in
        rw (m, kept) (grown, sym (append-nil _), parsed, hl, (refl, tt))
    | inr m ↦ elim (Bool-cases (context e =s= log.context_name)) [
      | inl l ↦
          let added : add_event log ls e (default_conditions (conditions e)) ≡ ok ls' =
            ground arith in
          let kept : ms' ≡ ms = ground arith in
          let (grown, parsed) = add_event_ok log conditions ls ls' e hl added in
          rw (m, l, kept) (sym (append-nil _), grown, hm, parsed, (refl, tt))
      | inr l ↦ absurd (ground arith)
    ]
  ]

  -- One loop after another.
  Sorted-trans :
      (e : T) (es : List T) (a b c : List (ParsedEvent T metric) × List (ParsedEvent T log))
      → Sorted (e ∷ []) a b
      → Sorted es b c
      → Sorted (e ∷ es) a c
  unfolding keep
  Sorted-trans e es a b c (m, l, _, _, s) (m', l', pm, pl, s') =
      (grown_twice (for_metric e) e _ _ m m', grown_twice (for_log e) e _ _ l l', pm, pl, (s.0, s'))

  pub process_all-Sorted :
      (es : List T) (ms : List (ParsedEvent T metric)) (ls : List (ParsedEvent T log))
      {r : List (ParsedEvent T metric) × List (ParsedEvent T log)}
      → AreParsed metric conditions ms
      → AreParsed log conditions ls
      → process_all metric log context conditions (ms, ls) es ≡ ok r
      → Sorted es (ms, ls) r
  unfolding process_all keep
  process_all-Sorted [] ms ls {r} hm hl h =
      let same : r ≡ (ms, ls) = ground arith in
      rw same (sym (append-nil _), sym (append-nil _), hm, hl, tt)
  process_all-Sorted (e ∷ es) ms ls {r} hm hl h =
      elim (Result-cases (process_event metric log e (context e) (conditions e) (ms, ls))) [
        | inl ((ms', ls'), found) ↦
            let step = process_event-Sorted e ms ms' ls ls' hm hl found in
            Sorted-trans e es (ms, ls) (ms', ls') r step
              (process_all-Sorted es ms' ls' {r = r} step.2 step.3 (ground arith))
        | inr (failed, found) ↦ absurd (ground arith)
      ]

-- What `createParsedEvents` returns, if it returns no error: for each kind of events and each of
-- the two contexts the events of the schema that name this context, in their order, with the
-- condition sequences that the parser makes of their conditions ("true" for none). Then every event
-- names one of the two contexts.
pub create_parsed_events-Sorted :
    (metric log : Language) (s : Schema) (p : ParsedEvents metric log)
    → create_parsed_events metric log s ≡ ok p
    → Sorted metric log
        (λ (e : EntityEvent). e.context)
        (λ e. e.conditions)
        s.events.entities
        ([], [])
        (p.metric_events.entities, p.log_events.entities)
      × Sorted metric log
          (λ (r : RelationshipEvent). r.context)
          (λ r. r.conditions)
          s.events.relationships
          ([], [])
          (p.metric_events.relationships, p.log_events.relationships)
unfolding create_parsed_events
create_parsed_events-Sorted metric log s p h =
    elim (Result-cases
      (process_all metric log entity_context entity_conditions ([], []) s.events.entities)) [
        | inr (e, failed) ↦ absurd (ground arith)
        | inl ((ms, ls), found) ↦
            elim (Result-cases (
              process_all metric log relationship_context relationship_conditions ([], [])
                s.events.relationships)) [
                  | inr (e, failed) ↦ absurd (ground arith)
                  | inl ((ms', ls'), found') ↦
                      let a : p.metric_events.entities ≡ ms = ground arith in
                      let b : p.log_events.entities ≡ ls = ground arith in
                      let c : p.metric_events.relationships ≡ ms' = ground arith in
                      let d : p.log_events.relationships ≡ ls' = ground arith in
                      rw (a, b, c, d)
                        (
                          process_all-Sorted metric log entity_context entity_conditions
                              s.events.entities [] [] tt tt found,
                          process_all-Sorted metric log relationship_context relationship_conditions
                              s.events.relationships [] [] tt tt found',
                        )
                ]
      ]
  where
    entity_context : EntityEvent → String
    entity_context e = e.context

    entity_conditions : EntityEvent → List String
    entity_conditions e = e.conditions

    relationship_context : RelationshipEvent → String
    relationship_context r = r.context

    relationship_conditions : RelationshipEvent → List String
    relationship_conditions r = r.conditions
