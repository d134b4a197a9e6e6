-- ===== src/Connector/Detector/Inferred.antt =====
-- The entities that are inferred from relationships, against the entities of entity events.
use mathlib.Core.List.{Memᴰ, append_assoc, append-nil}
use solarwinds_otel_collecto.Base.{
  ◌≡◌, refl, sym, ◌∙◌, ap, false, List, [], ◌∷◌, ◌++◌, Option, none, some, String, Dict, has, ok,
  ◌=s=◌, arith, Result-cases, Bool-cases, inl, inr, All, All-append, eq_iff,
}
use solarwinds_otel_collecto.Connector.Pdata.{Pdata}
use solarwinds_otel_collecto.Connector.Config.{EntityEvent}
use solarwinds_otel_collecto.Connector.Events.{Entity, Relationship, Event, entity}
use solarwinds_otel_collecto.Connector.Keys.{Marshal, build_entity_key}
use solarwinds_otel_collecto.Connector.Detector.{
  infer, validate_relationship_entity, append_entity, validate_ends, validate_from,
  validate_entity_events,
}

module _ (pd : Pdata) (marshal : Marshal pd) (valid : List EntityEvent)
    (existing : Dict (Entity pd)) where
  -- An entity event that stands for an end of a relationship: its key is not that of an entity
  -- event, and its type and action are those of a configured event.
  pub record IsInferred (event : Event pd) : Type 0 where
    pub found : Entity pd
    pub is_entity : event ≡ entity found
    pub hash : String
    pub has_key : build_entity_key pd marshal found ≡ ok hash
    pub is_new : has hash existing ≡ false
    pub source : EntityEvent
    pub is_configured : Memᴰ source valid
    pub same_type : source.entity ≡ found.type
    pub same_action : found.action ≡ source.action

  infer-some :
      (e e' : Entity pd) (events : List EntityEvent)
      → infer pd marshal e events ≡ some e'
      → (c : EntityEvent) × Memᴰ c events
        × (c.entity ≡ e.type)
        × (e' ≡ record e { action = c.action })
  unfolding infer
  infer-some e e' [] h = absurd (ground arith)
  infer-some e e' (c ∷ events) h = elim (Bool-cases (c.entity =s= e.type)) [
    | inl t ↦ (c, Memᴰ.head refl, (eq_iff _ _).0 t, ground arith)
    | inr t ↦
        let (c', m, same, new) = infer-some e e' events (ground arith) in
        (c', Memᴰ.tail m, same, new)
  ]

  validate_relationship_entity-IsInferred :
      (e e' : Entity pd)
      → validate_relationship_entity pd marshal e valid existing ≡ ok (some e')
      → IsInferred (entity e')
  unfolding validate_relationship_entity
  validate_relationship_entity-IsInferred e e' h =
      elim (Result-cases (build_entity_key pd marshal e)) [
        | inr (x, failed) ↦ absurd (ground arith)
        | inl (hash, key) ↦ elim (Bool-cases (has hash existing)) [
          | inl old ↦ absurd (ground arith)
          | inr new ↦
              let (c, m, same, e1) = infer-some e e' valid (ground arith) in
              record {
                found = e';
                is_entity = refl;
                hash = hash;
                has_key = rw e1 (unfold build_entity_key in key);
                is_new = new;
                source = c;
                is_configured = m;
                same_type = same ∙ ap (λ x. x.type) (sym e1);
                same_action = ap (λ x. x.action) e1;
              }
        ]
      ]

  append_entity-All :
      (o : Option (Entity pd)) (events : List (Event pd))
      → ((e : Entity pd) → o ≡ some e → IsInferred (entity e))
      → All IsInferred events
      → All IsInferred (append_entity pd marshal o events)
  append_entity-All none events h all = all
  append_entity-All (some e) events h all =
      All-append IsInferred events (entity e ∷ []) all (h e refl, tt)

  validate_ends-All :
      (r : Relationship pd) (events : List (Event pd))
      → All IsInferred events
      → All IsInferred (validate_ends pd marshal valid existing r events)
  unfolding validate_ends
  validate_ends-All r events all =
      elim (Result-cases (validate_relationship_entity pd marshal r.source valid existing)) [
        | inr (x, failed) ↦ rw (failed, validate_ends) all
        | inl (source, found) ↦
            let first =
              append_entity-All source events
                (λ e same. validate_relationship_entity-IsInferred r.source e (found ∙ ap ok same))
                all in
            elim (Result-cases
              (validate_relationship_entity pd marshal r.destination valid existing)) [
                | inr (x, failed) ↦ rw (found, failed, validate_ends) first
                | inl (dest, found') ↦
                    rw (found, found', validate_ends)
                      (append_entity-All dest _
                        (λ e same.
                          validate_relationship_entity-IsInferred r.destination e
                            (found' ∙ ap ok same))
                        first)
              ]
      ]

  validate_from-All :
      (rs : List (Relationship pd)) (events : List (Event pd))
      → All IsInferred events
      → All IsInferred (validate_from pd marshal valid existing events rs)
  unfolding validate_from
  validate_from-All [] events all = all
  validate_from-All (r ∷ rs) events all =
      validate_from-All rs (validate_ends pd marshal valid existing r events)
        (validate_ends-All r events all)

  -- Every event that `validateEntityEvents` returns is an entity that is not among those of the
  -- entity events (by its key), and that has the type and the action of an entity event whose
  -- conditions hold.
  pub validate_entity_events-IsInferred :
      (rs : List (Relationship pd))
      → All IsInferred (validate_entity_events pd marshal valid existing rs)
  unfolding validate_entity_events
  validate_entity_events-IsInferred rs = validate_from-All rs [] tt

  append_entity-append :
      (o : Option (Entity pd)) (xs ys : List (Event pd))
      → append_entity pd marshal o (xs ++ ys) ≡ xs ++ append_entity pd marshal o ys
  append_entity-append none xs ys = refl
  append_entity-append (some e) xs ys = append_assoc xs ys (entity e ∷ [])

  validate_ends-append :
      (r : Relationship pd) (events : List (Event pd))
      → validate_ends pd marshal valid existing r events
        ≡ events ++ validate_ends pd marshal valid existing r []
  unfolding validate_ends
  validate_ends-append r events =
      let keyed = validate_relationship_entity pd marshal in
      elim (Result-cases (keyed r.source valid existing)) [
        | inr (x, failed) ↦ rw (failed, validate_ends) (sym (append-nil events))
        | inl (source, found) ↦
            let first : append_entity pd marshal source events
                ≡ events ++ append_entity pd marshal source [] =
              ap (append_entity pd marshal source) (sym (append-nil events))
              ∙ append_entity-append source events [] in
            elim (Result-cases (keyed r.destination valid existing)) [
              | inr (x, failed) ↦ rw (found, failed, validate_ends) first
              | inl (dest, found') ↦
                  rw (found, found', validate_ends)
                    (ap (append_entity pd marshal dest) first ∙ append_entity-append dest events _)
            ]
      ]

  validate_from-append :
      (rs : List (Relationship pd)) (events : List (Event pd))
      → validate_from pd marshal valid existing events rs
        ≡ events ++ validate_from pd marshal valid existing [] rs
  unfolding validate_from
  validate_from-append [] events = sym (append-nil events)
  validate_from-append (r ∷ rs) events =
      let here = validate_ends pd marshal valid existing r [] in
      validate_from-append rs (validate_ends pd marshal valid existing r events)
      ∙ ap (λ es. es ++ validate_from pd marshal valid existing [] rs)
          (validate_ends-append r events)
      ∙ append_assoc events here _
      ∙ ap (◌++◌ events) (sym (validate_from-append rs here))

  validate_from-++ :
      (rs rs' : List (Relationship pd)) (events : List (Event pd))
      → validate_from pd marshal valid existing events (rs ++ rs')
        ≡ validate_from pd marshal valid existing events rs
          ++ validate_from pd marshal valid existing [] rs'
  unfolding validate_from
  validate_from-++ [] rs' events = validate_from-append rs' events
  validate_from-++ (r ∷ rs) rs' events =
      validate_from-++ rs rs' (validate_ends pd marshal valid existing r events)

  -- Each relationship is validated by itself: what one adds does not depend on those before it, so
  -- an entity that two relationships share is added for both.
  validate_entity_events-append :
      (rs rs' : List (Relationship pd))
      → validate_entity_events pd marshal valid existing (rs ++ rs')
        ≡ validate_entity_events pd marshal valid existing rs
          ++ validate_entity_events pd marshal valid existing rs'
  unfolding validate_entity_events
  validate_entity_events-append rs rs' = validate_from-++ rs rs' []
