-- ===== src/Connector/Config/Validation.antt =====
-- What a schema that passes `Validate` guarantees.
use mathlib.Core.List.{cons≢nil}
use mathlib.Core.Option.{none-ne-some}
use solarwinds_otel_collecto.Base.{
  ℕ, suc, ◌+◌, ◌<◌, ◌≡◌, refl, ◌↔◌, Bool, true, false, not, List, [], ◌∷◌, ◌++◌, some, String, Dict,
  lookup, has, insert, lookup-insert, has-insert, All, All-imp, length, arith, eq_iff, ◌≢◌, sym,
  ◌∙◌,
}
use solarwinds_otel_collecto.Connector.Config.{
  EntityConfig, EntityEvent, RelationshipEvent, Schema, ConfigError, join_if, entity_types_from,
  check_entities, check_relationships, validate_schema, new_entities_from, new_entities,
}

has-from :
    (k : String) (types : Dict (Unit {0})) (entities : Dict EntityConfig) (es : List EntityConfig)
    → has k types ≡ has k entities
    → has k (entity_types_from types es) ≡ has k (new_entities_from entities es)
unfolding entity_types_from new_entities_from
has-from k types entities [] h = h
has-from k types entities (e ∷ es) h =
    has-from k (insert e.entity tt types) (insert e.entity e entities) es
      (ground (arith, has-insert e.entity k tt types, has-insert e.entity k e entities))

-- The map of entities has the configuration of a name under that name.
abbrev pub IsNamed : Dict EntityConfig → String → Type 0
IsNamed entities name = (c : EntityConfig) → lookup name entities ≡ some c → c.entity ≡ name

new_entities_from-IsNamed :
    (k : String) (entities : Dict EntityConfig) (es : List EntityConfig)
    → IsNamed entities k
    → IsNamed (new_entities_from entities es) k
unfolding new_entities_from
new_entities_from-IsNamed k entities [] h = h
new_entities_from-IsNamed k entities (e ∷ es) h =
    new_entities_from-IsNamed k (insert e.entity e entities) es
      (λ c found. ground (arith, lookup-insert e.entity k e entities, eq_iff e.entity k, h c))

concat-ne-nil : {A : Type 0} (xs : List A) (x : A) → xs ++ x ∷ [] ≢ []
concat-ne-nil [] x = cons≢nil
concat-ne-nil (y ∷ xs) x = cons≢nil

join_if-nil :
    (b : Bool) (e : ConfigError) (errs : List ConfigError)
    → join_if b e errs ≡ []
    → (b ≡ false) × (errs ≡ [])
join_if-nil true e errs h = absurd (concat-ne-nil errs e h)
join_if-nil false e errs h = (refl, h)

not-false : (b : Bool) → not b ≡ false → b ≡ true
not-false true h = refl
not-false false h = sym h

check_entities_sound :
    (types : Dict (Unit {0})) (i : ℕ) (es : List EntityEvent) (errs : List ConfigError)
    → check_entities types i es errs ≡ []
    → (errs ≡ []) × All (λ e. has e.entity types ≡ true) es
unfolding check_entities
check_entities_sound types i [] errs h = (h, tt)
check_entities_sound types i (e ∷ es) errs h =
    let (start, rest) = check_entities_sound types (suc i) es _ h in
    let (known, before) = join_if-nil _ _ errs start in (before, (not-false _ known, rest))

check_entities_complete :
    (types : Dict (Unit {0})) (i : ℕ) (es : List EntityEvent)
    → All (λ e. has e.entity types ≡ true) es
    → check_entities types i es [] ≡ []
unfolding check_entities
check_entities_complete types i [] h = refl
check_entities_complete types i (e ∷ es) h = rw h.0 (check_entities_complete types (suc i) es h.1)

abbrev BothIn : Dict (Unit {0}) → RelationshipEvent → Type 0
BothIn types r = (has r.source types ≡ true) × (has r.destination types ≡ true)

check_relationships_sound :
    (types : Dict (Unit {0})) (i : ℕ) (rs : List RelationshipEvent) (errs : List ConfigError)
    → check_relationships types i rs errs ≡ []
    → (errs ≡ []) × All (BothIn types) rs
unfolding check_relationships
check_relationships_sound types i [] errs h = (h, tt)
check_relationships_sound types i (r ∷ rs) errs h =
    let (start, rest) = check_relationships_sound types (suc i) rs _ h in
    let (destination_in, middle) = join_if-nil _ _ _ start in
    let (source_in, before) = join_if-nil _ _ _ middle in
    let known_source : has r.source types ≡ true = not-false _ source_in in
    let known_destination : has r.destination types ≡ true = not-false _ destination_in in
    (before, ((known_source, known_destination), rest))

check_relationships_complete :
    (types : Dict (Unit {0})) (i : ℕ) (rs : List RelationshipEvent)
    → All (BothIn types) rs
    → check_relationships types i rs [] ≡ []
unfolding check_relationships
check_relationships_complete types i [] h = refl
check_relationships_complete types i (r ∷ rs) h =
    rw (h.0.0, h.0.1) (check_relationships_complete types (suc i) rs h.1)

abbrev checked : Schema → List ConfigError
checked s =
    check_relationships (entity_types_from [] s.entities) 0 s.events.relationships
      (check_entities (entity_types_from [] s.entities) 0 s.events.entities [])

has-new_entities :
    (s : Schema) (k : String) → has k (entity_types_from [] s.entities) ≡ has k (new_entities s)
unfolding new_entities has lookup
has-new_entities s k = has-from k [] [] s.entities refl

-- Every entity event names a key of the map of entities, and so do both ends of every relationship
-- event.
abbrev pub AllConfigured : Dict EntityConfig → Schema → Type 0
AllConfigured entities s =
    All (λ e. has e.entity entities ≡ true) s.events.entities
    × All (λ r. (has r.source entities ≡ true) × (has r.destination entities ≡ true))
        s.events.relationships

checked_sound : (s : Schema) → checked s ≡ [] → AllConfigured (new_entities s) s
checked_sound s h =
    let types = entity_types_from [] s.entities in
    let (start, rels) = check_relationships_sound types 0 s.events.relationships _ h in
    let (_, ents) = check_entities_sound types 0 s.events.entities [] start in
    (
      All-imp (λ e p. sym (has-new_entities s e.entity) ∙ p) s.events.entities ents,
      All-imp
          (λ r p.
            (sym (has-new_entities s r.source) ∙ p.0, sym (has-new_entities s r.destination) ∙ p.1))
          s.events.relationships rels,
    )

checked_complete : (s : Schema) → AllConfigured (new_entities s) s → checked s ≡ []
checked_complete s (ents, rels) =
    let types = entity_types_from [] s.entities in
    rw
      (check_entities_complete types 0 s.events.entities
        (All-imp (λ e p. has-new_entities s e.entity ∙ p) s.events.entities ents))
      (check_relationships_complete types 0 s.events.relationships (
        All-imp (λ r p. (has-new_entities s r.source ∙ p.0, has-new_entities s r.destination ∙ p.1))
          s.events.relationships rels))

-- `Validate` returns no error exactly if there is an event, every entity event names a configured
-- entity, and so do both ends of every relationship event: the map that the mapper is given has
-- their configurations.
pub validate_schema_iff :
    (s : Schema)
    → (validate_schema s ≡ []) ↔ (
        (0 < length s.events.entities + length s.events.relationships)
        × AllConfigured (new_entities s) s)
unfolding validate_schema
validate_schema_iff s = (
  (λ h. (ground arith, checked_sound s (ground arith))),
  (λ h. ground (arith, checked_complete s h.1)),
)

pub new_entities-IsNamed : (s : Schema) (k : String) → IsNamed (new_entities s) k
unfolding new_entities lookup
new_entities-IsNamed s k =
    new_entities_from-IsNamed k [] s.entities (λ c found. absurd (none-ne-some c found))
