-- ===== src/Connector/Storage/Effects.antt =====
-- What `update` and `delete` change, on every branch, and what an eviction sends.
use solarwinds_otel_collecto.Base.{
  ℕ, ◌≡◌, refl, List, Option, none, some, String, ok, Bool, true, false, ◌&&◌, err, if◌then◌else◌,
  ◌=s=◌, arith, ◌⊎◌, inl, inr, Result-cases, Option-cases, eq_iff, ◌≢◌,
}
use solarwinds_otel_collecto.Connector.Pdata.{Pdata}
use solarwinds_otel_collecto.Connector.Events.{
  Relationship, Event, relationship_pointer, LogRecord, delete_event,
  relationship_delete_attributes,
}
use solarwinds_otel_collecto.Connector.Keys.{Marshal, build_entity_key, build_relationship_key}
use solarwinds_otel_collecto.Connector.Storage.{
  Cache, StoredEntity, StoredRelationship, StorageError, InternalStorage,
  failed_to_update_relationship, stored_entity, on_relationship_evict, hash_ends, delete, update,
}

-- The documented behaviour of `Del`: the key is gone, and the others stay.
abbrev pub DelRemoves : {V : Type 0} → Cache V → Type 0
DelRemoves rc =
    (s : rc.State) (k j : String) → rc.get (rc.del s k) j ≡ (if k =s= j then none else rc.get s j)

-- Two relationships of the same type between the same entities, whatever their actions and
-- attributes.
pub record SameEnds {pd : Pdata} (r r' : Relationship pd) : Type 0 where
  pub same_type : r.type ≡ r'.type
  pub same_source_type : r.source.type ≡ r'.source.type
  pub same_source_ids : r.source.ids ≡ r'.source.ids
  pub same_destination_type : r.destination.type ≡ r'.destination.type
  pub same_destination_ids : r.destination.ids ≡ r'.destination.ids

module _ (pd : Pdata) (marshal : Marshal pd) (ec : Cache (StoredEntity pd))
    (rc : Cache StoredRelationship) where
  abbrev Storage : Type 0
  Storage = InternalStorage pd marshal ec rc

  -- The key under which a relationship is cached.
  unfoldable pub cache_key : Relationship pd → Option String
  cache_key r = elim (hash_ends pd marshal ec rc r) [
    | err _ ↦ none
    | ok (source_hash, dest_hash) ↦ elim (build_relationship_key r.type source_hash dest_hash) [
      | err _ ↦ none
      | ok key ↦ some key
    ]
  ]

  bare : String → String → pd.Map → String → pd.Map → Relationship pd
  bare type source_type source_ids dest_type dest_ids = record {
    action = "";
    type = type;
    source = record { action = ""; type = source_type; ids = source_ids; attributes = pd.new_map };
    destination = record { action = ""; type = dest_type; ids = dest_ids; attributes = pd.new_map };
    attributes = pd.new_map;
  }

  cache_key-bare :
      (r : Relationship pd)
      → cache_key r
        ≡ cache_key (bare r.type r.source.type r.source.ids r.destination.type r.destination.ids)
  unfolding cache_key hash_ends build_entity_key bare
  cache_key-bare r = refl

  -- The key depends on the types and the IDs alone: the delete event of a relationship finds what
  -- its update events stored, whatever their actions and attributes.
  pub cache_key-SameEnds : (r r' : Relationship pd) → SameEnds r r' → cache_key r ≡ cache_key r'
  cache_key-SameEnds r r' s = cc (cache_key-bare r, cache_key-bare r')

  -- After `delete`: an error and no change without a key, and else the key gone and no other.
  abbrev pub Deleted : Storage → Storage × Option StorageError → String → Option String → Type 0
  Deleted c (c', failed) j none = (c' ≡ c) × (failed ≢ none)
  Deleted c (c', failed) j (some key) =
      (failed ≡ none)
      × (rc.get c'.relationships j ≡ (if key =s= j then none else rc.get c.relationships j))

  -- `delete` never touches the entities. It fails, and changes nothing, exactly if the relationship
  -- has no key; else it removes what is cached under the key, and leaves the other relationships.
  pub delete-Deleted :
      (c : Storage) (r : Relationship pd) (j : String)
      → DelRemoves rc
      → ((delete pd marshal ec rc c r).0.entities ≡ c.entities)
        × Deleted c (delete pd marshal ec rc c r) j (cache_key r)
  unfolding delete cache_key
  delete-Deleted c r j law = elim (Result-cases (hash_ends pd marshal ec rc r)) [
    | inr (e, failed) ↦ rw (failed, delete, cache_key) (refl, (refl, (λ h. cc)))
    | inl ((sh, dh), hashed) ↦ elim (Result-cases (build_relationship_key r.type sh dh)) [
      | inr (e, failed) ↦ rw (hashed, failed, delete, cache_key) (refl, (refl, (λ h. cc)))
      | inl (key, built) ↦ elim (Option-cases (rc.get c.relationships key)) [
        | inl absent ↦
            rw (hashed, built, absent, delete, cache_key)
              (refl, (refl, ground (arith, absent, eq_iff key j)))
        | inr (v, found) ↦ rw (hashed, built, found, delete, cache_key) (refl, (refl, law _ key j))
      ]
    ]
  ]

  -- `update` writes the relationship last: an error leaves the cache of relationships as it was,
  -- unless it is the cache that refuses the relationship.
  update_error :
      (c c' : Storage) (r : Relationship pd) (e : StorageError)
      → update pd marshal ec rc c r ≡ (c', some e)
      → (c'.relationships ≡ c.relationships) ⊎ (e ≡ failed_to_update_relationship r.type)
  unfolding update
  update_error c c' r e h = ground arith

  -- What an eviction sends, with both entities still cached or not: an event whose delete record is
  -- that of a delete event of the relationship, or nothing.
  abbrev pub Sent : Bool → Relationship pd → ℕ → List (LogRecord pd) → Option (Event pd) → Type 0
  Sent false r now records out = out ≡ none
  Sent true r now records out =
      (event : Event pd) × (out ≡ some event)
      × (delete_event pd now event records ≡ delete_event pd now (relationship_pointer r) records)

  -- An expired relationship each of whose entities is still cached or gone: if both are cached, it is
  -- sent as an event whose delete record is that of a delete event of the relationship itself; if an
  -- entity is gone, nothing is sent.
  pub on_relationship_evict-delete_event :
      (r : Relationship pd) (item : StoredRelationship) (entities : ec.State) (now : ℕ)
      (records : List (LogRecord pd)) (source_there dest_there : Bool)
      → item.relationship_type ≡ r.type
      → ec.get entities item.source_hash
        ≡ (if source_there then some (stored_entity pd marshal ec rc r.source) else none)
      → ec.get entities item.dest_hash
        ≡ (if dest_there then some (stored_entity pd marshal ec rc r.destination) else none)
      → Sent
          (source_there && dest_there)
          r
          now
          records
          (on_relationship_evict pd marshal ec rc item entities)
  unfolding on_relationship_evict delete_event relationship_delete_attributes bare
  on_relationship_evict-delete_event r item entities now records true true t s d = (
    relationship_pointer
        (bare r.type r.source.type r.source.ids r.destination.type r.destination.ids),
    ground arith,
    refl,
  )
  on_relationship_evict-delete_event r item entities now records true false t s d = ground arith
  on_relationship_evict-delete_event r item entities now records false _ t s d = ground arith
