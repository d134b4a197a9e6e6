-- ===== src/Connector/Storage.antt =====
-- connector/solarwindsentityconnector/internal/storage/internal_storage.go: the two caches of
-- relationships and their entities. The ristretto caches are of a package outside the repository.
pub mod Lifetimes
pub mod Effects
use solarwinds_otel_collecto.Base.{
  ℕ, Bool, true, false, not, Option, none, some, String, Result, ok, err, wrap, ◌>>=◌,
  if◌then◌else◌, ℤ, pos, ◌<ℤ?◌, add64, mul64,
}
use solarwinds_otel_collecto.Connector.Pdata.{Pdata}
use solarwinds_otel_collecto.Connector.Config.Expiration.{ExpirationPolicy}
use solarwinds_otel_collecto.Connector.Events.{Entity, Relationship, Event, relationship_pointer}
use solarwinds_otel_collecto.Connector.Keys.{
  Marshal, KeyError, build_entity_key, build_relationship_key,
}

pub record CacheConfig : Type 0 where
  pub num_counters : ℤ
  pub max_cost : ℤ
  pub ttl_ticker_duration_in_sec : ℤ
  pub buffer_items : ℕ

-- `ristretto.Cache[string, V]`: `NewCache`, `Get`, `SetWithTTL` with cost and time to live, `Del`.
pub record Cache (V : Type 0) : Type 1 where
  pub State : Type 0
  pub new_cache : CacheConfig → Option State
  pub get : State → String → Option V
  pub set_with_ttl : State → String → V → ℕ → ℤ → State × Bool
  pub del : State → String → State

pub record StoredEntity (pd : Pdata) : Type 0 where
  pub type : String
  pub ids : pd.Map

pub record StoredRelationship : Type 0 where
  pub source_hash : String
  pub dest_hash : String
  pub relationship_type : String

abbrev pub item_cost : ℕ
item_cost = 1

abbrev pub entity_capacity_factor : ℕ
entity_capacity_factor = 2

abbrev pub entity_ttl_cleanup_factor : ℕ
entity_ttl_cleanup_factor = 10

abbrev pub entity_ttl_factor : ℕ
entity_ttl_factor = 5

abbrev pub buffer_items : ℕ
buffer_items = 64

pub data StorageError : Type 0 where
  ttl_cleanup_too_short failed_to_create_entities failed_to_create_relationships : StorageError
  failed_to_hash_source failed_to_hash_destination : String → KeyError → StorageError
  failed_to_update_source failed_to_update_destination failed_to_update_relationship :
      String → StorageError
  relationship_key_failed : KeyError → StorageError

module _ (pd : Pdata) (marshal : Marshal pd) (ec : Cache (StoredEntity pd))
    (rc : Cache StoredRelationship) where
  pub record InternalStorage : Type 0 where
    pub entities : ec.State
    pub relationships : rc.State
    pub relationship_ttl : ℤ
    pub entity_ttl : ℤ

  -- `whole_seconds` is `int64(d.Seconds())`, through a floating point number.
  unfoldable pub new_internal_storage :
      (ℤ → ℤ) → ExpirationPolicy → Result StorageError InternalStorage
  new_internal_storage whole_seconds cfg =
      let max_cost = cfg.max_capacity in
      let num_counters = mul64 cfg.max_capacity 10 in
      let seconds = whole_seconds cfg.ttl_cleanup_interval_seconds in
      let entity_config : CacheConfig = record {
        num_counters = num_counters;
        max_cost = mul64 max_cost entity_capacity_factor;
        ttl_ticker_duration_in_sec = mul64 seconds entity_ttl_cleanup_factor;
        buffer_items = buffer_items;
      } in
      let relationship_config : CacheConfig = record {
        num_counters = num_counters;
        max_cost = max_cost;
        ttl_ticker_duration_in_sec = seconds;
        buffer_items = buffer_items;
      } in
      let created : Result StorageError InternalStorage = elim (ec.new_cache entity_config) [
        | none ↦ err failed_to_create_entities
        | some entity_cache ↦ elim (rc.new_cache relationship_config) [
          | none ↦ err failed_to_create_relationships
          | some relationship_cache ↦ ok (record {
            entities = entity_cache;
            relationships = relationship_cache;
            relationship_ttl = cfg.interval;
            entity_ttl =
                mul64 (add64 cfg.interval cfg.ttl_cleanup_interval_seconds) entity_ttl_factor;
          })
        ]
      ] in
      if not (pos 0 <ℤ? seconds) then err ttl_cleanup_too_short else created

  -- `onRelationshipEvict`: the event that goes to the channel, if both entities are still cached.
  -- The maps of attributes and the actions are Go's zero values; nothing reads them.
  unfoldable pub on_relationship_evict : StoredRelationship → ec.State → Option (Event pd)
  on_relationship_evict item entities = elim (ec.get entities item.source_hash) [
    | none ↦ none
    | some source ↦ elim (ec.get entities item.dest_hash) [
      | none ↦ none
      | some dest ↦ some (
          relationship_pointer (record {
            action = "";
            type = item.relationship_type;
            source = record {
              action = "";
              type = source.type;
              ids = source.ids;
              attributes = pd.new_map;
            };
            destination = record {
              action = "";
              type = dest.type;
              ids = dest.ids;
              attributes = pd.new_map;
            };
            attributes = pd.new_map;
          }))
    ]
  ]

  -- The hashes of the two ends, as `delete` and `update` compute them.
  unfoldable pub hash_ends : Relationship pd → Result StorageError (String × String)
  hash_ends r =
      wrap (failed_to_hash_source r.source.type) (build_entity_key pd marshal r.source)
      >>= λ source_hash.
          wrap (failed_to_hash_destination r.destination.type)
            (build_entity_key pd marshal r.destination)
          >>= λ dest_hash. ok (source_hash, dest_hash)

  unfoldable pub delete : InternalStorage → Relationship pd → InternalStorage × Option StorageError
  delete c r = elim (hash_ends r) [
    | err e ↦ (c, some e)
    | ok (source_hash, dest_hash) ↦ elim (build_relationship_key r.type source_hash dest_hash) [
      | err e ↦ (c, some (relationship_key_failed e))
      | ok key ↦ elim (rc.get c.relationships key) [
        | none ↦ (c, none)
        | some _ ↦ (record c { relationships = rc.del c.relationships key }, none)
      ]
    ]
  ]

  abbrev pub stored_entity : Entity pd → StoredEntity pd
  stored_entity e = record { type = e.type; ids = e.ids }

  -- The last part of `update`, once both entities are written.
  update_relationship :
      InternalStorage → Relationship pd → String → String → InternalStorage × Option StorageError
  update_relationship c r source_hash dest_hash =
      elim (build_relationship_key r.type source_hash dest_hash) [
        | err e ↦ (c, some (relationship_key_failed e))
        | ok key ↦
            let value : StoredRelationship = record {
              source_hash = source_hash;
              dest_hash = dest_hash;
              relationship_type = r.type;
            } in
            let (relationships, updated) =
              rc.set_with_ttl c.relationships key value item_cost c.relationship_ttl in
            let c' = record c { relationships = relationships } in
            if updated then (c', none) else (c', some (failed_to_update_relationship r.type))
      ]

  -- The middle of `update`: the entities are written, the source first.
  update_entities :
      InternalStorage → Relationship pd → String → String → InternalStorage × Option StorageError
  update_entities c r source_hash dest_hash =
      let (with_source, source_updated) =
        ec.set_with_ttl c.entities source_hash (stored_entity r.source) item_cost c.entity_ttl in
      let (with_dest, dest_updated) =
        ec.set_with_ttl with_source dest_hash (stored_entity r.destination) item_cost
          c.entity_ttl in
      if not source_updated
      then (record c { entities = with_source }, some (failed_to_update_source r.source.type))
      else if not dest_updated
      then (
        record c { entities = with_dest },
        some (failed_to_update_destination r.destination.type),
      )
      else update_relationship (record c { entities = with_dest }) r source_hash dest_hash

  unfoldable pub update : InternalStorage → Relationship pd → InternalStorage × Option StorageError
  unfolding update_entities update_relationship
  update c r = elim (hash_ends r) [
    | err e ↦ (c, some e)
    | ok (source_hash, dest_hash) ↦ update_entities c r source_hash dest_hash
  ]
