-- ===== src/Connector/Examples/Cached.antt =====
-- The theorems about the caches and what expires from them at concrete inputs.
use solarwinds_otel_collecto.Base.{
  ◌≡◌, refl, ◌<◌, ◌+◌, ◌*◌, ◌/◌, Bool, true, false, [], ◌∷◌, ◌++◌, Option, none, some, Dict, ok,
  true, ℤ, pos, negsuc, arith, lookup, lookup-delete, add64, mul64,
}
use solarwinds_otel_collecto.Connector.Samples.{sample, sample_marshal, sample_cache}
use solarwinds_otel_collecto.Connector.Events.{Event, EventLog, delete_event, relationship_pointer}
use solarwinds_otel_collecto.Connector.Storage.{
  Cache, CacheConfig, StoredEntity, StoredRelationship, StorageError, InternalStorage,
  stored_entity, failed_to_update_relationship, new_internal_storage, on_relationship_evict,
}
use solarwinds_otel_collecto.Connector.Keys.{build_entity_key, build_relationship_key, hex, fnv64a}
use solarwinds_otel_collecto.Connector.Storage
use solarwinds_otel_collecto.Connector.Storage.Lifetimes
use solarwinds_otel_collecto.Connector.Storage.Effects
use solarwinds_otel_collecto.Connector.Storage.Effects.{cache_key, Deleted, SameEnds}
use solarwinds_otel_collecto.Connector.Manager.{
  Receiver, Run, begin, expire, fire, start, on_expired, on_timer, expired_log,
}
use solarwinds_otel_collecto.Connector.Manager.Batches
use solarwinds_otel_collecto.Connector.Manager.Batches.{Accounts}
use solarwinds_otel_collecto.Connector.Examples.{policy, pod_entity, a_calls_b, five_minutes}

abbrev entities : Cache (StoredEntity sample)
entities = sample_cache (StoredEntity sample)

abbrev relationships : Cache StoredRelationship
relationships = sample_cache StoredRelationship

abbrev empty_storage : InternalStorage sample sample_marshal entities relationships
empty_storage = record {
  entities = [];
  relationships = [];
  relationship_ttl = five_minutes;
  entity_ttl = pos 1600000000000;
}

delete-Deleted_example :
    let after =
      Storage.delete sample sample_marshal entities relationships empty_storage a_calls_b in
    (after.0.entities ≡ empty_storage.entities)
    × Deleted sample sample_marshal entities relationships empty_storage after "key"
        (cache_key sample sample_marshal entities relationships a_calls_b)
delete-Deleted_example =
    Effects.delete-Deleted sample sample_marshal entities relationships empty_storage a_calls_b
      "key" (λ s k j. lookup-delete k j s)

-- A cache that refuses every write.
abbrev full_cache : Cache StoredRelationship
full_cache = record relationships { set_with_ttl = λ s k v cost ttl. (s, false) }

abbrev full_storage : InternalStorage sample sample_marshal entities full_cache
full_storage = record {
  entities = [];
  relationships = [];
  relationship_ttl = five_minutes;
  entity_ttl = pos 1600000000000;
}

abbrev refused : InternalStorage sample sample_marshal entities full_cache × Option StorageError
refused = Storage.update sample sample_marshal entities full_cache full_storage a_calls_b

update_refused : refused ≡ (refused.0, some (failed_to_update_relationship "Calls"))
unfolding Storage.update Storage.hash_ends build_entity_key build_relationship_key hex fnv64a
update_refused = refl

abbrev item : StoredRelationship
item = record { source_hash = "1"; dest_hash = "2"; relationship_type = "Calls" }

abbrev cached : Dict (StoredEntity sample)
cached =
    ("1", stored_entity sample sample_marshal entities relationships (pod_entity "a"))
    ∷ ("2", stored_entity sample sample_marshal entities relationships (pod_entity "b"))
    ∷ []

first_cached :
    lookup "1" cached
    ≡ some (stored_entity sample sample_marshal entities relationships a_calls_b.source)
unfolding lookup
first_cached = refl

second_cached :
    lookup "2" cached
    ≡ some (stored_entity sample sample_marshal entities relationships a_calls_b.destination)
unfolding lookup
second_cached = refl

on_relationship_evict-delete_event_example :
    (event : Event sample) × (on_relationship_evict sample sample_marshal entities relationships
        item cached
      ≡ some event)
    × (delete_event sample 7 event [] ≡ delete_event sample 7 (relationship_pointer a_calls_b) [])
on_relationship_evict-delete_event_example =
    Effects.on_relationship_evict-delete_event sample sample_marshal entities relationships
      a_calls_b item cached 7 [] true true refl first_cached second_cached

-- Whole seconds of a time in nanoseconds that is not negative.
abbrev whole_seconds : ℤ → ℤ
whole_seconds (pos n) = pos (n / 1000000000)
whole_seconds (negsuc _) = pos 0

storage_created :
    new_internal_storage sample sample_marshal entities relationships whole_seconds policy
    ≡ ok empty_storage
unfolding new_internal_storage mul64 add64
storage_created = refl

entity_ttl-outlives_example :
    (empty_storage.relationship_ttl ≡ pos 300000000000)
    × (empty_storage.entity_ttl ≡ pos ((300000000000 + 20000000000) * 5))
    × (300000000000 + 20000000000 < (300000000000 + 20000000000) * 5)
entity_ttl-outlives_example =
    Lifetimes.entity_ttl-outlives sample sample_marshal entities relationships whole_seconds policy
      300000000000 20000000000 empty_storage refl refl (ground arith) (ground arith) storage_created

abbrev accept : EventLog sample → Bool
accept _ = true

abbrev expired : Event sample
expired = relationship_pointer a_calls_b

abbrev sent : Receiver sample
sent = record {
  batch = none;
  timer = false;
  stopped = false;
  sent = expired_log sample 9 (expired ∷ expired ∷ []) ∷ [];
}

-- Two relationships expire before the timer fires.
two_expired : Run sample accept (([] ++ expired ∷ []) ++ expired ∷ []) sent
unfolding start on_expired on_timer
two_expired = fire 9 (expire expired (expire expired begin refl) refl) refl refl refl

Run-Accounts_example : Accounts sample accept (([] ++ expired ∷ []) ++ expired ∷ []) sent
Run-Accounts_example = Batches.Run-Accounts sample accept two_expired
