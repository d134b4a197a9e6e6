-- ===== src/Connector/Storage/Lifetimes.antt =====
-- The times to live and the sizes of the two caches.
use solarwinds_otel_collecto.Base.{
  ℕ, ◌+◌, ◌*◌, ◌^◌, ◌<◌, ◌≡◌, ap, ap₂, ◌∙◌, ok, ℤ, pos, add64, mul64, arith,
}
use solarwinds_otel_collecto.Connector.Pdata.{Pdata}
use solarwinds_otel_collecto.Connector.Config.Expiration.{ExpirationPolicy}
use solarwinds_otel_collecto.Connector.Keys.{Marshal}
use solarwinds_otel_collecto.Connector.Storage.{
  Cache, StoredEntity, StoredRelationship, InternalStorage, new_internal_storage,
}

-- Without overflow, `int64` arithmetic on numbers that are not negative is that of ℕ.
add64-pos : (a b : ℕ) → a + b < 2 ^ 63 → add64 (pos a) (pos b) ≡ pos (a + b)
unfolding add64
add64-pos a b h = ground arith

mul64-pos_five : (a : ℕ) → a * 5 < 2 ^ 63 → mul64 (pos a) 5 ≡ pos (a * 5)
unfolding mul64
mul64-pos_five a h = ground arith

module _ (pd : Pdata) (marshal : Marshal pd) (ec : Cache (StoredEntity pd))
    (rc : Cache StoredRelationship) (whole_seconds : ℤ → ℤ) where
  -- Below 58 years nothing wraps, and the entities outlive the relationship: by more than the
  -- interval and the cleanup interval, after which an expired relationship is evicted.
  pub entity_ttl-outlives :
      (cfg : ExpirationPolicy) (interval cleanup : ℕ) (c : InternalStorage pd marshal ec rc)
      → cfg.interval ≡ pos interval
      → cfg.ttl_cleanup_interval_seconds ≡ pos cleanup
      → (interval + cleanup) * 5 < 2 ^ 63
      → 0 < cleanup
      → new_internal_storage pd marshal ec rc whole_seconds cfg ≡ ok c
      → (c.relationship_ttl ≡ pos interval)
        × (c.entity_ttl ≡ pos ((interval + cleanup) * 5))
        × (interval + cleanup < (interval + cleanup) * 5)
  unfolding new_internal_storage
  entity_ttl-outlives cfg interval cleanup c i t bound p h =
      let ttl : c.entity_ttl ≡ mul64 (add64 cfg.interval cfg.ttl_cleanup_interval_seconds) 5 =
        ground arith in
      let wide : add64 cfg.interval cfg.ttl_cleanup_interval_seconds ≡ pos (interval + cleanup) =
        ap₂ add64 i t ∙ add64-pos interval cleanup (omega arith) in
      (
        ground arith,
        ttl ∙ ap (λ d. mul64 d 5) wide ∙ mul64-pos_five (interval + cleanup) bound,
        omega arith,
      )
