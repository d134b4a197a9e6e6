-- ===== src/Connector/Config/Expiration.antt =====
-- connector/solarwindsentityconnector/config/expiration_policy.go. `time.ParseDuration` is a
-- parameter: nanoseconds, or none for an error.
use solarwinds_otel_collecto.Base.{
  ◌≡◌, Bool, true, false, not, List, [], ◌∷◌, ◌++◌, Option, none, some, String, Result, ok, err,
  ◌>>=◌, if◌then◌else◌, arith, ℤ, pos, ◌<ℤ?◌, error_of, first,
}

pub record ExpirationSettings : Type 0 where
  pub enabled : Bool
  pub interval : String
  pub max_capacity : ℤ
  pub ttl_cleanup_interval : String

pub record ExpirationPolicy : Type 0 where
  pub enabled : Bool
  pub interval : ℤ
  pub ttl_cleanup_interval_seconds : ℤ
  pub max_capacity : ℤ

pub data ExpirationError : Type 0 where
  interval_invalid max_capacity_invalid : ExpirationError
  cleanup_interval_invalid cleanup_interval_too_short : ExpirationError

abbrev pub second : ℤ
second = pos 1000000000

-- The zero value of the struct, with the flag that it is given.
abbrev pub disabled : ExpirationPolicy
disabled = record {
  enabled = false;
  interval = pos 0;
  ttl_cleanup_interval_seconds = pos 0;
  max_capacity = pos 0;
}

-- `errors.Join` of an error that may be nil to those before.
abbrev pub join_err {ℓ} :
    {A : Type ℓ} → Result ExpirationError A → List ExpirationError → List ExpirationError
join_err (ok _) errs = errs
join_err (err e) errs = errs ++ e ∷ []

module _ (parse_duration : String → Option ℤ) where
  get_interval : ExpirationSettings → Result ExpirationError ℤ
  get_interval e = elim (parse_duration e.interval) [
    | none ↦ err interval_invalid
    | some interval ↦ ok interval
  ]

  get_max_capacity : ExpirationSettings → Result ExpirationError ℤ
  get_max_capacity e =
      if pos 0 <ℤ? e.max_capacity then ok e.max_capacity else err max_capacity_invalid

  get_ttl_cleanup_interval : ExpirationSettings → Result ExpirationError ℤ
  get_ttl_cleanup_interval e = elim (parse_duration e.ttl_cleanup_interval) [
    | none ↦ err cleanup_interval_invalid
    | some parsed ↦ if parsed <ℤ? second then err cleanup_interval_too_short else ok parsed
  ]

  unfoldable pub validate : ExpirationSettings → List ExpirationError
  unfolding get_interval get_max_capacity get_ttl_cleanup_interval
  validate e =
      if not e.enabled
      then []
      else join_err (get_ttl_cleanup_interval e)
          (join_err (get_max_capacity e) (join_err (get_interval e) []))

  -- The body of `Unmarshal` for a policy that is enabled.
  read : ExpirationSettings → Result ExpirationError ExpirationPolicy
  read e = do
    interval ← get_interval e
    max_capacity ← get_max_capacity e
    ttl_cleanup_interval ← get_ttl_cleanup_interval e
    ok (record {
      enabled = true;
      interval = interval;
      ttl_cleanup_interval_seconds = ttl_cleanup_interval;
      max_capacity = max_capacity;
    })

  unfoldable pub unmarshal : ExpirationSettings → Result ExpirationError ExpirationPolicy
  unfolding get_interval get_max_capacity get_ttl_cleanup_interval read
  unmarshal e = if not e.enabled then ok disabled else read e

  -- `Unmarshal` fails exactly if `Validate` reports an error, and then with the first that it
  -- reports.
  unmarshal-validate : (e : ExpirationSettings) → error_of (unmarshal e) ≡ first (validate e)
  unfolding validate unmarshal
  unmarshal-validate e = ground arith

  -- A policy that is enabled has a positive capacity and a cleanup interval of a second or more,
  -- and the durations are those that the texts stand for.
  unmarshal_bounds :
      (e : ExpirationSettings) (p : ExpirationPolicy)
      → unmarshal e ≡ ok p
      → p.enabled ≡ true
      → (e.enabled ≡ true)
        × (pos 0 <ℤ? p.max_capacity ≡ true)
        × (p.ttl_cleanup_interval_seconds <ℤ? second ≡ false)
        × (parse_duration e.interval ≡ some p.interval)
        × (parse_duration e.ttl_cleanup_interval ≡ some p.ttl_cleanup_interval_seconds)
  unfolding unmarshal
  unmarshal_bounds e p h on = ground arith
