-- ===== src/K8sEvents/Times.antt =====
-- The timestamps of the records that are generated.
use solarwinds_otel_collecto.Base.{ℕ, ◌≡◌, refl, ◌+◌, ◌-◌, false, arith, ltb, if◌then◌else◌}
use solarwinds_otel_collecto.Connector.Pdata.{Pdata}
use solarwinds_otel_collecto.K8sEvents.Records.{LogRecord}
use solarwinds_otel_collecto.K8sEvents.Pipeline.{Clock, is_zero, get_timestamp}

-- The documented time of a timestamp: as many nanoseconds after the start of 1970 as the 64 bits say
-- when they are read as a signed number. 1970 starts 62135596800 seconds after the year 1.
abbrev pub unix_time : ℕ → ℕ
unix_time t =
    if ltb t 9223372036854775808
    then 62135596800000000000 + t
    else (62135596800000000000 + t) - 18446744073709551616

unix_time-is_zero : (t : ℕ) → is_zero (unix_time t) ≡ false
unix_time-is_zero t = ground arith

-- With the documented times, the observed timestamp of a record is taken even if it was never set:
-- neither the other timestamp nor the current time is used, since no timestamp is as early as the
-- year 1.
pub get_timestamp-observed :
    (pd : Pdata) (clock : Clock) (lr : LogRecord pd)
    → ((t : ℕ) → clock.as_time t ≡ unix_time t)
    → get_timestamp pd clock lr ≡ lr.observed_timestamp
unfolding get_timestamp
get_timestamp-observed pd clock lr unix =
    rw (unix lr.observed_timestamp) (rw (unix_time-is_zero lr.observed_timestamp) refl)
