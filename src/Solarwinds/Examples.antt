-- ===== src/Solarwinds/Examples.antt =====
-- The decoration of one resource: a machine of GCP whose host has an ID of its own.
use solarwinds_otel_collecto.Base.{
  Result, String, ℕ, ◌≡◌, refl, true, false, ◌⊎◌, List, [], ◌∷◌, Option, none, some, Dict, lookup,
  insert, delete, lookup-insert, lookup-delete, ok, err, map, pos, ◌<ℤ?◌, to_lower, ◌=s=◌, length,
}
use solarwinds_otel_collecto.Connector.Samples.{sample, sample_laws, SampleValue, text}
use solarwinds_otel_collecto.Solarwinds.HostAttributes.{Values, ValuesLaws, new_host_attributes}
use solarwinds_otel_collecto.Solarwinds.Processor.{
  SolarwindsProcessor, SignalKind, metrics, failed_to_marshal, failed_to_notify, Warning,
  process_signal, decorated, new_processor,
}
use solarwinds_otel_collecto.Solarwinds.Expected.{
  expected, expected_host, expected_id, gcp_id, own_id,
}
use solarwinds_otel_collecto.Solarwinds.Decorated
use solarwinds_otel_collecto.Solarwinds.Extension.{CommonConfig, Extension, StartError, start}
use solarwinds_otel_collecto.Solarwinds.Started
use solarwinds_otel_collecto.Solarwinds.Started.{started}

abbrev sample_values : Values sample
unfolding insert delete to_lower
sample_values = record {
  remove = λ m k. delete k m;
  set_str = λ m k v. insert k (text v) m;
  missing_str = "";
  equal_fold = λ a b. to_lower a =s= to_lower b;
}

sample_values_laws : ValuesLaws sample sample_values
unfolding lookup sample_values delete
sample_values_laws = record {
  get-remove = λ m k j. lookup-delete k j m;
  get-set_str = λ m k v j h. lookup-insert k j (text v) m;
}

abbrev sample_processor : SolarwindsProcessor
unfolding new_processor
sample_processor =
    new_processor
      (record { read_container_instance_id = err "no container"; is_run_in_containerd = false })
      (record {
        max_size_mib = pos 6;
        resource_attributes = ("sw.otelcol.collector.name", "c") ∷ [];
        collector_attributes_decoration = record { enabled = false; extension_name = "" };
        host_attributes_decoration = record { enabled = true; on_prem_override_id = "client" };
      })

abbrev machine : Dict SampleValue
machine =
    ("cloud.provider", text "gcp")
    ∷ ("cloud.account.id", text "project")
    ∷ ("cloud.availability_zone", text "zone")
    ∷ ("host.id", text "7")
    ∷ []

abbrev size_of : SignalKind → List (Dict SampleValue) → Option ℕ
size_of _ resources = some (length resources)

process_signal-expected_example :
    ((out : List (Dict SampleValue)) × (warning : Option Warning) × (process_signal sample
          sample_values size_of metrics sample_processor
          (machine ∷ [])
        ≡ ok (out, warning))
      × (map (λ m. lookup "host.id" m) out ≡ some (text "project:zone:7") ∷ []))
    ⊎ ((process_signal sample sample_values size_of metrics sample_processor (machine ∷ [])
          ≡ err (failed_to_notify metrics failed_to_marshal))
        × ((pos 0 <ℤ? pos 6) ≡ true)
        × (size_of metrics (decorated sample sample_values sample_processor (machine ∷ [])) ≡ none))
unfolding expected lookup new_processor expected_host expected_id gcp_id own_id new_host_attributes
process_signal-expected_example =
    Decorated.process_signal-expected sample sample_values sample_laws sample_values_laws size_of
      metrics sample_processor (machine ∷ []) "host.id" (refl, tt)

abbrev starting : SolarwindsProcessor
unfolding new_processor
starting =
    new_processor
      (record { read_container_instance_id = err "no container"; is_run_in_containerd = false })
      (record {
        max_size_mib = pos 6;
        resource_attributes = ("sw.otelcol.collector.name", "old") ∷ [];
        collector_attributes_decoration = record { enabled = true; extension_name = "sw" };
        host_attributes_decoration = record { enabled = true; on_prem_override_id = "client" };
      })

abbrev cfg : CommonConfig
cfg = record { collector_name = "edge"; without_entity = false }

abbrev find_extension : String → Result StartError Extension
find_extension name = ok (record { common_config = some cfg })

start-started_example :
    (p' : SolarwindsProcessor) × (start find_extension starting ≡ ok p')
    × (map
          (λ m. lookup "sw.otelcol.collector.name" m)
          (decorated sample sample_values p' (machine ∷ []))
        ≡ some (text "edge") ∷ [])
unfolding started lookup new_processor
start-started_example =
    Started.start-started sample sample_values sample_laws sample_values_laws find_extension
      starting (record { common_config = some cfg }) cfg (machine ∷ []) "sw.otelcol.collector.name"
      refl refl refl (refl, tt)
