-- ===== src/WorkloadStatus/Examples.antt =====
-- The theorems about statuses at concrete inputs: a daemon set with two pods, and a deployment.
use solarwinds_otel_collecto.Base.{
  ℕ, ◌≡◌, refl, true, false, List, [], ◌∷◌, map, keep, Option, some, String, contains, pos, All,
  lookup,
}
use solarwinds_otel_collecto.Connector.Samples.{text, sample, sample_laws}
use solarwinds_otel_collecto.WorkloadStatus.{
  Pod, Object, pod, pod_running, pod_succeeded, pod_failed, PodPhase, pod_transform,
  workload_owner_index, pods_of, get_pods_for_workload, compute_pod_aggregate_status,
  DeploymentManifest, compute_deployment_status, scan_conditions, count_phases, count_phase, Reader,
  LogRecord, process_record,
}
use solarwinds_otel_collecto.WorkloadStatus.Statuses
use solarwinds_otel_collecto.WorkloadStatus.Statuses.{aggregate, any, holds, is_status_key}
use solarwinds_otel_collecto.WorkloadStatus.Ownership
use solarwinds_otel_collecto.WorkloadStatus.Ownership.{Slashless, is_owned, slash_free}

abbrev pod_of : String → PodPhase → Pod ℕ
pod_of owner phase = record {
  kind = "";
  name = "p";
  namespace = "default";
  owner_references = record { kind = "DaemonSet"; name = owner; rest = 1 } ∷ [];
  phase = phase;
  rest = 7;
}

abbrev objects : List (Object ℕ)
objects =
    pod (pod_of "agent" pod_running)
    ∷ pod (pod_of "other" pod_failed)
    ∷ pod (pod_of "agent" pod_succeeded)
    ∷ []

abbrev by_index : String → Option (List (Object ℕ))
by_index key =
    some (keep (λ o. contains key (workload_owner_index o)) (map (pod_transform 0) objects))

compute_pod_aggregate_status-aggregate_example :
    compute_pod_aggregate_status (some by_index) "agent" "default" "DaemonSet"
    ≡ some (aggregate (get_pods_for_workload (some by_index) "agent" "default" "DaemonSet"))
compute_pod_aggregate_status-aggregate_example =
    Statuses.compute_pod_aggregate_status-aggregate (some by_index) "agent" "default" "DaemonSet"

agents_run :
    compute_pod_aggregate_status (some by_index) "agent" "default" "DaemonSet" ≡ some "RUNNING"
unfolding compute_pod_aggregate_status get_pods_for_workload pods_of keep contains
    workload_owner_index pod_transform count_phases count_phase
agents_run = refl

slashless : All Slashless (pods_of objects)
unfolding pods_of slash_free
slashless = ((refl, (refl, tt)), ((refl, (refl, tt)), ((refl, (refl, tt)), tt)))

slash_free_texts : (slash_free "default" ≡ true) × (slash_free "DaemonSet" ≡ true)
unfolding slash_free
slash_free_texts = (refl, refl)

get_pods_for_workload-is_owned_example :
    map (λ p. p.phase) (get_pods_for_workload (some by_index) "agent" "default" "DaemonSet")
    ≡ map (λ p. p.phase) (keep (is_owned "default" "DaemonSet" "agent") (pods_of objects))
get_pods_for_workload-is_owned_example =
    Ownership.get_pods_for_workload-is_owned 0 by_index objects "agent" "default" "DaemonSet"
      (λ key. refl) slashless slash_free_texts.0 slash_free_texts.1

abbrev manifest : DeploymentManifest
manifest = record {
  replicas = pos 2;
  conditions =
      record { type = "Progressing"; status = "False" }
      ∷ record { type = "Available"; status = "True" }
      ∷ [];
}

abbrev decode : String → Option DeploymentManifest
decode _ = some manifest

deployment_outdated : compute_deployment_status decode "{}" ≡ some "OUTDATED"
unfolding compute_deployment_status scan_conditions
deployment_outdated = refl

abbrev reader : Reader sample ℕ
reader = record {
  unmarshal_deployment = decode;
  extract_name_namespace = λ body. some ("agent", "default");
  informer = some by_index;
}

abbrev log_record : LogRecord sample
log_record = record {
  attributes = ("k8s.object.kind", text "DaemonSet") ∷ ("cluster", text "c") ∷ [];
  body = text "{}";
}

not_a_status : is_status_key "cluster" ≡ false
unfolding is_status_key
not_a_status = refl

process_record-frame_example :
    ((process_record sample reader log_record).body ≡ log_record.body)
    × (lookup "cluster" (process_record sample reader log_record).attributes
        ≡ lookup "cluster" log_record.attributes)
process_record-frame_example =
    Statuses.process_record-frame sample sample_laws reader log_record "cluster" not_a_status
