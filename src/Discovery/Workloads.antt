-- ===== src/Discovery/Workloads.antt =====
-- workload.go: the workload that controls a pod. The API server's look-ups of replica sets and jobs, by
-- namespace and name, are a parameter: the owners of what is found, or none for an error.
use solarwinds_otel_collecto.Base.{
  Bool, false, ◌&&◌, List, [], ◌∷◌, Option, none, some, String, if◌then◌else◌, ◌=s=◌,
}
use solarwinds_otel_collecto.Discovery.Services.{Owner, Pod}

abbrev pub kind_deployment : String
kind_deployment = "Deployment"

abbrev pub kind_replica_set : String
kind_replica_set = "ReplicaSet"

abbrev pub kind_job : String
kind_job = "Job"

abbrev pub kind_cron_job : String
kind_cron_job = "CronJob"

abbrev pub kind_service : String
kind_service = "Service"

pub record Client : Type 0 where
  pub replica_set_owners : String → String → Option (List Owner)
  pub job_owners : String → String → Option (List Owner)

abbrev pub is_controller : Owner → Bool
is_controller o = elim o.controller [ none ↦ false | some flag ↦ flag ]

-- The first owner that controls, else the one that is given.
unfoldable pub controller_of : Owner → List Owner → Owner
controller_of default [] = default
controller_of default (o ∷ owners) = if is_controller o then o else controller_of default owners

-- A controlling owner of the kind, else the kind and the name that are given.
unfoldable pub owner_of_kind : String → String × String → List Owner → String × String
owner_of_kind kind default [] = default
owner_of_kind kind default (o ∷ owners) =
    if is_controller o && o.kind =s= kind then (kind, o.name) else owner_of_kind kind default owners

-- One hop further, if the owner is found.
abbrev pub hop : String → String × String → Option (List Owner) → String × String
hop kind default none = default
hop kind default (some owners) = owner_of_kind kind default owners

-- `resolveWorkloadForPod`: kind and name, empty if the pod has no owner.
unfoldable pub resolve_workload : Client → Pod → String × String
resolve_workload client pod = elim pod.owners [
  | [] ↦ ("", "")
  | first ∷ owners ↦
      let ctrl = controller_of first (first ∷ owners) in
      if ctrl.kind =s= kind_replica_set
      then hop kind_deployment (ctrl.kind, ctrl.name)
          (client.replica_set_owners pod.namespace ctrl.name)
      else if ctrl.kind =s= kind_job
      then hop kind_cron_job (ctrl.kind, ctrl.name) (client.job_owners pod.namespace ctrl.name)
      else (ctrl.kind, ctrl.name)
]
