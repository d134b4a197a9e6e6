-- ===== src/WorkloadStatus.antt =====
-- processor/swok8sworkloadstatusprocessor: processor.go, internal/cache.go and internal/lookup.go. The
-- processor adds the status of a workload to the log record that holds its manifest. client-go and
-- the JSON decoder are of packages outside the repository; logging is left out.
pub mod Ownership
pub mod Statuses
pub mod Examples
use solarwinds_otel_collecto.Base.{
  ℕ, zero, suc, ◌+◌, ◌-◌, Bool, true, false, not, ◌&&◌, ◌||◌, List, [], ◌∷◌, ◌++◌, map, Option,
  none, some, String, if◌then◌else◌, ◌=s=◌, ◌==◌, leb, length, contains, ◌++ₛ◌, to_lower, ℤ, pos,
  ◌==ℤ◌,
}
use solarwinds_otel_collecto.Connector.Pdata.{Pdata, is_text}

abbrev pub pod_kind : String
pod_kind = "Pod"

abbrev pub deployment_kind : String
deployment_kind = "Deployment"

abbrev pub stateful_set_kind : String
stateful_set_kind = "StatefulSet"

abbrev pub daemon_set_kind : String
daemon_set_kind = "DaemonSet"

-- The values of `corev1.PodPhase` that the processor names, and every other text.
pub data PodPhase : Type 0 where
  pod_running pod_succeeded pod_failed pod_unknown : PodPhase
  other_phase : String → PodPhase

-- `metav1.OwnerReference`, and `corev1.Pod`, with all their other fields in `rest`.
pub record OwnerReference (R : Type 0) : Type 0 where
  pub kind : String
  pub name : String
  pub rest : R

pub record Pod (R : Type 0) : Type 0 where
  pub kind : String
  pub name : String
  pub namespace : String
  pub owner_references : List (OwnerReference R)
  pub phase : PodPhase
  pub rest : R

-- What an informer holds: pods, or an object of another type.
pub data Object (R : Type 0) : Type 0 where
  pod : Pod R → Object R
  unexpected : R → Object R

module _ {R : Type 0} (zero_rest : R) where
  -- `copyOwnerReferences`: the other fields of a reference get their zero values.
  abbrev pub copy_owner_references : List (OwnerReference R) → List (OwnerReference R)
  copy_owner_references = map (λ (ref : OwnerReference R). record ref { rest = zero_rest })

  -- `PodTransformFunc`: what the informer stores of a pod.
  unfoldable pub pod_transform : Object R → Object R
  pod_transform (unexpected r) = unexpected r
  pod_transform (pod p) = pod (record {
    kind = pod_kind;
    name = p.name;
    namespace = p.namespace;
    owner_references = copy_owner_references p.owner_references;
    phase = p.phase;
    rest = zero_rest;
  })

abbrev pub owner_key : String → String → String → String
owner_key namespace kind name = namespace ++ₛ "/" ++ₛ kind ++ₛ "/" ++ₛ name

-- `WorkloadOwnerIndexer`: the keys under which an object is indexed.
unfoldable pub workload_owner_index : {R : Type 0} → Object R → List String
workload_owner_index (unexpected _) = []
workload_owner_index (pod p) =
    map (λ owner. owner_key p.namespace owner.kind owner.name) p.owner_references

unfoldable pub pods_of : {R : Type 0} → List (Object R) → List (Pod R)
pods_of [] = []
pods_of (pod p ∷ objs) = p ∷ pods_of objs
pods_of (unexpected _ ∷ objs) = pods_of objs

-- `getPodsForWorkload`: the informer may be nil; `ByIndex` of its indexer may fail.
unfoldable pub get_pods_for_workload :
    {R : Type 0}
    → Option (String → Option (List (Object R)))
    → String
    → String
    → String
    → List (Pod R)
get_pods_for_workload none workload_name namespace kind = []
get_pods_for_workload (some by_index) workload_name namespace kind =
    elim (by_index (owner_key namespace kind workload_name)) [
      | none ↦ []
      | some objs ↦ pods_of objs
    ]

pub record Counts : Type 0 where
  pub running : ℕ
  pub succeeded : ℕ
  pub failed : ℕ
  pub unknown : ℕ

unfoldable pub count_phase : PodPhase → Counts → Counts
count_phase pod_running c = record c { running = suc c.running }
count_phase pod_succeeded c = record c { succeeded = suc c.succeeded }
count_phase pod_failed c = record c { failed = suc c.failed }
count_phase pod_unknown c = record c { unknown = suc c.unknown }
count_phase (other_phase _) c = c

unfoldable pub count_phases : {R : Type 0} → List (Pod R) → Counts → Counts
count_phases [] c = c
count_phases (p ∷ pods) c = count_phases pods (count_phase p.phase c)

-- `computePodAggregateStatus`; none is `false` in its second result.
unfoldable pub compute_pod_aggregate_status :
    {R : Type 0}
    → Option (String → Option (List (Object R)))
    → String
    → String
    → String
    → Option String
compute_pod_aggregate_status informer workload_name namespace kind =
    let pods = get_pods_for_workload informer workload_name namespace kind in
    let total = length pods in
    let c = count_phases pods (record { running = 0; succeeded = 0; failed = 0; unknown = 0 }) in
    if total == 0
    then some ""
    else if c.running + c.succeeded == total
    then some "RUNNING"
    else if c.failed + c.unknown == total
    then some "FAILED"
    else some "PENDING"

pub record Condition : Type 0 where
  pub type : String
  pub status : String

pub record DeploymentManifest : Type 0 where
  pub replicas : ℤ
  pub conditions : List Condition

-- The loop over the conditions, with its two flags.
unfoldable pub scan_conditions : List Condition → Bool × Bool → Bool × Bool
scan_conditions [] flags = flags
scan_conditions (cond ∷ conds) (available, progressing) = scan_conditions conds (
  (cond.type =s= "Available" && cond.status =s= "True") || available,
  (cond.type =s= "Progressing" && cond.status =s= "True") || progressing,
)

-- `computeDeploymentStatus`; the decoder of the manifest is a parameter.
unfoldable pub compute_deployment_status :
    (String → Option DeploymentManifest) → String → Option String
compute_deployment_status unmarshal body = elim (unmarshal body) [
  | none ↦ none
  | some manifest ↦
      let (available, progressing) = scan_conditions manifest.conditions (false, false) in
      if manifest.replicas ==ℤ pos 0
      then some ""
      else if available && progressing
      then some "AVAILABLE"
      else if available && not progressing
      then some "OUTDATED"
      else if not available
      then some "UNAVAILABLE"
      else some "OTHER"
]

module _ (pd : Pdata) where
  pub record LogRecord : Type 0 where
    pub attributes : pd.Map
    pub body : pd.Value

  -- What the processor reads: the two decoders of manifests, and its informer of pods.
  pub record Reader (R : Type 0) : Type 0 where
    pub unmarshal_deployment : String → Option DeploymentManifest
    pub extract_name_namespace : String → Option (String × String)
    pub informer : Option (String → Option (List (Object R)))

  module _ {R : Type 0} (r : Reader R) where
    -- The attribute that the `switch` on the kind writes, if any.
    unfoldable pub status_of : String → String → Option (String × String)
    status_of kind body =
        if kind =s= deployment_kind
        then elim (compute_deployment_status r.unmarshal_deployment body) [
          | none ↦ none
          | some status ↦ some ("sw.k8s.deployment.status", status)
        ]
        else if kind =s= daemon_set_kind || kind =s= stateful_set_kind
        then elim (r.extract_name_namespace body) [
          | none ↦ none
          | some (name, namespace) ↦
              elim (compute_pod_aggregate_status r.informer name namespace kind) [
                | none ↦ none
                | some status ↦ some ("sw.k8s." ++ₛ to_lower kind ++ₛ ".status", status)
              ]
        ]
        else none

    -- The write at the end of a branch.
    write_status : Option (String × String) → LogRecord → LogRecord
    write_status none lr = lr
    write_status (some (key, status)) lr = record lr {
      attributes = pd.put_str lr.attributes key status;
    }

    -- The body of the loops of `processLogs`: a record without a kind, or whose body is not a text, is
    -- passed over.
    unfoldable pub process_record : LogRecord → LogRecord
    unfolding write_status
    process_record lr = elim (pd.get lr.attributes "k8s.object.kind") [
      | none ↦ lr
      | some kind_attr ↦
          if not (is_text (pd.type_of lr.body))
          then lr
          else write_status (status_of (pd.str kind_attr) (pd.str lr.body)) lr
    ]

    -- `processLogs`: the records of all scopes of all resources.
    unfoldable pub process_logs : List (List (List LogRecord)) → List (List (List LogRecord))
    process_logs = map (map (map process_record))
