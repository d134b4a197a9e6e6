-- ===== src/WorkloadStatus/Statuses.antt =====
-- The statuses of workloads: what the counters and the flags amount to, and what a record changes.
use solarwinds_otel_collecto.Base.{
  ℕ, suc, ◌+◌, ◌≤◌, ◌≡◌, refl, Bool, true, false, not, ◌&&◌, ◌||◌, List, [], ◌∷◌, Option, some,
  String, if◌then◌else◌, ◌=s=◌, ◌==◌, length, arith, ◌++ₛ◌, to_lower, pos, ◌==ℤ◌, Bool-cases,
  Option-cases, inl, inr, eq_iff,
}
use solarwinds_otel_collecto.Connector.Pdata.{Pdata, Laws, is_text}
use solarwinds_otel_collecto.WorkloadStatus.{
  PodPhase, pod_running, pod_succeeded, pod_failed, pod_unknown, other_phase, Pod, Object, Counts,
  count_phase, count_phases, get_pods_for_workload, compute_pod_aggregate_status, Condition,
  DeploymentManifest, scan_conditions, compute_deployment_status, LogRecord, Reader, is_text,
  status_of, process_record, deployment_kind, daemon_set_kind, stateful_set_kind,
}

-- A test passes on every element, or on one.
unfoldable pub every {ℓ} : {A : Type ℓ} → (A → Bool) → List A → Bool
every p [] = true
every p (x ∷ xs) = p x && every p xs

unfoldable pub any {ℓ} : {A : Type ℓ} → (A → Bool) → List A → Bool
any p [] = false
any p (x ∷ xs) = p x || any p xs

abbrev pub is_fine : PodPhase → Bool
is_fine pod_running = true
is_fine pod_succeeded = true
is_fine _ = false

abbrev pub is_broken : PodPhase → Bool
is_broken pod_failed = true
is_broken pod_unknown = true
is_broken _ = false

count_phase-sums :
    (phase : PodPhase) (c : Counts)
    → ((count_phase phase c).running + (count_phase phase c).succeeded
        ≡ (if is_fine phase then suc (c.running + c.succeeded) else c.running + c.succeeded))
      × ((count_phase phase c).failed + (count_phase phase c).unknown
          ≡ (if is_broken phase then suc (c.failed + c.unknown) else c.failed + c.unknown))
unfolding count_phase
count_phase-sums pod_running c = (omega arith, refl)
count_phase-sums pod_succeeded c = (omega arith, refl)
count_phase-sums pod_failed c = (refl, omega arith)
count_phase-sums pod_unknown c = (refl, omega arith)
count_phase-sums (other_phase s) c = (refl, refl)

module _ {R : Type 0} where
  -- How many pods pass a test.
  count : (PodPhase → Bool) → List (Pod R) → ℕ
  count p [] = 0
  count p (x ∷ xs) = let rest = count p xs in if p x.phase then suc rest else rest

  count_phases-sums :
      (pods : List (Pod R)) (c : Counts)
      → ((count_phases pods c).running + (count_phases pods c).succeeded
          ≡ c.running + c.succeeded + count is_fine pods)
        × ((count_phases pods c).failed + (count_phases pods c).unknown
            ≡ c.failed + c.unknown + count is_broken pods)
  unfolding count_phases count
  count_phases-sums [] c = (omega arith, omega arith)
  count_phases-sums (p ∷ pods) c =
      let rest = count_phases-sums pods (count_phase p.phase c) in
      let here = count_phase-sums p.phase c in
      (ground (arith, rest.0, here.0), ground (arith, rest.1, here.1))

  count-length : (p : PodPhase → Bool) (pods : List (Pod R)) → count p pods ≤ length pods
  unfolding count
  count-length p [] = omega arith
  count-length p (x ∷ pods) = ground (arith, count-length p pods)

  count-every :
      (p : PodPhase → Bool) (pods : List (Pod R))
      → (count p pods == length pods) ≡ every (λ x. p x.phase) pods
  unfolding count every
  count-every p [] = refl
  count-every p (x ∷ pods) = ground (arith, count-every p pods, count-length p pods)

  -- The status that the comment on `computePodAggregateStatus` describes, by the phases of the pods.
  abbrev pub aggregate : List (Pod R) → String
  aggregate [] = ""
  aggregate (p ∷ pods) =
      if every (λ x. is_fine x.phase) (p ∷ pods)
      then "RUNNING"
      else if every (λ x. is_broken x.phase) (p ∷ pods)
      then "FAILED"
      else "PENDING"

  -- The counters give: no status without pods, RUNNING if every pod runs or has succeeded, FAILED if
  -- every pod has failed or is unknown, and PENDING in all other cases.
  pub compute_pod_aggregate_status-aggregate :
      (informer : Option (String → Option (List (Object R)))) (name namespace kind : String)
      → compute_pod_aggregate_status informer name namespace kind
        ≡ some (aggregate (get_pods_for_workload informer name namespace kind))
  unfolding compute_pod_aggregate_status
  compute_pod_aggregate_status-aggregate informer name namespace kind =
      by_pods (get_pods_for_workload informer name namespace kind)
    where
      start : Counts
      start = record { running = 0; succeeded = 0; failed = 0; unknown = 0 }

      by_pods :
          (pods : List (Pod R))
          → (let c = count_phases pods start in
              if length pods == 0
              then some ""
              else if c.running + c.succeeded == length pods
              then some "RUNNING"
              else if c.failed + c.unknown == length pods
              then some "FAILED"
              else some "PENDING")
            ≡ some (aggregate pods)
      by_pods [] = refl
      by_pods (p ∷ pods) =
          let sums = count_phases-sums (p ∷ pods) start in
          ground (
            arith,
            sums.0,
            sums.1,
            count-every is_fine (p ∷ pods),
            count-every is_broken (p ∷ pods),
          )

abbrev pub holds : String → Condition → Bool
holds type cond = cond.type =s= type && cond.status =s= "True"

scan_conditions-any :
    (conds : List Condition) (available progressing : Bool)
    → scan_conditions conds (available, progressing)
      ≡ (available || any (holds "Available") conds, progressing || any (holds "Progressing") conds)
unfolding scan_conditions any
scan_conditions-any [] available progressing = ground arith
scan_conditions-any (cond ∷ conds) available progressing = ground (
  arith,
  scan_conditions-any conds (holds "Available" cond || available)
      (holds "Progressing" cond || progressing),
)

-- A deployment whose manifest can be read, with replicas, is UNAVAILABLE unless a condition says
-- that it is available; then it is AVAILABLE if a condition says that it is progressing, and else
-- OUTDATED. There is no other status, whatever the order and number of the conditions.
compute_deployment_status-any :
    (unmarshal : String → Option DeploymentManifest) (body : String) (manifest : DeploymentManifest)
    → unmarshal body ≡ some manifest
    → compute_deployment_status unmarshal body
      ≡ some (
          if manifest.replicas ==ℤ pos 0
          then ""
          else if not (any (holds "Available") manifest.conditions)
          then "UNAVAILABLE"
          else if any (holds "Progressing") manifest.conditions
          then "AVAILABLE"
          else "OUTDATED")
unfolding compute_deployment_status
compute_deployment_status-any unmarshal body manifest h =
    ground (arith, h, scan_conditions-any manifest.conditions false false)

-- The attributes that the processor writes.
unfoldable pub is_status_key : String → Bool
is_status_key key =
    key =s= "sw.k8s.deployment.status"
    || (key =s= "sw.k8s.daemonset.status" || key =s= "sw.k8s.statefulset.status")

deployment_key : is_status_key "sw.k8s.deployment.status" ≡ true
unfolding is_status_key
deployment_key = refl

lowered_daemon_set : is_status_key ("sw.k8s." ++ₛ to_lower daemon_set_kind ++ₛ ".status") ≡ true
unfolding is_status_key to_lower
lowered_daemon_set = refl

lowered_stateful_set : is_status_key ("sw.k8s." ++ₛ to_lower stateful_set_kind ++ₛ ".status") ≡ true
unfolding is_status_key to_lower
lowered_stateful_set = refl

module _ (pd : Pdata) (laws : Laws pd) {R : Type 0} (r : Reader pd R) where
  status_of-key :
      (kind body key status : String)
      → status_of pd r kind body ≡ some (key, status)
      → is_status_key key ≡ true
  unfolding status_of
  status_of-key kind body key status h = elim (Bool-cases (kind =s= deployment_kind)) [
    | inl deployed ↦ elim (Option-cases (compute_deployment_status r.unmarshal_deployment body)) [
      | inl failed ↦ absurd (ground arith)
      | inr (found, e) ↦
          let same : key ≡ "sw.k8s.deployment.status" = ground arith in rw same deployment_key
    ]
    | inr other ↦ elim (Option-cases (r.extract_name_namespace body)) [
      | inl failed ↦ absurd (ground arith)
      | inr ((name, namespace), e) ↦
          let same : key ≡ "sw.k8s." ++ₛ to_lower kind ++ₛ ".status" = ground arith in
          elim (Bool-cases (kind =s= daemon_set_kind)) [
            | inl d ↦ rw (same, (eq_iff kind daemon_set_kind).0 d) lowered_daemon_set
            | inr n ↦ elim (Bool-cases (kind =s= stateful_set_kind)) [
              | inl t ↦ rw (same, (eq_iff kind stateful_set_kind).0 t) lowered_stateful_set
              | inr neither ↦ absurd (ground arith)
            ]
          ]
    ]
  ]

  -- A record keeps its body and all its attributes but for the three attributes of statuses.
  pub process_record-frame :
      (lr : LogRecord pd) (j : String)
      → is_status_key j ≡ false
      → ((process_record pd r lr).body ≡ lr.body)
        × (pd.get (process_record pd r lr).attributes j ≡ pd.get lr.attributes j)
  unfolding process_record
  process_record-frame lr j other = elim (Option-cases (pd.get lr.attributes "k8s.object.kind")) [
    | inl e ↦ rw (e, process_record) (refl, refl)
    | inr (kind, e) ↦ elim (Bool-cases (is_text (pd.type_of lr.body))) [
      | inr t ↦ rw (e, t, process_record) (refl, refl)
      | inl t ↦ elim (Option-cases (status_of pd r (pd.str kind) (pd.str lr.body))) [
        | inl n ↦ rw (e, t, n, process_record) (refl, refl)
        | inr ((key, status), w) ↦
            let written = status_of-key (pd.str kind) (pd.str lr.body) key status w in
            rw (e, t, w, process_record)
              (
                refl,
                ground (
                  arith,
                  laws.get-put_str lr.attributes key status j,
                  eq_iff key j,
                  written,
                  other,
                ),
              )
      ]
    ]
  ]
