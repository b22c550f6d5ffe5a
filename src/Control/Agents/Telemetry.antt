-- ===== src/Control/Agents/Telemetry.antt =====
-- Reports on workloads: `/api/agents/workloads/telemetry` of apps/api/src/routes/nodes.routes.ts.
-- The batch has passed its schema, and its agent is known. The reports are stored one after the other.
pub mod Taken
use devion.Prelude.{
  ℕ, ◌+◌, String, Bool, true, false, ◌&&◌, ◌||◌, not, Option, none, some, List, [], ◌∷◌, ltb, ◌==◌,
  ◌===◌, if◌then◌else◌, filter, find, any, length, is_some,
}
use devion.Control.Store.{ActualState, HealthStatus, Workload, Db, update_where}
use devion.Control.Env.{Env}
use devion.Control.Refresh.{refresh_deployment_status}
use devion.Control.Agents.{refers_to}
use devion.Control.Agents.Observed.{replace_observed_workload_ports}

pub record Report : Type 0 where
  pub workload_id : String
  pub report_generation : ℕ
  pub actual_state : ActualState
  pub health_status : HealthStatus
  pub health_message : Option String
  pub observed_at : ℕ
  pub ports : Option (List (String × ℕ))

-- The answers, in the order of the handler's checks.
pub data TelemetryAnswer : Type 0 where
  outside_window repeated_workload not_assigned stale_generation older_report : TelemetryAnswer
  accepted : (reports : ℕ) → TelemetryAnswer

abbrev pub health_code : HealthStatus → ℕ
health_code HealthStatus.none = 0
health_code HealthStatus.starting = 1
health_code HealthStatus.healthy = 2
health_code HealthStatus.unhealthy = 3
health_code HealthStatus.unknown = 4

abbrev pub same_health : HealthStatus → HealthStatus → Bool
same_health s t = health_code s == health_code t

abbrev pub reports_healthy : HealthStatus → Bool
reports_healthy s = health_code s == 2

abbrev pub reports_unhealthy : HealthStatus → Bool
reports_unhealthy s = health_code s == 3

abbrev pub is_outside : ℕ → Report → Bool
is_outside now r = ltb (r.observed_at + 300000) now || ltb (now + 60000) r.observed_at

-- The set of the identities is smaller than the list.
abbrev pub repeats : List Report → Bool
repeats [] = false
repeats (r ∷ reports) = any (λ q. q.workload_id === r.workload_id) reports || repeats reports

abbrev pub owned : String → List Workload → Report → Option Workload
owned node_id workloads r =
    find (λ w. w.id === r.workload_id && refers_to node_id w.node_id) workloads

abbrev pub is_stale : String → List Workload → Report → Bool
is_stale node_id workloads r = elim (owned node_id workloads r) [
  | none ↦ true
  | some w ↦ not (w.report_generation == r.report_generation)
]

-- `at < observedAt`, where no time is before every other.
abbrev pub is_earlier : Option ℕ → ℕ → Bool
is_earlier none t = true
is_earlier (some at) t = ltb at t

abbrev pub is_older : String → List Workload → Report → Bool
is_older node_id workloads r = elim (owned node_id workloads r) [
  | none ↦ false
  | some w ↦ not (is_earlier w.health_checked_at r.observed_at)
]

abbrev pub is_same_health : Option Workload → HealthStatus → Bool
is_same_health none s = false
is_same_health (some w) s = same_health w.health_status s

abbrev pub take_report : ℕ → Option Workload → Report → Workload → Workload
take_report now prior r w = record w {
  actual_state = r.actual_state;
  health_status = r.health_status;
  health_message = r.health_message;
  health_failure_count =
      if reports_unhealthy r.health_status then w.health_failure_count + 1 else 0;
  health_checked_at = some r.observed_at;
  last_healthy_at =
      if reports_healthy r.health_status then some r.observed_at else w.last_healthy_at;
  health_changed_at =
      if is_same_health prior r.health_status then w.health_changed_at else some now;
  published_ports = elim r.ports [ none ↦ w.published_ports | some ports ↦ ports ];
  last_reported_at = some now;
}

-- The condition of a report's update.
abbrev pub is_due : String → Report → Workload → Bool
is_due node_id r w =
    w.id === r.workload_id
    && refers_to node_id w.node_id
    && w.report_generation == r.report_generation
    && is_earlier w.health_checked_at r.observed_at

module _ (env : Env) where
  open env use {Json}

  abbrev pub observe_report : ℕ → String → Report → Db Json → Db Json
  observe_report now node_id r db = elim r.ports [
    | none ↦ db
    | some ports ↦ replace_observed_workload_ports env now node_id r.workload_id ports db
  ]

  -- The reports against the workloads `previous`, as they were when the handler read them.
  unfoldable pub store_reports : ℕ → String → List Workload → List Report → Db Json → Db Json
  store_reports now node_id previous [] db = db
  store_reports now node_id previous (r ∷ reports) db = store_reports now node_id previous reports (
      observe_report now node_id r (record db {
        workloads =
            update_where (is_due node_id r) (take_report now (owned node_id previous r) r)
              db.workloads;
      }))

  -- The deployments of the workloads, each once.
  abbrev pub add_deployment : String → List String → List String
  add_deployment id ids = if any (λ i. i === id) ids then ids else id ∷ ids

  abbrev pub deployments_of : List Workload → List String
  deployments_of [] = []
  deployments_of (w ∷ workloads) = add_deployment w.deployment_id (deployments_of workloads)

  unfoldable pub refresh_reported : ℕ → List String → Db Json → Db Json
  refresh_reported now [] db = db
  refresh_reported now (id ∷ ids) db =
      refresh_reported now ids (refresh_deployment_status now id db).1

  abbrev pub is_reported : String → List Report → Workload → Bool
  is_reported node_id reports w =
      any (λ r. w.id === r.workload_id) reports && refers_to node_id w.node_id

  unfoldable pub accept_reports : ℕ → String → List Report → Db Json → Db Json
  accept_reports now node_id reports db =
      let stored = store_reports now node_id db.workloads reports db in
      refresh_reported now (deployments_of (filter (is_reported node_id reports) stored.workloads))
        stored

  unfoldable pub workload_telemetry : ℕ → String → List Report → Db Json → TelemetryAnswer × Db Json
  workload_telemetry now node_id reports db =
      if any (is_outside now) reports
      then (outside_window, db)
      else if repeats reports
      then (repeated_workload, db)
      else if any (λ r. not (is_some (owned node_id db.workloads r))) reports
      then (not_assigned, db)
      else if any (is_stale node_id db.workloads) reports
      then (stale_generation, db)
      else if any (is_older node_id db.workloads) reports
      then (older_report, db)
      else (accepted (length reports), accept_reports now node_id reports db)
