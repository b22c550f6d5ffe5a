-- ===== src/Control/Tests.antt =====
-- A small control plane, and what its operations do on it.
pub mod Status
pub mod Tables
mod Agents
pub mod Reconcile
use devion.Prelude.{
  ℕ, suc, ◌+◌, ◌≤◌, ◌<◌, String, ◌≡◌, ◌≢◌, refl, inl, inr, ◌⊎◌, ◌↔◌, Bool, true, false, ◌&&◌,
  Option, none, some, List, [], ◌∷◌, ◌++◌, ◌==◌, if◌then◌else◌, ◌∈◌, All, any, all, find, count,
  filter, length, arith,
}
use devion.Core.Ports.{tcp}
use devion.Core.Contracts.{container, WorkloadRequirements, NodeSnapshot, ready}
use devion.Core.Scheduler.{eligible}
use devion.Core.Tests.{coarse, demand, quantity}
use devion.Control.Store.{
  DesiredState, ActualState, HealthStatus, DeploymentStatus, RecoveryState, CommandStatus,
  CommandType, workload_start, workload_stop, ReservationStatus, VolumeStatus, Payload,
  AgentCommand, Workload, Deployment, Node, Volume, PortReservation, RuntimePort, RuntimeVolume,
  public, Db, is_running, find_deployment, workloads_of,
}
use devion.Control.Env.{Env}

-- Runtime configurations by number: 1 has a fixed public port, 2 a volume, and the others nothing.
abbrev pub env : Env
env = record {
  Json = ℕ;
  uuid = λ n. if n == 0 then "first" else if n == 1 then "second" else "later";
  parse_requirements = λ j. some demand;
  requirements_json = λ r. 0;
  parse_volumes = λ j. if j == 2 then record { id = some "data"; name = "data" } ∷ [] else [];
  parse_ports = λ j.
      if j == 1
      then record {
        container_port = 25565;
        protocol = some tcp;
        exposure = some public;
        requested_host_port = some 25565;
        external_port = none;
      }
        ∷ []
      else [];
  parse_configured_ports = λ j.
      if j == 1
      then record { container_port = 25565; protocol = none; exposure = some public } ∷ []
      else [];
  parse_graceful_shutdown = λ j. some 30;
  volume_count = λ j. if j == 2 then 1 else 0;
  volume_entries = λ j. [];
  platform = coarse;
}

abbrev pub web : ℕ → Deployment ℕ
web config = record {
  id = "web";
  application_id = "shop";
  environment_id = none;
  version = 1;
  image = "shop:1";
  replicas = 1;
  desired_state = DesiredState.running;
  runtime = container;
  requirements = 0;
  runtime_config = config;
  configuration_snapshot = none;
  status = DeploymentStatus.queued;
  failure_reason = none;
  recovery_attempts = 0;
  recovery_next_attempt_at = none;
  recovery_state = RecoveryState.idle;
  reconcile_lease_id = none;
  reconcile_lease_until = none;
  rollback_from_deployment_id = none;
  build_id = none;
  commit_sha = none;
  created_by = none;
  created_at = 0;
  started_at = none;
  completed_at = none;
  failed_at = none;
}

abbrev pub task : ActualState → Workload
task state = record {
  id = "task";
  deployment_id = "web";
  node_id = some "idle";
  scheduling_reasons = [];
  desired_state = DesiredState.running;
  actual_state = state;
  health_status = HealthStatus.none;
  health_message = none;
  health_failure_count = 0;
  lost_at = none;
  replacement_of_workload_id = none;
  replacement_reason = none;
  last_reported_at = none;
  runtime_id = none;
  published_ports = [];
  health_checked_at = none;
  last_healthy_at = none;
  health_changed_at = none;
  report_generation = 1;
}

abbrev pub host : Node
host = record {
  id = "idle";
  organization_id = none;
  advertised_address = none;
  status = ready;
  architecture = "amd64";
  region = some "de-fra";
  labels = ("storage", "nvme") ∷ [];
  runtimes = container ∷ [];
  resources = some (record {
    cpu_milli = quantity 4000 0;
    memory_mib = quantity 8192 0;
    storage_mib = quantity 20000 0;
  });
  scheduling_enabled = 1;
  last_heartbeat_at = some 1000;
  unhealthy_at = none;
  offline_at = none;
}

abbrev pub start : AgentCommand ℕ
start = record {
  id = "start";
  node_id = "idle";
  type = workload_start;
  resource_id = "task";
  payload = Payload.change "task" none;
  deadline_at = some 120000;
  status = CommandStatus.delivered;
  delivered_at = some 0;
  delivery_attempts = 1;
  created_at = 0;
  completed_at = none;
}

abbrev pub plane : ℕ → List Workload → List (AgentCommand ℕ) → Db ℕ
plane config workloads commands = record {
  nodes = host ∷ [];
  deployments = web config ∷ [];
  workloads = workloads;
  events = [];
  reservations = [];
  commands = commands;
  volumes =
      record {
        id = "data";
        runtime_name = "devion-data";
        status = VolumeStatus.available;
        node_id = none;
      }
      ∷ [];
  applications = [];
  mounts = [];
  ports = [];
  game_servers = [];
  fresh = 0;
}
