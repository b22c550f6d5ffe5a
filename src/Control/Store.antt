-- ===== src/Control/Store.antt =====
-- The tables of the control plane that its controllers read and write:
-- packages/db/src/database/schema/control-plane.ts and projects.ts.
-- A column that no modelled code reads or writes is left out. A timestamp is a number of
-- milliseconds. A `jsonb` column holds a value of the parameter `J`.
pub mod Rows
use devion.Prelude.{ℕ, String, Bool, Option, List, [], ◌∷◌, if◌then◌else◌, filter, find, ◌===◌}
use devion.Core.Ports.{PortProtocol}
use devion.Core.Contracts.{NodeStatus, NodeResources, RuntimeKind, WorkloadRequirements}
use devion.Core.Scheduler.{Reason}

pub data DesiredState : Type 0 where
  running stopped deleted : DesiredState

pub data ActualState : Type 0 where
  pending starting running stopped failed lost unknown : ActualState

pub data HealthStatus : Type 0 where
  none starting healthy unhealthy unknown : HealthStatus

pub data DeploymentStatus : Type 0 where
  queued scheduling starting running degraded failed stopping stopped superseded : DeploymentStatus

pub data RecoveryState : Type 0 where
  idle backoff manual_intervention : RecoveryState

pub data VolumeStatus : Type 0 where
  available in_use unavailable error deleting legacy : VolumeStatus

pub data ReservationStatus : Type 0 where
  reserved bound released : ReservationStatus

pub data CommandStatus : Type 0 where
  pending delivered succeeded failed : CommandStatus

pub data CommandType : Type 0 where
  workload_start workload_stop workload_delete volume_delete other_command : CommandType

pub data ApplicationStatus : Type 0 where
  draft ready deploying healthy degraded failed stopped archived : ApplicationStatus

-- The type of a deployment event; the status texts carry the new status.
pub data EventType : Type 0 where
  deployment_created deployment_rollback_created deployment_superseded : EventType
  deployment_status_changed : DeploymentStatus → EventType
  deployment_manual_intervention_required workload_recovery_requested : EventType
  workload_replacement_requested workload_port_reservation_failed : EventType
  workload_command_timed_out workload_lost : EventType
  workload_started workload_start_failed workload_stopped workload_stop_failed : EventType

pub record Node : Type 0 where
  pub id : String
  pub organization_id : Option String
  pub advertised_address : Option String
  pub status : NodeStatus
  pub architecture : String
  pub region : Option String
  pub labels : List (String × String)
  pub runtimes : List RuntimeKind
  pub resources : Option NodeResources
  pub scheduling_enabled : ℕ
  pub last_heartbeat_at : Option ℕ
  pub unhealthy_at : Option ℕ
  pub offline_at : Option ℕ

pub record Deployment (J : Type 0) : Type 0 where
  pub id : String
  pub application_id : String
  pub environment_id : Option String
  pub version : ℕ
  pub image : String
  pub replicas : ℕ
  pub desired_state : DesiredState
  pub runtime : RuntimeKind
  pub requirements : J
  pub runtime_config : J
  pub configuration_snapshot : Option J
  pub status : DeploymentStatus
  pub failure_reason : Option String
  pub recovery_attempts : ℕ
  pub recovery_next_attempt_at : Option ℕ
  pub recovery_state : RecoveryState
  pub reconcile_lease_id : Option String
  pub reconcile_lease_until : Option ℕ
  pub rollback_from_deployment_id : Option String
  pub build_id : Option String
  pub commit_sha : Option String
  pub created_by : Option String
  pub created_at : ℕ
  pub started_at : Option ℕ
  pub completed_at : Option ℕ
  pub failed_at : Option ℕ

pub record Workload : Type 0 where
  pub id : String
  pub deployment_id : String
  pub node_id : Option String
  pub scheduling_reasons : List Reason
  pub desired_state : DesiredState
  pub actual_state : ActualState
  pub health_status : HealthStatus
  pub health_message : Option String
  pub health_failure_count : ℕ
  pub lost_at : Option ℕ
  pub replacement_of_workload_id : Option String
  pub replacement_reason : Option String
  pub last_reported_at : Option ℕ
  pub runtime_id : Option String
  pub published_ports : List (String × ℕ)
  pub health_checked_at : Option ℕ
  pub last_healthy_at : Option ℕ
  pub health_changed_at : Option ℕ
  pub report_generation : ℕ

pub record DeploymentEvent : Type 0 where
  pub deployment_id : String
  pub type : EventType
  pub workload_id : Option String
  pub node_id : Option String
  pub reason : Option String

pub record PortReservation : Type 0 where
  pub id : String
  pub node_id : String
  pub workload_id : String
  pub container_port : ℕ
  pub host_port : ℕ
  pub protocol : PortProtocol
  pub status : ReservationStatus
  pub released_at : Option ℕ

pub data Exposure : Type 0 where
  private public : Exposure

-- A port of a runtime configuration, as the controller's schema reads it.
pub record RuntimePort : Type 0 where
  pub container_port : ℕ
  pub protocol : Option PortProtocol
  pub exposure : Option Exposure
  pub requested_host_port : Option ℕ
  pub external_port : Option ℕ

-- A port of a runtime configuration, as the agents' routes read it.
pub record ConfiguredPort : Type 0 where
  pub container_port : ℕ
  pub protocol : Option PortProtocol
  pub exposure : Option Exposure

-- A volume of a runtime configuration.
pub record RuntimeVolume : Type 0 where
  pub id : Option String
  pub name : String

-- What `managedVolumeMounts` looks at in a volume of a runtime configuration.
pub record VolumeEntry : Type 0 where
  pub id : Option String
  pub target : Option String
  pub read_only : Bool

-- What a command carries. The runtime configuration of a start command is the deployment's with
-- its ports rewritten: both are kept.
pub data Payload (J : Type 0) : Type 0 where
  start :
      (workload_id deployment_id image : String) (runtime : RuntimeKind)
      (requirements : WorkloadRequirements) (runtime_config : J) (ports : List RuntimePort)
      → Payload J
  change : (workload_id : String) (graceful_shutdown_seconds : Option ℕ) → Payload J
  retire : (workload_id : String) (reason : String) → Payload J
  delete_volume : (runtime_name : String) → Payload J

pub record AgentCommand (J : Type 0) : Type 0 where
  pub id : String
  pub node_id : String
  pub type : CommandType
  pub resource_id : String
  pub payload : Payload J
  pub deadline_at : Option ℕ
  pub status : CommandStatus
  pub delivered_at : Option ℕ
  pub delivery_attempts : ℕ
  pub created_at : ℕ
  pub completed_at : Option ℕ

pub record Volume : Type 0 where
  pub id : String
  pub runtime_name : String
  pub status : VolumeStatus
  pub node_id : Option String

pub record Application : Type 0 where
  pub id : String
  pub status : ApplicationStatus

pub record VolumeMount : Type 0 where
  pub deployment_id : String
  pub volume_id : String
  pub mount_path : String
  pub read_only : Bool

-- A binding that an agent observed.
pub record WorkloadPort : Type 0 where
  pub workload_id : String
  pub node_id : String
  pub container_port : ℕ
  pub host_port : ℕ
  pub protocol : PortProtocol
  pub observed_at : ℕ

pub data GameServerStatus : Type 0 where
  provisioning running stopped failed : GameServerStatus

pub record GameServer : Type 0 where
  pub application_id : Option String
  pub status : GameServerStatus
  pub runtime_port : Option ℕ

-- The tables. `fresh` counts the random identifiers drawn so far.
pub record Db (J : Type 0) : Type 0 where
  pub nodes : List Node
  pub deployments : List (Deployment J)
  pub workloads : List Workload
  pub events : List DeploymentEvent
  pub reservations : List PortReservation
  pub commands : List (AgentCommand J)
  pub volumes : List Volume
  pub applications : List Application
  pub mounts : List VolumeMount
  pub ports : List WorkloadPort
  pub game_servers : List GameServer
  pub fresh : ℕ

-- Two constructors of one name are told apart by these tests.
abbrev pub is_running : DesiredState → Bool
is_running DesiredState.running = Bool.true
is_running _ = Bool.false

abbrev pub is_deleted : DesiredState → Bool
is_deleted deleted = Bool.true
is_deleted _ = Bool.false

-- `UPDATE … SET write WHERE test`.
abbrev pub update_where : {A : Type 0} → (A → Bool) → (A → A) → List A → List A
update_where test write [] = []
update_where test write (x ∷ xs) = (if test x then write x else x) ∷ update_where test write xs

-- `findFirst` by the primary key, and the workloads of a deployment.
abbrev pub find_deployment : {J : Type 0} → String → Db J → Option (Deployment J)
find_deployment id db = find (λ d. d.id === id) db.deployments

abbrev pub find_workload : {J : Type 0} → String → Db J → Option Workload
find_workload id db = find (λ w. w.id === id) db.workloads

abbrev pub workloads_of : {J : Type 0} → String → Db J → List Workload
workloads_of id db = filter (λ w. w.deployment_id === id) db.workloads
