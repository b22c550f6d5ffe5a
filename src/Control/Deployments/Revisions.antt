-- ===== src/Control/Deployments/Revisions.antt =====
-- The creation of immutable revisions: `createDeployment`, `createRollbackDeployment` and
-- `createRedeployment` of apps/api/src/modules/deployments/service.ts, and
-- apps/api/src/modules/volumes/snapshot.ts.
-- `other n` is what other transactions commit between the reading of the versions and the
-- insertion, in the n-th attempt. A snapshot that is there is an object.
pub mod Latest
pub mod Versions
use Prim.Native.Char.{code}
use devion.Prelude.{
  ℕ, zero, suc, ◌+◌, String, Bool, true, false, ◌&&◌, ◌||◌, Option, none, some, List, [], ◌∷◌, ◌++◌,
  ltb, leb, ◌==◌, ◌===◌, if◌then◌else◌, filter, find, any, length, is_some,
}
use devion.Core.Contracts.{RuntimeKind}
use devion.Control.Store.{
  DesiredState, is_running, DeploymentStatus, RecoveryState, EventType, deployment_created,
  deployment_rollback_created, Deployment, DeploymentEvent, VolumeMount, VolumeEntry, Db,
  find_deployment,
}
use devion.Control.Env.{Env}

-- `DeploymentCreateInput`.
pub record Input (J : Type 0) : Type 0 where
  pub application_id : String
  pub environment_id : Option String
  pub image : String
  pub replicas : ℕ
  pub desired_state : DesiredState
  pub runtime : RuntimeKind
  pub requirements : J
  pub runtime_config : J
  pub configuration_snapshot : J
  pub build_id : Option String
  pub commit_sha : Option String
  pub created_by : Option String
  pub rollback_from_deployment_id : Option String

-- The characters that a place of an identifier allows.
pub data Place : Type 0 where
  hex dash version_digit variant_digit : Place

abbrev pub between : ℕ → ℕ → ℕ → Bool
between low high c = leb low c && leb c high

abbrev pub is_hex : ℕ → Bool
is_hex c = between 48 57 c || between 65 70 c || between 97 102 c

abbrev pub allows : Place → ℕ → Bool
allows hex c = is_hex c
allows dash c = c == 45
allows version_digit c = between 49 53 c
allows variant_digit c = c == 56 || c == 57 || c == 65 || c == 66 || c == 97 || c == 98

abbrev pub matches : List Place → String → Bool
matches [] String.[] = true
matches (p ∷ ps) (String.◌∷◌ c s) = allows p (code c) && matches ps s
matches _ _ = false

abbrev pub uuid_places : List Place
uuid_places =
    hex ∷ hex ∷ hex ∷ hex ∷ hex ∷ hex ∷ hex ∷ hex ∷ dash ∷ hex ∷ hex ∷ hex ∷ hex ∷ dash
    ∷ version_digit ∷ hex ∷ hex ∷ hex ∷ dash ∷ variant_digit ∷ hex ∷ hex ∷ hex ∷ dash ∷ hex ∷ hex
    ∷ hex ∷ hex ∷ hex ∷ hex ∷ hex ∷ hex ∷ hex ∷ hex ∷ hex ∷ hex ∷ []

abbrev pub mount_of : String → Option String → Option String → Bool → List VolumeMount
mount_of deployment_id (some id) (some target) read_only =
    if matches uuid_places id
    then record {
      deployment_id = deployment_id;
      volume_id = id;
      mount_path = target;
      read_only = read_only;
    }
      ∷ []
    else []
mount_of deployment_id _ _ read_only = []

-- The rows for the managed volumes of a deployment.
unfoldable pub managed_volume_mounts : String → List VolumeEntry → List VolumeMount
managed_volume_mounts deployment_id [] = []
managed_volume_mounts deployment_id (v ∷ vs) =
    mount_of deployment_id v.id v.target v.read_only ++ managed_volume_mounts deployment_id vs

-- How a creation ends.
pub data Created (J : Type 0) : Type 0 where
  created : Deployment J → Db J → Created J
  conflict : Db J → Created J

pub data CreateError : Type 0 where
  source_not_found no_snapshot : CreateError

abbrev pub same_build : Option String → Option String → Bool
same_build (some b) (some c) = b === c
same_build _ _ = false

-- An identifier that is there and is not empty.
abbrev pub is_given : Option String → Bool
is_given none = false
is_given (some s) = if s === "" then false else true

module _ {J : Type 0} where
  abbrev pub has_build : Option String → Deployment J → Bool
  has_build build_id d = is_given build_id && same_build d.build_id build_id

  -- The greatest version of an application, 0 if it has none.
  unfoldable pub latest_version : String → List (Deployment J) → ℕ
  latest_version application_id [] = 0
  latest_version application_id (d ∷ ds) =
      let rest = latest_version application_id ds in
      if d.application_id === application_id && ltb rest d.version then d.version else rest

  -- Two rows that the unique indexes do not allow beside one another.
  abbrev pub collides : Deployment J → Deployment J → Bool
  collides d e =
      (d.application_id === e.application_id && d.version == e.version)
      || same_build d.build_id e.build_id

  abbrev pub revision : String → ℕ → Input J → ℕ → Deployment J
  revision id version input now = record {
    id = id;
    application_id = input.application_id;
    environment_id = input.environment_id;
    version = version;
    image = input.image;
    replicas = input.replicas;
    desired_state = input.desired_state;
    runtime = input.runtime;
    requirements = input.requirements;
    runtime_config = input.runtime_config;
    configuration_snapshot = some input.configuration_snapshot;
    status =
        if is_running input.desired_state
        then DeploymentStatus.queued
        else DeploymentStatus.stopped;
    failure_reason = none;
    recovery_attempts = 0;
    recovery_next_attempt_at = none;
    recovery_state = RecoveryState.idle;
    reconcile_lease_id = none;
    reconcile_lease_until = none;
    rollback_from_deployment_id = input.rollback_from_deployment_id;
    build_id = input.build_id;
    commit_sha = input.commit_sha;
    created_by = input.created_by;
    created_at = now;
    started_at = none;
    completed_at = none;
    failed_at = none;
  }

  abbrev pub created_event : String → Input J → DeploymentEvent
  created_event id input = record {
    deployment_id = id;
    type =
        if is_given input.rollback_from_deployment_id
        then deployment_rollback_created
        else deployment_created;
    workload_id = none;
    node_id = none;
    reason = none;
  }

module _ (env : Env) where
  open env use {Json, uuid, volume_entries}

  -- The insertions of the transaction.
  abbrev pub store_revision : Deployment Json → Input Json → Db Json → Db Json
  store_revision d input db = record db {
    deployments = db.deployments ++ d ∷ [];
    mounts = db.mounts ++ managed_volume_mounts d.id (volume_entries input.runtime_config);
    events = db.events ++ created_event d.id input ∷ [];
    fresh = suc db.fresh;
  }

  -- They go into the tables as they are then, if the unique indexes allow it.
  unfoldable pub insert_revision : Deployment Json → Input Json → Db Json → Created Json
  insert_revision d input db =
      if any (collides d) db.deployments then conflict db else created d (store_revision d input db)

  -- One attempt: the existing revision of the build, or a new one above the versions that were read.
  unfoldable pub attempt : ℕ → (Db Json → Db Json) → Input Json → Db Json → Created Json
  attempt now other input db = elim (find (has_build input.build_id) db.deployments) [
    | some d ↦ created d db
    | none ↦
        insert_revision
          (revision (uuid db.fresh) (latest_version input.application_id db.deployments + 1) input
            now)
          input (other db)
  ]

  -- The attempts that are left.
  unfoldable pub create_within :
      ℕ → ℕ → (ℕ → Db Json → Db Json) → Input Json → Db Json → Created Json
  create_within zero now other input db = conflict db
  create_within (suc left) now other input db = elim (attempt now (other left) input db) [
    | created d db' ↦ created d db'
    | conflict db' ↦ create_within left now other input db'
  ]

  -- A conflict of the last attempt is thrown.
  unfoldable pub create_deployment :
      ℕ → (ℕ → Db Json → Db Json) → Input Json → Db Json → Created Json
  create_deployment now other input db = elim (find (has_build input.build_id) db.deployments) [
    | some d ↦ created d db
    | none ↦ create_within 4 now other input db
  ]

  abbrev pub from_source :
      Deployment Json → Json → Option String → Option String → String → Input Json
  from_source source snapshot build_id rollback_from actor_id = record {
    application_id = source.application_id;
    environment_id = source.environment_id;
    image = source.image;
    replicas = source.replicas;
    desired_state = DesiredState.running;
    runtime = source.runtime;
    requirements = source.requirements;
    runtime_config = source.runtime_config;
    configuration_snapshot = snapshot;
    build_id = build_id;
    commit_sha = source.commit_sha;
    created_by = some actor_id;
    rollback_from_deployment_id = rollback_from;
  }

  -- What a rollback or a redeployment creates, or the error that it throws.
  pub data Copied : Type 0 where
    refused : CreateError → Copied
    copied : Created Json → Copied

  abbrev pub copy_snapshot :
      ℕ
      → (ℕ → Db Json → Db Json)
      → Deployment Json
      → Option String
      → Option String
      → String
      → Option Json
      → Db Json
      → Copied
  copy_snapshot now other source build_id rollback_from actor_id none db = refused no_snapshot
  copy_snapshot now other source build_id rollback_from actor_id (some snapshot) db =
      copied (
        create_deployment now other (from_source source snapshot build_id rollback_from actor_id)
          db)

  unfoldable pub create_rollback_deployment :
      ℕ → (ℕ → Db Json → Db Json) → String → String → Db Json → Copied
  create_rollback_deployment now other source_id actor_id db = elim (find_deployment source_id db) [
    | none ↦ refused source_not_found
    | some source ↦
        copy_snapshot now other source source.build_id (some source.id) actor_id
          source.configuration_snapshot db
  ]

  unfoldable pub create_redeployment :
      ℕ → (ℕ → Db Json → Db Json) → String → String → Db Json → Copied
  create_redeployment now other source_id actor_id db = elim (find_deployment source_id db) [
    | none ↦ refused source_not_found
    | some source ↦
        copy_snapshot now other source none none actor_id source.configuration_snapshot db
  ]
