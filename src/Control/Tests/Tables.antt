-- ===== src/Control/Tests/Tables.antt =====
-- Silent nodes, revisions, their switch, and the deletion of volumes, on small tables.
use devion.Prelude.{
  ◌++◌, ◌==◌, if◌then◌else◌, ℕ, String, ◌≡◌, refl, inl, inr, ◌⊎◌, true, false, none, some, [], ◌∷◌,
  ◌∈◌,
}
use devion.Core.Contracts.{container}
use devion.Control.Store.{
  DesiredState, ActualState, VolumeStatus, Deployment, Workload, Node, Volume, Db,
}
use devion.Control.Refresh.{
  refresh_deployment_status, refresh_found, refresh_application_status, store_status,
}
use devion.Control.Lifecycle.{actual_lost, derive_deployment_status}
use devion.Control.Liveness.{
  mark_lost, mark_offline, mark_unhealthy, lose_workload, lose_workloads, refresh_each, affected,
  lose_node, lose_nodes, liveness_tick,
}
use devion.Control.Liveness.Silence.{
  WasSilent, lose_nodes-nodes, liveness_tick_lost, liveness_tick_offline,
}
use devion.Control.Deployments.Revisions.{
  Input, created, copied, same_build, create_rollback_deployment,
}
use devion.Control.Deployments.Revisions.Versions.{create_rollback_deployment_reuses}
use devion.Control.Commands.{request_all}
use devion.Control.Deployments.Switch.{
  supersede, supersede_all, supersede_previous_deployments, stop_all, stop_application_workloads,
}
use devion.Control.Deployments.Switch.Sole.{supersede_previous_deployments_sole}
use devion.Control.Volumes.{
  volume_tick, delete_volume, delete_volumes, is_managed_runtime_name, is_safe_mount_path,
  latest_deletion, deletion,
}
use devion.Control.Volumes.Deletion.{IsKept, IsDeletion, volume_tick-IsKept, volume_tick-IsDeletion}
use devion.Control.Tests.{env, web, task, host, plane}

abbrev silent_plane : Db ℕ
silent_plane = plane 2 (task ActualState.running ∷ []) []

abbrev gone : Node
gone = mark_offline 200000 (mark_unhealthy 200000 host)

gone_listed : gone ∈ (liveness_tick env 200000 45000 90000 silent_plane).nodes
unfolding liveness_tick
gone_listed = rw (lose_nodes-nodes env 200000 _ _) (inl refl)

liveness_tick_offline_example :
    (gone ∈ (host ∷ []))
    ⊎ ((old : Node) × (old ∈ (host ∷ [])) × WasSilent env 200000 90000 old gone)
liveness_tick_offline_example =
    liveness_tick_offline env 200000 45000 90000 gone silent_plane gone_listed refl

-- A workload with a volume is lost, and shall go on running on its node.
abbrev lost : Workload
lost = mark_lost env 200000 true (task ActualState.running)

lost_listed : lost ∈ (liveness_tick env 200000 45000 90000 silent_plane).workloads
unfolding liveness_tick lose_nodes lose_node lose_workloads lose_workload affected refresh_each
    refresh_deployment_status refresh_found refresh_application_status store_status
    derive_deployment_status
lost_listed = inl refl

liveness_tick_lost_example : actual_lost lost.actual_state ≡ true
liveness_tick_lost_example =
    liveness_tick_lost env 200000 45000 90000 "idle" lost silent_plane (inl refl) lost_listed refl
      refl

abbrev input : Input ℕ
input = record {
  application_id = "shop";
  environment_id = none;
  image = "shop:2";
  replicas = 2;
  desired_state = DesiredState.running;
  runtime = container;
  requirements = 0;
  runtime_config = 0;
  configuration_snapshot = 0;
  build_id = some "build";
  commit_sha = none;
  created_by = none;
  rollback_from_deployment_id = none;
}

abbrev base : Db ℕ
base = plane 0 [] []

-- During the first attempt another revision of the shop is committed.
abbrev rival : ℕ → Db ℕ → Db ℕ
rival n db =
    if n == 3
    then record db {
      deployments = db.deployments ++ record (web 0) { id = "rival"; version = 2 } ∷ [];
    }
    else db

-- The built revision is rolled back to.
abbrev built : Db ℕ
built = record base {
  deployments =
      record (web 0) {
        build_id = some "build";
        configuration_snapshot = some 0;
        desired_state = DesiredState.stopped;
      }
      ∷ [];
}

create_rollback_deployment_reuses_example :
    (d : Deployment ℕ) × (create_rollback_deployment env 9 (λ n db. db) "web" "user" built
      ≡ copied (created d built))
    × (d ∈ built.deployments)
    × (same_build d.build_id (some "build") ≡ true)
create_rollback_deployment_reuses_example =
    create_rollback_deployment_reuses env 9 (λ n db. db) "web" "user"
      (record (web 0) {
        build_id = some "build";
        configuration_snapshot = some 0;
        desired_state = DesiredState.stopped;
      })
      0 built refl refl refl

-- The second revision of the shop replaces the first.
abbrev second : Deployment ℕ
second = record (web 0) { id = "web-2"; version = 2 }

abbrev both : Db ℕ
both = record base { deployments = web 0 ∷ second ∷ [] }

abbrev both_id : String
both_id = "web-2"

second_listed : second ∈ (supersede_previous_deployments env 9 "shop" "web-2" both).deployments
unfolding supersede_previous_deployments supersede_all supersede request_all
second_listed = inr (inl refl)

supersede_previous_deployments_sole_example : second.id ≡ both_id
supersede_previous_deployments_sole_example =
    supersede_previous_deployments_sole env 9 "shop" "web-2" second both second_listed refl refl

abbrev halted_second : Deployment ℕ
halted_second = record second { desired_state = DesiredState.stopped }

halted_listed : halted_second ∈ (stop_application_workloads env 9 "shop" both).deployments
unfolding stop_application_workloads stop_all request_all
halted_listed = inr (inl refl)

abbrev volume : String → VolumeStatus → Volume
volume id status = record {
  id = id;
  runtime_name = "devion-v-0123456789abcdef0123456789abcdef";
  status = status;
  node_id = some "idle";
}

abbrev shelf : Db ℕ
shelf = record base {
  volumes = volume "old" VolumeStatus.deleting ∷ volume "data" VolumeStatus.in_use ∷ [];
}

volume_tick-IsKept_example : IsKept "data" (volume_tick env 9 shelf).volumes
volume_tick-IsKept_example =
    volume_tick-IsKept env 9 (volume "data" VolumeStatus.in_use) shelf (inr (inl refl)) refl

sent :
    deletion env 9 "idle" (volume "old" VolumeStatus.deleting) 0
    ∈ (volume_tick env 9 shelf).commands
unfolding volume_tick delete_volumes delete_volume latest_deletion is_managed_runtime_name
sent = inl refl

volume_tick-IsDeletion_example :
    (deletion env 9 "idle" (volume "old" VolumeStatus.deleting) 0 ∈ [])
    ⊎ IsDeletion env
        (volume "old" VolumeStatus.deleting ∷ [])
        (deletion env 9 "idle" (volume "old" VolumeStatus.deleting) 0)
volume_tick-IsDeletion_example =
    volume_tick-IsDeletion env 9 (deletion env 9 "idle" (volume "old" VolumeStatus.deleting) 0)
      shelf sent

-- Mount paths that lead out of their directory are not safe.
paths :
    (is_safe_mount_path "/var/data" ≡ true)
    × (is_safe_mount_path "/var/../data" ≡ false)
    × (is_safe_mount_path "data" ≡ false)
unfolding is_safe_mount_path
paths = (refl, refl, refl)
