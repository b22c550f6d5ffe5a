-- ===== src/Control/Volumes.antt =====
-- The deletion of managed volumes: apps/api/src/modules/volumes/controller.ts, and the names and mount
-- paths that apps/api/src/modules/volumes/policy.ts allows. A tick reads one time.
pub mod Deletion
use devion.Prelude.{
  split, codes, after_prefix, ℕ, zero, suc, ◌+◌, String, Bool, true, false, ◌&&◌, ◌||◌, not, Option,
  none, some, List, [], ◌∷◌, ◌++◌, ltb, ◌==◌, ◌===◌, if◌then◌else◌, filter, any,
}
use devion.Control.Store.{
  VolumeStatus, CommandStatus, volume_delete, Payload, AgentCommand, Volume, Db, update_where,
}
use devion.Control.Env.{Env}
use devion.Control.Commands.{command_deadline_ms, same_type, is_open}
use devion.Control.Deployments.Revisions.{between}

-- `[a-f0-9]{n}$`.
abbrev pub lower_hex : ℕ → List ℕ → Bool
lower_hex zero [] = true
lower_hex (suc n) (c ∷ cs) = (between 97 102 c || between 48 57 c) && lower_hex n cs
lower_hex _ _ = false

unfoldable pub is_managed_runtime_name : String → Bool
is_managed_runtime_name name = elim (after_prefix (codes "devion-v-") (codes name)) [
  | none ↦ false
  | some rest ↦ lower_hex 32 rest
]

-- `part === "" || part === "." || part === ".."`.
abbrev pub is_ambiguous : List ℕ → Bool
is_ambiguous [] = true
is_ambiguous (c ∷ []) = c == 46
is_ambiguous (c ∷ d ∷ []) = c == 46 && d == 46
is_ambiguous _ = false

abbrev pub tail_parts : List (List ℕ) → List (List ℕ)
tail_parts [] = []
tail_parts (part ∷ parts) = parts

abbrev pub starts_with_slash : List ℕ → Bool
starts_with_slash [] = false
starts_with_slash (c ∷ _) = c == 47

unfoldable pub is_safe_mount_path : String → Bool
is_safe_mount_path value =
    starts_with_slash (codes value)
    && not (any (λ c. c == 0) (codes value))
    && not (any is_ambiguous (tail_parts (split 47 (codes value))))

abbrev pub is_deleting : VolumeStatus → Bool
is_deleting VolumeStatus.deleting = true
is_deleting _ = false

module _ {J : Type 0} where
  abbrev pub is_deletion_of : String → AgentCommand J → Bool
  is_deletion_of volume_id c = c.resource_id === volume_id && same_type c.type volume_delete

  -- The first of the deletions with the greatest creation time.
  unfoldable pub latest_deletion : String → List (AgentCommand J) → Option (AgentCommand J)
  latest_deletion volume_id [] = none
  latest_deletion volume_id (c ∷ cs) =
      let rest = latest_deletion volume_id cs in
      if is_deletion_of volume_id c
      then elim rest [
        | none ↦ some c
        | some d ↦ if ltb c.created_at d.created_at then some d else some c
      ]
      else rest

  abbrev pub fail_volume : String → Db J → Db J
  fail_volume id db = record db {
    volumes =
        update_where (λ v. v.id === id) (λ v. record v { status = VolumeStatus.error }) db.volumes;
  }

  abbrev pub remove_volume : String → Db J → Db J
  remove_volume id db = record db {
    volumes = filter (λ v. not (v.id === id && is_deleting v.status)) db.volumes;
  }

module _ (env : Env) where
  open env use {Json, uuid}

  abbrev pub deletion : ℕ → String → Volume → ℕ → AgentCommand Json
  deletion now node_id v fresh = record {
    id = uuid fresh;
    node_id = node_id;
    type = volume_delete;
    resource_id = v.id;
    payload = Payload.delete_volume v.runtime_name;
    deadline_at = some (now + command_deadline_ms);
    status = CommandStatus.pending;
    delivered_at = none;
    delivery_attempts = 0;
    created_at = now;
    completed_at = none;
  }

  abbrev pub send_deletion : ℕ → String → Volume → Db Json → Db Json
  send_deletion now node_id v db = record db {
    commands = db.commands ++ deletion now node_id v db.fresh ∷ [];
    fresh = suc db.fresh;
  }

  -- What follows from the status of the latest deletion.
  abbrev pub follow : Volume → CommandStatus → Db Json → Db Json
  follow v CommandStatus.succeeded db = remove_volume v.id db
  follow v CommandStatus.failed db = fail_volume v.id db
  follow v _ db = db

  -- One round of the loop.
  unfoldable pub delete_volume : ℕ → Volume → Db Json → Db Json
  delete_volume now v db =
      if not (is_managed_runtime_name v.runtime_name) then fail_volume v.id db else elim v.node_id [
        | none ↦ remove_volume v.id db
        | some node_id ↦
            if node_id === ""
            then remove_volume v.id db
            else elim (latest_deletion v.id db.commands) [
              | none ↦ send_deletion now node_id v db
              | some c ↦ follow v c.status db
            ]
      ]

  unfoldable pub delete_volumes : ℕ → List Volume → Db Json → Db Json
  delete_volumes now [] db = db
  delete_volumes now (v ∷ vs) db = delete_volumes now vs (delete_volume now v db)

  unfoldable pub volume_tick : ℕ → Db Json → Db Json
  volume_tick now db = delete_volumes now (filter (λ v. is_deleting v.status) db.volumes) db
