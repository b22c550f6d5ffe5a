-- ===== src/Control/Deployments/Claims.antt =====
-- Managed volumes of a deployment: the check before a placement, and the atomic claim of unbound local
-- volumes for the chosen node.
pub mod Affinity
use devion.Prelude.{
  ℕ, String, Bool, true, false, ◌&&◌, ◌||◌, not, Option, none, some, List, [], ◌∷◌, ltb, ◌==◌,
  ◌===◌, if◌then◌else◌, filter, find, any, length, is_some,
}
use devion.Core.Contracts.{WorkloadRequirements}
use devion.Control.Store.{
  DeploymentStatus, VolumeStatus, Volume, RuntimeVolume, Deployment, Db, update_where,
}
use devion.Control.Env.{Env}

abbrev pub has_text : List String → String → Bool
has_text ids id = any (λ i. i === id) ids

abbrev pub is_usable : VolumeStatus → Bool
is_usable VolumeStatus.available = true
is_usable VolumeStatus.in_use = true
is_usable _ = false

-- `runtimeVolumes.flatMap((volume) => volume.id ? [volume.id] : [])`.
unfoldable pub managed_volume_ids : List RuntimeVolume → List String
managed_volume_ids [] = []
managed_volume_ids (v ∷ vs) =
    let rest = managed_volume_ids vs in
    elim v.id [ none ↦ rest | some id ↦ if id === "" then rest else id ∷ rest ]

-- `[...new Set(volumes.flatMap((volume) => volume.nodeId ? [volume.nodeId] : []))]`, in the order of
-- the last occurrences; only its length and a sole member are used.
unfoldable pub node_ids : List Volume → List String
node_ids [] = []
node_ids (v ∷ vs) =
    let rest = node_ids vs in
    elim v.node_id [
      | none ↦ rest
      | some id ↦ if id === "" || has_text rest id then rest else id ∷ rest
    ]

module _ {J : Type 0} where
  abbrev pub volumes_in : List String → Db J → List Volume
  volumes_in ids db = filter (λ v. has_text ids v.id) db.volumes

  -- `UPDATE deployments SET status = 'failed', failureReason = reason`.
  unfoldable pub fail_deployment : String → String → Db J → Db J
  fail_deployment id reason db = record db {
    deployments =
        update_where (λ d. d.id === id)
          (λ d. record d { status = DeploymentStatus.failed; failure_reason = some reason })
          db.deployments;
  }

  -- `UPDATE volumes SET nodeId, status = 'in_use' WHERE id IN ids AND nodeId IS NULL`.
  unfoldable pub bind_volumes : List String → String → Db J → Db J
  bind_volumes ids node_id db = record db {
    volumes =
        update_where (λ v. has_text ids v.id && not (is_some v.node_id))
          (λ v. record v { node_id = some node_id; status = VolumeStatus.in_use }) db.volumes;
  }

abbrev pub require_node : String → WorkloadRequirements → WorkloadRequirements
require_node node_id r = record r { required_node_id = some node_id }

-- What the check or the claim ends with: a stop, or requirements to go on with.
pub data Claim (J : Type 0) : Type 0 where
  stop : Db J → Claim J
  moved kept : WorkloadRequirements → Db J → Claim J

module _ (env : Env) where
  open env use {Json, requirements_json}

  unfoldable pub set_requirements : String → WorkloadRequirements → Db Json → Db Json
  set_requirements id r db = record db {
    deployments =
        update_where (λ d. d.id === id) (λ d. record d { requirements = requirements_json r })
          db.deployments;
  }

  abbrev pub pin_to : String → WorkloadRequirements → List String → Db Json → Claim Json
  pin_to id r [] db = kept r db
  pin_to id r (node_id ∷ _) db =
      kept (require_node node_id r) (set_requirements id (require_node node_id r) db)

  -- Before a placement: the managed volumes exist, are usable, and lie on one node at most.
  unfoldable pub check_volumes : String → List String → WorkloadRequirements → Db Json → Claim Json
  check_volumes id [] r db = kept r db
  check_volumes id (v ∷ vs) r db =
      let managed = volumes_in (v ∷ vs) db in
      if not (length managed == length (v ∷ vs)) || any (λ m. not (is_usable m.status)) managed
      then stop (fail_deployment id "Managed volume is unavailable" db)
      else if ltb 1 (length (node_ids managed))
      then stop (fail_deployment id "Local volumes are bound to different nodes" db)
      else pin_to id r (node_ids managed) db

  abbrev pub after_claim :
      String → String → WorkloadRequirements → List String → Db Json → Claim Json
  after_claim id node_id r (claimed ∷ []) db =
      if claimed === node_id
      then kept (require_node node_id r) (set_requirements id (require_node node_id r) db)
      else moved (require_node claimed r) (set_requirements id (require_node claimed r) db)
  after_claim id node_id r _ db = stop (fail_deployment id "Local volume affinity conflict" db)

  -- After a placement: unbound volumes are claimed for the node, and another node that has them
  -- sends the placement back.
  unfoldable pub claim_volumes :
      String → List String → String → WorkloadRequirements → Db Json → Claim Json
  claim_volumes id [] node_id r db = kept r db
  claim_volumes id (v ∷ vs) node_id r db =
      let db' = bind_volumes (v ∷ vs) node_id db in
      after_claim id node_id r (node_ids (volumes_in (v ∷ vs) db')) db'
