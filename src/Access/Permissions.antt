-- ===== src/Access/Permissions.antt =====
-- Roles and permissions: apps/api/src/features/organizations/permissions.ts.
-- A permission is its key; the labels of the registry are left out. A role that is neither a system
-- role nor a custom one has no permission.
pub mod Known
use devion.Prelude.{
  same_codes, codes, after_prefix, ℕ, String, Bool, true, false, ◌&&◌, not, Option, none, some,
  List, [], ◌∷◌, ◌==◌, ◌===◌, any, filter, if◌then◌else◌,
}

pub record OrganizationRole : Type 0 where
  pub id : String
  pub organization_id : String

pub record RolePermission : Type 0 where
  pub role_id : String
  pub permission : String

abbrev pub includes : List String → String → Bool
includes keys key = any (λ k. k === key) keys

abbrev pub all_permissions : List String
all_permissions =
    "organization.read" ∷ "organization.update" ∷ "organization.delete" ∷ "members.read"
    ∷ "members.invite" ∷ "members.update" ∷ "members.remove" ∷ "roles.read" ∷ "roles.create"
    ∷ "roles.update" ∷ "roles.delete" ∷ "roles.assign" ∷ "teams.read" ∷ "teams.create"
    ∷ "teams.update" ∷ "teams.delete" ∷ "projects.read" ∷ "projects.create" ∷ "projects.update"
    ∷ "projects.delete" ∷ "projects.archive" ∷ "projects.manage_access"
    ∷ "projects.manage_environments" ∷ "applications.read" ∷ "applications.create"
    ∷ "applications.update" ∷ "applications.delete" ∷ "applications.archive" ∷ "deployments.create"
    ∷ "deployments.read" ∷ "deployments.start" ∷ "deployments.stop" ∷ "deployments.restart"
    ∷ "deployments.redeploy" ∷ "deployments.rollback" ∷ "secrets.read_metadata" ∷ "secrets.attach"
    ∷ "volumes.manage" ∷ "builds.read" ∷ "builds.create" ∷ "builds.cancel" ∷ "nodes.read"
    ∷ "nodes.manage" ∷ "audit.read" ∷ []

abbrev pub developer_permissions : List String
developer_permissions =
    "organization.read" ∷ "members.read" ∷ "roles.read" ∷ "teams.read" ∷ "projects.read"
    ∷ "projects.create" ∷ "projects.update" ∷ "projects.archive" ∷ "projects.manage_environments"
    ∷ "applications.read" ∷ "applications.create" ∷ "applications.update" ∷ "applications.archive"
    ∷ "deployments.create" ∷ "deployments.read" ∷ "deployments.start" ∷ "deployments.stop"
    ∷ "deployments.restart" ∷ "deployments.redeploy" ∷ "deployments.rollback"
    ∷ "secrets.read_metadata" ∷ "secrets.attach" ∷ "volumes.manage" ∷ "builds.read"
    ∷ "builds.create" ∷ "builds.cancel" ∷ []

abbrev pub member_permissions : List String
member_permissions =
    "organization.read" ∷ "members.read" ∷ "roles.read" ∷ "teams.read" ∷ "projects.read"
    ∷ "projects.create" ∷ "projects.update" ∷ "projects.archive" ∷ "projects.manage_environments"
    ∷ "applications.read" ∷ "applications.create" ∷ "applications.update" ∷ "applications.archive"
    ∷ "deployments.create" ∷ "deployments.read" ∷ "deployments.start" ∷ "deployments.stop"
    ∷ "deployments.restart" ∷ "deployments.redeploy" ∷ "secrets.read_metadata" ∷ "secrets.attach"
    ∷ "volumes.manage" ∷ "builds.read" ∷ "builds.create" ∷ "builds.cancel" ∷ []

abbrev pub viewer_permissions : List String
viewer_permissions =
    "organization.read" ∷ "members.read" ∷ "roles.read" ∷ "teams.read" ∷ "projects.read"
    ∷ "applications.read" ∷ "deployments.read" ∷ "builds.read" ∷ "nodes.read" ∷ "audit.read" ∷ []

unfoldable pub system_permissions : String → List String
system_permissions role =
    if role === "owner"
    then all_permissions
    else if role === "admin"
    then filter (λ p. not (p === "organization.delete")) all_permissions
    else if role === "developer"
    then developer_permissions
    else if role === "member"
    then member_permissions
    else if role === "viewer"
    then viewer_permissions
    else []

unfoldable pub is_known_permission : String → Bool
is_known_permission value = includes all_permissions value

-- `organizationId ? organizationId === … : true`.
abbrev pub of_organization : Option String → String → Bool
of_organization none id = true
of_organization (some o) id = if o === "" then true else id === o

-- The roles that the query joins with.
abbrev pub is_role : List ℕ → Option String → OrganizationRole → Bool
is_role role_id organization_id r =
    same_codes (codes r.id) role_id && of_organization organization_id r.organization_id

-- The permissions of a custom role: the rows joined with their roles.
abbrev pub custom_permissions :
    List OrganizationRole → List RolePermission → List ℕ → Option String → List String
custom_permissions roles [] role_id organization_id = []
custom_permissions roles (row ∷ rows) role_id organization_id =
    if any (λ r. r.id === row.role_id && is_role role_id organization_id r) roles
    then row.permission ∷ custom_permissions roles rows role_id organization_id
    else custom_permissions roles rows role_id organization_id

unfoldable pub resolve_role_permissions :
    List OrganizationRole → List RolePermission → String → Option String → List String
resolve_role_permissions roles rows role organization_id =
    elim (after_prefix (codes "custom:") (codes role)) [
      | none ↦ system_permissions role
      | some role_id ↦
          filter is_known_permission (custom_permissions roles rows role_id organization_id)
    ]
