-- ===== src/Access/Projects.antt =====
-- Access to projects: apps/api/src/features/projects/access.ts. The session is the parameter `user`,
-- the identifier of its user, if there is one.
pub mod Agreement
use devion.Prelude.{
  ℕ, String, Bool, true, false, ◌&&◌, ◌||◌, not, Option, none, some, List, [], ◌∷◌, ◌===◌, any,
  filter, find, if◌then◌else◌, is_nil,
}
use devion.Access.Permissions.{OrganizationRole, RolePermission, includes, resolve_role_permissions}

pub data AccessMode : Type 0 where
  organization team : AccessMode

pub record Organization : Type 0 where
  pub id : String
  pub slug : String

pub record Member : Type 0 where
  pub organization_id : String
  pub user_id : String
  pub role : String

pub record Project : Type 0 where
  pub id : String
  pub organization_id : String
  pub access_mode : AccessMode

pub record ProjectTeam : Type 0 where
  pub project_id : String
  pub team_id : String

pub record TeamMember : Type 0 where
  pub team_id : String
  pub user_id : String

pub record Directory : Type 0 where
  pub organizations : List Organization
  pub members : List Member
  pub roles : List OrganizationRole
  pub role_permissions : List RolePermission
  pub projects : List Project
  pub project_teams : List ProjectTeam
  pub team_members : List TeamMember

-- What both functions find before they look at projects.
pub record Entry : Type 0 where
  pub organization : Organization
  pub user_id : String
  pub role : String
  pub permissions : List String

pub record ProjectAccess : Type 0 where
  pub entry : Entry
  pub project : Project

abbrev pub is_team : AccessMode → Bool
is_team team = true
is_team organization = false

abbrev pub is_admin : String → Bool
is_admin role = role === "owner" || role === "admin"

abbrev pub entry_of : Directory → String → Organization → String → Option Member → Option Entry
entry_of d user_id org permission none = none
entry_of d user_id org permission (some m) =
    let permissions = resolve_role_permissions d.roles d.role_permissions m.role (some org.id) in
    if includes permissions permission
    then some
        (record { organization = org; user_id = user_id; role = m.role; permissions = permissions })
    else none

-- The session, the organization, the membership and the permission.
unfoldable pub enter : Directory → Option String → String → String → Option Entry
enter d none slug permission = none
enter d (some user_id) slug permission = elim (find (λ o. o.slug === slug) d.organizations) [
  | none ↦ none
  | some org ↦
      entry_of d user_id org permission
        (find (λ m. m.organization_id === org.id && m.user_id === user_id) d.members)
]

-- The join of the teams of a project with the memberships of a user.
abbrev pub has_team_access : Directory → String → String → Bool
has_team_access d user_id project_id =
    any
      (λ pt.
        pt.project_id === project_id
        && any (λ tm. pt.team_id === tm.team_id && tm.user_id === user_id) d.team_members)
      d.project_teams

abbrev pub is_blocked : Directory → Entry → Project → Bool
is_blocked d e p =
    is_team p.access_mode && not (is_admin e.role) && not (has_team_access d e.user_id p.id)

abbrev pub find_project : Directory → String → String → Option Project
find_project d organization_id id =
    find (λ p. p.id === id && p.organization_id === organization_id) d.projects

abbrev pub access_within : Directory → String → Option Entry → Option ProjectAccess
access_within d id none = none
access_within d id (some e) = elim (find_project d e.organization.id id) [
  | none ↦ none
  | some p ↦ if is_blocked d e p then none else some (record { entry = e; project = p })
]

unfoldable pub resolve_project_access :
    Directory → Option String → String → String → String → Option ProjectAccess
resolve_project_access d user slug id permission = access_within d id (enter d user slug permission)

abbrev pub team_ids : String → List TeamMember → List String
team_ids user_id [] = []
team_ids user_id (tm ∷ tms) =
    if tm.user_id === user_id then tm.team_id ∷ team_ids user_id tms else team_ids user_id tms

abbrev pub project_ids : List String → List ProjectTeam → List String
project_ids teams [] = []
project_ids teams (pt ∷ pts) =
    if includes teams pt.team_id
    then pt.project_id ∷ project_ids teams pts
    else project_ids teams pts

abbrev pub assigned_project_ids : Directory → String → List String
assigned_project_ids d user_id =
    let teams = team_ids user_id d.team_members in
    if is_nil teams then [] else project_ids teams d.project_teams

abbrev pub is_visible : Directory → Entry → Project → Bool
is_visible d e p =
    p.organization_id === e.organization.id
    && (is_admin e.role
        || (not (is_team p.access_mode) || includes (assigned_project_ids d e.user_id) p.id))

abbrev pub projects_within : Directory → Option Entry → Option (Entry × List Project)
projects_within d none = none
projects_within d (some e) = some (e, filter (is_visible d e) d.projects)

unfoldable pub list_accessible_projects :
    Directory → Option String → String → String → Option (Entry × List Project)
list_accessible_projects d user slug permission = projects_within d (enter d user slug permission)
