-- ===== src/Access/Tests.antt =====
-- Access on a small directory.
use devion.Prelude.{◌≡◌, refl, ◌↔◌, inl, some, List, [], ◌∷◌, ◌∈◌}
use devion.Access.Permissions.{
  OrganizationRole, RolePermission, resolve_role_permissions, system_permissions,
  developer_permissions,
}
use devion.Access.Projects.{
  Directory, Entry, Project, AccessMode, enter, list_accessible_projects, resolve_project_access,
}
use devion.Access.Projects.Agreement.{list_accessible_projects_iff}

abbrev roles : List OrganizationRole
roles = record { id = "7"; organization_id = "acme" } ∷ []

abbrev rows : List RolePermission
rows =
    record { role_id = "7"; permission = "projects.read" }
    ∷ record { role_id = "7"; permission = "root" }
    ∷ []

abbrev shop : Project
shop = record { id = "shop"; organization_id = "acme"; access_mode = AccessMode.team }

abbrev directory : Directory
directory = record {
  organizations = record { id = "acme"; slug = "acme-inc" } ∷ [];
  members = record { organization_id = "acme"; user_id = "ada"; role = "developer" } ∷ [];
  roles = roles;
  role_permissions = rows;
  projects = shop ∷ [];
  project_teams = record { project_id = "shop"; team_id = "core" } ∷ [];
  team_members = record { team_id = "core"; user_id = "ada" } ∷ [];
}

abbrev ada : Entry
ada = record {
  organization = record { id = "acme"; slug = "acme-inc" };
  user_id = "ada";
  role = "developer";
  permissions = developer_permissions;
}

ada_enters : enter directory (some "ada") "acme-inc" "projects.read" ≡ some ada
unfolding enter resolve_role_permissions system_permissions
ada_enters = refl

list_accessible_projects_iff_example :
    ((listed : List Project) × (list_accessible_projects directory
          (some "ada")
          "acme-inc"
          "projects.read"
        ≡ some (ada, listed))
      × (shop ∈ listed))
    ↔ (resolve_project_access directory (some "ada") "acme-inc" "shop" "projects.read"
        ≡ some (record { entry = ada; project = shop }))
list_accessible_projects_iff_example =
    list_accessible_projects_iff directory (some "ada") "acme-inc" "projects.read" ada shop
      ada_enters (inl refl) refl refl
