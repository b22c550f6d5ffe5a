-- ===== src/Access/Permissions/Known.antt =====
-- Every permission of a role is one of the registry.
use devion.Prelude.{
  codes, after_prefix, String, ◌≡◌, refl, inl, inr, Bool, true, Option, List, [], ◌∷◌, ◌===◌, all,
  filter, Bool-cases, Option-cases, arith,
}
use devion.Access.Permissions.{
  OrganizationRole, RolePermission, system_permissions, is_known_permission,
  resolve_role_permissions,
}

all-filter : (p : String → Bool) (xs : List String) → all p (filter p xs) ≡ true
all-filter p [] = refl
all-filter p (x ∷ xs) = ground (arith, all-filter p xs)

system_permissions_known :
    (role : String) → all is_known_permission (system_permissions role) ≡ true
unfolding system_permissions is_known_permission
system_permissions_known role = elim (Bool-cases (role === "owner")) [
  | inl t ↦ rw t refl
  | inr f1 ↦ rw f1 (elim (Bool-cases (role === "admin")) [
    | inl t ↦ rw t refl
    | inr f2 ↦ rw f2 (elim (Bool-cases (role === "developer")) [
      | inl t ↦ rw t refl
      | inr f3 ↦ rw f3 (elim (Bool-cases (role === "member")) [
        | inl t ↦ rw t refl
        | inr f4 ↦
            rw f4
              (elim (Bool-cases (role === "viewer")) [ inl t ↦ rw t refl | inr f5 ↦ rw f5 refl ])
      ])
    ])
  ])
]

-- Every permission that a role resolves to is one of the registry, whatever the tables of custom
-- roles hold.
pub resolve_role_permissions_known :
    (roles : List OrganizationRole) (rows : List RolePermission) (role : String)
    (organization_id : Option String)
    → all is_known_permission (resolve_role_permissions roles rows role organization_id) ≡ true
unfolding resolve_role_permissions
resolve_role_permissions_known roles rows role organization_id =
    elim (Option-cases (after_prefix (codes "custom:") (codes role))) [
      | inl e ↦ rw (e, resolve_role_permissions) (system_permissions_known role)
      | inr (role_id, e) ↦ rw (e, resolve_role_permissions) (all-filter is_known_permission _)
    ]
