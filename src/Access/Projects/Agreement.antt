-- ===== src/Access/Projects/Agreement.antt =====
-- The list of projects and the access to one project follow one policy.
use devion.Prelude.{
  String, ◌≡◌, refl, sym, subst, ap, ◌∙◌, ◌↔◌, inl, inr, true, false, ◌&&◌, not, Option, none, some,
  List, [], ◌∷◌, ◌===◌, ===_iff, any, filter, is_nil, ◌∈◌, mem-filter, Bool-cases, arith,
}
use mathlib.Core.Option.{some-injective}
use devion.Access.Permissions.{includes}
use devion.Access.Projects.{
  Directory, Entry, Project, ProjectTeam, TeamMember, enter, has_team_access, is_blocked,
  find_project, access_within, projects_within, resolve_project_access, team_ids, project_ids,
  assigned_project_ids, is_visible, list_accessible_projects,
}

includes-team_ids :
    (user_id id : String) (tms : List TeamMember)
    → includes (team_ids user_id tms) id
      ≡ any (λ tm. id === tm.team_id && tm.user_id === user_id) tms
includes-team_ids user_id id [] = refl
includes-team_ids user_id id (tm ∷ tms) =
    ground (arith, ===_iff tm.team_id id, ===_iff id tm.team_id, includes-team_ids user_id id tms)

includes-project_ids :
    (user_id id : String) (tms : List TeamMember) (pts : List ProjectTeam)
    → includes (project_ids (team_ids user_id tms) pts) id
      ≡ any
          (λ pt.
            pt.project_id === id
            && any (λ tm. pt.team_id === tm.team_id && tm.user_id === user_id) tms)
          pts
includes-project_ids user_id id tms [] = refl
includes-project_ids user_id id tms (pt ∷ pts) =
    ground
      (arith, includes-team_ids user_id pt.team_id tms, includes-project_ids user_id id tms pts)

no_teams :
    (id : String) (pts : List ProjectTeam) (teams : List String)
    → is_nil teams ≡ true
    → includes (project_ids teams pts) id ≡ false
no_teams id [] teams h = refl
no_teams id (pt ∷ pts) [] h = no_teams id pts [] h
no_teams id (pt ∷ pts) (t ∷ teams) h = cc

includes-assigned :
    (d : Directory) (user_id id : String)
    → includes (assigned_project_ids d user_id) id ≡ has_team_access d user_id id
includes-assigned d user_id id = elim (Bool-cases (is_nil (team_ids user_id d.team_members))) [
  | inl t ↦ rw t (
      sym (no_teams id d.project_teams (team_ids user_id d.team_members) t)
      ∙ includes-project_ids user_id id d.team_members d.project_teams)
  | inr f ↦ rw f (includes-project_ids user_id id d.team_members d.project_teams)
]

visible_of_access :
    (d : Directory) (e : Entry) (p : Project)
    → (p.organization_id === e.organization.id) ≡ true
    → is_visible d e p ≡ not (is_blocked d e p)
visible_of_access d e p o = ground (arith, includes-assigned d e.user_id p.id)

-- For a user who may enter, a project that the organization has under its identifier is in the list
-- of projects exactly if the project's own page gives access to it.
pub list_accessible_projects_iff :
    (d : Directory) (user : Option String) (slug permission : String) (e : Entry) (p : Project)
    → enter d user slug permission ≡ some e
    → p ∈ d.projects
    → (p.organization_id === e.organization.id) ≡ true
    → find_project d e.organization.id p.id ≡ some p
    → ((listed : List Project) × (list_accessible_projects d user slug permission
          ≡ some (e, listed))
        × (p ∈ listed))
      ↔ (resolve_project_access d user slug p.id permission
          ≡ some (record { entry = e; project = p }))
unfolding list_accessible_projects resolve_project_access
list_accessible_projects_iff d user slug permission e p h m o f =
    let visible = filter (is_visible d e) d.projects in
    let list : list_accessible_projects d user slug permission ≡ some (e, visible) =
      ap (projects_within d) h in
    let page : resolve_project_access d user slug p.id permission ≡ access_within d p.id (some e) =
      ap (access_within d p.id) h in
    let same = visible_of_access d e p o in
    elim (Bool-cases (is_blocked d e p)) [
      | inl t ↦ (
        λ (listed, q, k).
            let here : visible ≡ listed = entry_list (sym list ∙ q) in
            let seen =
              ((mem-filter (is_visible d e) p d.projects).0 (subst (λ l. p ∈ l) (sym here) k)).1 in
            cc (same, t),
        λ r.
            let closed : access_within d p.id (some e) ≡ none = rw (f, access_within) (rw t refl) in
            cc (page, closed),
      )
      | inr g ↦
          let opened : access_within d p.id (some e) ≡ some (record { entry = e; project = p }) =
            rw (f, access_within) (rw g refl) in
          (
            λ _. page ∙ opened,
            λ r.
                (visible, list, (mem-filter (is_visible d e) p d.projects).1 (m, same ∙ rw g refl)),
          )
    ]
  where
    entry_list :
        {xs ys : List Project}
        → ◌≡◌ {A = Option (Entry × List Project)} (some (e, xs)) (some (e, ys))
        → xs ≡ ys
    entry_list q = ap (λ (r : Entry × List Project). r.1) (some-injective _ _ q)
