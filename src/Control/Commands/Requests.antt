-- ===== src/Control/Commands/Requests.antt =====
-- A change of a workload's state is requested at most once at a time.
use devion.Prelude.{
  ℕ, ◌≤◌, String, ◌≡◌, refl, ◌∙◌, ◌↔◌, inl, inr, true, false, ◌&&◌, some, List, [], ◌∷◌, ◌===◌,
  ===_iff, any, count, count-append, count_of_any, any-append, Bool-cases, Option-cases, arith,
  if◌then◌else◌, &&-eq_true,
}
use devion.Control.Store.{CommandType, Workload, Db}
use devion.Control.Env.{Env}
use devion.Control.Commands.{
  Change, command_type, same_type, has_target, is_open_for, issue_change, request_state_change,
  request_all,
}

same_type_iff : (s t : CommandType) → (same_type s t ≡ true) ↔ (s ≡ t)
same_type_iff s t = (ground arith, ground arith)

module _ (env : Env) where
  open env use {Json}

  -- No workload has two open commands of one type.
  abbrev pub IsUnique : Db Json → Type 0
  IsUnique db =
      (resource : String) (type : CommandType) → count (is_open_for resource type) db.commands ≤ 1

  issue_change-IsUnique :
      (now : ℕ) (w : Workload) (node_id : String) (type : Change) (db : Db Json)
      → any (is_open_for w.id (command_type type)) db.commands ≡ false
      → IsUnique db
      → IsUnique (issue_change env now w node_id type db)
  unfolding issue_change
  issue_change-IsUnique now w node_id type db closed unique resource kind =
      rw (count-append (is_open_for resource kind) db.commands _)
        (elim (Bool-cases (w.id === resource && same_type (command_type type) kind)) [
          | inl e ↦
              let (i, k) = &&-eq_true _ _ e in
              let none_open : count (is_open_for {J = Json} resource kind) db.commands ≡ 0 =
                rw (← (===_iff w.id resource).0 i, ← (same_type_iff (command_type type) kind).0 k)
                  (count_of_any (is_open_for w.id (command_type type)) db.commands closed) in
              ground (arith, none_open)
          | inr e ↦ ground (arith, unique resource kind)
        ])

  -- A request keeps it so that no workload has two open commands of one type.
  pub request_state_change-IsUnique :
      (now : ℕ) (w : Workload) (type : Change) (db : Db Json)
      → IsUnique db
      → IsUnique (request_state_change env now w type db)
  unfolding request_state_change
  request_state_change-IsUnique now w type db unique = elim (Option-cases w.node_id) [
    | inl e ↦ rw (e, request_state_change) unique
    | inr (node_id, e) ↦
        rw (e, request_state_change)
          (elim (Bool-cases (has_target w.desired_state type)) [
            | inl t ↦ rw t unique
            | inr f ↦
                rw f (elim (Bool-cases (any (is_open_for w.id (command_type type)) db.commands)) [
                  | inl t ↦ rw t unique
                  | inr closed ↦
                      rw closed (issue_change-IsUnique now w node_id type db closed unique)
                ])
          ])
  ]

  request_all-IsUnique :
      (now : ℕ) (type : Change) (ws : List Workload) (db : Db Json)
      → IsUnique db
      → IsUnique (request_all env now type ws db)
  unfolding request_all
  request_all-IsUnique now type [] db unique = unique
  request_all-IsUnique now type (w ∷ ws) db unique =
      request_all-IsUnique now type ws _ (request_state_change-IsUnique now w type db unique)

  -- What a request does for a placed workload that has not the wanted state.
  request_state_change_lem :
      (now : ℕ) (w : Workload) (node_id : String) (type : Change) (db : Db Json)
      → w.node_id ≡ some node_id
      → has_target w.desired_state type ≡ false
      → request_state_change env now w type db ≡ (
          if any (is_open_for w.id (command_type type)) db.commands
          then db
          else issue_change env now w node_id type db)
  unfolding request_state_change issue_change
  request_state_change_lem now w node_id type db e f = rw (e, request_state_change) (rw f refl)

  issue_change_open :
      (now : ℕ) (w : Workload) (node_id : String) (type : Change) (db : Db Json)
      → any (is_open_for w.id (command_type type)) (issue_change env now w node_id type db).commands
        ≡ true
  unfolding issue_change
  issue_change_open now w node_id type db =
      rw (any-append (is_open_for w.id (command_type type)) db.commands _)
        (ground (arith, ===_iff w.id w.id))

  request_state_change_open :
      (now : ℕ) (w : Workload) (node_id : String) (type : Change) (db : Db Json)
      → w.node_id ≡ some node_id
      → has_target w.desired_state type ≡ false
      → any (is_open_for w.id (command_type type)) (request_state_change env now w type db).commands
        ≡ true
  request_state_change_open now w node_id type db e f =
      rw (request_state_change_lem now w node_id type db e f)
        (elim (Bool-cases (any (is_open_for w.id (command_type type)) db.commands)) [
          | inl t ↦ rw t t
          | inr c ↦ rw c (issue_change_open now w node_id type db)
        ])

  -- After a request for a placed workload that has not the wanted state, a command of that type is
  -- open, and repeating the request changes nothing.
  pub request_state_change_idem :
      (now later : ℕ) (w : Workload) (node_id : String) (type : Change) (db : Db Json)
      → w.node_id ≡ some node_id
      → has_target w.desired_state type ≡ false
      → let db' = request_state_change env now w type db in
        (any (is_open_for w.id (command_type type)) db'.commands ≡ true)
        × (request_state_change env later w type db' ≡ db')
  request_state_change_idem now later w node_id type db e f =
      let opened = request_state_change_open now w node_id type db e f in
      (opened, request_state_change_lem later w node_id type _ e f ∙ rw opened refl)
