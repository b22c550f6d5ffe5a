-- ===== src/Control/Agents/Results.antt =====
-- The result of a command is taken once.
use devion.Prelude.{
  ℕ, String, Bool, true, false, ◌&&◌, ◌===◌, not, ◌≡◌, refl, sym, ◌∙◌, subst, inl, inr, Option,
  none, List, [], ◌∷◌, any, find, if◌then◌else◌, arith, Bool-cases, Option-cases, is_some,
}
use devion.Control.Store.{
  AgentCommand, CommandStatus, CommandType, workload_start, workload_stop, workload_delete,
  volume_delete, other_command, Db, update_where, find_workload, find_deployment,
}
use devion.Control.Env.{Env}
use devion.Control.Refresh.Laws.{refresh_deployment_status-SameRest}
use devion.Control.Agents.{refers_to}
use devion.Control.Agents.Observed.{replace_observed_workload_ports}
use devion.Control.Agents.Reports.{
  CommandResult, unknown_command, RuntimeData, data_ports, is_awaited, close_command,
  reject_invalid, log_start, log_stop, observe_start, report_stop, report_game_servers,
  bind_reservations, write_workload, finish_start, finish_stop, finish_command, command_result,
}

module _ (env : Env) where
  open env use {Json}

  -- No command of the node waits for this result.
  abbrev pub IsAnswered : String → String → Db Json → Type 0
  IsAnswered node_id id db = any (is_awaited env node_id id) db.commands ≡ false

  close_command-none :
      (now : ℕ) (node_id id : String) (success : Bool) (commands : List (AgentCommand Json))
      → any
          (is_awaited env node_id id)
          (update_where (is_awaited env node_id id) (close_command env now success) commands)
        ≡ false
  close_command-none now node_id id success [] = refl
  close_command-none now node_id id true (c ∷ commands) =
      ground (arith, close_command-none now node_id id true commands)
  close_command-none now node_id id false (c ∷ commands) =
      ground (arith, close_command-none now node_id id false commands)

  report_game_servers-commands :
      (success : Bool) (runtime : Option RuntimeData) (id : String) (db : Db Json)
      → (report_game_servers env success runtime id db).commands ≡ db.commands
  report_game_servers-commands success runtime id db = elim (Option-cases (find_deployment id db)) [
    | inl e ↦ rw (e, report_game_servers) refl
    | inr (d, e) ↦ rw (e, report_game_servers) refl
  ]

  replace-commands :
      (now : ℕ) (node_id id : String) (ports : List (String × ℕ)) (db : Db Json)
      → (replace_observed_workload_ports env now node_id id ports db).commands ≡ db.commands
  unfolding replace_observed_workload_ports
  replace-commands now node_id id ports db =
      elim (Option-cases (find (λ w. w.id === id && refers_to node_id w.node_id) db.workloads)) [
        | inl e ↦ rw (e, replace_observed_workload_ports) refl
        | inr (w, e) ↦ rw (e, replace_observed_workload_ports) refl
      ]

  log_start-commands :
      (now : ℕ) (node_id resource_id : String) (success : Bool) (result : CommandResult)
      (db : Db Json)
      → (log_start env now node_id resource_id success result db).commands ≡ db.commands
  unfolding log_start
  log_start-commands now node_id resource_id success result db =
      elim (Option-cases (find_workload resource_id db)) [
        | inl e ↦ rw (e, log_start) refl
        | inr (w, e) ↦
            rw (e, log_start)
              ((refresh_deployment_status-SameRest now w.deployment_id _).commands
                ∙ report_game_servers-commands success result.runtime w.deployment_id _)
      ]

  log_stop-commands :
      (now : ℕ) (node_id resource_id : String) (result : CommandResult) (db : Db Json)
      → (log_stop env now node_id resource_id result db).commands ≡ db.commands
  unfolding log_stop
  log_stop-commands now node_id resource_id result db =
      elim (Option-cases (find_workload resource_id db)) [
        | inl e ↦ rw (e, log_stop) refl
        | inr (w, e) ↦
            rw (e, log_stop) (refresh_deployment_status-SameRest now w.deployment_id _).commands
      ]

  observe_start-commands :
      (now : ℕ) (node_id resource_id : String) (success : Bool) (result : CommandResult)
      (db : Db Json)
      → (observe_start env now node_id resource_id success result db).commands ≡ db.commands
  unfolding observe_start
  observe_start-commands now node_id resource_id success result db =
      elim (Option-cases (data_ports result.runtime)) [
        | inl e ↦ rw (e, observe_start) refl
        | inr (ports, e) ↦
            rw (e, observe_start)
              (elim (Bool-cases success) [
                | inl t ↦ rw t (replace-commands now node_id resource_id ports db)
                | inr t ↦ rw t refl
              ])
      ]

  reject-none :
      (node_id id : String) (test : AgentCommand Json → Bool) (commands : List (AgentCommand Json))
      → any (is_awaited env node_id id) commands ≡ false
      → any
          (is_awaited env node_id id)
          (update_where test (λ c. record c { status = CommandStatus.failed }) commands)
        ≡ false
  reject-none node_id id test [] h = refl
  reject-none node_id id test (c ∷ commands) h =
      ground (arith, reject-none node_id id test commands)

  reject_invalid-IsAnswered :
      (node_id id : String) (success : Bool) (result : CommandResult) (db : Db Json)
      → IsAnswered node_id id db
      → IsAnswered node_id id (reject_invalid env success result db)
  unfolding reject_invalid
  reject_invalid-IsAnswered node_id id success result db h =
      elim (Bool-cases (not success && result.is_success)) [
        | inl e ↦ rw e (reject-none node_id id _ db.commands h)
        | inr e ↦ rw e h
      ]

  finish_start-IsAnswered :
      (id : String) (now : ℕ) (node_id resource_id : String) (result : CommandResult) (db : Db Json)
      → IsAnswered node_id id db
      → IsAnswered node_id id (finish_start env now node_id resource_id result db)
  unfolding finish_start
  finish_start-IsAnswered id now node_id resource_id result db h =
      let success : Bool = result.is_success && is_some result.runtime in
      subst (λ cs. any (is_awaited env node_id id) cs ≡ false)
        (sym (
          observe_start-commands now node_id resource_id success result _
          ∙ log_start-commands now node_id resource_id success result _))
        (reject_invalid-IsAnswered node_id id success result db h)

  release-commands :
      (success : Bool) (now : ℕ) (resource_id : String) (db : Db Json)
      → (if success then bind_reservations env now false resource_id db else db).commands
        ≡ db.commands
  release-commands true now resource_id db = refl
  release-commands false now resource_id db = refl

  finish_stop-IsAnswered :
      (id : String) (now : ℕ) (node_id resource_id : String) (result : CommandResult) (db : Db Json)
      → IsAnswered node_id id db
      → IsAnswered node_id id (finish_stop env now node_id resource_id result db)
  unfolding finish_stop
  finish_stop-IsAnswered id now node_id resource_id result db h =
      subst (λ cs. any (is_awaited env node_id id) cs ≡ false)
        (sym (
          release-commands result.is_success now resource_id _
          ∙ log_stop-commands now node_id resource_id result
              (write_workload env node_id resource_id (report_stop env now result.is_success) db)))
        h

  finish_command-IsAnswered :
      (type : CommandType) (id : String) (now : ℕ) (node_id resource_id : String)
      (result : CommandResult) (db : Db Json)
      → IsAnswered node_id id db
      → IsAnswered node_id id (finish_command env type now node_id resource_id result db)
  finish_command-IsAnswered workload_start id = finish_start-IsAnswered id
  finish_command-IsAnswered workload_stop id = finish_stop-IsAnswered id
  finish_command-IsAnswered workload_delete id = finish_stop-IsAnswered id
  finish_command-IsAnswered volume_delete id = λ now node_id resource_id result db h. h
  finish_command-IsAnswered other_command id = λ now node_id resource_id result db h. h

  any-of_find :
      (p : AgentCommand Json → Bool) (cs : List (AgentCommand Json))
      → find p cs ≡ none
      → any p cs ≡ false
  any-of_find p [] h = refl
  any-of_find p (c ∷ cs) h = elim (Bool-cases (p c)) [
    | inl t ↦ absurd (cc (rw t at h))
    | inr f ↦ rw f (any-of_find p cs (rw f at h))
  ]

  find-of_any :
      (p : AgentCommand Json → Bool) (cs : List (AgentCommand Json))
      → any p cs ≡ false
      → find p cs ≡ none
  find-of_any p [] h = refl
  find-of_any p (c ∷ cs) h = ground (arith, find-of_any p cs)

  answered :
      (now : ℕ) (node_id : String) (result : CommandResult) (db : Db Json)
      → IsAnswered node_id result.command_id db
      → command_result env now node_id result db ≡ (unknown_command, db)
  unfolding command_result
  answered now node_id result db h = rw (find-of_any _ db.commands h, command_result) refl

  taken-IsAnswered :
      (now : ℕ) (node_id : String) (result : CommandResult) (db : Db Json)
      → IsAnswered node_id result.command_id (command_result env now node_id result db).1
  unfolding command_result
  taken-IsAnswered now node_id result db =
      elim (Option-cases (find (is_awaited env node_id result.command_id) db.commands)) [
        | inl n ↦ rw (n, command_result) (any-of_find _ db.commands n)
        | inr (c, m) ↦
            rw (m, command_result)
              (finish_command-IsAnswered c.type result.command_id now node_id c.resource_id result _
                (close_command-none now node_id result.command_id result.is_success db.commands))
      ]

  -- After the result of a command is taken, a further result of it from its node finds no command
  -- that waits, and changes nothing.
  pub command_result_once :
      (now later : ℕ) (node_id : String) (result again : CommandResult) (db : Db Json)
      → again.command_id ≡ result.command_id
      → command_result env later node_id again (command_result env now node_id result db).1
        ≡ (unknown_command, (command_result env now node_id result db).1)
  command_result_once now later node_id result again db e = answered later node_id again _ (
      subst (λ i. IsAnswered node_id i (command_result env now node_id result db).1) (sym e)
        (taken-IsAnswered now node_id result db))
