-- ===== src/Control/Deployments/Placement/Rows.antt =====
-- What a placement that goes on adds to the tables.
use devion.Prelude.{
  append_nil, append_assoc, ◌∙◌, ℕ, suc, ◌≤◌, String, ◌≡◌, refl, sym, ap, subst, inl, inr, not,
  Option, none, some, List, [], ◌∷◌, ◌++◌, ◌+◌, any, ◌==◌, ltb, find, map, length, All, Bool-cases,
  Option-cases, arith,
}
use mathlib.Core.Option
use mathlib.Core.Option.{some-injective}
use devion.Core.Contracts.{WorkloadRequirements, NodeSnapshot}
use devion.Core.Scheduler.{Reason}
use devion.Control.Store.{
  Workload, PortReservation, Db, AgentCommand, DesiredState, ActualState, CommandStatus,
  ReservationStatus, workload_start, Payload,
}
use devion.Control.Env.{Env}
use devion.Control.Deployments.Candidates.{active_ports}
use devion.Control.Deployments.Assign.{
  AssignedPort, rewrite_ports, assign_host_ports, public_ports, insert_reservations, clashes,
}
use devion.Control.Deployments.Claims.{set_requirements}
use devion.Control.Deployments.Placement.{
  max_recovery_attempts, needs_replacement, attempt_after, id_of, placed, Job, new_workload,
  start_command, reservations_for, write_placement, write_pin, place,
}
use devion.Control.Deployments.Placement.Recovery.{with_reservations}

-- A batch that is inserted stands behind the rows that were there.
insert_reservations-rows :
    (table rows after : List PortReservation)
    → insert_reservations table rows ≡ some after
    → after ≡ table ++ rows
unfolding insert_reservations
insert_reservations-rows table [] after h = sym (some-injective _ _ h) ∙ sym (append_nil table)
insert_reservations-rows table (r ∷ rows) after h = elim (Bool-cases (any (clashes r) table)) [
  | inl t ↦ cc (rw t at h)
  | inr f ↦
      insert_reservations-rows (table ++ r ∷ []) rows after (rw f at h)
      ∙ append_assoc table (r ∷ []) rows
]

abbrev listed : Option Workload → List Workload
listed none = []
listed (some w) = w ∷ []

attempt_after_lem :
    (replacement : Option Workload) (attempts : ℕ)
    → attempt_after replacement attempts ≡ attempts + length (listed replacement)
attempt_after_lem none attempts = omega arith
attempt_after_lem (some w) attempts = refl

replaced_id :
    (replacement : Option Workload)
    → id_of replacement ≡ Option.map (λ (w : Workload). w.id) replacement
replaced_id none = refl
replaced_id (some w) = refl

-- The port that a reservation is for.
abbrev pub port_of_row : PortReservation → AssignedPort
port_of_row row = record {
  container_port = row.container_port;
  protocol = row.protocol;
  host_port = row.host_port;
}

module _ (env : Env) where
  open env use {Json, uuid, parse_ports}

  after_of :
      {r r' : WorkloadRequirements} {cs cs' : List NodeSnapshot} {db db' : Db Json}
      → placed r cs db ≡ placed r' cs' db'
      → db ≡ db'
  after_of e = cc

  -- What a placement adds for a replica: rows that stand for it, for its node and for one another.
  pub record IsPlaced (job : Job env) (node_id : String) (replacement : Option Workload)
      (r : WorkloadRequirements) (db db' : Db Json) : Type 0 where
    pub workload : Workload
    pub command : AgentCommand Json
    pub rows : List PortReservation
    pub workloads : db'.workloads ≡ db.workloads ++ workload ∷ []
    pub commands : db'.commands ≡ db.commands ++ command ∷ []
    pub reservations : db'.reservations ≡ db.reservations ++ rows
    pub of_deployment : workload.deployment_id ≡ job.deployment.id
    pub on_node : workload.node_id ≡ some node_id
    pub is_wanted : workload.desired_state ≡ DesiredState.running
    pub is_pending : workload.actual_state ≡ ActualState.pending
    pub replaces :
        workload.replacement_of_workload_id ≡ Option.map (λ (w : Workload). w.id) replacement
    pub starts : command.type ≡ workload_start
    pub is_for : command.resource_id ≡ workload.id
    pub to_node : command.node_id ≡ node_id
    pub waits : command.status ≡ CommandStatus.pending
    pub payload :
        command.payload
        ≡ Payload.start workload.id job.deployment.id job.deployment.image job.deployment.runtime r
            job.deployment.runtime_config
            (rewrite_ports (map port_of_row rows) (parse_ports job.deployment.runtime_config))
    pub reserved :
        All
          (λ row.
            (row.node_id ≡ node_id)
            × (row.workload_id ≡ workload.id)
            × (row.status ≡ ReservationStatus.reserved))
          rows
    pub is_complete :
        length rows ≡ length (public_ports (parse_ports job.deployment.runtime_config))
    pub budget :
        job.deployment.recovery_attempts + length (listed replacement) ≤ max_recovery_attempts

  reserved_rows :
      (fresh : ℕ) (node_id workload_id : String) (assigned : List AssignedPort)
      → All
          (λ row.
            (row.node_id ≡ node_id)
            × (row.workload_id ≡ workload_id)
            × (row.status ≡ ReservationStatus.reserved))
          (reservations_for env fresh node_id workload_id assigned)
        × (length (reservations_for env fresh node_id workload_id assigned) ≡ length assigned)
  reserved_rows fresh node_id workload_id [] = (tt, refl)
  reserved_rows fresh node_id workload_id (a ∷ assigned) =
      let (h, l) = reserved_rows (suc fresh) node_id workload_id assigned in
      (((refl, refl, refl), h), ap suc l)

  ports_of_rows :
      (fresh : ℕ) (node_id workload_id : String) (assigned : List AssignedPort)
      → map port_of_row (reservations_for env fresh node_id workload_id assigned) ≡ assigned
  ports_of_rows fresh node_id workload_id [] = refl
  ports_of_rows fresh node_id workload_id (a ∷ assigned) =
      ap (λ l. a ∷ l) (ports_of_rows (suc fresh) node_id workload_id assigned)

  pin_tables :
      (job : Job env) (node_id : String) (r : WorkloadRequirements) (db : Db Json)
      → let db' = write_pin env job node_id r db in
        (db'.workloads ≡ db.workloads) × (db'.commands ≡ db.commands) × (db'.fresh ≡ db.fresh)
  unfolding set_requirements
  pin_tables job node_id r db = ground arith

  write_tables :
      (job : Job env) (node_id : String) (reasons : List Reason) (replacement : Option Workload)
      (attempt : ℕ) (r : WorkloadRequirements) (assigned : List AssignedPort)
      (rows : List PortReservation) (db : Db Json) (id : String)
      → let db' =
          write_placement env job id node_id reasons replacement attempt r assigned rows db in
        (db'.workloads ≡ db.workloads ++ new_workload env job id node_id reasons replacement ∷ [])
        × (db'.commands
            ≡ db.commands ++ start_command env job (uuid (suc db.fresh)) id node_id r assigned ∷ [])
        × (db'.reservations ≡ rows)
  unfolding write_placement
  write_tables job node_id reasons none attempt r assigned rows db id = (refl, refl, refl)
  write_tables job node_id reasons (some w) attempt r assigned rows db id = (refl, refl, refl)

  pub place_placed :
      (job : Job env) (node_id : String) (reasons : List Reason) (r r' : WorkloadRequirements)
      (candidates candidates' : List NodeSnapshot) (db db' : Db Json)
      → place env job node_id reasons r candidates db ≡ placed r' candidates' db'
      → IsPlaced job node_id (find needs_replacement job.current) r db db'
  unfolding place
  place_placed job node_id reasons r r' candidates candidates' db db' e =
      let ports = parse_ports job.deployment.runtime_config in
      let assigned =
        assign_host_ports (uuid db.fresh) (active_ports node_id db.reservations) ports in
      let replacement = find needs_replacement job.current in
      elim (Bool-cases (not (length assigned == length (public_ports ports)))) [
        | inl t ↦ cc (rw t at e)
        | inr f ↦
            elim (Bool-cases (
              ltb max_recovery_attempts
                (attempt_after replacement job.deployment.recovery_attempts))) [
                  | inl t ↦ cc (rw (f, t) at e)
                  | inr g ↦ elim (Option-cases (with_reservations env job node_id db)) [
                    | inl n ↦ cc (rw (f, g, n) at e)
                    | inr (rs, s) ↦
                        let attempt = attempt_after replacement job.deployment.recovery_attempts in
                        let (pw, pc, pf) = pin_tables job node_id r db in
                        let (ww, wc, wr) =
                          write_tables job node_id reasons replacement attempt r assigned rs
                            (write_pin env job node_id r db) (uuid db.fresh) in
                        let same : write_placement env job (uuid db.fresh) node_id reasons
                              replacement attempt r assigned rs (write_pin env job node_id r db)
                            ≡ db' =
                          after_of (rw (f, g, s) at e) in
                        let (rr, rl) =
                          reserved_rows (suc (suc db.fresh)) node_id (uuid db.fresh) assigned in
                        subst (IsPlaced job node_id replacement r db) same (record {
                          workload =
                              new_workload env job (uuid db.fresh) node_id reasons replacement;
                          command =
                              start_command env job (uuid (suc db.fresh)) (uuid db.fresh) node_id r
                                assigned;
                          rows =
                              reservations_for env (suc (suc db.fresh)) node_id (uuid db.fresh)
                                assigned;
                          workloads =
                              ww
                              ∙ ap
                                  (λ l.
                                    l
                                    ++ new_workload env job (uuid db.fresh) node_id reasons
                                        replacement
                                      ∷ [])
                                  pw;
                          commands = wc ∙ (rw (pc, pf) refl);
                          reservations = wr ∙ insert_reservations-rows db.reservations _ rs s;
                          of_deployment = refl;
                          on_node = refl;
                          is_wanted = refl;
                          is_pending = refl;
                          replaces = replaced_id replacement;
                          starts = refl;
                          is_for = refl;
                          to_node = refl;
                          waits = refl;
                          payload =
                              ap
                                (λ l.
                                  Payload.start (uuid db.fresh) job.deployment.id
                                    job.deployment.image job.deployment.runtime r
                                    job.deployment.runtime_config (rewrite_ports l ports))
                                (sym (
                                  ports_of_rows (suc (suc db.fresh)) node_id (uuid db.fresh)
                                    assigned));
                          reserved = rr;
                          is_complete = rl ∙ ground arith;
                          budget =
                              rw
                                (sym
                                  (attempt_after_lem replacement job.deployment.recovery_attempts))
                                (ground arith);
                        })
                  ]
                ]
      ]
