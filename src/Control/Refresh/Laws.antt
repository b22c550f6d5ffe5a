-- ===== src/Control/Refresh/Laws.antt =====
-- What a refresh leaves in the deployment's row and in the event log.
use mathlib.Core.Option
use mathlib.Core.Option.{some-injective}
use devion.Prelude.{
  ℕ, String, ◌≡◌, refl, ap, ◌↔◌, inl, inr, Bool, true, false, ◌&&◌, not, Option, none, some, List,
  [], ◌∷◌, ◌++◌, ◌===◌, ===_iff, &&-eq_true, if◌then◌else◌, find, Bool-cases, arith,
}
use devion.Control.Store.{
  is_running, DeploymentStatus, Deployment, Db, update_where, find_deployment, workloads_of,
}
use devion.Control.Lifecycle.{Derived, derive_deployment_status}
use devion.Control.Refresh.{
  same_status, same_text, is_superseded, write_status, status_event, store_status,
  refresh_application_status, refresh_found, refresh_deployment_status,
}

-- Finding after an update that keeps what is searched for.
pub find-update_where :
    {A : Type 0} (p test : A → Bool) (write : A → A) (xs : List A)
    → ((x : A) → p (write x) ≡ p x)
    → find p (update_where test write xs)
      ≡ Option.map (λ x. if test x then write x else x) (find p xs)
find-update_where p test write [] keep = refl
find-update_where p test write (x ∷ xs) keep =
    ground (arith, keep x, find-update_where p test write xs keep)

find_sound : {A : Type 0} (p : A → Bool) (xs : List A) (a : A) → find p xs ≡ some a → p a ≡ true
find_sound p [] a h = cc
find_sound p (x ∷ xs) a h = elim (Bool-cases (p x)) [
  | inl e ↦ rw (some-injective _ _ (rw e at h)) at e
  | inr e ↦ find_sound p xs a (rw e at h)
]

same_status_iff : (s t : DeploymentStatus) → (same_status s t ≡ true) ↔ (s ≡ t)
same_status_iff s t = (ground arith, ground arith)

same_text_iff : (s t : Option String) → (same_text s t ≡ true) ↔ (s ≡ t)
same_text_iff none none = (λ h. refl, λ h. refl)
same_text_iff none (some t) = (λ h. cc, λ h. cc)
same_text_iff (some s) none = (λ h. cc, λ h. cc)
same_text_iff (some s) (some t) = (ground (arith, ===_iff s t), ground (arith, ===_iff s t))

module _ {J : Type 0} where
  write_status_facts :
      (now : ℕ) (next : Derived) (seen row : Deployment J)
      → let row' = write_status now next seen row in
        (row'.id ≡ row.id)
        × (row'.status ≡ next.status)
        × (row'.failure_reason ≡ next.failure_reason)
        × (row'.desired_state ≡ row.desired_state)
        × (row'.replicas ≡ row.replicas)
  write_status_facts now next seen row = ground arith

  stored_tables :
      (now : ℕ) (d : Deployment J) (next : Derived) (db : Db J)
      → ((store_status now d next db).events ≡ db.events ++ status_event d.id next ∷ [])
        × ((store_status now d next db).workloads ≡ db.workloads)
  unfolding store_status
  stored_tables now d next db = (refl, refl)

  -- The row that a search by identifier finds after the status was stored.
  find-store_status :
      (now : ℕ) (d : Deployment J) (next : Derived) (db : Db J)
      → find_deployment d.id db ≡ some d
      → find_deployment d.id (store_status now d next db) ≡ some (write_status now next d d)
  unfolding store_status
  find-store_status now d next db h =
      rw
        (find-update_where (λ e. e.id === d.id) _ (write_status now next d) db.deployments
          (λ e. ap (λ i. i === d.id) (write_status_facts now next d e).0))
        (rw h (ground (arith, ===_iff d.id d.id)))

  unchanged_of_same :
      (d : Deployment J) (next : Derived)
      → (same_status d.status next.status && same_text d.failure_reason next.failure_reason) ≡ true
      → (d.status ≡ next.status) × (d.failure_reason ≡ next.failure_reason)
  unchanged_of_same d next h =
      let (s, t) = &&-eq_true _ _ h in
      (
        (same_status_iff d.status next.status).0 s,
        (same_text_iff d.failure_reason next.failure_reason).0 t,
      )

  -- A refresh of a deployment that is found, and is not a superseded one at rest, answers with the
  -- status that its workloads give, leaves its row with that status and its reason, logs one event
  -- exactly if these changed, and leaves the workloads alone.
  pub refresh_deployment_status_stores :
      (now : ℕ) (d : Deployment J) (db : Db J)
      → find_deployment d.id db ≡ some d
      → (is_superseded d.status && not (is_running d.desired_state)) ≡ false
      → let next = derive_deployment_status d.desired_state d.replicas (workloads_of d.id db) in
        let (answer, after) = refresh_deployment_status now d.id db in
        (answer ≡ some next.status)
        × ((d' : Deployment J) × (find_deployment d.id after ≡ some d')
            × (d'.status ≡ next.status)
            × (d'.failure_reason ≡ next.failure_reason))
        × (after.events ≡ (
            if same_status d.status next.status && same_text d.failure_reason next.failure_reason
            then db.events
            else db.events ++ status_event d.id next ∷ []))
        × (after.workloads ≡ db.workloads)
  unfolding refresh_deployment_status refresh_found refresh_application_status
  refresh_deployment_status_stores now d db h live =
      let next = derive_deployment_status d.desired_state d.replicas (workloads_of d.id db) in
      elim (Bool-cases
        (same_status d.status next.status && same_text d.failure_reason next.failure_reason)) [
          | inl same ↦
              rw (h, refresh_deployment_status, live, same)
                (refl, (let (u, v) = unchanged_of_same d next same in (d, h, u, v)), refl, refl)
          | inr differ ↦
              rw (h, refresh_deployment_status, live, differ)
                (
                  refl,
                  (let (_, u, v, _, _) = write_status_facts now next d d in
                      (write_status now next d d, find-store_status now d next db h, u, v)),
                  (stored_tables now d next db).0,
                  (stored_tables now d next db).1,
                )
        ]

  -- The tables that a refresh does not write.
  pub record SameRest (db db' : Db J) : Type 0 where
    pub nodes : db'.nodes ≡ db.nodes
    pub workloads : db'.workloads ≡ db.workloads
    pub reservations : db'.reservations ≡ db.reservations
    pub commands : db'.commands ≡ db.commands
    pub volumes : db'.volumes ≡ db.volumes
    pub mounts : db'.mounts ≡ db.mounts
    pub fresh : db'.fresh ≡ db.fresh

  pub refresh_deployment_status-SameRest :
      (now : ℕ) (id : String) (db : Db J) → SameRest db (refresh_deployment_status now id db).1
  unfolding refresh_deployment_status refresh_found refresh_application_status store_status
  refresh_deployment_status-SameRest now id db = ground arith
