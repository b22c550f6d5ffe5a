-- ===== src/Control/Deployments/Switch/Sole.antt =====
-- After a switch one revision of the application shall run.
use devion.Prelude.{
  ℕ, String, ◌≡◌, refl, ap, ◌∙◌, inl, inr, true, false, List, [], ◌∷◌, ◌===◌, ===_iff, ◌∈◌, All,
  filter, mem-filter, Bool-cases, arith,
}
use devion.Control.Store.{is_running, Workload, Deployment, Db, workloads_of}
use devion.Control.Store.Rows.{mem-update_where}
use devion.Control.Env.{Env}
use devion.Control.Commands.{Change, issue_change, request_state_change, request_all}
use devion.Control.Deployments.Switch.{
  mark_superseded, store_superseded, supersede, supersede_all, runs_for,
  supersede_previous_deployments, store_stopped, stop_all, stop_application_workloads,
}

module _ (env : Env) where
  open env use {Json}

  request_all-deployments :
      (now : ℕ) (type : Change) (ws : List Workload) (db : Db Json)
      → (request_all env now type ws db).deployments ≡ db.deployments
  unfolding request_all request_state_change issue_change
  request_all-deployments now type [] db = refl
  request_all-deployments now type (w ∷ ws) db =
      let one : (request_state_change env now w type db).deployments ≡ db.deployments =
        ground arith in
      request_all-deployments now type ws (request_state_change env now w type db) ∙ one

  supersede-running :
      (now : ℕ) (id : String) (x : Deployment Json) (db : Db Json)
      → x ∈ (supersede env now id db).deployments
      → is_running x.desired_state ≡ true
      → (x ∈ db.deployments) × ((x.id === id) ≡ false)
  unfolding supersede
  supersede-running now id x db m r =
      elim (mem-update_where (λ d. d.id === id) (mark_superseded env) x db.deployments
        (rw (request_all-deployments now Change.stop _ (store_superseded env id db)) at m)) [
          | inl k ↦ k
          | inr (y, k, t, e) ↦ cc (ap (λ (d : Deployment Json). is_running d.desired_state) e)
        ]

  supersede_all-running :
      (now : ℕ) (current_id : String) (ds : List (Deployment Json)) (x : Deployment Json)
      (db : Db Json)
      → x ∈ (supersede_all env now current_id ds db).deployments
      → is_running x.desired_state ≡ true
      → (x.id === current_id) ≡ false
      → (x ∈ db.deployments) × All (λ (d : Deployment Json). (x.id === d.id) ≡ false) ds
  unfolding supersede_all
  supersede_all-running now current_id [] x db m r c = (m, tt)
  supersede_all-running now current_id (d ∷ ds) x db m r c =
      elim (Bool-cases (d.id === current_id)) [
        | inl t ↦
            let (k, fs) = supersede_all-running now current_id ds x db (rw t at m) r c in
            (
              k,
              (
                ground (arith, ===_iff x.id d.id, ===_iff d.id current_id, ===_iff x.id current_id),
                fs,
              ),
            )
        | inr f ↦
            let (k, fs) =
              supersede_all-running now current_id ds x (supersede env now d.id db) (rw f at m) r
                c in
            let (k', g) = supersede-running now d.id x db k r in (k', (g, fs))
      ]

  not_apart :
      (x : Deployment Json) (ds : List (Deployment Json))
      → x ∈ ds
      → ¬ All (λ (d : Deployment Json). (x.id === d.id) ≡ false) ds
  not_apart x [] m h = m
  not_apart x (d ∷ ds) (inl e) (f, fs) =
      cc ((===_iff x.id d.id).1 (ap (λ (z : Deployment Json). z.id) e))
  not_apart x (d ∷ ds) (inr m) (f, fs) = not_apart x ds m fs

  -- After the previous deployments are superseded, the current one is the only deployment of the
  -- application that may have the wanted state running.
  pub supersede_previous_deployments_sole :
      (now : ℕ) (application_id current_id : String) (x : Deployment Json) (db : Db Json)
      → x ∈ (supersede_previous_deployments env now application_id current_id db).deployments
      → x.application_id ≡ application_id
      → is_running x.desired_state ≡ true
      → x.id ≡ current_id
  unfolding supersede_previous_deployments
  supersede_previous_deployments_sole now application_id current_id x db m a r =
      elim (Bool-cases (x.id === current_id)) [
        | inl t ↦ (===_iff x.id current_id).0 t
        | inr f ↦
            let previous = filter (runs_for env application_id) db.deployments in
            let (k, fs) = supersede_all-running now current_id previous x db m r f in
            let listed : x ∈ previous =
              (mem-filter (runs_for env application_id) x db.deployments).1
                (k, rw (r, (===_iff x.application_id application_id).1 a) refl) in
            absurd (not_apart x previous listed fs)
      ]

  stop_all-running :
      (now : ℕ) (ds : List (Deployment Json)) (x : Deployment Json) (db : Db Json)
      → x ∈ (stop_all env now ds db).deployments
      → is_running x.desired_state ≡ true
      → (x ∈ db.deployments) × All (λ (d : Deployment Json). (x.id === d.id) ≡ false) ds
  unfolding stop_all
  stop_all-running now [] x db m r = (m, tt)
  stop_all-running now (d ∷ ds) x db m r =
      let db' = store_stopped env d.id db in
      let (k, fs) =
        stop_all-running now ds x (request_all env now Change.stop (workloads_of d.id db') db') m
          r in
      elim (mem-update_where (λ e. e.id === d.id) _ x db.deployments
        (rw (request_all-deployments now Change.stop (workloads_of d.id db') db') at k)) [
          | inl (j, g) ↦ (j, (g, fs))
          | inr (y, j, t, e) ↦ cc (ap (λ (d : Deployment Json). is_running d.desired_state) e)
        ]

  -- After the workloads of an application are stopped, none of its deployments shall run.
  pub stop_application_workloads_none :
      (now : ℕ) (application_id : String) (x : Deployment Json) (db : Db Json)
      → x ∈ (stop_application_workloads env now application_id db).deployments
      → x.application_id ≡ application_id
      → is_running x.desired_state ≡ false
  unfolding stop_application_workloads
  stop_application_workloads_none now application_id x db m a =
      elim (Bool-cases (is_running x.desired_state)) [
        | inr f ↦ f
        | inl r ↦
            let mine =
              filter (λ (d : Deployment Json). d.application_id === application_id)
                db.deployments in
            let (k, fs) = stop_all-running now mine x db m r in
            let listed : x ∈ mine =
              (mem-filter _ x db.deployments).1
                (k, (===_iff x.application_id application_id).1 a) in
            absurd (not_apart x mine listed fs)
      ]
