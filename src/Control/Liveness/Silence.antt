-- ===== src/Control/Liveness/Silence.antt =====
-- Which nodes a tick takes offline, and what becomes of their workloads.
use devion.Prelude.{
  ℕ, ◌+◌, ◌<◌, String, ◌≡◌, refl, sym, ap, ◌∙◌, ◌⊎◌, inl, inr, true, false, ◌&&◌, Option, none,
  some, List, [], ◌∷◌, ◌===◌, ===_iff, ◌∈◌, All, mem-filter, Bool-cases, &&-eq_true, arith,
}
use devion.Core.Contracts.{offline}
use devion.Control.Store.{is_running, Node, Workload, Db}
use devion.Control.Store.Rows.{mem-update_where}
use devion.Control.Env.{Env}
use devion.Control.Refresh.{refresh_deployment_status}
use devion.Control.Refresh.Laws.{refresh_deployment_status-SameRest}
use devion.Control.Lifecycle.{actual_lost}
use devion.Control.Deployments.Candidates.{on_node}
use devion.Control.Liveness.{
  silent, turns_unhealthy, turns_offline, mark_unhealthy, mark_offline, mark_lost,
  has_persistent_volumes, lose_workload, lose_workloads, refresh_each, withdraw_volumes,
  assigned_to, lose_node, lose_nodes, silent_nodes, stale, liveness_tick,
}

module _ (env : Env) where
  open env use {Json}

  -- A workload that shall run and is not lost.
  abbrev IsLeft : Workload → Type 0
  IsLeft w = (is_running w.desired_state ≡ true) × (actual_lost w.actual_state ≡ false)

  lose_workload-IsLeft :
      (now : ℕ) (other : String) (w x : Workload) (db : Db Json)
      → x ∈ (lose_workload env now other w db).workloads
      → IsLeft x
      → (x ∈ db.workloads) × ((x.id === w.id && on_node other x.node_id) ≡ false)
  unfolding lose_workload
  lose_workload-IsLeft now other w x db m (r, l) =
      elim (mem-update_where (λ x. x.id === w.id && on_node other x.node_id)
        (mark_lost env now (has_persistent_volumes env w.deployment_id db)) x db.workloads m) [
          | inl (k, f) ↦ (k, f)
          | inr (y, k, t, e) ↦ cc (ap (λ (z : Workload). actual_lost z.actual_state) e)
        ]

  lose_workloads-IsLeft :
      (now : ℕ) (other : String) (ws : List Workload) (x : Workload) (db : Db Json)
      → x ∈ (lose_workloads env now other ws db).workloads
      → IsLeft x
      → (x ∈ db.workloads)
        × All (λ (w : Workload). (x.id === w.id && on_node other x.node_id) ≡ false) ws
  unfolding lose_workloads
  lose_workloads-IsLeft now other [] x db m h = (m, tt)
  lose_workloads-IsLeft now other (w ∷ ws) x db m h =
      let (k, fs) = lose_workloads-IsLeft now other ws x (lose_workload env now other w db) m h in
      let (k', f) = lose_workload-IsLeft now other w x db k h in (k', (f, fs))

  refresh_each-workloads :
      (now : ℕ) (ids : List String) (db : Db Json)
      → ((refresh_each env now ids db).workloads ≡ db.workloads)
        × ((refresh_each env now ids db).nodes ≡ db.nodes)
  unfolding refresh_each
  refresh_each-workloads now [] db = (refl, refl)
  refresh_each-workloads now (id ∷ ids) db =
      let (w, n) = refresh_each-workloads now ids (refresh_deployment_status now id db).1 in
      let same = refresh_deployment_status-SameRest now id db in
      (w ∙ same.workloads, n ∙ same.nodes)

  lose_workloads-nodes :
      (now : ℕ) (node_id : String) (ws : List Workload) (db : Db Json)
      → (lose_workloads env now node_id ws db).nodes ≡ db.nodes
  unfolding lose_workloads lose_workload
  lose_workloads-nodes now node_id [] db = refl
  lose_workloads-nodes now node_id (w ∷ ws) db =
      lose_workloads-nodes now node_id ws (lose_workload env now node_id w db)

  lose_node-nodes :
      (now : ℕ) (node_id : String) (db : Db Json) → (lose_node env now node_id db).nodes ≡ db.nodes
  unfolding lose_node
  lose_node-nodes now node_id db =
      (refresh_each-workloads now _ _).1
      ∙ lose_workloads-nodes now node_id _ (withdraw_volumes env node_id db)

  pub lose_nodes-nodes :
      (now : ℕ) (ids : List String) (db : Db Json) → (lose_nodes env now ids db).nodes ≡ db.nodes
  unfolding lose_nodes
  lose_nodes-nodes now [] db = refl
  lose_nodes-nodes now (id ∷ ids) db =
      lose_nodes-nodes now ids (lose_node env now id db) ∙ lose_node-nodes now id db

  covered :
      (node_id : String) (x : Workload) (ws : List Workload)
      → x ∈ ws
      → on_node node_id x.node_id ≡ true
      → ¬ All (λ (w : Workload). (x.id === w.id && on_node node_id x.node_id) ≡ false) ws
  covered node_id x [] m n = absurd m
  covered node_id x (w ∷ ws) (inl e) n =
      λ (h, hs). let q : x.id ≡ w.id = ap (λ (z : Workload). z.id) e in cc ((===_iff x.id w.id).1 q)
  covered node_id x (w ∷ ws) (inr m) n = λ (h, hs). covered node_id x ws m n hs

  -- What is left on a node behind the loss of one was left before, on another node.
  lose_node-IsLeft :
      (now : ℕ) (other : String) (x : Workload) (db : Db Json)
      → x ∈ (lose_node env now other db).workloads
      → IsLeft x
      → (x ∈ db.workloads) × (on_node other x.node_id ≡ false)
  unfolding lose_node
  lose_node-IsLeft now other x db m (r, l) =
      let (k, fs) =
        lose_workloads-IsLeft now other (assigned_to env other db) x (withdraw_volumes env other db)
          (rw (refresh_each-workloads now _ _).0 at m) (r, l) in
      elim (Bool-cases (on_node other x.node_id)) [
        | inr f ↦ (k, f)
        | inl t ↦ absurd (
            covered other x (assigned_to env other db)
              ((mem-filter _ x db.workloads).1 (k, rw (t, r) refl)) t fs)
      ]

  lose_nodes-IsLeft :
      (now : ℕ) (ids : List String) (x : Workload) (db : Db Json)
      → x ∈ (lose_nodes env now ids db).workloads
      → IsLeft x
      → (x ∈ db.workloads) × All (λ other. on_node other x.node_id ≡ false) ids
  unfolding lose_nodes
  lose_nodes-IsLeft now [] x db m h = (m, tt)
  lose_nodes-IsLeft now (id ∷ ids) x db m h =
      let (k, fs) = lose_nodes-IsLeft now ids x (lose_node env now id db) m h in
      let (k', f) = lose_node-IsLeft now id x db k h in (k', (f, fs))

  on_none :
      (id : String) (o : Option String) (ids : List String)
      → id ∈ ids
      → All (λ other. on_node other o ≡ false) ids
      → ¬ (o ≡ some id)
  on_none id o [] m h e = m
  on_none id o (i ∷ ids) (inl q) (f, fs) e =
      let here : on_node i (some id) ≡ false = ap (on_node i) (sym e) ∙ f in cc ((===_iff id i).1 q)
  on_none id o (i ∷ ids) (inr m) (f, fs) e = on_none id o ids m fs e

  -- Behind a tick every workload of a node that the tick took offline is lost, unless it shall not
  -- run.
  pub liveness_tick_lost :
      (now unhealthy_after offline_after : ℕ) (id : String) (x : Workload) (db : Db Json)
      → id ∈ stale env now unhealthy_after offline_after db
      → x ∈ (liveness_tick env now unhealthy_after offline_after db).workloads
      → x.node_id ≡ some id
      → is_running x.desired_state ≡ true
      → actual_lost x.actual_state ≡ true
  unfolding liveness_tick
  liveness_tick_lost now unhealthy_after offline_after id x db s m n r =
      elim (Bool-cases (actual_lost x.actual_state)) [
        | inl t ↦ t
        | inr f ↦
            let (_, none_on) =
              lose_nodes-IsLeft now (stale env now unhealthy_after offline_after db) x _ m (r, f) in
            absurd (on_none id x.node_id _ s none_on n)
      ]

  -- What a tick marks offline.
  abbrev pub WasSilent : ℕ → ℕ → Node → Node → Type 0
  WasSilent now offline_after old n =
      (old.id ≡ n.id)
      × (n.offline_at ≡ some now)
      × ((heartbeat : ℕ) × (old.last_heartbeat_at ≡ some heartbeat)
          × (heartbeat + offline_after < now))

  silent_heartbeat :
      (now after : ℕ) (o : Option ℕ)
      → silent now after o ≡ true
      → (heartbeat : ℕ) × (o ≡ some heartbeat) × (heartbeat + after < now)
  silent_heartbeat now after none h = cc
  silent_heartbeat now after (some heartbeat) h = (heartbeat, refl, ground arith)

  -- A tick takes only silent nodes offline: a node that is offline behind it was offline before, or
  -- its last heartbeat is older than the time allowed.
  pub liveness_tick_offline :
      (now unhealthy_after offline_after : ℕ) (n : Node) (db : Db Json)
      → n ∈ (liveness_tick env now unhealthy_after offline_after db).nodes
      → n.status ≡ offline
      → (n ∈ db.nodes) ⊎ ((old : Node) × (old ∈ db.nodes) × WasSilent now offline_after old n)
  unfolding liveness_tick
  liveness_tick_offline now unhealthy_after offline_after n db m o =
      elim (mem-update_where (turns_offline now offline_after) (mark_offline now) n
        (silent_nodes env now unhealthy_after db.nodes) (rw (lose_nodes-nodes now _ _) at m)) [
          | inl (k, f) ↦
              elim (mem-update_where (turns_unhealthy now unhealthy_after) (mark_unhealthy now) n
                db.nodes k) [
                  | inl (j, _) ↦ inl j
                  | inr (y, j, t, e) ↦ cc (ap (λ (z : Node). z.status) e)
                ]
          | inr (y, k, t, e) ↦
              let (_, quiet) = &&-eq_true _ _ t in
              let beat = silent_heartbeat now offline_after y.last_heartbeat_at quiet in
              elim (mem-update_where (turns_unhealthy now unhealthy_after) (mark_unhealthy now) y
                db.nodes k) [
                  | inl (j, _) ↦ inr (
                    y,
                    j,
                    (sym (ap (λ (z : Node). z.id) e), ap (λ (z : Node). z.offline_at) e, beat),
                  )
                  | inr (old, j, _, q) ↦ inr (
                    old,
                    j,
                    (
                      sym (ap (λ (z : Node). z.id) e ∙ ap (λ (z : Node). z.id) q),
                      ap (λ (z : Node). z.offline_at) e,
                      (beat.0, sym (ap (λ (z : Node). z.last_heartbeat_at) q) ∙ beat.1, beat.2),
                    ),
                  )
                ]
        ]
