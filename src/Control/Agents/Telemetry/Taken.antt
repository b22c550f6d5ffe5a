-- ===== src/Control/Agents/Telemetry/Taken.antt =====
-- What a batch of reports does to the workloads: the handler of
-- `/api/agents/workloads/telemetry` in apps/api/src/routes/nodes.routes.ts.
use devion.Prelude.{
  ℕ, String, Bool, true, false, ◌&&◌, Option, none, some, List, [], ◌∷◌, ltb, ◌==◌, ◌===◌,
  if◌then◌else◌, any, ◌≡◌, refl, ap, ◌∙◌, subst, inl, inr, ◌∈◌, ◌⊎◌, arith, is_some, not,
}
use devion.Control.Store.{Workload, Db}
use devion.Control.Store.Rows.{mem-update_where}
use devion.Control.Env.{Env}
use devion.Control.Refresh.Laws.{refresh_deployment_status-SameRest}
use devion.Control.Agents.{refers_to}
use devion.Control.Agents.Observed.{replace_observed_workload_ports}
use devion.Control.Agents.Telemetry.{
  Report, take_report, owned, is_due, is_earlier, observe_report, store_reports, refresh_reported,
  accept_reports, workload_telemetry, is_outside, repeats, is_stale, is_older,
}

-- What `x` became from `y` by a report of the batch that was due: it agrees with the report.
abbrev pub Taken : String → List Report → Workload → Workload → Type 0
Taken node_id reports y x =
    (r : Report) × (r ∈ reports)
    × (is_due node_id r y ≡ true)
    × (x.id ≡ y.id)
    × (x.node_id ≡ y.node_id)
    × (x.report_generation ≡ y.report_generation)
    × (x.health_checked_at ≡ some r.observed_at)
    × (x.actual_state ≡ r.actual_state)
    × (x.health_status ≡ r.health_status)

is_earlier_trans :
    (at : Option ℕ) (s t : ℕ) → is_earlier at s ≡ true → ltb s t ≡ true → is_earlier at t ≡ true
is_earlier_trans none s t h k = refl
is_earlier_trans (some at) s t h k = grind arith

last_holds : (a b c d : Bool) → (a && b && c && d) ≡ true → d ≡ true
last_holds a b c d h = ground arith

last_replaced :
    (a b c d d' : Bool) → (a && b && c && d) ≡ true → d' ≡ true → (a && b && c && d') ≡ true
last_replaced a b c d d' h h' = ground arith

-- A later report that was due behind an earlier one was due before it too.
is_due_back :
    (now : ℕ) (node_id : String) (prior : Option Workload) (r q : Report) (y : Workload)
    → is_due node_id r y ≡ true
    → is_due node_id q (take_report now prior r y) ≡ true
    → is_due node_id q y ≡ true
is_due_back now node_id prior r q y due later =
    last_replaced (y.id === q.workload_id) (refers_to node_id y.node_id)
      (y.report_generation == q.report_generation) (ltb r.observed_at q.observed_at)
      (is_earlier y.health_checked_at q.observed_at) later
      (is_earlier_trans y.health_checked_at r.observed_at q.observed_at
        (last_holds (y.id === r.workload_id) (refers_to node_id y.node_id)
          (y.report_generation == r.report_generation)
          (is_earlier y.health_checked_at r.observed_at) due)
        (last_holds (y.id === q.workload_id) (refers_to node_id y.node_id)
          (y.report_generation == q.report_generation) (ltb r.observed_at q.observed_at) later))

-- A check that fails keeps the state.
guard-kept :
    {A D : Type 0} (test : Bool) (refusal : A) (old new : D) (rest : A × D)
    → (rest.1 ≡ old) ⊎ (rest.1 ≡ new)
    → let result = if test then (refusal, old) else rest in (result.1 ≡ old) ⊎ (result.1 ≡ new)
guard-kept true refusal old new rest h = inl refl
guard-kept false refusal old new rest h = h

module _ (env : Env) where
  open env use {Json}

  observed-workloads :
      (now : ℕ) (node_id : String) (r : Report) (db : Db Json)
      → (observe_report env now node_id r db).workloads ≡ db.workloads
  unfolding replace_observed_workload_ports
  observed-workloads now node_id r db = ground arith

  refreshed-workloads :
      (now : ℕ) (ids : List String) (db : Db Json)
      → (refresh_reported env now ids db).workloads ≡ db.workloads
  unfolding refresh_reported
  refreshed-workloads now [] db = refl
  refreshed-workloads now (id ∷ ids) db =
      refreshed-workloads now ids _ ∙ (refresh_deployment_status-SameRest now id db).workloads

  stored-Taken :
      (now : ℕ) (node_id : String) (previous : List Workload) (reports : List Report) (db : Db Json)
      (x : Workload)
      → x ∈ (store_reports env now node_id previous reports db).workloads
      → (x ∈ db.workloads) ⊎ ((y : Workload) × (y ∈ db.workloads) × Taken node_id reports y x)
  unfolding store_reports
  stored-Taken now node_id previous [] db x m = inl m
  stored-Taken now node_id previous (r ∷ reports) db x m =
      let prior = owned node_id previous r in
      let back = λ (z : Workload).
        mem-update_where (is_due node_id r) (take_report now prior r) z db.workloads in
      elim (stored-Taken now node_id previous reports _ x m) [
        | inl k ↦ elim (back x (rw (observed-workloads now node_id r) at k)) [
          | inl (k', f) ↦ inl k'
          | inr (y, k', t, e) ↦ inr (
            y,
            k',
            (
              r,
              inl refl,
              t,
              ap (λ w. w.id) e,
              ap (λ w. w.node_id) e,
              ap (λ w. w.report_generation) e,
              ap (λ w. w.health_checked_at) e,
              ap (λ w. w.actual_state) e,
              ap (λ w. w.health_status) e,
            ),
          )
        ]
        | inr (z, k, (q, qm, due, i, n, g, c, a, s)) ↦
            elim (back z (rw (observed-workloads now node_id r) at k)) [
              | inl (k', f) ↦ inr (z, k', (q, inr qm, due, i, n, g, c, a, s))
              | inr (y, k', t, e) ↦ inr (
                y,
                k',
                (
                  q,
                  inr qm,
                  is_due_back now node_id prior r q y t (rw e at due),
                  i ∙ ap (λ w. w.id) e,
                  n ∙ ap (λ w. w.node_id) e,
                  g ∙ ap (λ w. w.report_generation) e,
                  c,
                  a,
                  s,
                ),
              )
            ]
      ]

  workload_telemetry_outcome :
      (now : ℕ) (node_id : String) (reports : List Report) (db : Db Json)
      → let db' = (workload_telemetry env now node_id reports db).1 in
        (db' ≡ db) ⊎ (db' ≡ accept_reports env now node_id reports db)
  unfolding workload_telemetry
  workload_telemetry_outcome now node_id reports db =
      guard-kept (any (is_outside now) reports) _ _ _ _ (
        guard-kept (repeats reports) _ _ _ _ (
          guard-kept (any (λ r. not (is_some (owned node_id db.workloads r))) reports) _ _ _ _ (
            guard-kept (any (is_stale node_id db.workloads) reports) _ _ _ _
              (guard-kept (any (is_older node_id db.workloads) reports) _ _ _ _ (inr refl)))))

  -- Behind a batch of reports from a node's agent every workload is as it was, or became what it is
  -- from a workload of that node by a report of the batch: one of that workload's generation, and
  -- newer than the last one taken for it. It keeps its identity, node and generation, and its
  -- state, its health and the time of its last check are the report's.
  pub workload_telemetry-Taken :
      (now : ℕ) (node_id : String) (reports : List Report) (db : Db Json) (x : Workload)
      → x ∈ (workload_telemetry env now node_id reports db).1.workloads
      → (x ∈ db.workloads) ⊎ ((y : Workload) × (y ∈ db.workloads) × Taken node_id reports y x)
  unfolding accept_reports
  workload_telemetry-Taken now node_id reports db x m =
      elim (workload_telemetry_outcome now node_id reports db) [
        | inl e ↦ inl (rw e at m)
        | inr e ↦
            stored-Taken now node_id db.workloads reports db x
              (subst (λ ws. x ∈ ws) (ap (λ d. d.workloads) e ∙ refreshed-workloads now _ _) m)
      ]
