-- ===== src/Control/Commands/Timeouts.antt =====
-- A tick of the timeout controller leaves no command overdue.
use devion.Prelude.{
  ℕ, ◌≡◌, refl, ap, inl, inr, true, false, ◌&&◌, Option, none, some, List, [], ◌∷◌, ◌===◌, ===_iff,
  any, filter, All, ◌∈◌, mem-filter, Bool-cases, arith,
}
use devion.Control.Store.{AgentCommand, Workload, Db}
use devion.Control.Store.Rows.{mem-update_where}
use devion.Control.Env.{Env}
use devion.Control.Refresh.Laws.{refresh_deployment_status-SameRest}
use devion.Control.Commands.{
  is_open, is_expired, fail_command, fail_open, time_out_workload, settle, time_out, time_out_all,
  command_timeout_tick,
}

module _ (env : Env) where
  open env use {Json}

  settle-commands :
      (now : ℕ) (c : AgentCommand Json) (o : Option Workload) (db : Db Json)
      → (settle env now c o db).commands ≡ db.commands
  unfolding settle time_out_workload
  settle-commands now c none db = refl
  settle-commands now c (some w) db =
      (refresh_deployment_status-SameRest now w.deployment_id
        (time_out_workload env now c w db)).commands

  time_out-commands :
      (now : ℕ) (c : AgentCommand Json) (db : Db Json)
      → (time_out env now c db).commands ≡ (fail_open env now c db).commands
  unfolding time_out
  time_out-commands now c db =
      elim (Bool-cases (any (λ x. x.id === c.id && is_open x.status) db.commands)) [
        | inl t ↦ rw t (settle-commands now c _ (fail_open env now c db))
        | inr f ↦ rw f refl
      ]

  not_expired_of_failed :
      (now : ℕ) (y : AgentCommand Json) → is_expired now (fail_command now y) ≡ false
  not_expired_of_failed now y = refl

  -- An overdue command behind a round was overdue before it, and is another one than the round's.
  time_out_expired :
      (now : ℕ) (c x : AgentCommand Json) (db : Db Json)
      → x ∈ (time_out env now c db).commands
      → is_expired now x ≡ true
      → (x ∈ db.commands) × ((x.id === c.id) ≡ false)
  unfolding fail_open
  time_out_expired now c x db m e =
      elim (mem-update_where (λ y. y.id === c.id && is_open y.status) (fail_command now) x
        db.commands (rw (time_out-commands now c db) at m)) [
          | inl (k, f) ↦ (k, ground arith)
          | inr (y, k, t, q) ↦ cc (ap (is_expired now) q, not_expired_of_failed now y)
        ]

  time_out_all_expired :
      (now : ℕ) (cs : List (AgentCommand Json)) (x : AgentCommand Json) (db : Db Json)
      → x ∈ (time_out_all env now cs db).commands
      → is_expired now x ≡ true
      → (x ∈ db.commands) × All (λ (c : AgentCommand Json). (x.id === c.id) ≡ false) cs
  unfolding time_out_all
  time_out_all_expired now [] x db m e = (m, tt)
  time_out_all_expired now (c ∷ cs) x db m e =
      let (k, others) = time_out_all_expired now cs x (time_out env now c db) m e in
      let (old, other) = time_out_expired now c x db k e in (old, (other, others))

  other_of_All :
      (x c : AgentCommand Json) (cs : List (AgentCommand Json))
      → All (λ (d : AgentCommand Json). (x.id === d.id) ≡ false) cs
      → c ∈ cs
      → (x.id === c.id) ≡ false
  other_of_All x c [] h m = absurd m
  other_of_All x c (d ∷ ds) (h, hs) (inl q) = rw q h
  other_of_All x c (d ∷ ds) (h, hs) (inr m) = other_of_All x c ds hs m

  -- Behind a tick no start, stop or delete command is open past its deadline.
  pub command_timeout_tick_expired :
      (now : ℕ) (x : AgentCommand Json) (db : Db Json)
      → x ∈ (command_timeout_tick env now db).commands
      → is_expired now x ≡ false
  unfolding command_timeout_tick
  command_timeout_tick_expired now x db m = elim (Bool-cases (is_expired now x)) [
    | inr f ↦ f
    | inl e ↦
        let (old, others) =
          time_out_all_expired now (filter (is_expired now) db.commands) x db m e in
        let other =
          other_of_All x x _ others ((mem-filter (is_expired now) x db.commands).1 (old, e)) in
        cc ((===_iff x.id x.id).1 refl)
  ]
