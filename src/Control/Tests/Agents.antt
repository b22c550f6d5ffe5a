-- ===== src/Control/Tests/Agents.antt =====
-- Agents that poll for commands, report their results and the health of workloads.
use devion.Prelude.{ℕ, ◌≡◌, refl, inl, true, false, ◌===◌, none, some, [], ◌∷◌, ◌∈◌, ◌⊎◌, arith}
use devion.Core.Ports.{tcp}
use devion.Control.Store.{ActualState, HealthStatus, CommandStatus, AgentCommand, Workload, Db}
use devion.Control.Agents.{poll_commands, deliver}
use devion.Control.Agents.Observed.{read_key}
use devion.Control.Agents.Reports.{CommandResult, unknown_command, no_content, command_result}
use devion.Control.Agents.Telemetry.{
  Report, older_report, accepted, take_report, workload_telemetry, store_reports, refresh_reported,
  accept_reports,
}
use devion.Control.Agents.Telemetry.Taken.{Taken, workload_telemetry-Taken}
use devion.Control.Lifecycle.{derive_deployment_status}
use devion.Control.Refresh.{
  refresh_deployment_status, refresh_found, refresh_application_status, store_status,
}
use devion.Control.Agents.Delivery.{poll_commands_leased}
use devion.Control.Agents.Results.{command_result_once}
use devion.Control.Tests.{env, task, start, plane}

-- A start that waits, and another whose delivery is forgotten after five minutes.
abbrev waiting : AgentCommand ℕ
waiting = record start { id = "waiting"; status = CommandStatus.pending; delivered_at = none }

abbrev polled : Db ℕ
polled = plane 1 (task ActualState.pending ∷ []) (waiting ∷ start ∷ [])

poll_commands_leased_example : ("waiting" === "start") ≡ false
unfolding poll_commands
poll_commands_leased_example =
    poll_commands_leased env 1000 300500 "idle" polled (deliver env 1000 waiting)
      (deliver env 300500 start) (omega arith) (refl, (refl, tt)) (inl refl) (inl refl)

abbrev started : CommandResult
started = record {
  command_id = "start";
  is_success = true;
  runtime = some (record { runtime_id = "c0ffee"; ports = some (("25565/tcp", 30000) ∷ []) });
  error_code = none;
}

command_result_once_example :
    command_result env 6000 "idle" started (command_result env 5000 "idle" started polled).1
    ≡ (unknown_command, (command_result env 5000 "idle" started polled).1)
command_result_once_example = command_result_once env 5000 6000 "idle" started started polled refl

started_accepted : (command_result env 5000 "idle" started polled).0 ≡ no_content
unfolding command_result
started_accepted = refl

key_read : read_key "25565/tcp" ≡ some (25565, tcp)
key_read = refl

-- A report of the first workload's health at the time `at`.
abbrev sick : ℕ → Report
sick at = record {
  workload_id = "task";
  report_generation = 1;
  actual_state = ActualState.running;
  health_status = HealthStatus.unhealthy;
  health_message = none;
  observed_at = at;
  ports = none;
}

-- The first workload once its report of the time 2000 is stored.
abbrev reported : Workload
reported = take_report 2500 none (sick 2000) (task ActualState.running)

abbrev watched : Db ℕ
watched = plane 1 (reported ∷ []) []

late_report_refused :
    workload_telemetry env 3000 "idle" (sick 1000 ∷ []) watched ≡ (older_report, watched)
unfolding workload_telemetry
late_report_refused = refl

next_report_accepted : (workload_telemetry env 3000 "idle" (sick 2900 ∷ []) watched).0 ≡ accepted 1
unfolding workload_telemetry
next_report_accepted = refl

failures_counted : (take_report 3000 (some reported) (sick 2900) reported).health_failure_count ≡ 2
failures_counted = refl

abbrev renewed : Workload
renewed = take_report 3000 (some reported) (sick 2900) reported

workload_telemetry-Taken_example :
    (renewed ∈ watched.workloads)
    ⊎ ((y : Workload) × (y ∈ watched.workloads) × Taken "idle" (sick 2900 ∷ []) y renewed)
unfolding workload_telemetry accept_reports refresh_reported store_reports refresh_deployment_status
    refresh_found derive_deployment_status refresh_application_status store_status
workload_telemetry-Taken_example =
    workload_telemetry-Taken env 3000 "idle" (sick 2900 ∷ []) watched renewed (inl refl)
