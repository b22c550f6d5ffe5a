-- ===== src/Lib.antt =====
-- The control plane of Devion, and its builder: which node runs a workload, how a deployment
-- reaches and keeps its wanted state, and how the builds of images run.
--
-- Parts, and the files of the repository that they model.
--   Core.Ports             packages/core/src/network/ports.ts: the policy of host ports and the choice of
--                          a dynamic one (`hostPortPolicyError`, `chooseDynamicHostPort`).
--   Core.Contracts         packages/core/src/control-plane/contracts.ts: nodes, resources, requirements.
--   Core.Scheduler         packages/core/src/control-plane/scheduler.ts: `scheduleWorkload`, `scoreNode`.
--   Core.RateLimit         packages/core/src/firewall/rate-limit.ts: the stores in memory and in Postgres,
--                          and `createRateLimiter`.
--   Core.Health            packages/core/src/health/health-checker.ts: `HealthRegistry`.
--   Core.Errors            packages/core/src/error: `AppError` and the error handler's response.
--   Access                 apps/api/src/features/organizations/permissions.ts and
--                          apps/api/src/features/projects/access.ts: roles, permissions, projects.
--   Builder.Runs           apps/builder/src/postgres.ts: the table of build runs and its statements;
--                          Steps puts them in any order.
--   Builder.Workflow       apps/builder/src/workflow.ts: the checks on the graph of steps.
--   Builder.Execution      apps/builder/src/executor.ts: the rounds in which the steps run.
--   Builder.Logs           apps/builder/src/log-buffer.ts, and the log statements of postgres.ts.
--   Builder.Secrets        apps/builder/src/secrets.ts: the sealing of a run's secrets.
--   Control.Store          packages/db/src/database/schema: the tables as lists of records. `Db` is the
--                          database; a transaction is one function on it.
--   Control.Env            what the controllers take from outside: identifiers, the JSON columns and the
--                          schemas that read them, and the scheduler's platform.
--   Control.Lifecycle      apps/api/src/modules/deployments/lifecycle.ts: `deriveDeploymentStatus`.
--   Control.Refresh        apps/api/src/modules/deployments/service.ts: `refreshDeploymentStatus` and
--                          `refreshApplicationStatus`.
--   Control.Commands       `requestStateChange` of apps/api/src/modules/deployments/controller.ts, and
--                          apps/api/src/modules/commands/controller.ts, the timeouts of commands.
--   Control.Deployments    apps/api/src/modules/deployments/controller.ts: `loadCandidates`
--                          (Candidates), host ports (Assign), volumes (Claims), the placement of one
--                          replica (Placement), `reconcileDeployment` (Reconcile), and superseding,
--                          stopping and restarting (Switch). Revisions holds `createDeployment`,
--                          rollbacks and redeployments of service.ts beside it.
--   Control.Liveness       apps/api/src/modules/nodes/liveness-controller.ts: silent nodes.
--   Control.Agents         apps/api/src/routes/nodes.routes.ts: heartbeats, the delivery of commands to
--                          agents (Delivery), their results (Reports), their reports on
--                          workloads (Telemetry), and the ports that they observe (Observed).
--   Control.Volumes        apps/api/src/modules/volumes: the policy of names and paths, and the
--                          controller that deletes volumes.
--
-- How they interact. A reconciliation leases a deployment, derives what is missing from its
-- workloads, asks the scheduler for a node, claims volumes and ports, and writes a workload with a
-- start command for the node's agent. Agents answer by reports, and commands that they never
-- complete fail by the timeout controller. A node that falls silent loses its workloads, which the
-- next reconciliation replaces. A new revision supersedes the running ones. Every change ends with a
-- refresh, which stores the status that the workloads give. The Builder stands apart: its workers claim
-- runs from a table of their own under a lease, execute the checked graph of steps, and buffer the logs.
--
-- Conventions. Numbers are natural numbers; a time is in milliseconds. An operation reads one time,
-- `now`, where the source reads the clock at each use. `Promise.all` runs its parts one after
-- another. The n-th identifier drawn is `uuid n` of `Env`, where `Db.fresh` counts. JavaScript's
-- floating-point numbers and `localeCompare` are the parameter `Platform`; the theorem on the best
-- node takes their laws as the record `IsOrdered`.
--
-- Fuel. The loop over missing replicas has fuel (`place_missing`), since its index steps back when a
-- volume claim sends a replica to another node. Two rounds for each replica and one to finish are
-- enough, which `reconcile_deployment-Returns` states. The search for a port counts its attempts down
-- as the source counts them up, and needs no bound of its own. A creation has
-- four attempts, as in the source.
-- The search on a workflow's graph is on the depth of its recursion, for which one more than the
-- graph's keys is enough (`validate_graph_total`); the run of its steps is on rounds, for which one
-- more than the steps is enough (`run_graph-IsEnd`).
--
-- Not modelled: the timers that start a tick, logging, the Redis store, the other HTTP routes, the
-- agents' own code, the builder's runners and its API, the routes of domains, the dashboard, and the
-- columns and tables that the modelled code does not use. Also left out are fractions in the
-- quantities of resources, whose rounding the scheduler's subtraction would show, and what other
-- requests commit between a handler's statements where the model takes them as one step, as in
-- `requestStateChange`; the creation of revisions has such commits.
pub mod Prelude
pub mod Core
pub mod Control
pub mod Access
pub mod Builder
