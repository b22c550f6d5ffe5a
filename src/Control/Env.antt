-- ===== src/Control/Env.antt =====
-- What the controllers take from outside this repository: the JSON values of the database driver,
-- the schemas of `zod` applied to them, random identifiers, and the scheduler's platform.
use devion.Prelude.{ℕ, String, Option, List}
use devion.Core.Contracts.{WorkloadRequirements}
use devion.Core.Scheduler.{Platform}
use devion.Control.Store.{RuntimePort, ConfiguredPort, RuntimeVolume, VolumeEntry}

pub record Env : Type 1 where
  pub Json : Type 0
  -- The n-th value of `crypto.randomUUID()`.
  pub uuid : ℕ → String
  -- `requirementsSchema.safeParse`, and the value that the driver stores for requirements.
  pub parse_requirements : Json → Option WorkloadRequirements
  pub requirements_json : WorkloadRequirements → Json
  -- `schema.safeParse(runtimeConfig).data?.… ?? []`.
  pub parse_volumes : Json → List RuntimeVolume
  pub parse_ports : Json → List RuntimePort
  pub parse_configured_ports : Json → List ConfiguredPort
  pub parse_graceful_shutdown : Json → Option ℕ
  -- `volumes.length` of a configuration that may have no volumes, or any.
  pub volume_count : Json → ℕ
  -- The objects of the array `volumes`, if there is one; a field of another type counts as absent.
  pub volume_entries : Json → List VolumeEntry
  pub platform : Platform
