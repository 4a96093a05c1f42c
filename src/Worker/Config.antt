-- ===== src/Worker/Config.antt =====
-- `WorkerConfig` (apps/worker/src/lib.rs). A `Duration` is a number of nanoseconds.
use task_harbor.Base.{ℕ, ◌*◌, ◌||◌, not, Result, invalid_data, guard, ◌>>◌, leb, ◌==◌}
use task_harbor.Clock.{second}
use task_harbor.Core.{Text}
use task_harbor.Queue.Workers.{WorkerRegistration}

abbrev pub default_worker_concurrency : ℕ
default_worker_concurrency = 2

abbrev pub default_lease_duration : ℕ
default_lease_duration = 15 * second

abbrev pub default_lease_renewal_interval : ℕ
default_lease_renewal_interval = 5 * second

abbrev pub default_heartbeat_interval : ℕ
default_heartbeat_interval = 2 * second

abbrev pub default_heartbeat_ttl : ℕ
default_heartbeat_ttl = 10 * second

abbrev pub default_shutdown_grace : ℕ
default_shutdown_grace = 30 * second

abbrev pub default_maintenance_interval : ℕ
default_maintenance_interval = 60 * 60 * second

abbrev pub default_output_retention : ℕ
default_output_retention = 7 * 24 * 60 * 60 * second

abbrev pub default_orphan_grace : ℕ
default_orphan_grace = 60 * 60 * second

abbrev pub default_storage_budget_bytes : ℕ
default_storage_budget_bytes = 1024 * 1024 * 1024

pub record WorkerConfig : Type 0 where
  pub id : ℕ
  pub name : Text
  pub concurrency_limit : ℕ
  pub lease_duration : ℕ
  pub lease_renewal_interval : ℕ
  pub heartbeat_interval : ℕ
  pub heartbeat_ttl : ℕ
  pub shutdown_grace : ℕ
  pub maintenance_interval : ℕ
  pub output_retention : ℕ
  pub orphan_grace : ℕ
  pub storage_budget_bytes : ℕ

-- `WorkerConfig::new`; the random identifier is an argument.
unfoldable pub new_config : (id : ℕ) (name : Text) (concurrency_limit : ℕ) → WorkerConfig
new_config id name concurrency_limit = record {
  id = id;
  name = name;
  concurrency_limit = concurrency_limit;
  lease_duration = default_lease_duration;
  lease_renewal_interval = default_lease_renewal_interval;
  heartbeat_interval = default_heartbeat_interval;
  heartbeat_ttl = default_heartbeat_ttl;
  shutdown_grace = default_shutdown_grace;
  maintenance_interval = default_maintenance_interval;
  output_retention = default_output_retention;
  orphan_grace = default_orphan_grace;
  storage_budget_bytes = default_storage_budget_bytes;
}

-- `WorkerConfig::validate`.
unfoldable pub validate_config : WorkerConfig → Result (Unit {0})
validate_config c = do
  guard (not (c.lease_renewal_interval == 0 || leb c.lease_duration c.lease_renewal_interval))
      (invalid_data "lease renewal interval must be positive and shorter than the lease")
  guard (not (c.heartbeat_interval == 0 || leb c.heartbeat_ttl c.heartbeat_interval))
      (invalid_data "heartbeat interval must be positive and shorter than its TTL")
  guard (not (c.shutdown_grace == 0))
      (invalid_data "shutdown grace period must be greater than zero")
  guard
      (not (
        c.maintenance_interval == 0
        || (c.output_retention == 0 || (c.orphan_grace == 0 || c.storage_budget_bytes == 0))))
      (invalid_data "maintenance intervals and storage budget must be greater than zero")

-- `WorkerConfig::registration`.
unfoldable pub config_registration : WorkerConfig → WorkerRegistration
config_registration c = record {
  id = c.id;
  name = c.name;
  concurrency_limit = c.concurrency_limit;
  lease_duration = c.lease_duration;
  heartbeat_ttl = c.heartbeat_ttl;
}
