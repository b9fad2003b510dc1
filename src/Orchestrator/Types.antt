-- ===== src/Orchestrator/Types.antt =====
-- The types of src/orchestrator.h. An `int` that is a count or a clamped setting is a number; times
-- are seconds.
use container_internals_simu.Prelude.{ℕ, Bool, false, List, [], length, get_or}
use container_internals_simu.Prelude.Text.{Text}

pub data RestartPolicy : Type 0 where
  never on_failure always : RestartPolicy

pub data ServiceState : Type 0 where
  pending starting running healthy unhealthy stopped failed restarting : ServiceState

pub record HealthCheck : Type 0 where
  pub exec : Text
  pub interval_ms : ℕ
  pub timeout_ms : ℕ
  pub retries : ℕ
  pub start_period_ms : ℕ
  pub enabled : Bool

pub record Service : Type 0 where
  pub name : Text
  pub image : Text
  pub command : Text
  pub restart : RestartPolicy
  pub max_restarts : ℕ
  pub health : HealthCheck
  pub deps : List Text
  pub container_id : Text
  pub state : ServiceState
  pub restart_count : ℕ
  pub health_fail_count : ℕ
  pub started_at : ℕ
  pub last_health_check : ℕ

-- `services` holds the entries below `count`.
pub record Spec : Type 0 where
  pub name : Text
  pub spec_path : Text
  pub services : List Service

abbrev pub no_health : HealthCheck
no_health = record {
  exec = [];
  interval_ms = 0;
  timeout_ms = 0;
  retries = 0;
  start_period_ms = 0;
  enabled = false;
}

-- `memset(svc, 0, sizeof(*svc))`
abbrev pub zero_service : Service
zero_service = record {
  name = [];
  image = [];
  command = [];
  restart = never;
  max_restarts = 0;
  health = no_health;
  deps = [];
  container_id = [];
  state = pending;
  restart_count = 0;
  health_fail_count = 0;
  started_at = 0;
  last_health_check = 0;
}

abbrev pub max_services : ℕ
max_services = 32

abbrev pub max_deps : ℕ
max_deps = 8

abbrev pub name_size : ℕ
name_size = 64

abbrev pub image_size : ℕ
image_size = 64

abbrev pub command_size : ℕ
command_size = 256

abbrev pub count : Spec → ℕ
count spec = length spec.services

-- `spec->services[i]`
abbrev pub service : Spec → ℕ → Service
service spec i = get_or spec.services i zero_service
