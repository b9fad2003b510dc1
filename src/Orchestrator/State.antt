-- ===== src/Orchestrator/State.antt =====
-- What the orchestrator keeps, what it asks of the other modules and what it does to them.
use container_internals_simu.Prelude.{ℕ, Bool, Option, set}
use container_internals_simu.Prelude.Int.{ℤ}
use container_internals_simu.Prelude.Text.{Text, codes}
use container_internals_simu.EventBus.Types.{EventType}
use container_internals_simu.Container.{ContainerState}
use container_internals_simu.Orchestrator.Types.{
  ServiceState, pending, starting, running, healthy, unhealthy, failed, restarting, Service, Spec,
}

-- What `container_get_info` tells.
pub record Info : Type 0 where
  pub state : ContainerState
  pub exit_code : ℤ

-- A call of another module.
pub data Action : Type 0 where
  emitted : EventType → Text → Text → ℤ → Action
  logged_restart : Text → ℕ → ℤ → Action
  executed deleted : Text → Action
  stopped_container : Text → ℕ → Action
  slept : ℤ → Action
  launched : Text → Text → Text → Action

pub record Restart : Type 0 where
  pub cid : Text
  pub image : Text
  pub command : Text
  pub name : Text
  pub backoff_s : ℤ
  pub exit_code : ℤ

-- `WorkItem`, with the index of its service.
pub data WorkItem : Type 0 where
  health_check : ℕ → Text → Text → Text → WorkItem
  restart_item : ℕ → Restart → WorkItem

-- What the other modules answer: `container_get_info`, `container_exec_quiet`, `image_resolve`,
-- `container_run_background` with its new id, and what `1 << n` gives for `n` above 30.
pub record Runtime : Type 0 where
  pub get_info : Text → Option Info
  pub exec_quiet : Text → Text → ℤ
  pub resolve_image : Text → Option Text
  pub run_background : Text → Text → Text → Option Text
  pub overshift : ℕ → ℤ

-- `g_running` and `g_spec`
pub record Orchestrator : Type 0 where
  pub is_running : Bool
  pub spec : Spec

abbrev pub put : ℕ → Service → Orchestrator → Orchestrator
put i svc o = record o { spec = record o.spec { services = set o.spec.services i svc } }

unfoldable pub svc_state_str : ServiceState → Text
svc_state_str pending = codes "pending"
svc_state_str starting = codes "starting"
svc_state_str running = codes "running"
svc_state_str healthy = codes "healthy"
svc_state_str unhealthy = codes "unhealthy"
svc_state_str ServiceState.stopped = codes "stopped"
svc_state_str failed = codes "failed"
svc_state_str restarting = codes "restarting"
