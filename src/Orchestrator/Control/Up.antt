-- ===== src/Orchestrator/Control/Up.antt =====
-- `orch_run` starts every service, each behind what it depends on.
use container_internals_simu.Prelude.{ℕ, ◌<◌, ◌≡◌, true, Option, none, some, List, [], ◌∷◌, ◌++◌}
use container_internals_simu.Prelude.Int.{pos}
use container_internals_simu.Prelude.Text.{Text, copy_string}
use container_internals_simu.EventBus.Types.{orch_spec_up, orch_svc_started}
use container_internals_simu.Orchestrator.Types.{ServiceState, Service, Spec, count, service}
use container_internals_simu.Orchestrator.Topo.Order.{IsStartupOrder}
use container_internals_simu.Orchestrator.State.{Orchestrator, Runtime, Action, emitted, launched}
use container_internals_simu.Orchestrator.Monitor.{rootfs_of}
use container_internals_simu.Orchestrator.Control.Wait.{Waited}
use container_internals_simu.Orchestrator.Control.{OrchOutcome, MonitorWait, launch_answer}

-- A service after its start: running under the id that the runtime gave, or failed.
abbrev pub started_with : ℕ → Option Text → Service → Service
started_with now none svc = record svc { state = ServiceState.failed }
started_with now (some cid) svc = record svc {
  container_id = copy_string 64 cid;
  state = ServiceState.running;
  started_at = now;
}

abbrev pub started : Runtime → (ℕ → ℕ) → ℕ → Service → Service
started rt clock i svc = started_with (clock i) (launch_answer rt svc) svc

-- The calls for the start of a service; one that came up is announced.
abbrev pub calls_with : Runtime → Service → Option Text → List Action
calls_with rt svc none = launched svc.name (rootfs_of rt svc.image) svc.command ∷ []
calls_with rt svc (some cid) =
    launched svc.name (rootfs_of rt svc.image) svc.command
    ∷ emitted orch_svc_started svc.name cid (pos 0)
    ∷ []

abbrev pub start_calls : Runtime → Service → List Action
start_calls rt svc = calls_with rt svc (launch_answer rt svc)

unfoldable pub all_start_calls : Runtime → List ℕ → Spec → List Action
all_start_calls rt [] spec = []
all_start_calls rt (i ∷ order) spec =
    start_calls rt (service spec i) ++ all_start_calls rt order spec

-- What a successful run of a specification does.
pub record IsUp (rt : Runtime) (clock : ℕ → ℕ) (monitor : Option MonitorWait) (spec : Spec)
    (r : OrchOutcome) : Type 0 where
  pub order : List ℕ
  pub ordered : IsStartupOrder spec order
  pub answer : r.1 ≡ true
  -- the state in which the monitor is started
  pub up : Orchestrator
  pub on : up.is_running ≡ true
  pub size : count up.spec ≡ count spec
  pub services : (i : ℕ) → i < count spec → service up.spec i ≡ started rt clock i (service spec i)
  -- the calls of the monitor
  pub during : List Action
  pub waits : Waited rt monitor up r.0 during
  pub calls :
      r.2
      ≡ all_start_calls rt order spec
        ++ during
        ++ emitted orch_spec_up spec.name spec.spec_path (pos (count spec)) ∷ []
