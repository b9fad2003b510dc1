-- ===== src/Orchestrator/Scan.antt =====
-- The scan of `monitor_thread`: the services under the lock, and the work that it collects. The
-- strings of a `WorkItem` are copied between buffers of one size, whole.
use container_internals_simu.Prelude.{
  ℕ, zero, suc, ◌+◌, ◌*◌, ◌^◌, Bool, true, false, not, ◌&&◌, ◌||◌, Option, none, some, List, [],
  ◌∷◌, ◌++◌, length, ltb, ◌==◌, if◌then◌else◌,
}
use container_internals_simu.Prelude.Int.{ℤ, pos, eq_ℤ, ltb_ℤ}
use container_internals_simu.Prelude.Text.{is_empty}
use container_internals_simu.EventBus.Types.{orch_svc_healthy}
use container_internals_simu.Container.{ContainerState, state_running, state_stopped}
use container_internals_simu.Orchestrator.Types.{
  RestartPolicy, never, on_failure, always, ServiceState, pending, starting, running, healthy,
  unhealthy, failed, restarting, Service, max_services, service,
}
use container_internals_simu.Orchestrator.State.{
  Info, Action, emitted, WorkItem, health_check, restart_item, Runtime, Orchestrator, put,
}

-- States in which the monitor leaves a service alone.
abbrev pub is_settling : ServiceState → Bool
is_settling pending = true
is_settling starting = true
is_settling restarting = true
is_settling _ = false

abbrev pub has_ended : ServiceState → Bool
has_ended ServiceState.stopped = true
has_ended failed = true
has_ended _ = false

abbrev pub is_checked : ServiceState → Bool
is_checked running = true
is_checked healthy = true
is_checked unhealthy = true
is_checked _ = false

abbrev pub is_running_state : ServiceState → Bool
is_running_state running = true
is_running_state _ = false

abbrev pub is_healthy_state : ServiceState → Bool
is_healthy_state healthy = true
is_healthy_state _ = false

abbrev pub is_state_stopped : ContainerState → Bool
is_state_stopped state_stopped = true
is_state_stopped _ = false

abbrev pub is_state_running : ContainerState → Bool
is_state_running state_running = true
is_state_running _ = false

abbrev pub wants_restart : RestartPolicy → ℤ → Bool
wants_restart always exit_code = true
wants_restart on_failure exit_code = not (eq_ℤ exit_code (pos 0))
wants_restart never exit_code = false

-- `1 << svc->restart_count`, at most 30
abbrev pub backoff_for : (ℕ → ℤ) → ℕ → ℤ
backoff_for overshift restarts =
    let backoff = if ltb restarts 31 then pos (2 ^ restarts) else overshift restarts in
    if ltb_ℤ (pos 30) backoff then pos 30 else backoff

-- What the scan does to one service.
pub record Scanned : Type 0 where
  pub svc : Service
  pub item : Option WorkItem
  pub actions : List Action

abbrev pub skipped : Service → Scanned
skipped svc = record { svc = svc; item = none; actions = [] }

unfoldable pub scan_exited : (ℕ → ℤ) → ℕ → ℤ → Service → Scanned
scan_exited overshift i exit_code svc =
    if wants_restart svc.restart exit_code
      && (svc.max_restarts == 0 || ltb svc.restart_count svc.max_restarts)
    then record {
      svc = record svc { state = restarting };
      item = some (
          restart_item i (record {
            cid = svc.container_id;
            image = svc.image;
            command = svc.command;
            name = svc.name;
            backoff_s = backoff_for overshift svc.restart_count;
            exit_code = exit_code;
          }));
      actions = [];
    }
    else skipped
        (record svc { state = if eq_ℤ exit_code (pos 0) then ServiceState.stopped else failed })

-- `(now - since) * 1000 < ms`, without the difference
abbrev pub too_early : ℕ → ℕ → ℕ → Bool
too_early now since ms = ltb (now * 1000) (since * 1000 + ms)

unfoldable pub scan_alive : ℕ → ℕ → ContainerState → Service → Scanned
scan_alive now i cst svc =
    if is_state_running cst && svc.health.enabled && is_checked svc.state
    then (if too_early now svc.started_at svc.health.start_period_ms
          || too_early now svc.last_health_check svc.health.interval_ms
        then skipped svc
        else record {
          svc = record svc { last_health_check = now };
          item = some (health_check i svc.container_id svc.health.exec svc.name);
          actions = [];
        })
    else if is_state_running cst && not svc.health.enabled && is_running_state svc.state
    then record {
      svc = record svc { state = healthy };
      item = none;
      actions = emitted orch_svc_healthy svc.name svc.container_id (pos 0) ∷ [];
    }
    else skipped svc

unfoldable pub scan_info : (ℕ → ℤ) → ℕ → ℕ → Service → Option Info → Scanned
scan_info overshift now i svc none = skipped svc
scan_info overshift now i svc (some info) =
    if is_state_stopped info.state && not (has_ended svc.state)
    then scan_exited overshift i info.exit_code svc
    else scan_alive now i info.state svc

unfoldable pub scan_service : Runtime → ℕ → ℕ → Service → Scanned
unfolding scan_info
scan_service rt now i svc =
    if is_empty svc.container_id || is_settling svc.state
    then skipped svc
    else scan_info rt.overshift now i svc (rt.get_info svc.container_id)

abbrev pub add_item : List WorkItem → Option WorkItem → List WorkItem
add_item work none = work
add_item work (some item) = work ++ item ∷ []

-- `n` services from `i` on, with the work and the calls so far.
unfoldable pub scan :
    Runtime
    → ℕ
    → ℕ
    → ℕ
    → Orchestrator
    → List WorkItem
    → List Action
    → Orchestrator × List WorkItem × List Action
scan rt now zero i o work actions = (o, work, actions)
scan rt now (suc n) i o work actions =
    let s = scan_service rt now i (service o.spec i) in
    let rest =
      scan rt now n (i + 1) (put i s.svc o) (add_item work s.item) (actions ++ s.actions) in
    if ltb (length work) max_services then rest else (o, work, actions)
