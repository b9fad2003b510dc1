-- ===== src/Orchestrator/Monitor.antt =====
-- `monitor_thread`: one pass of its loop scans the services under the lock and then does the work
-- that it collected.
pub mod Limits
pub mod Health
pub mod Bound
use container_internals_simu.Prelude.{
  ℕ, zero, suc, ◌+◌, ◌*◌, ◌^◌, Bool, true, false, not, ◌&&◌, ◌||◌, Option, none, some, List, [],
  ◌∷◌, ◌++◌, length, set, ltb, leb, ◌==◌, if◌then◌else◌,
}
use container_internals_simu.Prelude.Int.{ℤ, pos, eq_ℤ, ltb_ℤ}
use container_internals_simu.Prelude.Text.{Text, codes, str_eq, is_empty, copy_string}
use container_internals_simu.EventBus.Types.{
  EventType, orch_svc_healthy, orch_svc_unhealthy, orch_svc_restarted,
}
use container_internals_simu.Container.{ContainerState, state_running, state_stopped}
use container_internals_simu.Orchestrator.Types.{
  RestartPolicy, never, on_failure, always, ServiceState, pending, starting, running, healthy,
  unhealthy, stopped, failed, restarting, Service, Spec, max_services, count, service,
}
use container_internals_simu.Orchestrator.State.{
  Action, emitted, logged_restart, executed, deleted, stopped_container, slept, launched, WorkItem,
  health_check, restart_item, Runtime, Orchestrator, put,
}
use container_internals_simu.Orchestrator.Scan.{is_healthy_state, scan}

-- The last critical section of a health check; `hc` is what `container_exec_quiet` returned.
unfoldable pub finish_health : ℤ → ℕ → Text → Orchestrator → Orchestrator × List Action
finish_health hc i cid o =
    let svc = service o.spec i in
    let fails = svc.health_fail_count + 1 in
    if not o.is_running || not (str_eq svc.container_id cid)
    then (o, [])
    else if eq_ℤ hc (pos 0)
    then (if is_healthy_state svc.state
        then (put i (record svc { health_fail_count = 0 }) o, [])
        else (
          put i (record svc { health_fail_count = 0; state = healthy }) o,
          emitted orch_svc_healthy svc.name svc.container_id (pos 0) ∷ [],
        ))
    else if leb svc.health.retries fails
    then (
      put i (record svc { health_fail_count = fails; state = unhealthy }) o,
      emitted orch_svc_unhealthy svc.name svc.container_id (pos fails) ∷ [],
    )
    else (put i (record svc { health_fail_count = fails }) o, [])

-- The last critical section of a restart; the new container's id is `none` if none was started.
unfoldable pub finish_restart : ℕ → ℕ → ℤ → Option Text → Orchestrator → Orchestrator × List Action
finish_restart now i backoff_s none o =
    if not o.is_running
    then (o, [])
    else (put i (record (service o.spec i) { state = failed }) o, [])
finish_restart now i backoff_s (some new_id) o =
    let svc = service o.spec i in
    if not o.is_running then (o, stopped_container new_id 1 ∷ deleted new_id ∷ []) else (
      put i
          (record svc {
            container_id = copy_string 64 new_id;
            state = running;
            started_at = now;
            health_fail_count = 0;
            restart_count = svc.restart_count + 1;
          })
          o,
      emitted orch_svc_restarted svc.name new_id (pos (svc.restart_count + 1))
          ∷ logged_restart svc.name (svc.restart_count + 1) backoff_s
          ∷ [],
    )

abbrev pub rootfs_of : Runtime → Text → Text
rootfs_of rt image = elim (rt.resolve_image image) [ none ↦ image | some path ↦ path ]

-- A work item, while nothing else changes `g_spec`; the checks of `g_running` before it are passed.
-- `clock` is the time at which a service is up again.
unfoldable pub perform : Runtime → (ℕ → ℕ) → WorkItem → Orchestrator → Orchestrator × List Action
perform rt clock (health_check i cid hcmd name) o =
    let (after, actions) = finish_health (rt.exec_quiet cid hcmd) i cid o in
    (after, executed cid ∷ actions)
perform rt clock (restart_item i r) o =
    let rootfs = rootfs_of rt r.image in
    let (after, actions) =
      finish_restart (clock i) i r.backoff_s (rt.run_background r.name rootfs r.command) o in
    (after, slept r.backoff_s ∷ deleted r.cid ∷ launched r.name rootfs r.command ∷ actions)

unfoldable pub perform_all :
    Runtime → (ℕ → ℕ) → List WorkItem → Orchestrator → Orchestrator × List Action
perform_all rt clock [] o = (o, [])
perform_all rt clock (item ∷ work) o =
    let (next, first) = perform rt clock item o in
    let (last, rest) = perform_all rt clock work next in
    if o.is_running then (last, first ++ rest) else (o, [])

-- A pass of the loop, after its sleep.
unfoldable pub tick : Runtime → ℕ → (ℕ → ℕ) → Orchestrator → Orchestrator × List Action
tick rt now clock o =
    let (scanned, work, actions) = scan rt now (count o.spec) 0 o [] [] in
    let (after, done) = perform_all rt clock work scanned in
    if o.is_running then (after, actions ++ done) else (o, [])
