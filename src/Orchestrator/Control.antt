-- ===== src/Orchestrator/Control.antt =====
-- `orch_run`, with what the monitor does while it waits, and `orch_down` and
-- `orch_restart_service`, while the monitor does nothing in between.
pub mod Up
pub mod Wait
pub mod Down
use container_internals_simu.Prelude.{
  ℕ, zero, suc, ◌+◌, Bool, true, false, Option, none, some, List, [], ◌∷◌, ◌++◌, take, get_or,
  if◌then◌else◌,
}
use container_internals_simu.Prelude.Int.{ℤ, pos}
use container_internals_simu.Prelude.Text.{Text, is_empty, copy_string}
use container_internals_simu.EventBus.Types.{
  orch_spec_up, orch_spec_down, orch_svc_started, orch_svc_restarted,
}
use container_internals_simu.Orchestrator.Types.{
  starting, running, stopped, failed, restarting, Service, Spec, count, service,
}
use container_internals_simu.Orchestrator.Topo.{find_svc, started_order, topo_sort}
use container_internals_simu.Orchestrator.Validate.{Problem, orch_validate}
use container_internals_simu.Orchestrator.State.{
  Orchestrator, Runtime, Action, emitted, deleted, stopped_container, launched, put,
}
use container_internals_simu.Orchestrator.Monitor.{rootfs_of, perform_all, tick}
use container_internals_simu.Orchestrator.Scan.{scan}

-- `char container_id[64]`
abbrev pub id_size : ℕ
id_size = 64

-- A service after the answer of `container_run_background`, at time `now`.
abbrev pub launched_service : ℕ → Option Text → Service → Service
launched_service now none svc = record svc { state = failed }
launched_service now (some cid) svc = record svc {
  container_id = copy_string id_size cid;
  state = running;
  started_at = now;
}

abbrev pub launch_answer : Runtime → Service → Option Text
launch_answer rt svc = rt.run_background svc.name (rootfs_of rt svc.image) svc.command

abbrev pub start_event : Text → Option Text → List Action
start_event name none = []
start_event name (some cid) = emitted orch_svc_started name cid (pos 0) ∷ []

-- The body of the loop of `orch_run` for service `i`.
unfoldable pub start_service : Runtime → (ℕ → ℕ) → ℕ → Orchestrator → Orchestrator × List Action
start_service rt clock i o =
    let svc = record (service o.spec i) { state = starting } in
    let answer = launch_answer rt svc in
    let during = put i svc o in
    (
      put i (launched_service (clock i) answer (service during.spec i)) during,
      launched svc.name (rootfs_of rt svc.image) svc.command ∷ start_event svc.name answer,
    )

unfoldable pub start_all : Runtime → (ℕ → ℕ) → List ℕ → Orchestrator → Orchestrator × List Action
start_all rt clock [] o = (o, [])
start_all rt clock (i ∷ order) o =
    let (next, first) = start_service rt clock i o in
    let (last, rest) = start_all rt clock order next in (last, first ++ rest)

-- The state after `orch_run`, whether it returns 0, and its calls.
abbrev pub OrchOutcome : Type 0
OrchOutcome = Orchestrator × Bool × List Action

-- A pass of the monitor: the time of its scan, and those at which services are up again.
pub record Pass : Type 0 where
  pub now : ℕ
  pub clock : ℕ → ℕ

-- What the monitor does in the 1.2 seconds that `orch_run` waits: the passes that it completes, and
-- the one under way at the end, if there is one, with how many of its work items are done.
pub record MonitorWait : Type 0 where
  pub passes : List Pass
  pub underway : Option (Pass × ℕ)

unfoldable pub run_passes : Runtime → List Pass → Orchestrator → Orchestrator × List Action
run_passes rt [] o = (o, [])
run_passes rt (p ∷ ps) o =
    let (next, first) = tick rt p.now p.clock o in
    let (last, rest) = run_passes rt ps next in (last, first ++ rest)

-- The part of a pass up to its first `done` work items.
unfoldable pub begin_pass : Runtime → Option (Pass × ℕ) → Orchestrator → Orchestrator × List Action
begin_pass rt none o = (o, [])
begin_pass rt (some (p, done)) o =
    let (scanned, work, actions) = scan rt p.now (count o.spec) 0 o [] [] in
    let (after, did) = perform_all rt p.clock (take done work) scanned in
    if o.is_running then (after, actions ++ did) else (o, [])

-- `pthread_create` and the wait; `none` if the thread fails to start.
unfoldable pub wait_for_monitor :
    Runtime → Option MonitorWait → Orchestrator → Orchestrator × List Action
unfolding run_passes begin_pass
wait_for_monitor rt none o = (o, [])
wait_for_monitor rt (some wait) o =
    let (next, first) = run_passes rt wait.passes o in
    let (last, rest) = begin_pass rt wait.underway next in (last, first ++ rest)

run_in_order :
    Runtime → (ℕ → ℕ) → Option MonitorWait → Spec → Orchestrator → Option (List ℕ) → OrchOutcome
unfolding wait_for_monitor
run_in_order rt clock monitor spec o none = (o, false, [])
run_in_order rt clock monitor spec o (some order) =
    let (up, actions) = start_all rt clock order (record o { spec = spec }) in
    let (after, during) = wait_for_monitor rt monitor (record up { is_running = true }) in
    (
      after,
      true,
      actions ++ during ++ emitted orch_spec_up spec.name spec.spec_path (pos (count spec)) ∷ [],
    )

run_validated :
    Runtime → (ℕ → ℕ) → Option MonitorWait → Spec → Orchestrator → List Problem → OrchOutcome
unfolding run_in_order
run_validated rt clock monitor spec o (p ∷ ps) = (o, false, [])
run_validated rt clock monitor spec o [] = run_in_order rt clock monitor spec o (topo_sort spec)

unfoldable pub orch_run : Runtime → (ℕ → ℕ) → Option MonitorWait → Spec → Orchestrator → OrchOutcome
unfolding run_validated
orch_run rt clock monitor spec o =
    if o.is_running
    then (o, false, [])
    else run_validated rt clock monitor spec o (orch_validate spec)

-- The body of the loop of `orch_down` for service `i`.
unfoldable pub stop_service : ℕ → Orchestrator → Orchestrator × List Action
stop_service i o =
    let svc = service o.spec i in
    if is_empty svc.container_id then (o, []) else (
      put i (record svc { state = stopped; container_id = [] }) o,
      stopped_container svc.container_id 5 ∷ deleted svc.container_id ∷ [],
    )

-- The loop from `order[n - 1]` down to `order[0]`.
unfoldable pub stop_down : ℕ → List ℕ → Orchestrator → Orchestrator × List Action
stop_down zero order o = (o, [])
stop_down (suc n) order o =
    let (next, first) = stop_service (get_or order n 0) o in
    let (last, rest) = stop_down n order next in (last, first ++ rest)

-- `order` after a `topo_sort` that fails has what was started and behind it what the stack held.
down_order : List ℕ → Spec → Option (List ℕ) → List ℕ
down_order garbage spec (some order) = order
down_order garbage spec none = started_order spec ++ garbage

unfoldable pub orch_down : List ℕ → Orchestrator → Orchestrator × List Action
unfolding down_order
orch_down garbage o =
    let order = down_order garbage o.spec (topo_sort o.spec) in
    let (after, actions) = stop_down (count o.spec) order (record o { is_running = false }) in
    if o.is_running
    then (after, actions ++ emitted orch_spec_down o.spec.name [] (pos 0) ∷ [])
    else (o, [])

-- The service that has been asked to restart, after the answer of `container_run_background`.
abbrev pub restarted_service : ℕ → Option Text → Service → Service
restarted_service now none svc = record svc { state = failed }
restarted_service now (some cid) svc = record svc {
  container_id = copy_string id_size cid;
  state = running;
  started_at = now;
  health_fail_count = 0;
  restart_count = svc.restart_count + 1;
}

abbrev restart_event : Text → Option Text → ℕ → List Action
restart_event name none restarts = []
restart_event name (some cid) restarts = emitted orch_svc_restarted name cid (pos restarts) ∷ []

abbrev is_some : Option Text → Bool
is_some none = false
is_some (some cid) = true

restart_found : Runtime → (ℕ → ℕ) → Text → Orchestrator → Option ℕ → OrchOutcome
restart_found rt clock name o none = (o, false, [])
restart_found rt clock name o (some i) =
    let svc = service o.spec i in
    let answer = launch_answer rt svc in
    (
      put i (restarted_service (clock i) answer (record svc { state = restarting })) o,
      is_some answer,
      stopped_container svc.container_id 5
          ∷ deleted svc.container_id
          ∷ launched svc.name (rootfs_of rt svc.image) svc.command
          ∷ restart_event name answer (svc.restart_count + 1),
    )

unfoldable pub orch_restart_service : Runtime → (ℕ → ℕ) → Text → Orchestrator → OrchOutcome
unfolding restart_found
orch_restart_service rt clock name o =
    if o.is_running then restart_found rt clock name o (find_svc o.spec name) else (o, false, [])
