-- ===== src/Lifecycle/Tests.antt =====
-- The life of a container at concrete answers of the system, and the theorems at them.
use mathlib.Core.List.{not-mem-nil, mem-cons}
use mathlib.Core.Logic.Or
use container_internals_simu.Scheduler.{Scheduler, Os, Probe, init}
use container_internals_simu.Scheduler.Window.{window}
use container_internals_simu.Lifecycle.Targets.{
  pids_to_slice, AllNew, told, container_scheduler_refresh_targets,
  container_scheduler_refresh_targets_lem,
}
use container_internals_simu.Prelude.{
  ap, ◌≡◌, refl, true, false, none, some, List, [], ◌∷◌, arith, length, ltb, if◌then◌else◌,
}
use container_internals_simu.Prelude.Int.{pos}
use container_internals_simu.Prelude.Text.{codes}
use container_internals_simu.Bridge.{Host, exited, initial_bridge}
use container_internals_simu.Container.{Container, zeroed, state_running}
use container_internals_simu.Lifecycle.{
  System, World, Manager, child, signalled, reaped, not_yet, delivered, no_process, poll_states,
}
use container_internals_simu.Lifecycle.Create.{ContainerSpec, container_create, insert_container}
use container_internals_simu.Lifecycle.Stop.{stop_container_process}
use container_internals_simu.Lifecycle.Stopped.Result.{
  StopResult, stop_container_process-StopResult,
}
use container_internals_simu.Lifecycle.Poll.{poll_states-poll_states}
use container_internals_simu.Lifecycle.Invariant.{IsOrderly}
use container_internals_simu.Lifecycle.Runs.{
  Run, here, next, create, start, perform_call, initial_manager, Run-initial-IsOrderly,
}
use container_internals_simu.Lifecycle.Creation.{IsPlausible}

abbrev host : Host
host = record {
  doctor = λ commands. record {
    is_root = true;
    ip_cmd = true;
    iptables_cmd = true;
    bridge_up = false;
    ip_forward = pos 1;
  };
  run = λ commands argv. exited 0;
}

-- A child ends by SIGTERM at the fourth tick, and a running one has been killed.
abbrev sys : System
sys = record {
  host = host;
  poll_wait = λ pid. reaped (signalled 9);
  probe = λ pid. no_process;
  now = pos 1700000000;
  saves = true;
  kill = λ pid sig. delivered;
  tick_wait = λ pid tick. if ltb tick 3 then not_yet else reaped (signalled 15);
  last_wait = λ pid. reaped (signalled 9);
  oom_kills = λ id. pos 1;
  rss_bytes = λ pid. some 1048576;
  clone = child (pos 4711) true;
  stack_given = true;
  exec_done = true;
  startup_ms = pos 12;
  calloc = some 1;
  resolve_image = λ name. none;
  prepare_rootfs = λ path. some path;
}

abbrev running : Container
running = record (zeroed 1) {
  id = codes "container-0001";
  name = codes "web";
  pid = pos 4710;
  state = state_running;
  has_stack = true;
}

abbrev world : World
world = record { bridge = initial_bridge; actions = [] }

abbrev manager : Manager
manager = record { containers = running ∷ []; next_sequence = 2; world = world }

poll_states-poll_states_example :
    poll_states sys (poll_states sys manager) ≡ poll_states sys manager
poll_states-poll_states_example = poll_states-poll_states sys manager

stop_container_process-StopResult_example :
    StopResult sys (pos 5) world running (stop_container_process sys (pos 5) world running)
stop_container_process-StopResult_example =
    stop_container_process-StopResult sys (pos 5) world running (omega arith) refl

abbrev spec : ContainerSpec
spec = record {
  name = codes "web";
  hostname = [];
  rootfs = codes "./rootfs";
  command_line = codes "/bin/sh";
  resource_limits = record { cpu_seconds = 0; memory_mb = 0; max_processes = 0 };
  security = record {
    privileged = pos 0;
    readonly_rootfs = pos 0;
    cap_keep = 0;
    seccomp_enabled = pos 1;
  };
  port_maps = [];
}

create-IsPlausible : IsPlausible sys (initial_manager initial_bridge)
unfolding initial_manager
create-IsPlausible = record { pids = λ pid ready e. cc; fresh = λ addr e. tt; room = omega arith }

-- A container is created.
one_call :
    Run
      (initial_manager initial_bridge)
      (perform_call sys (create spec) (initial_manager initial_bridge))
one_call = next here sys (create spec) create-IsPlausible

-- Then it is started, and its process ends before the next poll.
abbrev full : System
full = record sys { calloc = none; saves = true }

abbrev created_manager : Manager
created_manager = perform_call sys (create spec) (initial_manager initial_bridge)

start-IsPlausible : IsPlausible full created_manager
unfolding perform_call container_create insert_container initial_manager
start-IsPlausible = record { pids = λ pid ready e. cc; fresh = λ addr e. cc; room = omega arith }

abbrev two_calls : Manager
two_calls = perform_call full (start (codes "container-0001")) created_manager

two_calls-Run : Run (initial_manager initial_bridge) two_calls
two_calls-Run = next one_call full (start (codes "container-0001")) start-IsPlausible

Run-initial-IsOrderly_example : IsOrderly two_calls
Run-initial-IsOrderly_example = Run-initial-IsOrderly initial_bridge two_calls-Run

abbrev stored : List Container
stored = record running { ip_address = codes "172.17.0.5" } ∷ []

abbrev two_running : List Container
two_running =
    running
    ∷ zeroed 2
    ∷ record running { addr = 3; id = codes "container-0003"; pid = pos 4720 }
    ∷ []

abbrev sched_os : Os
sched_os = record { probe = λ pid. Probe.delivered; can_realloc = λ n. true; garbage = pos 0 }

abbrev slicing : Scheduler
slicing = record init { enabled = true }

two_pids : pids_to_slice two_running ≡ pos 4710 ∷ pos 4720 ∷ []
two_pids = refl

two_pids-AllNew : AllNew [] (pids_to_slice two_running)
two_pids-AllNew = (
  not-mem-nil,
  ((λ m. Or.elim (λ a b. absurd a) (mem-cons.0 m) (λ e. ground (arith, e)) not-mem-nil), tt),
)

container_scheduler_refresh_targets_lem_example :
    let r = container_scheduler_refresh_targets sched_os two_running slicing in
    (window r.0 ≡ pids_to_slice two_running)
    × (r.1 ≡ told slicing.enabled (pids_to_slice two_running))
unfolding init
container_scheduler_refresh_targets_lem_example =
    container_scheduler_refresh_targets_lem sched_os two_running slicing (λ n. refl) refl
      two_pids-AllNew (omega (arith, ap length two_pids))
