-- ===== src/Lifecycle/Runs.antt =====
-- Every sequence of commands keeps the manager in order.
use container_internals_simu.Prelude.{
  ◌≡◌, refl, inl, inr, Bool, true, false, some, [], arith, Bool-cases, Option-cases,
}
use container_internals_simu.Prelude.Int.{ℤ}
use container_internals_simu.Prelude.Text.{Text, is_empty}
use container_internals_simu.Bridge.{Bridge}
use container_internals_simu.Lifecycle.Start.{start_found}
use container_internals_simu.Lifecycle.Stop.{stop_container_process}
use container_internals_simu.Container.{Container, find_container}
use container_internals_simu.Lifecycle.{System, World, Manager, SignalName, poll_states}
use container_internals_simu.Lifecycle.Commands.{
  replace, pause_found, unpause_found, on_container, container_start, container_stop,
  container_pause, container_unpause, container_delete, container_send_signal,
  cleanup_all_containers,
}
use container_internals_simu.Lifecycle.Create.{
  ContainerSpec, container_create, container_prune_all, container_run, container_run_background,
  wait_for, set_log_path,
}
use container_internals_simu.Lifecycle.Valid.{
  Keeps, stop_container_process-Keeps, wait_for_container_process-Keeps, pause_found-Keeps,
  unpause_found-Keeps,
}
use container_internals_simu.Lifecycle.ValidStart.{
  GivesPids, start_found-Keeps, ensure_container_log_path-Keeps,
}
use container_internals_simu.Lifecycle.Invariant.{
  IsOrderly, Kept-refl, poll_states-IsOrderly, IsOrderly-Kept, find_container-In, replace-Kept,
  on_container-IsOrderly,
}
use container_internals_simu.Lifecycle.Creation.{IsPlausible, container_create-IsOrderly}
use container_internals_simu.Lifecycle.Deletion.{
  container_delete-IsOrderly, container_prune_all-IsOrderly,
}

-- One container of the list at a later time.
put-IsOrderly :
    (m : Manager) (id : Text) (c c' : Container) (w : World)
    → IsOrderly m
    → find_container m.containers id ≡ some c
    → Keeps c c'
    → IsOrderly (record m { containers = replace c' m.containers; world = w })
put-IsOrderly m id c c' w v found k =
    IsOrderly-Kept v
      (replace-Kept c c' m.containers (find_container-In m.containers id c found) v.distinct_addrs
        k)
      refl

wait_for-IsOrderly :
    (sys : System) (id : Text) (m : Manager) → IsOrderly m → IsOrderly (wait_for sys id m).0
unfolding wait_for
wait_for-IsOrderly sys id m v = elim (Option-cases (find_container m.containers id)) [
  | inl missing ↦ rw (missing, wait_for) v
  | inr (c, found) ↦
      rw (found, wait_for)
        (put-IsOrderly m id c _ _ v found (wait_for_container_process-Keeps sys m.world c))
]

set_log_path-IsOrderly : (id : Text) (m : Manager) → IsOrderly m → IsOrderly (set_log_path id m)
unfolding set_log_path
set_log_path-IsOrderly id m v = elim (Option-cases (find_container m.containers id)) [
  | inl missing ↦ rw (missing, set_log_path) v
  | inr (c, found) ↦
      rw (found, set_log_path)
        (put-IsOrderly m id c _ _ v found (ensure_container_log_path-Keeps c))
]

start-IsOrderly :
    (sys : System) (schedule_target capture_logs : Bool) (id : Text) (m : Manager)
    → GivesPids sys
    → IsOrderly m
    → IsOrderly (on_container sys (start_found sys schedule_target capture_logs) id m).0
start-IsOrderly sys schedule_target capture_logs id m pids v =
    on_container-IsOrderly sys (start_found sys schedule_target capture_logs) id m
      (λ w c. start_found-Keeps sys schedule_target capture_logs w c pids) v

container_run-IsOrderly :
    (sys : System) (spec : ContainerSpec) (m : Manager)
    → IsPlausible sys m
    → IsOrderly m
    → IsOrderly (container_run sys spec m).0
unfolding container_run
container_run-IsOrderly sys spec m p v =
    let r = container_create sys spec m in
    let v1 = container_create-IsOrderly sys spec m p v in
    elim (Option-cases r.1) [
      | inl failed ↦ rw (failed, container_run) v1
      | inr (cid, made) ↦
          let s = on_container sys (start_found sys false false) cid r.0 in
          let v2 = start-IsOrderly sys false false cid r.0 p.pids v1 in
          elim (Bool-cases s.1) [
            | inl started ↦ rw (made, started, container_run) (wait_for-IsOrderly sys cid s.0 v2)
            | inr refused ↦ rw (made, refused, container_run) v2
          ]
    ]

container_run_background-IsOrderly :
    (sys : System) (spec : ContainerSpec) (m : Manager)
    → IsPlausible sys m
    → IsOrderly m
    → IsOrderly (container_run_background sys spec m).0
unfolding container_run_background
container_run_background-IsOrderly sys spec m p v =
    let r = container_create sys spec m in
    let v1 = container_create-IsOrderly sys spec m p v in
    elim (Option-cases r.1) [
      | inl failed ↦ rw (failed, container_run_background) v1
      | inr (cid, made) ↦
          rw (made, container_run_background)
            (start-IsOrderly sys true true cid (set_log_path cid r.0) p.pids
              (set_log_path-IsOrderly cid r.0 v1))
    ]

-- The commands of the interface.
pub data Call : Type 0 where
  create run run_background : ContainerSpec → Call
  start pause unpause delete : Text → Call
  stop : Text → ℤ → Call
  send_signal : Text → SignalName → Call
  refresh prune cleanup_all : Call

unfoldable pub perform_call : System → Call → Manager → Manager
perform_call sys (create spec) m = (container_create sys spec m).0
perform_call sys (run spec) m = (container_run sys spec m).0
perform_call sys (run_background spec) m = (container_run_background sys spec m).0
perform_call sys (start id) m = (container_start sys id m).0
perform_call sys (pause id) m = (container_pause sys id m).0
perform_call sys (unpause id) m = (container_unpause sys id m).0
perform_call sys (delete id) m = (container_delete sys id m).0
perform_call sys (stop id timeout_s) m = (container_stop sys id timeout_s m).0
perform_call sys (send_signal id sig) m = (container_send_signal sys id sig m).0
perform_call sys refresh m = poll_states sys m
perform_call sys prune m = container_prune_all sys m
perform_call sys cleanup_all m = cleanup_all_containers sys m

send_signal-IsOrderly :
    (sys : System) (id : Text) (sig : SignalName) (m : Manager)
    → IsOrderly m
    → IsOrderly (container_send_signal sys id sig m).0
unfolding container_send_signal
send_signal-IsOrderly sys id sig m v = elim (Bool-cases (is_empty id)) [
  | inl empty ↦ rw empty v
  | inr named ↦ rw named (IsOrderly-Kept v (Kept-refl m.containers) refl)
]

perform_call-IsOrderly :
    (sys : System) (call : Call) (m : Manager)
    → IsPlausible sys m
    → IsOrderly m
    → IsOrderly (perform_call sys call m)
unfolding perform_call container_start container_pause container_unpause container_stop
    cleanup_all_containers
perform_call-IsOrderly sys (create spec) m p v = container_create-IsOrderly sys spec m p v
perform_call-IsOrderly sys (run spec) m p v = container_run-IsOrderly sys spec m p v
perform_call-IsOrderly sys (run_background spec) m p v =
    container_run_background-IsOrderly sys spec m p v
perform_call-IsOrderly sys (start id) m p v = start-IsOrderly sys true true id m p.pids v
perform_call-IsOrderly sys (pause id) m p v =
    on_container-IsOrderly sys (pause_found sys) id m (pause_found-Keeps sys) v
perform_call-IsOrderly sys (unpause id) m p v =
    on_container-IsOrderly sys (unpause_found sys) id m (unpause_found-Keeps sys) v
perform_call-IsOrderly sys (delete id) m p v = container_delete-IsOrderly sys id m v
perform_call-IsOrderly sys (stop id timeout_s) m p v =
    on_container-IsOrderly sys (stop_container_process sys timeout_s) id m
      (stop_container_process-Keeps sys timeout_s) v
perform_call-IsOrderly sys (send_signal id sig) m p v = send_signal-IsOrderly sys id sig m v
perform_call-IsOrderly sys refresh m p v = poll_states-IsOrderly sys m v
perform_call-IsOrderly sys prune m p v = container_prune_all-IsOrderly sys m v
perform_call-IsOrderly sys cleanup_all m p v =
    let v' = poll_states-IsOrderly sys m v in
    record { sound = tt; distinct_ids = tt; distinct_addrs = tt; numbered = tt; small = v'.small }

-- A run of the program: commands in any order, each with its own answers of the system.
pub data Run (m : Manager) : Manager → Type 0 where
  here : Run m m
  next :
      {u : Manager}
      → Run m u
      → (sys : System) (call : Call) → IsPlausible sys u
      → Run m (perform_call sys call u)

pub Run-IsOrderly : {m u : Manager} → IsOrderly m → Run m u → IsOrderly u
Run-IsOrderly v here = v
Run-IsOrderly v (next {u} r sys call p) = perform_call-IsOrderly sys call u p (Run-IsOrderly v r)

-- The manager at the start of the program, without a metadata file.
unfoldable pub initial_manager : Bridge → Manager
initial_manager b = record {
  containers = [];
  next_sequence = 1;
  world = record { bridge = b; actions = [] };
}

-- Any sequence of commands since the start without a metadata file, with plausible answers of the
-- system, leaves the list of containers in order: a container runs or is paused exactly if it has a
-- process, only such a container has a stack, and no two containers share an id or an address.
pub Run-initial-IsOrderly : (b : Bridge) {u : Manager} → Run (initial_manager b) u → IsOrderly u
unfolding initial_manager
Run-initial-IsOrderly b r =
    Run-IsOrderly
      (record {
        sound = tt;
        distinct_ids = tt;
        distinct_addrs = tt;
        numbered = tt;
        small = omega arith;
      })
      r
