-- ===== src/Lifecycle.antt =====
-- The life of a container in src/container.c: the answers of the kernel and what the manager does
-- with them. This file has the manager's state and the polling of states.
pub mod Registry
pub mod Stop
pub mod Start
pub mod Commands
pub mod Create
pub mod Numbers
pub mod Removal
pub mod Runs
pub mod Creation
pub mod Deletion
pub mod Valid
pub mod ValidStart
pub mod Invariant
pub mod Poll
pub mod Stats
pub mod Targets
pub mod Metadata
pub mod Stopped
mod Tests
use container_internals_simu.Prelude.{
  ℕ, zero, suc, ◌+◌, ◌*◌, ◌/◌, Bool, true, false, not, ◌&&◌, ◌||◌, Option, none, some, List, [],
  ◌∷◌, ◌++◌, ltb, ◌==◌, if◌then◌else◌,
}
use container_internals_simu.Prelude.Int.{ℤ, pos, negsuc, positive, ltb_ℤ}
use container_internals_simu.Prelude.Text.{Text, codes, is_empty}
use container_internals_simu.Prelude.Decimal.{print_nat}
use container_internals_simu.EventBus.Types.{EventType, container_stopped, oom_kill}
use container_internals_simu.Bridge.{Bridge, Host, PortMapping}
use container_internals_simu.Bridge.Veth.{bridge_del_port_forward, bridge_teardown_veth}
use container_internals_simu.Container.{
  Container, ContainerState, state_created, state_running, state_paused, state_stopped, is_live,
}

-- How a child ended.
pub data WaitStatus : Type 0 where
  exited signalled : ℕ → WaitStatus

-- What `waitpid` gives: a child that ended, 0, or -1 with ECHILD, EINTR or another error.
pub data Wait : Type 0 where
  reaped : WaitStatus → Wait
  not_yet no_child interrupted bad_wait : Wait

pub data SignalName : Type 0 where
  sigterm sigkill sigstop sigcont other_signal : SignalName

-- What `kill` gives: 0, or -1 with ESRCH or EPERM.
pub data Kill : Type 0 where
  delivered no_process refused : Kill

-- What `clone` and the set-up of a child come to: it fails before the network callback, or the
-- callback is called with the child, which then reports that it is ready or not.
pub data Clone : Type 0 where
  no_clone : Clone
  child : ℤ → Bool → Clone

-- What the kernel and the file system answer while an operation runs.
pub record System : Type 0 where
  pub host : Host
  -- `waitpid(pid, &status, WNOHANG)` of `sync_container_state`
  pub poll_wait : ℤ → Wait
  -- `kill(pid, 0)`
  pub probe : ℤ → Kill
  pub now : ℤ
  -- whether the metadata file can be written
  pub saves : Bool
  pub kill : ℤ → SignalName → Kill
  -- `waitpid` in the loop of `stop_container_process`, by its ticks, and the two waits that block
  pub tick_wait : ℤ → ℕ → Wait
  pub last_wait : ℤ → Wait
  -- `read_oom_kill_count`, and the resident bytes by `monitor_read`
  pub oom_kills : Text → ℤ
  pub rss_bytes : ℤ → Option ℕ
  pub clone : Clone
  -- `malloc` of a stack, `namespace_trigger_exec` and `resource_try_cgroup`
  pub stack_given : Bool
  pub exec_done : Bool
  -- the milliseconds between the two readings of the clock
  pub startup_ms : ℤ
  -- `calloc` of a `Container`, `image_resolve` and `filesystem_prepare_rootfs`
  pub calloc : Option ℕ
  pub resolve_image : Text → Option Text
  pub prepare_rootfs : Text → Option Text

-- A process that may not be signalled is alive too (EPERM).
unfoldable pub is_pid_alive : System → ℤ → Bool
is_pid_alive sys pid =
    positive pid && elim (sys.probe pid) [ delivered ↦ true | no_process ↦ false | refused ↦ true ]

-- A call of another module or of the kernel.
pub data Effect : Type 0 where
  killed : ℤ → SignalName → Effect
  emitted : EventType → Text → Text → ℤ → Effect
  added_target removed_target : ℤ → Effect
  cleaned_cgroup tried_cgroup : Text → Effect
  recorded_startup : Effect
  slept saved scheduler_stopped : Effect

pub record World : Type 0 where
  pub bridge : Bridge
  pub actions : List Effect

abbrev pub act : Effect → World → World
act a w = record w { actions = w.actions ++ a ∷ [] }

-- The static variables of the file.
pub record Manager : Type 0 where
  pub containers : List Container
  -- an `int`, as its 32 bits
  pub next_sequence : ℕ
  pub world : World

abbrev pub exit_code_of : WaitStatus → ℤ
exit_code_of (exited n) = pos n
exit_code_of (signalled zero) = pos 0
exit_code_of (signalled (suc n)) = negsuc n

-- `format_wait_status`
unfoldable pub format_wait_status : WaitStatus → Text
format_wait_status (exited n) = codes "exited code=" ++ print_nat n
format_wait_status (signalled n) = codes "killed signal=" ++ print_nat n

unfoldable pub del_forwards : Host → Text → List PortMapping → Bridge → Bridge
del_forwards host ip [] b = b
del_forwards host ip (pm ∷ maps) b =
    del_forwards host ip maps (bridge_del_port_forward host pm ip b).0

-- The bridge and the container.
unfoldable pub cleanup_container_network : Host → Bridge → Container → Bridge × Container
unfolding del_forwards
cleanup_container_network host b c =
    let b' = if is_empty c.ip_address then b else del_forwards host c.ip_address c.port_maps b in
    if is_empty c.veth_host then (b', c) else (
      (bridge_teardown_veth host c.veth_host b').0,
      record c { veth_host = []; ip_address = [] },
    )

abbrev pub with_cleanup : System → World → Container → World × Container
with_cleanup sys w c =
    let (b, c') = cleanup_container_network sys.host w.bridge c in (record w { bridge = b }, c')

-- A child that has been reaped.
unfoldable pub sync_reaped : System → WaitStatus → World → Container → World × Container
sync_reaped sys status w c =
    let ended = record c {
      stopped_at = sys.now;
      exit_code = exit_code_of status;
      state = state_stopped;
      pid = negsuc 0;
      has_stack = false;
    } in
    let (w', c') =
      with_cleanup sys (act (cleaned_cgroup c.id) (act (removed_target c.pid) w)) ended in
    (act (emitted container_stopped c.id (format_wait_status status) (exit_code_of status)) w', c')

-- A process that is gone, though it is not a child that can be waited for.
unfoldable pub sync_lost : System → World → Container → World × Container
sync_lost sys w c =
    let ended = record c { state = state_stopped; pid = negsuc 0; has_stack = false } in
    let (w', c') = with_cleanup sys (act (cleaned_cgroup c.id) w) ended in
    (act (emitted container_stopped c.id (codes "recovery-check") (negsuc 0)) w', c')

abbrev pub is_running : ContainerState → Bool
is_running state_running = true
is_running _ = false

-- A container that has ended, or `none` if nothing changes. One that is paused is left alone.
unfoldable pub sync_found : System → Wait → World → Container → Option (World × Container)
unfolding sync_reaped sync_lost
sync_found sys (reaped status) w c = some (sync_reaped sys status w c)
sync_found sys no_child w c = if is_pid_alive sys c.pid then none else some (sync_lost sys w c)
sync_found sys _ w c = none

abbrev pub sync_result : World → Container → Option (World × Container) → World × Container × Bool
sync_result w c none = (w, c, false)
sync_result w c (some (w', c')) = (w', c', true)

unfoldable pub sync_container_state : System → World → Container → World × Container × Bool
unfolding sync_found
sync_container_state sys w c =
    if is_running c.state && positive c.pid
    then sync_result w c (sync_found sys (sys.poll_wait c.pid) w c)
    else (w, c, false)

abbrev pub rss_mb : Option ℕ → ℤ
rss_mb none = pos 0
rss_mb (some bytes) = pos (bytes / (1024 * 1024))

-- The first part of a turn of the loop.
unfoldable pub check_oom : System → World → Container → World × Container
check_oom sys w c =
    let oom = sys.oom_kills c.id in
    if is_running c.state && positive c.pid && positive oom && ltb_ℤ c.oom_kill_count oom
    then (
      act (emitted oom_kill c.id [] (rss_mb (sys.rss_bytes c.pid))) w,
      record c { oom_kill_count = oom },
    )
    else (w, c)

unfoldable pub poll_loop : System → World → List Container → World × List Container × Bool
unfolding check_oom sync_container_state
poll_loop sys w [] = (w, [], false)
poll_loop sys w (c ∷ rest) =
    let (w1, c1) = check_oom sys w c in
    let (w2, c2, changed) = sync_container_state sys w1 c1 in
    let (w3, rest', more) = poll_loop sys w2 rest in (w3, c2 ∷ rest', changed || more)

unfoldable pub poll_states : System → Manager → Manager
unfolding poll_loop
poll_states sys m =
    let (w, cs, changed) = poll_loop sys m.world m.containers in
    record m { containers = cs; world = if changed then act saved w else w }
