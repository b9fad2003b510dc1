-- ===== src/Lifecycle/Commands.antt =====
-- The commands on the list of containers: start, stop, pause, delete, signals and the end of the
-- program.
use container_internals_simu.Prelude.{
  ℕ, Bool, true, false, ◌&&◌, Option, none, some, List, [], ◌∷◌, ◌++◌, ◌==◌, if◌then◌else◌,
}
use container_internals_simu.Prelude.Int.{ℤ, pos, positive}
use container_internals_simu.Prelude.Text.{Text, is_empty, str_eq}
use container_internals_simu.EventBus.Types.{
  container_deleted, container_paused, container_unpaused,
}
use container_internals_simu.Container.{
  Container, ContainerState, state_running, state_paused, is_live, find_container,
}
use container_internals_simu.Lifecycle.{
  System, delivered, SignalName, sigstop, sigcont, emitted, saved, scheduler_stopped, World, act,
  Manager, is_running, cleanup_container_network, poll_states,
}
use container_internals_simu.Lifecycle.Stop.{is_paused, send, stop_container_process}
use container_internals_simu.Lifecycle.Start.{start_found}

-- A write through a pointer into the list.
unfoldable pub replace : Container → List Container → List Container
replace c [] = []
replace c (d ∷ rest) = if d.addr == c.addr then c ∷ rest else d ∷ replace c rest

-- `remove_container`, on the list.
unfoldable pub remove_by_addr : ℕ → List Container → List Container
remove_by_addr addr [] = []
remove_by_addr addr (d ∷ rest) = if d.addr == addr then rest else d ∷ remove_by_addr addr rest

-- The opening of most commands: poll, find the container, and work on it.
unfoldable pub on_container :
    System → (World → Container → World × Container × Bool) → Text → Manager → Manager × Bool
unfolding replace
on_container sys op id m =
    let polled = poll_states sys m in
    if is_empty id then (m, false) else elim (find_container polled.containers id) [
      | none ↦ (polled, false)
      | some c ↦
          let (w, c', done) = op polled.world c in
          (record polled { containers = replace c' polled.containers; world = w }, done)
    ]

unfoldable pub container_start : System → Text → Manager → Manager × Bool
unfolding on_container
container_start sys id m = on_container sys (start_found sys true true) id m

unfoldable pub container_stop : System → Text → ℤ → Manager → Manager × Bool
unfolding on_container
container_stop sys id timeout_s m = on_container sys (stop_container_process sys timeout_s) id m

unfoldable pub pause_found : System → World → Container → World × Container × Bool
pause_found sys w c =
    let (w', result) = send sys c.pid sigstop w in
    if is_running c.state && positive c.pid
    then elim result [
      | delivered ↦ (
        act (emitted container_paused c.id [] (pos 0)) (act saved w'),
        record c { state = state_paused },
        true,
      )
      | _ ↦ (w', c, false)
    ]
    else (w, c, false)

unfoldable pub unpause_found : System → World → Container → World × Container × Bool
unpause_found sys w c =
    let (w', result) = send sys c.pid sigcont w in
    if is_paused c.state && positive c.pid
    then elim result [
      | delivered ↦ (
        act (emitted container_unpaused c.id [] (pos 0)) (act saved w'),
        record c { state = state_running },
        true,
      )
      | _ ↦ (w', c, false)
    ]
    else (w, c, false)

unfoldable pub container_pause : System → Text → Manager → Manager × Bool
unfolding on_container pause_found
container_pause sys id m = on_container sys (pause_found sys) id m

unfoldable pub container_unpause : System → Text → Manager → Manager × Bool
unfolding on_container unpause_found
container_unpause sys id m = on_container sys (unpause_found sys) id m

-- A container that may be deleted. If the file cannot be written it is put back, at the end.
unfoldable pub delete_found : System → Container → Manager → Manager × Bool
unfolding remove_by_addr cleanup_container_network
delete_found sys c m =
    let (b, c') = cleanup_container_network sys.host m.world.bridge c in
    let w = act saved (record m.world { bridge = b }) in
    let rest = remove_by_addr c.addr m.containers in
    if sys.saves
    then (
      record m { containers = rest; world = act (emitted container_deleted c.id [] (pos 0)) w },
      true,
    )
    else (record m { containers = rest ++ c' ∷ []; world = w }, false)

unfoldable pub container_delete : System → Text → Manager → Manager × Bool
unfolding delete_found
container_delete sys id m =
    let polled = poll_states sys m in
    if is_empty id then (m, false) else elim (find_container polled.containers id) [
      | none ↦ (polled, false)
      | some c ↦ if is_live c.state then (polled, false) else delete_found sys c polled
    ]

signal_found : System → SignalName → Container → World → World × Bool
signal_found sys sig c w =
    let (w', result) = send sys c.pid sig w in
    if positive c.pid && is_running c.state
    then elim result [ delivered ↦ (w', true) | _ ↦ (w', false) ]
    else (w, false)

signal_loop : System → SignalName → Text → List Container → World → World × Bool
unfolding signal_found
signal_loop sys sig id [] w = (w, false)
signal_loop sys sig id (c ∷ rest) w =
    let later = signal_loop sys sig id rest w in
    if str_eq c.id id then signal_found sys sig c w else later

-- Only an id is looked up, and nothing is polled.
unfoldable pub container_send_signal : System → Text → SignalName → Manager → Manager × Bool
unfolding signal_loop
container_send_signal sys id sig m =
    let (w, done) = signal_loop sys sig id m.containers m.world in
    if is_empty id then (m, false) else (record m { world = w }, done)

-- Every container that runs is stopped, with five seconds of grace.
unfoldable pub stop_all : System → List Container → World → World
stop_all sys [] w = w
stop_all sys (c ∷ rest) w = stop_all sys rest (stop_container_process sys (pos 5) w c).0

unfoldable pub cleanup_all_containers : System → Manager → Manager
unfolding stop_all
cleanup_all_containers sys m =
    let polled = poll_states sys m in
    record polled {
      containers = [];
      world = act scheduler_stopped (act saved (stop_all sys polled.containers polled.world));
    }

-- State, exit code and pid.
unfoldable pub container_get_info :
    System → Text → Manager → Manager × Option (ContainerState × ℤ × ℤ)
container_get_info sys id m =
    let polled = poll_states sys m in
    elim (find_container polled.containers id) [
      | none ↦ (polled, none)
      | some c ↦ (polled, some (c.state, c.exit_code, c.pid))
    ]
