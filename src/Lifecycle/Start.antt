-- ===== src/Lifecycle/Start.antt =====
-- `container_net_setup` and `start_container_by_id` from the container that it finds on.
use container_internals_simu.Prelude.{
  ℕ, zero, suc, ◌+◌, ◌/◌, ◌%◌, ◌^◌, Bool, true, false, not, ◌&&◌, ◌||◌, Option, none, some, List,
  [], ◌∷◌, ◌++◌, ◌==◌, if◌then◌else◌,
}
use container_internals_simu.Prelude.Int.{ℤ, pos, negsuc}
use container_internals_simu.Prelude.Text.{Text, codes, is_empty, copy_string}
use container_internals_simu.EventBus.Types.{container_started, security_profile_applied}
use container_internals_simu.Bridge.{Bridge, Host, PortMapping, bridge_is_up, bridge_preflight}
use container_internals_simu.Bridge.Pool.{bridge_alloc_ip}
use container_internals_simu.Bridge.Veth.{bridge_setup_veth, bridge_add_port_forward}
use container_internals_simu.Container.{
  Container, state_running, no_network_error, ports_need_bridge, loopback_only, bridge_error,
}
use container_internals_simu.Lifecycle.{
  System, Clone, no_clone, child, emitted, added_target, tried_cgroup, recorded_startup, saved,
  World, act, is_running,
}
use container_internals_simu.Lifecycle.Stop.{stop_container_process}

abbrev pub has_ports : Container → Bool
has_ports c = elim c.port_maps [ [] ↦ false | _ ∷ _ ↦ true ]

-- The container says why there is no bridge; that is an error only if it publishes ports.
abbrev pub without_bridge : Bridge → Container → Bridge × Container × Bool
without_bridge b c = (b, record c { network_error = bridge_error b.last_error }, not (has_ports c))

unfoldable pub net_veth : Host → ℤ → Text → Bridge → Container → Bridge × Container × Bool
net_veth host pid ip b c =
    let (b', names) = bridge_setup_veth host c.id pid b in
    elim names [
      | none ↦ without_bridge b' c
      | some (near, far) ↦ (
        b',
        record c {
          ip_address = copy_string 16 ip;
          veth_host = copy_string 16 near;
          network_error = no_network_error;
        },
        true,
      )
    ]

unfoldable pub net_attach : Host → ℤ → Bridge → Container → Bridge × Container × Bool
unfolding net_veth
net_attach host pid b c =
    let (b', given) = bridge_alloc_ip b in
    elim given [ none ↦ without_bridge b' c | some ip ↦ net_veth host pid ip b' c ]

-- The callback with the child's pid; the last part is whether it gives 0. What it writes to `cfg`
-- is for the child.
unfoldable pub container_net_setup : Host → ℤ → Bridge → Container → Bridge × Container × Bool
unfolding net_attach
container_net_setup host pid b c =
    let (b', allowed) = bridge_preflight host true (has_ports c) b in
    if bridge_is_up host b
    then (if allowed then net_attach host pid b' c else without_bridge b' c)
    else if has_ports c
    then (b, record c { network_error = ports_need_bridge }, false)
    else (b, record c { network_error = loopback_only }, true)

-- The loop stops at the first rule that cannot be added.
unfoldable pub add_forwards : Host → Text → List PortMapping → Bridge → Bridge × Bool
add_forwards host ip [] b = (b, true)
add_forwards host ip (pm ∷ maps) b =
    let (b', added) = bridge_add_port_forward host pm ip b in
    let rest = add_forwards host ip maps b' in if added then rest else (b', false)

-- Capabilities from 0 up to below n that the mask does not keep.
unfoldable pub cap_drop_count : ℕ → ℕ → ℕ
cap_drop_count mask zero = 0
cap_drop_count mask (suc i) = cap_drop_count mask i + (if (mask / 2 ^ i) % 2 == 0 then 1 else 0)

unfoldable pub ensure_container_log_path : Container → Container
ensure_container_log_path c =
    if is_empty c.log_path
    then record c { log_path = copy_string 256 (codes "logs/" ++ c.id ++ codes ".log") }
    else c

-- A start that fails behind the set-up stops the container; its result is -1 anyway.
abbrev pub abort_start : System → World → Container → World × Container × Bool
abort_start sys w c =
    let (w', c', stopped) = stop_container_process sys (pos 0) w c in (w', c', false)

-- The end of a start, once the command runs.
unfoldable pub announce_start : System → Bool → World → Container → World
unfolding cap_drop_count
announce_start sys schedule_target w c =
    let dropped = pos (cap_drop_count c.security.cap_keep 38) in
    let told = act (emitted security_profile_applied c.id [] dropped) (
      act (emitted container_started c.id c.command_line sys.startup_ms)
        (act recorded_startup w)) in
    if schedule_target then act (added_target c.pid) told else told

-- The rules of the published ports, if the container has an address.
unfoldable pub publish_ports : System → World → Container → Bridge × Bool
unfolding add_forwards
publish_ports sys w c =
    if is_empty c.ip_address
    then (w.bridge, true)
    else add_forwards sys.host c.ip_address c.port_maps w.bridge

-- From the record of the new process on.
unfoldable pub finish_start : System → Bool → World → Container → World × Container × Bool
unfolding publish_ports announce_start
finish_start sys schedule_target w c =
    let (b, published) = publish_ports sys w c in
    let w1 = record w { bridge = b } in
    let w2 = act saved (act (tried_cgroup c.id) w1) in
    if not published
    then abort_start sys w1 (record c { network_error = bridge_error b.last_error })
    else if sys.saves && sys.exec_done
    then (announce_start sys schedule_target w2 c, c, true)
    else abort_start sys w2 c

-- What the clone and its callback leave: the network, and the child's pid if it is ready.
unfoldable pub run_clone : System → Clone → World → Container → World × Container × Option ℤ
unfolding container_net_setup
run_clone sys no_clone w c = (w, c, none)
run_clone sys (child pid ready) w c =
    let (b, c', connected) = container_net_setup sys.host pid w.bridge c in
    (record w { bridge = b }, c', if connected && ready then some pid else none)

-- Behind the clone: a failure gives the stack back.
unfoldable pub started_or_not :
    System → Bool → World → Container → Option ℤ → World × Container × Bool
unfolding finish_start
started_or_not sys schedule_target w c none = (w, record c { has_stack = false }, false)
started_or_not sys schedule_target w c (some pid) =
    finish_start sys schedule_target w
      (record c { pid = pid; state = state_running; started_at = sys.now; exit_code = negsuc 0 })

-- The container as it is handed to the clone.
unfoldable pub prepare_start : Bool → Container → Container
unfolding ensure_container_log_path
prepare_start capture_logs c =
    let with_stack = record c { has_stack = true } in
    let logging = if capture_logs then ensure_container_log_path with_stack else with_stack in
    record logging { ip_address = []; veth_host = []; network_error = no_network_error }

-- `start_container_by_id` behind its lookup. The log file is left out.
unfoldable pub start_found : System → Bool → Bool → World → Container → World × Container × Bool
unfolding run_clone started_or_not prepare_start
start_found sys schedule_target capture_logs w c =
    let (w', c', started) = run_clone sys sys.clone w (prepare_start capture_logs c) in
    if is_running c.state || not sys.stack_given
    then (w, c, false)
    else started_or_not sys schedule_target w' c' started
