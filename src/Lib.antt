-- ===== src/Lib.antt =====
-- Container-Internals-Simulator: a model of its C code and the theorems about it.
--
-- The program is a container runtime with a command line. The files here model these parts.
--   Scheduler, for src/scheduler.c: `g_state` is the record `Scheduler`; each critical section of
--     its mutex is one function of that record (`scheduler_add_target` is `add_target`, a pass of
--     the loop of `scheduler_thread_main` is `thread_round`, `scheduler_stop` is `request_stop`
--     and, after the join, `finish_stop`). What the system answers (`kill(pid, 0)`, `realloc`,
--     `pthread_create`) is a parameter. A run is a list of critical sections in any order. The
--     doubling loop of `ensure_capacity_locked` has fuel 64: a capacity of 64 bits cannot double
--     more often.
--   EventBus, for src/eventbus.c: `g_ring`, `g_total` and events.log are the record `Bus`.
--     `eventbus_emit` is `emit`: the section under the lock is `publish`, the line appended to
--     the log `persist`, the calls of the logger and of `metrics_on_event` are results.
--     `eventbus_init` is `init`, with `replay_events_file` as `replay`; EventBus.Line has the
--     line format and its parser, EventBus.Types the event types and their names. The loop over
--     the lines of the log has the log's length for fuel, as that of each file in
--     Prelude.FileLines: `fgets` takes at least a byte. EventBus.Json is `eventbus_json_recent`,
--     with the buffer of Json.Array. `eventbus_print_filtered` and `eventbus_drain_from` take the
--     lock twice, and the model has a bus for each.
--   Orchestrator, for src/orchestrator.c: `g_running` and `g_spec` are the record `Orchestrator`,
--     a `Spec` has the services below `count`. Orchestrator.SpecFile is `parse_service`, and its
--     children Tokens and Parser the JSON parser with its arena and `orch_parse_spec`; its fuel
--     is the depth of the recursion. Orchestrator.Topo is `topo_sort`, with the two arrays as
--     lists and an `int` that is decremented as its 32 bits; its main loop has the number of
--     services for fuel, and takes each out of the queue once. Orchestrator.Validate is
--     `orch_validate`, with the messages as a list. A pass of the loop of `monitor_thread` is
--     `scan` in Orchestrator.Scan, the part under the lock, and Orchestrator.Monitor, where
--     `finish_health` and `finish_restart` are the last critical sections of a work item, and
--     `tick` runs the pass while no command changes the specification. Orchestrator.Control is
--     `orch_run`, `orch_down` and `orch_restart_service`. `orch_run` waits 1.2 seconds for the
--     monitor: what that gets to do, and whether its thread is created, is a parameter, a list of
--     whole passes and a number of work items of the one under way at the end. In the
--     model the wait ends between two work items, not within one, and while `orch_down` and
--     `orch_restart_service` run the monitor does nothing. What the container runtime and the image store
--     answer is the record `Runtime`; their calls and the events are results. A shift of an `int`
--     by more than 30 is one of the answers. Counts of restarts and failures have no bound in the
--     model.
--   Container, for the types of src/container.h and the helpers of src/container.c:
--     `find_container` on the list from `head`, `split_command_argv` with the text's length for
--     fuel, since each turn takes a byte at least, the names of states and `elapsed_ms_between`.
--   Lifecycle, for the commands of src/container.c: `head` and `next_sequence` are the record
--     `Manager`, and the functions have their names (`start_container_by_id` is `start_found`
--     behind the opening that most commands share, `on_container`). Its files: Lifecycle for
--     `poll_states`, Stop, Start (with the callback `container_net_setup`), Commands, Create and
--     Metadata, which has `container_manager_init` and the text that `save_metadata` writes.
--     Lifecycle.Targets has `container_scheduler_refresh_targets`, on the record `Scheduler`, and
--     Lifecycle.Stats `container_stats_json_all`, on the tables of Alert and Metrics.
--     What the kernel, the file system and the other modules answer during one command is the
--     record `System`; their calls are `actions` of a `World`, and the state of src/bridge.c is
--     another part of it. The list of containers stands for the linked structures:
--     Lifecycle.Registry has `append_container` and `remove_container` on the pointers, with fuel
--     for the walk. A pointer into the list is the address of a structure. Lines of the logger,
--     what is printed, `errno` and the moves of the terminal's foreground are left out.
--   Bridge, for src/bridge.c: `g_next_ip_host` and `g_last_error` are the record `Bridge`, with
--     the commands run so far; what they answer is the record `Host`. Bridge.Pool has the
--     addresses, Bridge.Veth the veth pairs and the rules of published ports, Bridge.PortMaps the
--     text of port maps. Error messages are the values that stand in them.
--   Alert, for src/alert.c: `g_alerts` is a list of `Alert`; `alert_set`, `alert_clear`,
--     `alert_clear_all` and `alert_check_sample` have their names. A `double` is an element of
--     the parameter `Reals`, and the texts of the messages are left to the values that stand in
--     them. `alert_check_sample` gives up its lock for each event; the model lets nobody use
--     that. Alert.Map is the map that these calls implement.
--   Json, for `json_escape_copy`, which src/alert.c, src/eventbus.c and src/container.c each
--     have, and the loop of `jp_raw_string` in src/orchestrator.c that reads such a string.
--     Json.Array is the array that `eventbus_json_recent` and `alert_json`, in Alert.Json, print
--     into a buffer.
--   Metrics, for src/metrics.c: `g_metrics` is the record `Metrics`, the functions drop the
--     prefix `metrics_`, except those of Metrics.Persist. `eventbus_emit` calls `on_event`.
--   Prelude: lists and texts over the native numbers, C string copies, decimal printing, `strtol`
--     and `strtoull`, and counters that are moved past numbers read from a file.
--
-- Texts are lists of bytes without the terminator, an `int` or `pid_t` is an integer, a 64-bit
-- counter keeps its wrap-around. `next_sequence` and `g_next_ip_host`, which are counted up from
-- numbers in a file, are kept as the 32 bits of an `int`; an overflow, which C leaves undefined,
-- wraps around there, and the theorems exclude it. Mutexes are taken to work: a critical section is atomic.
--
-- Not modelled: listing and printing in the files modelled, the rest of src/container.c (logs,
-- exec and the other JSON), the doctor and the search of PATH in src/bridge.c, the image store,
-- the web server, the command line, the modules that are calls of the kernel in the main
-- (src/namespace.c, src/network.c, src/filesystem.c, src/resource.c, src/security.c,
-- src/monitor.c), the logger, the workload programs, the scripts, the web pages and the shell
-- tests.
pub mod Prelude
pub mod Scheduler
pub mod Container
pub mod Lifecycle
pub mod Bridge
pub mod EventBus
pub mod Alert
pub mod Json
pub mod Metrics
pub mod Orchestrator
