-- ===== src/Lifecycle/Metadata.antt =====
-- The metadata file of src/container.c: the lines that `save_metadata` writes, and
-- `container_manager_init`, which reads them at the start of the program.
pub mod Record
pub mod Lines
pub mod Restart
use container_internals_simu.Prelude.{
  ℕ, zero, suc, ◌+◌, ◌-◌, ◌^◌, ◌%◌, Bool, true, false, not, ◌&&◌, ◌||◌, Option, none, some, List,
  [], ◌∷◌, ◌++◌, length, get_or, ltb, leb, ◌==◌, if◌then◌else◌,
}
use container_internals_simu.Prelude.Int.{ℤ, pos, negsuc}
use container_internals_simu.Prelude.Text.{Text, codes, is_empty, copy_string}
use container_internals_simu.Prelude.Decimal.{print_nat, print_int, strtol, strtoull}
use container_internals_simu.Prelude.Scan.{to_int}
use container_internals_simu.Prelude.Hex.{print_hex, strtoull16}
use container_internals_simu.EventBus.Line.{tab, split_fields}
use container_internals_simu.Bridge.{PortMapping}
use container_internals_simu.Bridge.Pool.{bridge_mark_ip_used}
use container_internals_simu.Bridge.PortMaps.{bridge_serialize_port_maps, bridge_parse_port_maps}
use container_internals_simu.Container.{
  Container, ResourceConfig, SecurityConfig, zeroed, state_stopped, state_to_string,
  string_to_state,
}
use container_internals_simu.Lifecycle.{
  System, World, Manager, is_pid_alive, is_running, poll_states,
}
use container_internals_simu.Lifecycle.Create.{update_next_sequence}
use container_internals_simu.Prelude.FileLines.{newline, file_lines, print_all}

-- The arguments of `fprintf`, printed.
unfoldable pub fields_of : Container → List Text
fields_of c =
    c.id
    ∷ c.name
    ∷ print_int c.pid
    ∷ c.hostname
    ∷ c.rootfs
    ∷ state_to_string c.state
    ∷ c.command_line
    ∷ print_nat c.resource_limits.cpu_seconds
    ∷ print_nat c.resource_limits.memory_mb
    ∷ print_nat c.resource_limits.max_processes
    ∷ print_int c.started_at
    ∷ print_int c.stopped_at
    ∷ print_int c.exit_code
    ∷ c.log_path
    ∷ c.image_ref
    ∷ c.ip_address
    ∷ c.veth_host
    ∷ bridge_serialize_port_maps c.port_maps 128
    ∷ print_int c.security.privileged
    ∷ print_int c.security.seccomp_enabled
    ∷ print_int c.security.readonly_rootfs
    ∷ print_hex c.security.cap_keep
    ∷ []

unfoldable pub join_tabs : List Text → Text
join_tabs [] = []
join_tabs (s ∷ []) = s
join_tabs (s ∷ t ∷ fields) = s ++ tab ∷ join_tabs (t ∷ fields)

-- The line of a container.
unfoldable pub format_record : Container → Text
unfolding fields_of join_tabs
format_record c = join_tabs (fields_of c) ++ newline ∷ []

-- What `save_metadata` writes.
abbrev pub metadata_of : List Container → Text
metadata_of = print_all format_record

unfoldable pub trim_newline : Text → Text
trim_newline [] = []
trim_newline (c ∷ s) = let rest = trim_newline s in if c == 13 || c == newline then [] else c ∷ rest

abbrev pub atoi : Text → ℤ
atoi s = to_int (strtol s)

-- `(unsigned int)strtoul(s, NULL, 10)`
abbrev pub to_unsigned : Text → ℕ
to_unsigned s = strtoull s % 2 ^ 32

-- `SECURITY_CAP_DEFAULT_KEEP`
abbrev pub default_cap_keep : ℕ
default_cap_keep =
    2 ^ 0
    + 2 ^ 1
    + 2 ^ 3
    + 2 ^ 4
    + 2 ^ 5
    + 2 ^ 6
    + 2 ^ 7
    + 2 ^ 8
    + 2 ^ 10
    + 2 ^ 13
    + 2 ^ 18
    + 2 ^ 27
    + 2 ^ 29
    + 2 ^ 31

abbrev pub security_config_default : SecurityConfig
security_config_default = record {
  privileged = pos 0;
  readonly_rootfs = pos 0;
  cap_keep = default_cap_keep;
  seccomp_enabled = pos 1;
}

-- The fields that older lines lack.
abbrev pub limits_of : (ℕ → Text) → Bool → ResourceConfig
limits_of f true = record {
  cpu_seconds = to_unsigned (f 7);
  memory_mb = to_unsigned (f 8);
  max_processes = to_unsigned (f 9);
}
limits_of f false = record { cpu_seconds = 0; memory_mb = 0; max_processes = 0 }

abbrev pub security_of : (ℕ → Text) → Bool → SecurityConfig
security_of f true = record {
  privileged = atoi (f 18);
  readonly_rootfs = atoi (f 20);
  cap_keep = strtoull16 (f 21);
  seccomp_enabled = atoi (f 19);
}
security_of f false = security_config_default

abbrev pub port_maps_of : Text → List PortMapping
port_maps_of [] = []
port_maps_of (c ∷ s) = bridge_parse_port_maps (c ∷ s) 8

-- The container of a line with at least six fields.
unfoldable pub record_of : ℕ → List Text → Container
record_of addr fields =
    let index = length fields in
    let f : ℕ → Text = λ i. get_or fields i [] in
    let dated = leb 14 index in
    record (zeroed addr) {
      id = copy_string 64 (f 0);
      name = copy_string 64 (f 1);
      pid = atoi (f 2);
      hostname = copy_string 64 (f 3);
      rootfs = copy_string 512 (f 4);
      state = string_to_state (f 5);
      command_line = copy_string 256 (if leb 7 index then f 6 else codes "/bin/sh");
      resource_limits = limits_of f (leb 10 index);
      started_at = if dated then strtol (f 10) else pos 0;
      stopped_at = if dated then strtol (f 11) else pos 0;
      exit_code = if dated then atoi (f 12) else negsuc 0;
      log_path = if dated then copy_string 256 (f 13) else [];
      image_ref = if leb 15 index then copy_string 98 (f 14) else [];
      ip_address = if leb 16 index then copy_string 16 (f 15) else [];
      veth_host = if leb 17 index then copy_string 16 (f 16) else [];
      port_maps = if leb 18 index then port_maps_of (f 17) else [];
      security = security_of f (leb 22 index);
    }

-- A container whose process is gone has stopped.
abbrev pub revive : System → Container → Container
revive sys c =
    if is_running c.state && not (is_pid_alive sys c.pid)
    then record c { state = state_stopped; pid = negsuc 0 }
    else c

unfoldable pub restore_line : System → ℕ → List Text → Manager → Manager
unfolding record_of
restore_line sys addr fields m =
    let c = record_of addr fields in
    record {
      containers = m.containers ++ revive sys c ∷ [];
      next_sequence = update_next_sequence c.id m.next_sequence;
      world = record m.world { bridge = bridge_mark_ip_used c.ip_address m.world.bridge };
    }

-- The loop, with the number of restored lines; `calloc` gives each its address, and the last part
-- is whether all had memory. Without, the list is given up.
unfoldable pub restore_lines : System → (ℕ → Option ℕ) → List Text → ℕ → Manager → Manager × Bool
unfolding restore_line trim_newline
restore_lines sys calloc [] restored m = (m, true)
restore_lines sys calloc (line ∷ lines) restored m =
    let fields = split_fields 22 (trim_newline line) in
    elim (ltb (length fields) 6) [
      | true ↦ restore_lines sys calloc lines restored m
      | false ↦ elim (calloc restored) [
        | none ↦ (record m { containers = [] }, false)
        | some addr ↦ restore_lines sys calloc lines (restored + 1) (restore_line sys addr fields m)
      ]
    ]

-- The lines that `fgets` gives with a buffer of 1024 bytes.
abbrev pub metadata_lines : ℕ → Text → List Text
metadata_lines = file_lines 1023

-- The last part is whether the result is 0. A file that is not there is no error.
unfoldable pub container_manager_init :
    System → (ℕ → Option ℕ) → Option Text → Manager → Manager × Bool
unfolding restore_lines
container_manager_init sys calloc none m = (m, true)
container_manager_init sys calloc (some text) m =
    let (restored, enough) = restore_lines sys calloc (metadata_lines (length text) text) 0 m in
    if enough then (poll_states sys restored, true) else (restored, false)
