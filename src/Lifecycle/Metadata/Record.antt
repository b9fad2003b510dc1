-- ===== src/Lifecycle/Metadata/Record.antt =====
-- A container's line in the metadata file is read back.
use container_internals_simu.Prelude.{
  ℕ, ◌^◌, ◌≤◌, ◌<◌, ◌≡◌, refl, false, [], ◌∷◌, length, All, arith,
}
use container_internals_simu.Prelude.Int.{ℤ, pos, negsuc}
use container_internals_simu.Prelude.Text.{Text, copy_string_fits, str_eq}
use container_internals_simu.Prelude.Decimal.{
  print_nat, print_int, strtol-print_int, strtoull-print_nat, FitsLong,
}
use container_internals_simu.Prelude.Scan.{to_int}
use container_internals_simu.Prelude.Hex.{strtoull16-print_hex}
use container_internals_simu.Bridge.PortMaps.{
  IsMapping, bridge_serialize_port_maps, bridge_parse_port_maps, parse_tokens, tokens_from,
}
use container_internals_simu.Bridge.PortMaps.RoundTrip.{
  bridge_parse_port_maps-bridge_serialize_port_maps,
}
use container_internals_simu.Container.{
  Container, ContainerState, state_created, state_running, state_paused, state_stopped,
  state_to_string, string_to_state, no_network_error,
}
use container_internals_simu.Lifecycle.Metadata.{
  fields_of, atoi, to_unsigned, port_maps_of, record_of,
}

-- The values of an `int`.
abbrev pub FitsInt : ℤ → Type 0
FitsInt (pos n) = n < 2 ^ 31
FitsInt (negsuc n) = n < 2 ^ 31

atoi-print_int : (z : ℤ) → FitsInt z → atoi (print_int z) ≡ z
unfolding to_int
atoi-print_int (pos n) h = rw (strtol-print_int (pos n) (omega arith)) (ground arith)
atoi-print_int (negsuc n) h = rw (strtol-print_int (negsuc n) (omega arith)) (ground arith)

to_unsigned-print_nat : (n : ℕ) → n < 2 ^ 32 → to_unsigned (print_nat n) ≡ n
to_unsigned-print_nat n h = rw (strtoull-print_nat n (omega arith)) (omega arith)

string_to_state-state_to_string : (s : ContainerState) → string_to_state (state_to_string s) ≡ s
unfolding string_to_state state_to_string str_eq
string_to_state-state_to_string state_created = refl
string_to_state-state_to_string state_running = refl
string_to_state-state_to_string state_paused = refl
string_to_state-state_to_string state_stopped = refl

port_maps_of_lem : (s : Text) → port_maps_of s ≡ bridge_parse_port_maps s 8
unfolding bridge_parse_port_maps parse_tokens tokens_from
port_maps_of_lem [] = refl
port_maps_of_lem (c ∷ s) = refl

-- A container whose texts and numbers fit the fields of the structure.
pub record Fits (c : Container) : Type 0 where
  pub id : length c.id < 64
  pub name : length c.name < 64
  pub pid : FitsInt c.pid
  pub hostname : length c.hostname < 64
  pub rootfs : length c.rootfs < 512
  pub command_line : length c.command_line < 256
  pub log_path : length c.log_path < 256
  pub image_ref : length c.image_ref < 98
  pub cpu_seconds : c.resource_limits.cpu_seconds < 2 ^ 32
  pub memory_mb : c.resource_limits.memory_mb < 2 ^ 32
  pub max_processes : c.resource_limits.max_processes < 2 ^ 32
  pub ip_address : length c.ip_address < 16
  pub veth_host : length c.veth_host < 16
  pub port_maps : All IsMapping c.port_maps
  pub few_port_maps : length c.port_maps ≤ 8
  pub privileged : FitsInt c.security.privileged
  pub seccomp_enabled : FitsInt c.security.seccomp_enabled
  pub readonly_rootfs : FitsInt c.security.readonly_rootfs
  pub cap_keep : c.security.cap_keep < 2 ^ 64
  pub started_at : FitsLong c.started_at
  pub stopped_at : FitsLong c.stopped_at
  pub exit_code : FitsInt c.exit_code

-- The container without what is not kept in the file, at another address.
abbrev pub kept_at : ℕ → Container → Container
kept_at addr c = record c {
  addr = addr;
  network_error = no_network_error;
  oom_kill_count = pos 0;
  has_stack = false;
}

pub record_of-fields_of :
    (addr : ℕ) (c : Container) → Fits c → record_of addr (fields_of c) ≡ kept_at addr c
unfolding record_of fields_of
record_of-fields_of addr c h =
    rw
      (
        copy_string_fits 64 c.id h.id,
        copy_string_fits 64 c.name h.name,
        atoi-print_int c.pid h.pid,
        copy_string_fits 64 c.hostname h.hostname,
        copy_string_fits 512 c.rootfs h.rootfs,
        string_to_state-state_to_string c.state,
        copy_string_fits 256 c.command_line h.command_line,
        to_unsigned-print_nat c.resource_limits.cpu_seconds h.cpu_seconds,
        to_unsigned-print_nat c.resource_limits.memory_mb h.memory_mb,
        to_unsigned-print_nat c.resource_limits.max_processes h.max_processes,
      )
      (rw
        (
          strtol-print_int c.started_at h.started_at,
          strtol-print_int c.stopped_at h.stopped_at,
          atoi-print_int c.exit_code h.exit_code,
          copy_string_fits 256 c.log_path h.log_path,
          copy_string_fits 98 c.image_ref h.image_ref,
          copy_string_fits 16 c.ip_address h.ip_address,
          copy_string_fits 16 c.veth_host h.veth_host,
          port_maps_of_lem (bridge_serialize_port_maps c.port_maps 128),
          bridge_parse_port_maps-bridge_serialize_port_maps c.port_maps h.port_maps h.few_port_maps,
          atoi-print_int c.security.privileged h.privileged,
          atoi-print_int c.security.readonly_rootfs h.readonly_rootfs,
          atoi-print_int c.security.seccomp_enabled h.seccomp_enabled,
          strtoull16-print_hex c.security.cap_keep h.cap_keep,
        )
        refl)
