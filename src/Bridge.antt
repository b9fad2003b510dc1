-- ===== src/Bridge.antt =====
-- src/bridge.c: the commands that it runs, the pool of addresses, the veth pairs and the rules of
-- published ports. `g_last_error` is kept as data; its texts are left to the values in them.
pub mod Pool
pub mod Veth
pub mod PortMaps
mod Tests
use container_internals_simu.Prelude.{
  ℕ, zero, suc, ◌+◌, Bool, true, false, not, ◌&&◌, ◌||◌, Option, none, some, List, [], ◌∷◌, ◌++◌,
  ltb, leb, ◌==◌, if◌then◌else◌,
}
use container_internals_simu.Prelude.Int.{ℤ, pos, eq_ℤ}
use container_internals_simu.Prelude.Text.{Text, codes, is_empty, copy_string}
use container_internals_simu.Prelude.Decimal.{print_nat, print_int}
use container_internals_simu.Prelude.Scan.{scan_int, strip_prefix}

-- `struct PortMapping`; the ports have 16 bits, and the protocol at most three bytes.
pub record PortMapping : Type 0 where
  pub host_port : ℕ
  pub container_port : ℕ
  pub proto : Text

abbrev pub Command : Type 0
Command = List Text

-- How a child that runs a command ends.
pub data Outcome : Type 0 where
  fork_failed wait_failed : Outcome
  exited signalled : ℕ → Outcome

-- What `g_last_error` says.
pub data LastError : Type 0 where
  no_error missing_ip not_root missing_iptables bridge_down no_forwarding pool_exhausted : LastError
  not_forked not_waited : Text → LastError
  not_found : Text → Command → LastError
  bad_exit killed : Text → Command → ℕ → LastError

-- `BridgeDoctor`
pub record BridgeDoctor : Type 0 where
  pub is_root : Bool
  pub ip_cmd : Bool
  pub iptables_cmd : Bool
  pub bridge_up : Bool
  pub ip_forward : ℤ

-- What the system answers after the commands run so far.
pub record Host : Type 0 where
  pub doctor : List Command → BridgeDoctor
  pub run : List Command → Command → Outcome

-- The state of the module, and the commands run so far, oldest first.
pub record Bridge : Type 0 where
  -- an `int`, as its 32 bits
  pub next_ip_host : ℕ
  pub last_error : LastError
  pub commands : List Command

unfoldable pub initial_bridge : Bridge
initial_bridge = record { next_ip_host = 2; last_error = no_error; commands = [] }

abbrev pub clear_last_error : Bridge → Bridge
clear_last_error b = record b { last_error = no_error }

abbrev pub bridge_is_up : Host → Bridge → Bool
bridge_is_up host b = (host.doctor b.commands).bridge_up

-- The first check that fails.
preflight_error : Bool → Bool → BridgeDoctor → LastError
preflight_error require_bridge_up require_iptables doctor =
    if not doctor.ip_cmd
    then missing_ip
    else if not doctor.is_root
    then not_root
    else if require_iptables && not doctor.iptables_cmd
    then missing_iptables
    else if require_bridge_up && not doctor.bridge_up
    then bridge_down
    else if require_iptables && eq_ℤ doctor.ip_forward (pos 0)
    then no_forwarding
    else no_error

abbrev pub is_error : LastError → Bool
is_error no_error = false
is_error _ = true

-- The result is whether it gives 0.
unfoldable pub bridge_preflight : Host → Bool → Bool → Bridge → Bridge × Bool
unfolding preflight_error
bridge_preflight host require_bridge_up require_iptables b =
    let found = preflight_error require_bridge_up require_iptables (host.doctor b.commands) in
    (record b { last_error = found }, not (is_error found))

-- What `run_silent` reports of a child.
outcome_error : Text → Command → Outcome → LastError
outcome_error step argv fork_failed = not_forked step
outcome_error step argv wait_failed = not_waited step
outcome_error step argv (exited n) =
    if n == 0 then no_error else if n == 127 then not_found step argv else bad_exit step argv n
outcome_error step argv (signalled n) = killed step argv n

-- A success leaves the last error as it is.
keep_error : LastError → LastError → LastError
keep_error no_error old = old
keep_error new old = new

unfoldable pub run_silent : Host → Command → Text → Bridge → Bridge × Bool
unfolding outcome_error keep_error
run_silent host argv step b =
    let found = outcome_error step argv (host.run b.commands argv) in
    (
      record b { last_error = keep_error found b.last_error; commands = b.commands ++ argv ∷ [] },
      not (is_error found),
    )

abbrev pub bridge_name : Text
bridge_name = codes "csbr0"

abbrev pub ip_delete : Text → Command
ip_delete dev = codes "ip" ∷ codes "link" ∷ codes "delete" ∷ dev ∷ []

abbrev pub masquerade : Text → Command
masquerade op =
    codes "iptables"
    ∷ codes "-t"
    ∷ codes "nat"
    ∷ op
    ∷ codes "POSTROUTING"
    ∷ codes "-s"
    ∷ codes "172.17.0.0/16"
    ∷ codes "!"
    ∷ codes "-o"
    ∷ bridge_name
    ∷ codes "-j"
    ∷ codes "MASQUERADE"
    ∷ []

unfoldable pub bridge_teardown : Host → Bridge → Bridge × Bool
unfolding run_silent
bridge_teardown host b =
    let b0 = clear_last_error b in
    if not (bridge_is_up host b0)
    then (b0, true)
    else let b1 =
        (run_silent host (masquerade (codes "-D")) (codes "bridge masquerade cleanup") b0).0 in
      run_silent host (ip_delete bridge_name) (codes "bridge delete") b1

abbrev pub ip_add_bridge : Command
ip_add_bridge =
    codes "ip" ∷ codes "link" ∷ codes "add" ∷ bridge_name ∷ codes "type" ∷ codes "bridge" ∷ []

abbrev pub ip_addr_add : Command
ip_addr_add =
    codes "ip" ∷ codes "addr" ∷ codes "add" ∷ codes "172.17.0.1/16" ∷ codes "dev" ∷ bridge_name ∷ []

abbrev pub ip_up : Text → Command
ip_up dev = codes "ip" ∷ codes "link" ∷ codes "set" ∷ dev ∷ codes "up" ∷ []

-- The steps behind the checks. The result of the masquerade rule is not looked at.
add_bridge : Host → Bridge → Bridge × Bool
unfolding run_silent bridge_teardown
add_bridge host b =
    let (b1, created) = run_silent host ip_add_bridge (codes "bridge create") b in
    let (b2, addressed) = run_silent host ip_addr_add (codes "bridge address assignment") b1 in
    let (b3, up) = run_silent host (ip_up bridge_name) (codes "bridge bring-up") b2 in
    if not created
    then (b1, false)
    else if not addressed
    then ((bridge_teardown host b2).0, false)
    else if not up
    then ((bridge_teardown host b3).0, false)
    else ((run_silent host (masquerade (codes "-A")) (codes "bridge masquerade rule") b3).0, true)

unfoldable pub bridge_init : Host → Bridge → Bridge × Bool
unfolding add_bridge bridge_preflight
bridge_init host b =
    let b0 = clear_last_error b in
    let (b1, allowed) = bridge_preflight host false false b0 in
    if bridge_is_up host b0 then (b0, true) else if allowed then add_bridge host b1 else (b1, false)
