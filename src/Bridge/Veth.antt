-- ===== src/Bridge/Veth.antt =====
-- The veth pair of a container and the rules of its published ports.
pub mod Setup
use container_internals_simu.Prelude.{
  ℕ, ◌≤◌, ◌≡◌, refl, ap, ◌∙◌, inl, inr, Bool, true, false, Option, none, some, List, [], ◌∷◌, ◌++◌,
  take, arith, ◌==◌, if◌then◌else◌, Bool-cases,
}
use container_internals_simu.Prelude.Int.{ℤ}
use container_internals_simu.Prelude.Text.{Text, codes, copy_string}
use container_internals_simu.Prelude.Decimal.{print_nat, print_int}
use mathlib.Core.List.{append_assoc}
use container_internals_simu.Bridge.{
  Bridge, Host, Command, PortMapping, no_error, is_error, bridge_name, clear_last_error, run_silent,
  ip_delete, ip_up,
}

-- The text behind the last dash, or the whole text.
unfoldable pub after_dash : Text → Text → Text
after_dash [] last = last
after_dash (c ∷ s) last = after_dash s (if c == b'-' then s else last)

abbrev pub veth_name : Text → Text → Text
veth_name prefix container_id = copy_string 16 (prefix ++ after_dash container_id container_id)

abbrev pub host_veth : Text → Text
host_veth container_id = veth_name (codes "veth") container_id

abbrev pub peer_veth : Text → Text
peer_veth container_id = veth_name (codes "csp") container_id

abbrev pub ip_add_veth : Text → Text → Command
ip_add_veth host peer =
    codes "ip"
    ∷ codes "link"
    ∷ codes "add"
    ∷ host
    ∷ codes "type"
    ∷ codes "veth"
    ∷ codes "peer"
    ∷ codes "name"
    ∷ peer
    ∷ []

abbrev pub ip_master : Text → Command
ip_master host = codes "ip" ∷ codes "link" ∷ codes "set" ∷ host ∷ codes "master" ∷ bridge_name ∷ []

abbrev pub ip_netns : Text → ℤ → Command
ip_netns peer pid =
    codes "ip"
    ∷ codes "link"
    ∷ codes "set"
    ∷ peer
    ∷ codes "netns"
    ∷ copy_string 16 (print_int pid)
    ∷ []

-- The label `fail`.
unfoldable pub drop_veth : Host → Text → Bridge → Bridge
unfolding run_silent
drop_veth host dev b = (run_silent host (ip_delete dev) (codes "veth cleanup") b).0

-- `if (run_silent(...) != 0) goto fail;`, and what follows it.
abbrev pub or_fail :
    Host
    → Text
    → Bridge × Bool
    → (Bridge → Bridge × Option (Text × Text))
    → Bridge × Option (Text × Text)
or_fail host dev (b, false) next = (drop_veth host dev b, none)
or_fail host dev (b, true) next = next b

-- The commands that follow the creation of the pair.
unfoldable pub attach_veth : Host → Text → ℤ → Bridge → Bridge × Option (Text × Text)
attach_veth host container_id container_pid b1 =
    let near = host_veth container_id in
    let far = peer_veth container_id in
    or_fail host near (run_silent host (ip_master near) (codes "bridge attach") b1) λ b2.
      or_fail host near (run_silent host (ip_up near) (codes "host veth bring-up") b2) λ b3.
        or_fail host near
          (run_silent host (ip_netns far container_pid)
            (codes "move veth peer into container netns") b3)
          λ b4. (b4, some (near, far))

-- The result is the names of both ends, or `none` for -1.
unfoldable pub bridge_setup_veth : Host → Text → ℤ → Bridge → Bridge × Option (Text × Text)
unfolding attach_veth
bridge_setup_veth host container_id container_pid b =
    let (b1, created) =
      run_silent host (ip_add_veth (host_veth container_id) (peer_veth container_id))
        (codes "veth pair creation") (clear_last_error b) in
    if created then attach_veth host container_id container_pid b1 else (b1, none)

unfoldable pub bridge_teardown_veth : Host → Text → Bridge → Bridge × Bool
unfolding run_silent
bridge_teardown_veth host dev b =
    run_silent host (ip_delete dev) (codes "veth delete") (clear_last_error b)

abbrev pub dnat : Text → PortMapping → Text → Command
dnat op pm container_ip =
    codes "iptables"
    ∷ codes "-t"
    ∷ codes "nat"
    ∷ op
    ∷ codes "PREROUTING"
    ∷ codes "-p"
    ∷ pm.proto
    ∷ codes "--dport"
    ∷ copy_string 8 (print_nat pm.host_port)
    ∷ codes "-j"
    ∷ codes "DNAT"
    ∷ codes "--to-destination"
    ∷ copy_string 32 (container_ip ++ b':' ∷ print_nat pm.container_port)
    ∷ []

unfoldable pub bridge_add_port_forward : Host → PortMapping → Text → Bridge → Bridge × Bool
unfolding run_silent
bridge_add_port_forward host pm container_ip b =
    run_silent host (dnat (codes "-A") pm container_ip) (codes "port forward install")
      (clear_last_error b)

unfoldable pub bridge_del_port_forward : Host → PortMapping → Text → Bridge → Bridge × Bool
unfolding run_silent
bridge_del_port_forward host pm container_ip b =
    run_silent host (dnat (codes "-D") pm container_ip) (codes "port forward removal")
      (clear_last_error b)
