-- ===== src/Bridge/Tests.antt =====
-- Addresses, veth pairs and published ports at concrete states, and the theorems at them.
use container_internals_simu.Prelude.{
  ℕ, ◌≤◌, ◌<◌, ◌≡◌, ◌≢◌, refl, sym, ap, ◌∙◌, ◌⊎◌, true, false, none, some, List, [], ◌∷◌, All,
  arith, length, leb, if◌then◌else◌,
}
use container_internals_simu.Prelude.Int.{pos, pos_part}
use container_internals_simu.Prelude.Text.{codes}
use container_internals_simu.Prelude.Scan.{scan_int, strip_prefix}
use container_internals_simu.Bridge.{
  PortMapping, Host, bad_exit, exited, initial_bridge, bridge_init, add_bridge, run_silent,
  outcome_error, keep_error, bridge_preflight, preflight_error, not_root,
}
use container_internals_simu.Bridge.Pool.{
  PoolCall, IsCountable, scan_ip, mark, alloc, run_pool, bridge_alloc_ip, address,
  bridge_alloc_ip-run_pool,
}
use container_internals_simu.Bridge.Veth.Setup.{VethResult, bridge_setup_veth-VethResult}
use container_internals_simu.Bridge.Veth.{bridge_setup_veth, attach_veth, drop_veth, after_dash}
use container_internals_simu.Bridge.PortMaps.{
  IsMapping, bridge_serialize_port_maps, bridge_parse_port_maps,
}
use container_internals_simu.Bridge.PortMaps.RoundTrip.{
  bridge_parse_port_maps-bridge_serialize_port_maps,
}

-- The second command and all later ones fail.
abbrev failing : Host
failing = record {
  doctor = λ commands. record {
    is_root = true;
    ip_cmd = true;
    iptables_cmd = true;
    bridge_up = false;
    ip_forward = pos 1;
  };
  run = λ commands argv. if leb 1 (length commands) then exited 2 else exited 0;
}

abbrev user : Host
user = record {
  doctor = λ commands. record {
    is_root = false;
    ip_cmd = true;
    iptables_cmd = true;
    bridge_up = false;
    ip_forward = pos 0;
  };
  run = λ commands argv. exited 0;
}

user_refused : (bridge_init user initial_bridge).0.last_error ≡ not_root
unfolding bridge_init bridge_preflight preflight_error initial_bridge add_bridge run_silent
    outcome_error keep_error
user_refused = refl

attach_error :
    (bridge_setup_veth failing (codes "container-0003") (pos 7) initial_bridge).0.last_error
    ≡ bad_exit
        (codes "veth cleanup")
        (codes "ip" ∷ codes "link" ∷ codes "delete" ∷ codes "veth0003" ∷ [])
        2
unfolding bridge_setup_veth attach_veth run_silent outcome_error keep_error initial_bridge drop_veth
    after_dash
attach_error = refl

bridge_setup_veth-VethResult_example :
    VethResult failing
      (codes "container-0003")
      (pos 7)
      initial_bridge.commands
      (bridge_setup_veth failing (codes "container-0003") (pos 7) initial_bridge)
bridge_setup_veth-VethResult_example =
    bridge_setup_veth-VethResult failing (codes "container-0003") (pos 7) initial_bridge

-- An address from the metadata file, then a new one.
abbrev pool_calls : List PoolCall
pool_calls = mark (codes "172.17.0.9") ∷ alloc ∷ []

scanned : scan_ip (codes "172.17.0.9") ≡ some (pos 9)
unfolding scan_ip strip_prefix scan_int
scanned = refl

countable : IsCountable (codes "172.17.0.9")
countable n e =
    let same : some (pos 9) ≡ some (pos n) = sym scanned ∙ e in
    let nine : pos 9 ≡ pos n = cc in omega (arith, ap pos_part nine)

bridge_alloc_ip-run_pool_example :
    (((bridge_alloc_ip (run_pool pool_calls initial_bridge).0).1 ≡ none)
      × (254 < (run_pool pool_calls initial_bridge).0.next_ip_host))
    ⊎ ((n : ℕ) × (2 ≤ n)
        × (n ≤ 254)
        × ((bridge_alloc_ip (run_pool pool_calls initial_bridge).0).1 ≡ some (address n))
        × All (λ ip. ip ≢ address n) (run_pool pool_calls initial_bridge).1)
bridge_alloc_ip-run_pool_example = bridge_alloc_ip-run_pool pool_calls (countable, tt)

abbrev web : PortMapping
web = record { host_port = 8080; container_port = 80; proto = codes "tcp" }

abbrev dns : PortMapping
dns = record { host_port = 53; container_port = 53; proto = codes "udp" }

web-IsMapping : IsMapping web
web-IsMapping = record {
  host_pos = omega arith;
  host_le = omega arith;
  container_pos = omega arith;
  container_le = omega arith;
  proto_pos = omega arith;
  proto_le = omega arith;
  proto_bytes = ((refl, refl), ((refl, refl), ((refl, refl), tt)));
}

dns-IsMapping : IsMapping dns
dns-IsMapping = record {
  host_pos = omega arith;
  host_le = omega arith;
  container_pos = omega arith;
  container_le = omega arith;
  proto_pos = omega arith;
  proto_le = omega arith;
  proto_bytes = ((refl, refl), ((refl, refl), ((refl, refl), tt)));
}

bridge_parse_port_maps-bridge_serialize_port_maps_example :
    bridge_parse_port_maps (bridge_serialize_port_maps (web ∷ dns ∷ []) 128) 8 ≡ web ∷ dns ∷ []
bridge_parse_port_maps-bridge_serialize_port_maps_example =
    bridge_parse_port_maps-bridge_serialize_port_maps (web ∷ dns ∷ [])
      (web-IsMapping, (dns-IsMapping, tt)) (omega arith)
