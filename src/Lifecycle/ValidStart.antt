-- ===== src/Lifecycle/ValidStart.antt =====
-- What starting keeps of a container.
use container_internals_simu.Prelude.{
  ◌≡◌, refl, sym, ◌∙◌, inl, inr, Bool, true, not, ◌&&◌, ◌||◌, Option, none, some, arith, Bool-cases,
  Option-cases,
}
use container_internals_simu.Prelude.Int.{ℤ, pos, positive}
use container_internals_simu.Prelude.Text.{Text}
use container_internals_simu.Bridge.{Bridge, Host, bridge_is_up, bridge_preflight}
use container_internals_simu.Bridge.Pool.{bridge_alloc_ip}
use container_internals_simu.Container.{Container, NetworkError}
use container_internals_simu.Lifecycle.{System, Clone, no_clone, child, World, is_running}
use container_internals_simu.Lifecycle.Start.{
  container_net_setup, prepare_start, has_ports, abort_start, publish_ports, net_attach, net_veth,
  ensure_container_log_path, run_clone, finish_start, started_or_not, start_found,
}
use container_internals_simu.Lifecycle.Valid.{
  Keeps, Keeps-refl, SameProcess, stop_container_process-Keeps,
}

net_veth-SameProcess :
    (host : Host) (pid : ℤ) (ip : Text) (b : Bridge) (c : Container)
    → SameProcess c (net_veth host pid ip b c).1
unfolding net_veth
net_veth-SameProcess host pid ip b c = ground arith

net_attach-SameProcess :
    (host : Host) (pid : ℤ) (b : Bridge) (c : Container) → SameProcess c (net_attach host pid b c).1
unfolding net_attach
net_attach-SameProcess host pid b c = elim (Option-cases (bridge_alloc_ip b).1) [
  | inl full ↦ rw (full, net_attach) (ground arith)
  | inr (ip, given) ↦
      rw (given, net_attach) (net_veth-SameProcess host pid ip (bridge_alloc_ip b).0 c)
]

container_net_setup-SameProcess :
    (host : Host) (pid : ℤ) (b : Bridge) (c : Container)
    → SameProcess c (container_net_setup host pid b c).1
unfolding container_net_setup
container_net_setup-SameProcess host pid b c =
    let r = bridge_preflight host true (has_ports c) b in
    elim (Bool-cases (bridge_is_up host b)) [
      | inr down ↦ rw down (ground arith)
      | inl up ↦ elim (Bool-cases r.1) [
        | inl allowed ↦ rw (up, allowed) (net_attach-SameProcess host pid r.0 c)
        | inr denied ↦ rw (up, denied) (ground arith)
      ]
    ]

-- The kernel gives a child a positive pid.
abbrev pub GivesPids : System → Type 0
GivesPids sys = (pid : ℤ) (ready : Bool) → sys.clone ≡ child pid ready → positive pid ≡ true

run_clone-SameProcess :
    (sys : System) (k : Clone) (w : World) (c : Container) → SameProcess c (run_clone sys k w c).1
unfolding run_clone
run_clone-SameProcess sys no_clone w c = ground arith
run_clone-SameProcess sys (child pid ready) w c =
    container_net_setup-SameProcess sys.host pid w.bridge c

abort_start-Keeps :
    (sys : System) (w : World) (c : Container) (e : NetworkError)
    → Keeps c (abort_start sys w (record c { network_error = e })).1
abort_start-Keeps sys w c e =
    let stopped = stop_container_process-Keeps sys (pos 0) w (record c { network_error = e }) in
    record {
      id = stopped.id;
      addr = stopped.addr;
      sound = λ s. stopped.sound (record { process = s.process; stack = s.stack });
    }

finish_start-Keeps :
    (sys : System) (schedule_target : Bool) (w : World) (c : Container)
    → Keeps c (finish_start sys schedule_target w c).1
unfolding finish_start
finish_start-Keeps sys schedule_target w c = elim (Bool-cases (publish_ports sys w c).1) [
  | inr unpublished ↦ rw unpublished (abort_start-Keeps sys _ c _)
  | inl published ↦ elim (Bool-cases (sys.saves && sys.exec_done)) [
    | inl done ↦ rw (published, done) (Keeps-refl c)
    | inr failed ↦ rw (published, failed) (abort_start-Keeps sys _ c c.network_error)
  ]
]

started_or_not-Keeps :
    (sys : System) (schedule_target : Bool) (w : World) (c d : Container) (started : Option ℤ)
    → d.id ≡ c.id
    → d.addr ≡ c.addr
    → d.state ≡ c.state
    → d.pid ≡ c.pid
    → d.has_stack ≡ true
    → ((pid : ℤ) → started ≡ some pid → positive pid ≡ true)
    → Keeps c (started_or_not sys schedule_target w d started).1
unfolding started_or_not
started_or_not-Keeps sys schedule_target w c d none i a s p k pids = record {
  id = i;
  addr = a;
  sound = λ v. record { process = rw (s, p) v.process; stack = λ h. cc };
}
started_or_not-Keeps sys schedule_target w c d (some pid) i a s p k pids =
    let kept = finish_start-Keeps sys schedule_target w _ in
    record {
      id = kept.id ∙ i;
      addr = kept.addr ∙ a;
      sound = λ v. kept.sound (record { process = sym (pids pid refl); stack = λ h. refl });
    }

run_clone-pid :
    (sys : System) (k : Clone) (w : World) (c : Container) (pid : ℤ)
    → (run_clone sys k w c).2 ≡ some pid
    → k ≡ child pid true
unfolding run_clone
run_clone-pid sys no_clone w c pid e = cc
run_clone-pid sys (child p ready) w c pid e = ground arith

prepare_start-same :
    (capture_logs : Bool) (c : Container)
    → ((prepare_start capture_logs c).id ≡ c.id)
      × ((prepare_start capture_logs c).addr ≡ c.addr)
      × ((prepare_start capture_logs c).state ≡ c.state)
      × ((prepare_start capture_logs c).pid ≡ c.pid)
      × ((prepare_start capture_logs c).has_stack ≡ true)
unfolding prepare_start
prepare_start-same capture_logs c = ground arith

pub start_found-Keeps :
    (sys : System) (schedule_target capture_logs : Bool) (w : World) (c : Container)
    → GivesPids sys
    → Keeps c (start_found sys schedule_target capture_logs w c).1
unfolding start_found
start_found-Keeps sys schedule_target capture_logs w c pids =
    let ready = prepare_start-same capture_logs c in
    let r = run_clone sys sys.clone w (prepare_start capture_logs c) in
    let same = run_clone-SameProcess sys sys.clone w (prepare_start capture_logs c) in
    elim (Bool-cases (is_running c.state || not sys.stack_given)) [
      | inl refused ↦ rw refused (Keeps-refl c)
      | inr tried ↦ rw tried (
          started_or_not-Keeps sys schedule_target r.0 c r.1 r.2 (same.id ∙ ready.0)
            (same.addr ∙ ready.1) (same.state ∙ ready.2) (same.pid ∙ ready.3)
            (same.has_stack ∙ ready.4)
            (λ pid e. pids pid true (run_clone-pid sys sys.clone w _ pid e)))
    ]

pub ensure_container_log_path-Keeps : (c : Container) → Keeps c (ensure_container_log_path c)
unfolding ensure_container_log_path
ensure_container_log_path-Keeps c = record {
  id = ground arith;
  addr = ground arith;
  sound = λ s. ground arith;
}
