-- ===== src/Lifecycle/Poll.antt =====
-- Polling settles the states: a second poll finds nothing new.
use container_internals_simu.Prelude.{
  ◌≡◌, refl, sym, ap, ◌∙◌, inl, inr, Bool, true, false, ◌&&◌, Option, none, some, List, [], ◌∷◌,
  arith, Bool-cases, Option-cases,
}
use container_internals_simu.Prelude.Int.{ℤ, positive, ltb_ℤ}
use container_internals_simu.Bridge.{Bridge, Host}
use container_internals_simu.Container.{Container, ContainerState, state_stopped}
use container_internals_simu.Lifecycle.{
  Wait, reaped, not_yet, no_child, interrupted, bad_wait, System, World, Manager, is_pid_alive,
  is_running, cleanup_container_network, sync_reaped, sync_lost, sync_found, sync_container_state,
  check_oom, poll_loop, poll_states,
}

-- Nothing that a poll would do is due.
abbrev oom_due : System → Container → Bool
oom_due sys c =
    is_running c.state
    && positive c.pid
    && positive (sys.oom_kills c.id)
    && ltb_ℤ c.oom_kill_count (sys.oom_kills c.id)

data IsSettled (sys : System) (c : Container) : Type 0 where
  idle : (is_running c.state && positive c.pid) ≡ false → IsSettled sys c
  busy :
      oom_due sys c ≡ false
      → ((w : World) → sync_found sys (sys.poll_wait c.pid) w c ≡ none)
      → IsSettled sys c

and_drop : (a b c d : Bool) → (a && b) ≡ false → (a && b && c && d) ≡ false
and_drop true true c d h = cc
and_drop true false c d h = refl
and_drop false b c d h = refl

and_false : (b : Bool) → (b && false) ≡ false
and_false true = refl
and_false false = refl

ltb_ℤ_irrefl : (z : ℤ) → ltb_ℤ z z ≡ false
ltb_ℤ_irrefl z = ground arith

check_oom-IsSettled :
    (sys : System) (w : World) (c : Container) → IsSettled sys c → check_oom sys w c ≡ (w, c)
unfolding check_oom
check_oom-IsSettled sys w c (idle h) =
    let oom = sys.oom_kills c.id in
    rw
      (and_drop (is_running c.state) (positive c.pid) (positive oom) (ltb_ℤ c.oom_kill_count oom) h)
      refl
check_oom-IsSettled sys w c (busy h f) = rw h refl

sync-IsSettled :
    (sys : System) (w : World) (c : Container)
    → IsSettled sys c
    → sync_container_state sys w c ≡ (w, c, false)
unfolding sync_container_state
sync-IsSettled sys w c (idle h) = rw h refl
sync-IsSettled sys w c (busy h f) = elim (Bool-cases (is_running c.state && positive c.pid)) [
  | inl on ↦ rw (on, f w) refl
  | inr off ↦ rw off refl
]

cleanup_state :
    (host : Host) (b : Bridge) (c : Container)
    → (cleanup_container_network host b c).1.state ≡ c.state
unfolding cleanup_container_network
cleanup_state host b c = ground arith

-- The state of what a poll found.
abbrev state_of : Option (World × Container) → ContainerState → ContainerState
state_of none s = s
state_of (some r) s = r.1.state

sync_found-gone :
    (sys : System) (w : World) (c : Container)
    → is_pid_alive sys c.pid ≡ false
    → sync_found sys no_child w c ≡ some (sync_lost sys w c)
unfolding sync_found
sync_found-gone sys w c gone = rw gone refl

sync_found-state :
    (sys : System) (a : Wait) (w : World) (c : Container) (r : World × Container)
    → sync_found sys a w c ≡ some r
    → r.1.state ≡ state_stopped
unfolding sync_found sync_reaped sync_lost
sync_found-state sys (reaped status) w c r e =
    ap (λ x. state_of x state_stopped) (sym e) ∙ cleanup_state sys.host w.bridge _
sync_found-state sys no_child w c r e = elim (Bool-cases (is_pid_alive sys c.pid)) [
  | inl alive ↦ cc
  | inr gone ↦
      ap (λ x. state_of x state_stopped) (sym e ∙ sync_found-gone sys w c gone)
      ∙ cleanup_state sys.host w.bridge _
]
sync_found-state sys not_yet w c r e = cc
sync_found-state sys interrupted w c r e = cc
sync_found-state sys bad_wait w c r e = cc

sync_found-none :
    (sys : System) (a : Wait) (w w' : World) (c : Container)
    → sync_found sys a w c ≡ none
    → sync_found sys a w' c ≡ none
unfolding sync_found
sync_found-none sys (reaped status) w w' c e = cc
sync_found-none sys no_child w w' c e = ground arith
sync_found-none sys not_yet w w' c e = refl
sync_found-none sys interrupted w w' c e = refl
sync_found-none sys bad_wait w w' c e = refl

check_oom-due :
    (sys : System) (w : World) (c : Container) → oom_due sys (check_oom sys w c).1 ≡ false
unfolding check_oom
check_oom-due sys w c = elim (Bool-cases (oom_due sys c)) [
  | inl due ↦ rw due (
      rw (ltb_ℤ_irrefl (sys.oom_kills c.id))
        (and_false (is_running c.state && positive c.pid && positive (sys.oom_kills c.id))))
  | inr none_due ↦ rw none_due none_due
]

sync-settles :
    (sys : System) (w : World) (c : Container)
    → oom_due sys c ≡ false
    → IsSettled sys (sync_container_state sys w c).1
unfolding sync_container_state
sync-settles sys w c due = elim (Bool-cases (is_running c.state && positive c.pid)) [
  | inr off ↦ rw off (idle off)
  | inl on ↦ elim (Option-cases (sync_found sys (sys.poll_wait c.pid) w c)) [
    | inl nothing ↦
        rw (on, nothing) (busy due (λ w'. sync_found-none sys (sys.poll_wait c.pid) w w' c nothing))
    | inr (r, found) ↦
        rw (on, found)
          (idle (ground (arith, sync_found-state sys (sys.poll_wait c.pid) w c r found)))
  ]
]

poll_loop_again :
    (sys : System) (w w' : World) (cs : List Container)
    → poll_loop sys w' (poll_loop sys w cs).1 ≡ (w', (poll_loop sys w cs).1, false)
unfolding poll_loop
poll_loop_again sys w w' [] = refl
poll_loop_again sys w w' (c ∷ cs) =
    let r = check_oom sys w c in
    let s = sync_container_state sys r.0 r.1 in
    let settled = sync-settles sys r.0 r.1 (check_oom-due sys w c) in
    rw
      (
        check_oom-IsSettled sys w' s.1 settled,
        sync-IsSettled sys w' s.1 settled,
        poll_loop_again sys s.0 w' cs,
      )
      refl

-- Polling again while the system answers the same changes nothing: no container, no event is sent
-- twice, and the file is not written. So each end of a container and each count of OOM kills is
-- told once.
pub poll_states-poll_states :
    (sys : System) (m : Manager) → poll_states sys (poll_states sys m) ≡ poll_states sys m
unfolding poll_states
poll_states-poll_states sys m = rw (poll_loop_again sys m.world _ m.containers) refl
