-- ===== src/Lifecycle/Valid.antt =====
-- What polling, stopping and pausing keep of a container.
use container_internals_simu.Prelude.{
  ◌≡◌, refl, ◌∙◌, inl, inr, true, false, ◌&&◌, Option, none, some, [], arith, Bool-cases,
}
use container_internals_simu.Prelude.Int.{ℤ, negsuc, positive}
use container_internals_simu.Bridge.{Bridge, Host}
use container_internals_simu.Container.{Container, state_stopped, is_live}
use container_internals_simu.Lifecycle.{
  WaitStatus, Wait, reaped, not_yet, no_child, interrupted, bad_wait, System, World,
  cleanup_container_network, sync_reaped, sync_lost, sync_found, sync_container_state, sync_result,
  act, cleaned_cgroup, removed_target, check_oom, is_running, is_pid_alive,
}
use container_internals_simu.Lifecycle.Stop.{
  finish_stop_process, conclude_stop, stop_container_process, conclude_wait,
  wait_for_container_process,
}
use container_internals_simu.Lifecycle.Commands.{pause_found, unpause_found}

-- A container runs or is paused exactly if it has a process, and only then it has a stack.
pub record IsSound (c : Container) : Type 0 where
  pub process : is_live c.state ≡ positive c.pid
  pub stack : c.has_stack ≡ true → is_live c.state ≡ true

-- The container `c'` is `c` at a later time.
pub record Keeps (c c' : Container) : Type 0 where
  pub id : c'.id ≡ c.id
  pub addr : c'.addr ≡ c.addr
  pub sound : IsSound c → IsSound c'

pub Keeps-refl : (c : Container) → Keeps c c
Keeps-refl c = record { id = refl; addr = refl; sound = λ s. s }

-- What the clean-up of the network leaves alone.
pub record SameProcess (c c' : Container) : Type 0 where
  pub id : c'.id ≡ c.id
  pub addr : c'.addr ≡ c.addr
  pub state : c'.state ≡ c.state
  pub pid : c'.pid ≡ c.pid
  pub has_stack : c'.has_stack ≡ c.has_stack

cleanup-SameProcess :
    (host : Host) (b : Bridge) (c : Container)
    → SameProcess c (cleanup_container_network host b c).1
unfolding cleanup_container_network
cleanup-SameProcess host b c = ground arith

pub cleanup-Keeps :
    (host : Host) (b : Bridge) (c : Container) → Keeps c (cleanup_container_network host b c).1
cleanup-Keeps host b c =
    let same = cleanup-SameProcess host b c in
    record {
      id = same.id;
      addr = same.addr;
      sound = λ s. record {
        process = rw (same.state, same.pid) s.process;
        stack = rw (same.state, same.has_stack) s.stack;
      };
    }

pub cleanup_id :
    (host : Host) (b : Bridge) (c : Container) → (cleanup_container_network host b c).1.id ≡ c.id
cleanup_id host b c = (cleanup-SameProcess host b c).id

-- No host interface is left.
pub cleanup_veth :
    (host : Host) (b : Bridge) (c : Container)
    → (cleanup_container_network host b c).1.veth_host ≡ []
unfolding cleanup_container_network
cleanup_veth host b c = ground arith

-- A stopped container without a process.
record IsEnded (c : Container) : Type 0 where
  state : c.state ≡ state_stopped
  pid : c.pid ≡ negsuc 0
  has_stack : c.has_stack ≡ false

IsEnded-IsSound : (c : Container) → IsEnded c → IsSound c
IsEnded-IsSound c e = record { process = rw (e.state, e.pid) refl; stack = λ h. cc }

module _ (host : Host) (b : Bridge) where
  cleanup_ended :
      (c d : Container)
      → d.id ≡ c.id
      → d.addr ≡ c.addr
      → IsEnded d
      → Keeps c (cleanup_container_network host b d).1
  cleanup_ended c d i a e =
      let same = cleanup-SameProcess host b d in
      record {
        id = same.id ∙ i;
        addr = same.addr ∙ a;
        sound = λ s. IsEnded-IsSound _ (record {
          state = same.state ∙ e.state;
          pid = same.pid ∙ e.pid;
          has_stack = same.has_stack ∙ e.has_stack;
        });
      }

sync_reaped-Keeps :
    (sys : System) (status : WaitStatus) (w : World) (c : Container)
    → Keeps c (sync_reaped sys status w c).1
unfolding sync_reaped
sync_reaped-Keeps sys status w c =
    cleanup_ended sys.host _ c _ refl refl (record { state = refl; pid = refl; has_stack = refl })

sync_lost-Keeps : (sys : System) (w : World) (c : Container) → Keeps c (sync_lost sys w c).1
unfolding sync_lost
sync_lost-Keeps sys w c =
    cleanup_ended sys.host _ c _ refl refl (record { state = refl; pid = refl; has_stack = refl })

-- What `sync_container_state` makes of the answer.
sync_found-Keeps :
    (sys : System) (a : Wait) (w : World) (c : Container)
    → Keeps c (sync_result w c (sync_found sys a w c)).1
unfolding sync_found
sync_found-Keeps sys (reaped status) w c = sync_reaped-Keeps sys status w c
sync_found-Keeps sys no_child w c = elim (Bool-cases (is_pid_alive sys c.pid)) [
  | inl alive ↦ rw alive (Keeps-refl c)
  | inr gone ↦ rw gone (sync_lost-Keeps sys w c)
]
sync_found-Keeps sys not_yet w c = Keeps-refl c
sync_found-Keeps sys interrupted w c = Keeps-refl c
sync_found-Keeps sys bad_wait w c = Keeps-refl c

pub sync_container_state-Keeps :
    (sys : System) (w : World) (c : Container) → Keeps c (sync_container_state sys w c).1
unfolding sync_container_state
sync_container_state-Keeps sys w c = elim (Bool-cases (is_running c.state && positive c.pid)) [
  | inr idle ↦ rw idle (Keeps-refl c)
  | inl busy ↦ rw busy (sync_found-Keeps sys (sys.poll_wait c.pid) w c)
]

pub check_oom-Keeps : (sys : System) (w : World) (c : Container) → Keeps c (check_oom sys w c).1
unfolding check_oom
check_oom-Keeps sys w c = record {
  id = ground arith;
  addr = ground arith;
  sound = λ s. ground arith;
}

finish_stop_process-Keeps :
    (sys : System) (status : WaitStatus) (w : World) (c : Container)
    → Keeps c (finish_stop_process sys status w c).1
unfolding finish_stop_process
finish_stop_process-Keeps sys status w c =
    let w' = act (cleaned_cgroup c.id) (act (removed_target c.pid) w) in
    let same = cleanup-SameProcess sys.host w'.bridge c in
    record {
      id = same.id;
      addr = same.addr;
      sound = λ s. IsEnded-IsSound _ (record { state = refl; pid = refl; has_stack = refl });
    }

conclude_stop-Keeps :
    (sys : System) (w : World) (c : Container) (ended : Option WaitStatus)
    → Keeps c (conclude_stop sys w c ended).1
unfolding conclude_stop
conclude_stop-Keeps sys w c none = Keeps-refl c
conclude_stop-Keeps sys w c (some status) = finish_stop_process-Keeps sys status w c

pub stop_container_process-Keeps :
    (sys : System) (timeout_s : ℤ) (w : World) (c : Container)
    → Keeps c (stop_container_process sys timeout_s w c).1
unfolding stop_container_process
stop_container_process-Keeps sys timeout_s w c =
    elim (Bool-cases (is_live c.state && positive c.pid)) [
      | inr idle ↦ rw idle (Keeps-refl c)
      | inl busy ↦ rw busy (conclude_stop-Keeps sys _ c _)
    ]

conclude_wait-Keeps :
    (sys : System) (w : World) (c : Container) (ended : Option WaitStatus)
    → Keeps c (conclude_wait sys w c ended).1
unfolding conclude_wait
conclude_wait-Keeps sys w c none = Keeps-refl c
conclude_wait-Keeps sys w c (some status) =
    cleanup_ended sys.host _ c _ refl refl (record { state = refl; pid = refl; has_stack = refl })

pub wait_for_container_process-Keeps :
    (sys : System) (w : World) (c : Container) → Keeps c (wait_for_container_process sys w c).1
unfolding wait_for_container_process
wait_for_container_process-Keeps sys w c =
    elim (Bool-cases (is_running c.state && positive c.pid)) [
      | inr idle ↦ rw idle (Keeps-refl c)
      | inl busy ↦ rw busy (conclude_wait-Keeps sys w c _)
    ]

pub pause_found-Keeps : (sys : System) (w : World) (c : Container) → Keeps c (pause_found sys w c).1
unfolding pause_found
pause_found-Keeps sys w c = ground arith

pub unpause_found-Keeps :
    (sys : System) (w : World) (c : Container) → Keeps c (unpause_found sys w c).1
unfolding unpause_found
unpause_found-Keeps sys w c = ground arith
