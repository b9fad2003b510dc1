-- ===== src/Lifecycle/Stopped/Result.antt =====
-- What comes of `stop_container_process`.
use mathlib.Core.List.{append_assoc}
use container_internals_simu.Prelude.{
  ℕ, ◌<◌, ◌≤◌, ◌≡◌, ◌≢◌, refl, sym, ap, ◌+◌, ◌∙◌, inl, inr, ◌⊎◌, Bool, true, false, ◌&&◌, Option,
  none, some, List, [], ◌∷◌, ◌++◌, replicate, if◌then◌else◌, Bool-cases,
}
use container_internals_simu.Prelude.Int.{ℤ, pos, negsuc, pos_part, positive}
use container_internals_simu.Prelude.Text.{codes}
use container_internals_simu.EventBus.Types.{container_stopped}
use container_internals_simu.Container.{
  Container, ContainerState, state_created, state_running, state_paused, state_stopped, is_live,
}
use container_internals_simu.Lifecycle.{
  WaitStatus, exited, signalled, Wait, reaped, not_yet, no_child, interrupted, bad_wait, sigterm,
  sigkill, sigcont, Kill, delivered, no_process, refused, System, Effect, killed, emitted,
  removed_target, cleaned_cgroup, slept, saved, World, act,
}
use container_internals_simu.Lifecycle.Valid.{cleanup_id, cleanup_veth}
use container_internals_simu.Lifecycle.Stop.{
  is_paused, last_status, stop_gently, stop_hard, stop_code, finish_stop_process, stop_child,
  or_hard, conclude_stop, stop_container_process,
}
use container_internals_simu.Lifecycle.Stopped.{AllWaiting}
use container_internals_simu.Lifecycle.Stopped.Grace.{
  limit, IsUnreaped, Gently, gone, there, stop_gently-Gently,
}

-- A paused container is resumed first.
abbrev pub resuming : ContainerState → ℤ → List Effect
resuming state_created pid = []
resuming state_running pid = []
resuming state_paused pid = killed pid sigcont ∷ []
resuming state_stopped pid = []

resuming-is_paused :
    (s : ContainerState) (pid : ℤ)
    → resuming s pid ≡ (if is_paused s then killed pid sigcont ∷ [] else [])
resuming-is_paused state_created pid = refl
resuming-is_paused state_running pid = refl
resuming-is_paused state_paused pid = refl
resuming-is_paused state_stopped pid = refl

-- The exit code of a child: its own, or 128 and the signal that ended it.
abbrev pub code_of : WaitStatus → ℤ
code_of (exited n) = pos n
code_of (signalled n) = pos (128 + n)

stop_code-code_of : (status : WaitStatus) → stop_code status ≡ code_of status
stop_code-code_of (exited n) = refl
stop_code-code_of (signalled n) = refl

-- The status that the last wait leaves; that of a child that is gone is 0.
abbrev pub final_status : Wait → Option WaitStatus
final_status (reaped status) = some status
final_status not_yet = none
final_status no_child = some (exited 0)
final_status interrupted = none
final_status bad_wait = none

last_status-final_status : (answer : Wait) → last_status answer ≡ final_status answer
unfolding last_status
last_status-final_status (reaped status) = refl
last_status-final_status not_yet = refl
last_status-final_status no_child = refl
last_status-final_status interrupted = refl
last_status-final_status bad_wait = refl

-- The signals that come first, and the calls at the end of a stop.
abbrev pub opening : Container → List Effect
opening c = resuming c.state c.pid ++ killed c.pid sigterm ∷ []

abbrev closing_with : Container → ℤ → List Effect
closing_with c code =
    removed_target c.pid
    ∷ cleaned_cgroup c.id
    ∷ emitted container_stopped c.id (codes "killed") code
    ∷ saved
    ∷ []

abbrev pub closing : Container → WaitStatus → List Effect
closing c status = closing_with c (code_of status)

-- The container once it has been stopped.
pub record HasStopped (sys : System) (status : WaitStatus) (c c' : Container) : Type 0 where
  pub id : c'.id ≡ c.id
  pub state : c'.state ≡ state_stopped
  pub pid : c'.pid ≡ negsuc 0
  pub has_stack : c'.has_stack ≡ false
  pub exit_code : c'.exit_code ≡ code_of status
  pub stopped_at : c'.stopped_at ≡ sys.now
  pub no_veth : c'.veth_host ≡ []

finish_stop_process-HasStopped :
    (sys : System) (status : WaitStatus) (w : World) (c : Container)
    → HasStopped sys status c (finish_stop_process sys status w c).1
unfolding finish_stop_process
finish_stop_process-HasStopped sys status w c = record {
  id = cleanup_id sys.host w.bridge c;
  state = refl;
  pid = refl;
  has_stack = refl;
  exit_code = stop_code-code_of status;
  stopped_at = refl;
  no_veth = cleanup_veth sys.host w.bridge c;
}

finish_stop_process-actions :
    (sys : System) (status : WaitStatus) (w : World) (c : Container)
    → (finish_stop_process sys status w c).0.actions ≡ w.actions ++ closing c status
unfolding finish_stop_process
finish_stop_process-actions sys status w c = rw (← stop_code-code_of status) (simp append_assoc)

-- What comes of stopping a container that is live.
pub data StopResult (sys : System) (timeout_s : ℤ) (w : World) (c : Container)
    : World × Container × Bool → Type 0 where
  gentle :
      (k : ℕ) (status : WaitStatus) (w' : World) (c' : Container)
      → sys.kill c.pid sigterm ≡ delivered
      → k < limit timeout_s
      → AllWaiting (sys.tick_wait c.pid) k
      → sys.tick_wait c.pid k ≡ reaped status
      → w'.actions ≡ w.actions ++ (opening c ++ (replicate k slept ++ closing c status))
      → HasStopped sys status c c'
      → StopResult sys timeout_s w c (w', c', true)
  hard :
      (k : ℕ) (status : WaitStatus) (w' : World) (c' : Container)
      → IsUnreaped sys timeout_s c.pid k
      → sys.kill c.pid sigkill ≢ refused
      → final_status (sys.last_wait c.pid) ≡ some status
      → w'.actions
        ≡ w.actions ++ (opening c ++ (replicate k slept ++ killed c.pid sigkill ∷ closing c status))
      → HasStopped sys status c c'
      → StopResult sys timeout_s w c (w', c', true)
  failed :
      (k : ℕ) (w' : World)
      → IsUnreaped sys timeout_s c.pid k
      → (sys.kill c.pid sigkill ≡ refused) ⊎ (final_status (sys.last_wait c.pid) ≡ none)
      → w'.actions ≡ w.actions ++ (opening c ++ (replicate k slept ++ killed c.pid sigkill ∷ []))
      → StopResult sys timeout_s w c (w', c, false)

-- The outcome of SIGKILL.
data Hardly (sys : System) (pid : ℤ) (w : World) : World × Option WaitStatus → Type 0 where
  reaped_at_last :
      (status : WaitStatus) (w' : World)
      → sys.kill pid sigkill ≢ refused
      → final_status (sys.last_wait pid) ≡ some status
      → w'.actions ≡ w.actions ++ killed pid sigkill ∷ []
      → Hardly sys pid w (w', some status)
  not_reaped :
      (w' : World)
      → (sys.kill pid sigkill ≡ refused) ⊎ (final_status (sys.last_wait pid) ≡ none)
      → w'.actions ≡ w.actions ++ killed pid sigkill ∷ []
      → Hardly sys pid w (w', none)

stop_hard-Hardly : (sys : System) (pid : ℤ) (w : World) → Hardly sys pid w (stop_hard sys pid w)
unfolding stop_hard
stop_hard-Hardly sys pid w = by_result (sys.kill pid sigkill) refl
  where
    by_last :
        (o : Option WaitStatus)
        → last_status (sys.last_wait pid) ≡ o
        → sys.kill pid sigkill ≢ refused
        → Hardly sys pid w (act (killed pid sigkill) w, last_status (sys.last_wait pid))
    by_last none e h =
        let final = sym (last_status-final_status (sys.last_wait pid)) ∙ e in
        rw e (not_reaped _ (inr final) refl)
    by_last (some status) e h =
        let final = sym (last_status-final_status (sys.last_wait pid)) ∙ e in
        rw e (reaped_at_last status _ h final refl)

    by_result : (a : Kill) → sys.kill pid sigkill ≡ a → Hardly sys pid w (stop_hard sys pid w)
    by_result delivered e = rw (e, stop_hard) (by_last _ refl (λ h. cc))
    by_result no_process e = rw (e, stop_hard) (by_last _ refl (λ h. cc))
    by_result refused e = rw (e, stop_hard) (not_reaped _ (inl e) refl)

-- The world once a paused container has been resumed.
abbrev resumed : System → World → Container → World
resumed sys w c = if is_paused c.state then act (killed c.pid sigcont) w else w

module _ (sys : System) (timeout_s : ℤ) (w : World) (c : Container) where
  from_opening :
      (k : ℕ) (a more : List Effect)
      → a ≡ (resumed sys w c).actions ++ killed c.pid sigterm ∷ replicate k slept
      → a ++ more ≡ w.actions ++ (opening c ++ (replicate k slept ++ more))
  from_opening k a more e = elim (Bool-cases (is_paused c.state)) [
    | inl paused ↦ rw (e, resuming-is_paused c.state c.pid, paused) (simp append_assoc)
    | inr other ↦ rw (e, resuming-is_paused c.state c.pid, other) (simp append_assoc)
  ]

  by_hard :
      (k : ℕ) (w1 : World) (r : World × Option WaitStatus)
      → IsUnreaped sys timeout_s c.pid k
      → w1.actions ≡ (resumed sys w c).actions ++ killed c.pid sigterm ∷ replicate k slept
      → Hardly sys c.pid w1 r
      → StopResult sys timeout_s w c (conclude_stop sys r.0 c r.1)
  unfolding conclude_stop
  by_hard k w1 r u a (reaped_at_last status w' h e b) =
      hard k status _ _ u h e
        (finish_stop_process-actions sys status w' c
          ∙ ap (λ (l : List Effect). l ++ closing c status) b
          ∙ append_assoc w1.actions (killed c.pid sigkill ∷ []) (closing c status)
          ∙ from_opening k w1.actions (killed c.pid sigkill ∷ closing c status) a)
        (finish_stop_process-HasStopped sys status w' c)
  by_hard k w1 r u a (not_reaped w' why b) =
      failed k w' u why (b ∙ from_opening k w1.actions (killed c.pid sigkill ∷ []) a)

  by_gentle :
      (r : World × Option WaitStatus)
      → Gently sys timeout_s c.pid (resumed sys w c) r
      → StopResult sys timeout_s w c
          (conclude_stop sys (or_hard sys c.pid r).0 c (or_hard sys c.pid r).1)
  unfolding conclude_stop
  by_gentle r (gone k status w1 e lt waits got a) =
      gentle k status _ _ e lt waits got
        (finish_stop_process-actions sys status w1 c
          ∙ from_opening k w1.actions (closing c status) a)
        (finish_stop_process-HasStopped sys status w1 c)
  by_gentle r (there k w1 u a) =
      by_hard k w1 (stop_hard sys c.pid w1) u a (stop_hard-Hardly sys c.pid w1)

  -- Stopping a live container, with a timeout of at most 214748364 seconds, goes one of three
  -- ways. A paused one is resumed, then SIGTERM is sent and the child is polled ten times a second
  -- for the grace period, which is ten seconds if the timeout is not positive. If the first poll
  -- that is not waiting has its status, no SIGKILL is sent; else SIGKILL is sent, and the child is
  -- waited for. Once it is reaped, or is no child any more, the container has stopped with its
  -- status: its process, stack and host interface are gone, and scheduler, cgroup, event and file
  -- follow in this order. If SIGKILL or the last wait fails, the container is left as it was.
  pub stop_container_process-StopResult :
      pos_part timeout_s ≤ 214748364
      → is_live c.state && positive c.pid ≡ true
      → StopResult sys timeout_s w c (stop_container_process sys timeout_s w c)
  unfolding stop_container_process stop_child
  stop_container_process-StopResult short live = rw live (
      by_gentle (stop_gently sys timeout_s c.pid (resumed sys w c))
        (stop_gently-Gently sys timeout_s c.pid (resumed sys w c) short))
