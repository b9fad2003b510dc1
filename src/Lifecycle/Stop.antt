-- ===== src/Lifecycle/Stop.antt =====
-- `stop_container_process` and `wait_for_container_process`.
use container_internals_simu.Prelude.{
  ℕ, zero, suc, ◌+◌, ◌*◌, ◌%◌, ◌^◌, ltb, Bool, true, false, ◌&&◌, Option, none, some, if◌then◌else◌,
}
use container_internals_simu.Prelude.Int.{ℤ, pos, negsuc, pos_part, positive}
use container_internals_simu.Prelude.Text.{codes}
use container_internals_simu.EventBus.Types.{container_stopped}
use container_internals_simu.Container.{
  Container, ContainerState, state_paused, state_stopped, is_live,
}
use container_internals_simu.Lifecycle.{
  WaitStatus, exited, signalled, Wait, reaped, not_yet, no_child, interrupted, bad_wait, SignalName,
  sigterm, sigkill, sigcont, Kill, delivered, refused, System, killed, emitted, removed_target,
  cleaned_cgroup, slept, saved, World, act, exit_code_of, format_wait_status, with_cleanup,
  is_running, is_pid_alive,
}

abbrev pub is_paused : ContainerState → Bool
is_paused state_paused = true
is_paused _ = false

-- A call of `kill`, with its result.
abbrev pub send : System → ℤ → SignalName → World → World × Kill
send sys pid sig w = (act (killed pid sig) w, sys.kill pid sig)

-- The loop of the grace period, with the ticks that are left and the next tick. It ends by `break`
-- with a child that has been reaped or with an error.
unfoldable pub wait_ticks : (ℕ → Wait) → ℕ → ℕ → World → World × Option WaitStatus
wait_ticks answer zero tick w = (w, none)
wait_ticks answer (suc left) tick w = elim (answer tick) [
  | reaped status ↦ (w, some status)
  | not_yet ↦ wait_ticks answer left (tick + 1) (act slept w)
  | interrupted ↦ wait_ticks answer left (tick + 1) (act slept w)
  | no_child ↦ (w, none)
  | bad_wait ↦ (w, none)
]

abbrev pub effective_timeout : ℤ → ℕ
effective_timeout timeout_s = if positive timeout_s then pos_part timeout_s else 10

-- `effective_timeout * 10`, a product of `int`s that wraps around; if it is negative, no tick is
-- less than it.
unfoldable pub tick_limit : ℤ → ℕ
tick_limit timeout_s =
    let product = effective_timeout timeout_s * 10 % 2 ^ 32 in
    if ltb product (2 ^ 31) then product else 0

-- SIGTERM and the grace period; no status means that the child was not reaped.
unfoldable pub stop_gently : System → ℤ → ℤ → World → World × Option WaitStatus
unfolding wait_ticks tick_limit
stop_gently sys timeout_s pid w =
    let (w', result) = send sys pid sigterm w in
    elim result [
      | delivered ↦ wait_ticks (sys.tick_wait pid) (tick_limit timeout_s) 0 w'
      | _ ↦ (w', none)
    ]

-- The status in `wstatus` behind the wait that blocks, or `none` if the child was not reaped. With
-- ECHILD the status stays as it was set, 0.
unfoldable pub last_status : Wait → Option WaitStatus
last_status (reaped status) = some status
last_status no_child = some (exited 0)
last_status _ = none

-- SIGKILL, if the grace period did not end the child.
unfoldable pub stop_hard : System → ℤ → World → World × Option WaitStatus
unfolding last_status
stop_hard sys pid w =
    let (w', result) = send sys pid sigkill w in
    elim result [ refused ↦ (w', none) | _ ↦ (w', last_status (sys.last_wait pid)) ]

abbrev pub stop_code : WaitStatus → ℤ
stop_code (exited n) = pos n
stop_code (signalled n) = pos (128 + n)

-- What follows once the child is gone. The result of the save is not looked at.
unfoldable pub finish_stop_process : System → WaitStatus → World → Container → World × Container
finish_stop_process sys status w c =
    let (w', c') = with_cleanup sys (act (cleaned_cgroup c.id) (act (removed_target c.pid) w)) c in
    (
      act saved (act (emitted container_stopped c.id (codes "killed") (stop_code status)) w'),
      record c' {
        stopped_at = sys.now;
        exit_code = stop_code status;
        pid = negsuc 0;
        state = state_stopped;
        has_stack = false;
      },
    )

-- The second phase, if the first has not reaped the child.
abbrev pub or_hard : System → ℤ → World × Option WaitStatus → World × Option WaitStatus
or_hard sys pid (w, some status) = (w, some status)
or_hard sys pid (w, none) = stop_hard sys pid w

-- The status of the child once it has been stopped by either phase. A paused one is resumed first.
unfoldable pub stop_child : System → ℤ → Container → World → World × Option WaitStatus
unfolding stop_gently stop_hard
stop_child sys timeout_s c w =
    let w0 = if is_paused c.state then (send sys c.pid sigcont w).0 else w in
    or_hard sys c.pid (stop_gently sys timeout_s c.pid w0)

unfoldable pub conclude_stop :
    System → World → Container → Option WaitStatus → World × Container × Bool
unfolding finish_stop_process
conclude_stop sys w c none = (w, c, false)
conclude_stop sys w c (some status) =
    let (w', c') = finish_stop_process sys status w c in (w', c', true)

-- The last part is whether the result is 0.
unfoldable pub stop_container_process : System → ℤ → World → Container → World × Container × Bool
unfolding stop_child conclude_stop
stop_container_process sys timeout_s w c =
    let (w', ended) = stop_child sys timeout_s c w in
    if is_live c.state && positive c.pid then conclude_stop sys w' c ended else (w, c, false)

-- The status that `wait_for_container_process` goes on with.
unfoldable pub waited_status : System → ℤ → Wait → Option WaitStatus
waited_status sys pid (reaped status) = some status
waited_status sys pid no_child = if is_pid_alive sys pid then none else some (exited 0)
waited_status sys pid _ = none

unfoldable pub conclude_wait :
    System → World → Container → Option WaitStatus → World × Container × Bool
conclude_wait sys w c none = (w, c, false)
conclude_wait sys w c (some status) =
    let ended = record c {
      stopped_at = sys.now;
      exit_code = exit_code_of status;
      pid = negsuc 0;
      state = state_stopped;
      has_stack = false;
    } in
    let told =
      act (emitted container_stopped c.id (format_wait_status status) (exit_code_of status)) w in
    let (w', c') = with_cleanup sys (act (cleaned_cgroup c.id) told) ended in
    (act saved w', c', sys.saves)

-- The moves of the terminal's foreground are left out.
unfoldable pub wait_for_container_process : System → World → Container → World × Container × Bool
unfolding waited_status conclude_wait
wait_for_container_process sys w c =
    if is_running c.state && positive c.pid
    then conclude_wait sys w c (waited_status sys c.pid (sys.last_wait c.pid))
    else (w, c, false)
