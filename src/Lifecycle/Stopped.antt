-- ===== src/Lifecycle/Stopped.antt =====
-- How `stop_container_process` ends a container: the answers to its polls.
pub mod Grace
pub mod Result
use mathlib.Core.List.{append_assoc, append-nil}
use mathlib.Core.Path.{fun_ext}
use container_internals_simu.Prelude.{
  ℕ, zero, suc, ◌+◌, ◌*◌, ◌<◌, ◌≡◌, ◌≢◌, refl, sym, ap, ◌∙◌, inl, inr, ◌⊎◌, Bool, true, false, ◌&&◌,
  Option, none, some, List, [], ◌∷◌, ◌++◌, replicate, arith, subst, if◌then◌else◌, Bool-cases,
}
use container_internals_simu.Prelude.Int.{ℤ, negsuc, positive}
use container_internals_simu.Prelude.Text.{codes}
use container_internals_simu.EventBus.Types.{container_stopped}
use container_internals_simu.Container.{Container, is_live, state_stopped}
use container_internals_simu.Lifecycle.{
  WaitStatus, Wait, reaped, not_yet, no_child, interrupted, bad_wait, sigterm, sigkill, sigcont,
  Kill, delivered, no_process, refused, System, Effect, killed, emitted, removed_target,
  cleaned_cgroup, slept, saved, World, act,
}
use container_internals_simu.Lifecycle.Valid.{cleanup_id, cleanup_veth}
use container_internals_simu.Lifecycle.Stop.{
  is_paused, wait_ticks, effective_timeout, last_status, stop_gently, stop_hard, stop_code,
  finish_stop_process, stop_child, or_hard, conclude_stop, stop_container_process,
}

-- The child has not ended, as far as a tick can tell; the other answers than a status are errors.
abbrev pub is_waiting : Wait → Bool
is_waiting not_yet = true
is_waiting interrupted = true
is_waiting _ = false

abbrev pub is_failure : Wait → Bool
is_failure no_child = true
is_failure bad_wait = true
is_failure _ = false

abbrev pub AllWaiting : (ℕ → Wait) → ℕ → Type 0
AllWaiting answer k = (j : ℕ) → j < k → is_waiting (answer j) ≡ true

-- What the loop of the grace period comes to from a tick on, with the sleeps that it made: the
-- first tick that is no waiting has a status, or it is an error or the time is over.
pub data Waited (answer : ℕ → Wait) (left : ℕ) (w : World)
    : World × Option WaitStatus → Type 0 where
  ended :
      (k : ℕ) (status : WaitStatus) (w' : World)
      → k < left
      → AllWaiting answer k
      → answer k ≡ reaped status
      → w'.bridge ≡ w.bridge
      → w'.actions ≡ w.actions ++ replicate k slept
      → Waited answer left w (w', some status)
  not_ended :
      (k : ℕ) (w' : World)
      → (k ≡ left) ⊎ ((k < left) × (is_failure (answer k) ≡ true))
      → AllWaiting answer k
      → w'.bridge ≡ w.bridge
      → w'.actions ≡ w.actions ++ replicate k slept
      → Waited answer left w (w', none)
