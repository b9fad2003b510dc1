-- ===== src/Lifecycle/Targets.antt =====
-- `container_scheduler_refresh_targets` of src/container.c, on the list of containers and the
-- scheduler of src/scheduler.c.
use mathlib.Core.List.{Mem, mem-append_left, mem-cons_self, append_assoc, append-nil}
use container_internals_simu.Prelude.{
  ℕ, zero, suc, ◌+◌, ◌*◌, ◌%◌, ◌^◌, ◌<◌, ◌≡◌, refl, sym, ap, ◌∙◌, inl, inr, Bool, true, false, ◌&&◌,
  List, [], ◌∷◌, ◌++◌, map, length, length-append, length-take, arith, subst, leb, Bool-cases,
  Option-cases, if◌then◌else◌,
}
use container_internals_simu.Prelude.Int.{ℤ, pos, negsuc, positive, eq_ℤ, eq_ℤ_iff}
use container_internals_simu.Container.{
  Container, ContainerState, state_created, state_running, state_paused, state_stopped,
}
use container_internals_simu.Scheduler.{
  Scheduler, Os, Status, ok, enomem, is_enabled, clear_targets, add_target, ensure_capacity,
  find_target, next_capacity, pid_size, size_mod,
}
use container_internals_simu.Scheduler.Window.{window}
use container_internals_simu.Scheduler.Targets.{IsAllocated, add_target_cases}
use container_internals_simu.Lifecycle.{is_running, SignalName, sigstop, sigcont}

-- The pids of the containers that run, in the order of the list.
unfoldable pub running_pids : List Container → List ℤ
running_pids [] = []
running_pids (c ∷ cs) =
    let rest = running_pids cs in
    if is_running c.state && positive c.pid then c.pid ∷ rest else rest

-- The first loop; the results of the calls are not looked at.
unfoldable pub add_all : Os → List ℤ → Scheduler → Scheduler
add_all os [] s = s
add_all os (pid ∷ pids) s = add_all os pids (add_target os pid s).0

-- SIGSTOP to all others than the first.
unfoldable pub stop_others : ℤ → List ℤ → List (ℤ × SignalName)
stop_others first [] = []
stop_others first (pid ∷ pids) =
    let rest = stop_others first pids in if eq_ℤ pid first then rest else (pid, sigstop) ∷ rest

-- The signals that are sent, whether or not they are delivered.
unfoldable pub refresh_signals : Bool → List ℤ → List (ℤ × SignalName)
unfolding stop_others
refresh_signals true [] = []
refresh_signals true (first ∷ pids) = stop_others first (first ∷ pids) ++ (first, sigcont) ∷ []
refresh_signals false pids = map (λ pid. (pid, sigcont)) pids

unfoldable pub container_scheduler_refresh_targets :
    Os → List Container → Scheduler → Scheduler × List (ℤ × SignalName)
unfolding add_all running_pids refresh_signals
container_scheduler_refresh_targets os cs s =
    let pids = running_pids cs in
    (add_all os pids (clear_targets s), refresh_signals (is_enabled s) pids)

-- No pid is in the window or comes twice.
abbrev pub AllNew : List ℤ → List ℤ → Type 0
AllNew xs [] = Unit
AllNew xs (pid ∷ pids) = (¬ Mem pid xs) × AllNew (xs ++ pid ∷ []) pids

ensure_capacity-true :
    (os : Os) (desired : ℕ) (s : Scheduler)
    → ((n : ℕ) → os.can_realloc n ≡ true)
    → (ensure_capacity os desired s).1 ≡ true
unfolding ensure_capacity
ensure_capacity-true os desired s memory =
    let asked = memory ((next_capacity s.target_capacity desired * pid_size) % size_mod) in
    elim (Bool-cases (leb desired s.target_capacity)) [
      | inl room ↦ rw room refl
      | inr full ↦ rw (full, asked) refl
    ]

add_target-ok :
    (os : Os) (pid : ℤ) (s : Scheduler)
    → ((n : ℕ) → os.can_realloc n ≡ true)
    → (add_target os pid s).1 ≡ ok
unfolding add_target
add_target-ok os pid s memory = elim (Option-cases (find_target s.target_count 0 s.targets pid)) [
  | inr (j, found) ↦ rw (found, add_target) refl
  | inl missing ↦
      rw (missing, add_target, ensure_capacity-true os (s.target_count + 1) s memory) refl
]

add_all-window :
    (os : Os) (pids : List ℤ) (s : Scheduler)
    → ((n : ℕ) → os.can_realloc n ≡ true)
    → IsAllocated s
    → AllNew (window s) pids
    → s.target_count + length pids < 2 ^ 60
    → window (add_all os pids s) ≡ window s ++ pids
unfolding add_all
add_all-window os [] s memory v new small = sym (append-nil (window s))
add_all-window os (pid ∷ pids) s memory v new small =
    let r = add_target os pid s in
    elim (add_target_cases os pid s v (omega arith)) [
      | inl (there, same) ↦ absurd (new.0 there)
      | inr (inl (missing, failed)) ↦
          let done : enomem ≡ ok =
            ap (λ (x : Scheduler × Status). x.1) (sym failed) ∙ add_target-ok os pid s memory in
          absurd (cc done)
      | inr (inr (missing, done, more, v')) ↦
          add_all-window os pids r.0 memory v' (subst (λ w. AllNew w pids) (sym more) new.1) (
            omega (
              arith,
              ap length more,
              length-append (window s) (pid ∷ []),
              length-take s.target_count s.targets (omega (arith, v.allocated, v.count_fits)),
              length-take r.0.target_count r.0.targets (omega (arith, v'.allocated, v'.count_fits)),
            ))
          ∙ ap (λ (w : List ℤ). w ++ pids) more
          ∙ append_assoc (window s) (pid ∷ []) pids
    ]

-- Who is told what, if no pid comes twice.
abbrev pub told : Bool → List ℤ → List (ℤ × SignalName)
told true [] = []
told true (first ∷ pids) = map (λ pid. (pid, sigstop)) pids ++ (first, sigcont) ∷ []
told false pids = map (λ pid. (pid, sigcont)) pids

stop_others-map :
    (first : ℤ) (xs pids : List ℤ)
    → Mem first xs
    → AllNew xs pids
    → stop_others first pids ≡ map (λ pid. (pid, sigstop)) pids
unfolding stop_others
stop_others-map first xs [] m new = refl
stop_others-map first xs (pid ∷ pids) m new =
    let e : (eq_ℤ pid first) ≡ false = elim (Bool-cases (eq_ℤ pid first)) [
      | inr other ↦ other
      | inl same ↦ absurd (new.0 (subst (λ p. Mem p xs) (sym ((eq_ℤ_iff pid first).0 same)) m))
    ] in
    rw (e, stop_others-map first (xs ++ pid ∷ []) pids (mem-append_left (pid ∷ []) m) new.1) refl

refresh_signals-told :
    (enabled : Bool) (pids : List ℤ)
    → AllNew [] pids
    → refresh_signals enabled pids ≡ told enabled pids
unfolding refresh_signals stop_others
refresh_signals-told true [] new = refl
refresh_signals-told true (first ∷ pids) new =
    rw ((eq_ℤ_iff first first).1 refl, stop_others-map first (first ∷ []) pids mem-cons_self new.1)
      refl
refresh_signals-told false pids new = refl

-- The pid of a container, if it runs and its pid is positive.
abbrev pub pid_if_running : ContainerState → ℤ → List ℤ
pid_if_running state_running (pos (suc n)) = pos (suc n) ∷ []
pid_if_running state_running (pos zero) = []
pid_if_running state_running (negsuc n) = []
pid_if_running state_created pid = []
pid_if_running state_paused pid = []
pid_if_running state_stopped pid = []

abbrev pub pids_to_slice : List Container → List ℤ
pids_to_slice [] = []
pids_to_slice (c ∷ cs) = pid_if_running c.state c.pid ++ pids_to_slice cs

running_pids-pids_to_slice : (cs : List Container) → running_pids cs ≡ pids_to_slice cs
unfolding running_pids
running_pids-pids_to_slice [] = refl
running_pids-pids_to_slice (c ∷ cs) = rw (running_pids-pids_to_slice cs) (by_state c.state c.pid)
  where
    by_state :
        (s : ContainerState) (pid : ℤ)
        → (if is_running s && positive pid then pid ∷ pids_to_slice cs else pids_to_slice cs)
          ≡ pid_if_running s pid ++ pids_to_slice cs
    by_state state_running (pos (suc n)) = ground arith
    by_state state_running (pos zero) = refl
    by_state state_running (negsuc n) = refl
    by_state state_created pid = refl
    by_state state_paused pid = refl
    by_state state_stopped pid = refl

-- Refreshing the targets, with memory at hand, gives the scheduler exactly the positive pids of the
-- running containers, in the order of the list, if no two of these share a pid, there are fewer
-- than 2^60, and the array of targets is as long as its capacity. If slicing is on, all others than
-- the first are sent SIGSTOP, and then the first SIGCONT; else all are sent SIGCONT.
pub container_scheduler_refresh_targets_lem :
    (os : Os) (cs : List Container) (s : Scheduler)
    → ((n : ℕ) → os.can_realloc n ≡ true)
    → length s.targets ≡ s.target_capacity
    → AllNew [] (pids_to_slice cs)
    → length (pids_to_slice cs) < 2 ^ 60
    → let r = container_scheduler_refresh_targets os cs s in
      (window r.0 ≡ pids_to_slice cs) × (r.1 ≡ told s.enabled (pids_to_slice cs))
unfolding container_scheduler_refresh_targets clear_targets
container_scheduler_refresh_targets_lem os cs s memory allocated new small =
    rw (running_pids-pids_to_slice cs) (
      add_all-window os (pids_to_slice cs) (clear_targets s) memory
          (record { allocated = allocated; count_fits = omega arith }) new (omega arith),
      refresh_signals-told s.enabled (pids_to_slice cs) new,
    )
