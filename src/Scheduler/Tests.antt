-- ===== src/Scheduler/Tests.antt =====
-- Runs of the scheduler, and the theorems at concrete states.
use container_internals_simu.Prelude.{
  ℕ, ◌<◌, ◌≡◌, ◌≢◌, refl, true, false, some, List, [], ◌∷◌, arith, map, inl, keep, ◌==◌, ltb,
  if◌then◌else◌,
}
use container_internals_simu.Prelude.Int.{pos, negsuc}
use container_internals_simu.Scheduler.{
  Scheduler, Os, Probe, sigstop, sigcont, slept, idle_sleep_ms, init, target, pid_is_alive, grow,
  ensure_capacity, prune_loop, prune_dead, thread_round, start, set_enabled, find_target,
  add_target, remove_at, remove_target,
}
use container_internals_simu.Scheduler.Window.{window}
use container_internals_simu.Scheduler.Invariant.{
  IsValid, Op, adds, starts, sets_enabled, removes, step, run, run-init-IsValid, step-IsValid,
}
use container_internals_simu.Scheduler.Rotation.{next_index, thread_round_switches}
use container_internals_simu.Scheduler.Idle.{thread_round_idle}
use container_internals_simu.Scheduler.Fairness.{IsActive, iterate, thread_resumes_all}

-- Everybody is alive but pid 11.
abbrev os : Os
os = record {
  probe = λ pid. elim pid [
    | pos n ↦ if n == 11 then Probe.esrch else Probe.delivered
    | negsuc n ↦ Probe.esrch
  ];
  can_realloc = λ n. ltb n 1000;
  garbage = pos 0;
}

abbrev script : List Op
script =
    starts true (some 100)
    ∷ sets_enabled true
    ∷ adds os (pos 10)
    ∷ adds os (pos 11)
    ∷ adds os (pos 12)
    ∷ adds os (pos 10)
    ∷ adds os (pos 13)
    ∷ []

started : Scheduler
unfolding run step init start set_enabled add_target find_target ensure_capacity grow
started = run script init

-- The same system while everybody is alive.
abbrev all_alive : Os
all_alive = record os { probe = λ pid. Probe.delivered }

script_window : window started ≡ pos 10 ∷ pos 11 ∷ pos 12 ∷ pos 13 ∷ []
unfolding started
script_window = refl

script_round : (thread_round os started).1 ≡ slept (sigstop (pos 10) ∷ sigcont (pos 12) ∷ []) 100
unfolding started thread_round prune_dead prune_loop pid_is_alive
script_round = refl

run-init-IsValid_example : IsValid (run script init)
run-init-IsValid_example = run-init-IsValid script (omega arith)

started-IsValid : IsValid started
unfolding started
started-IsValid = run-init-IsValid script (omega arith)

started_count : started.target_count ≡ 4
unfolding started
started_count = refl

started-IsActive : IsActive all_alive started
unfolding started pid_is_alive
started-IsActive = record {
  valid = started-IsValid;
  on = refl;
  runs = refl;
  many = omega arith;
  alive = refl;
}

thread_resumes_all_example :
    (k : ℕ) × (previous : ℕ) × (k < started.target_count)
    × (previous < started.target_count)
    × ((thread_round all_alive (iterate k all_alive started)).1
        ≡ slept
            (sigstop (target (window started) previous) ∷ sigcont (target (window started) 2) ∷ [])
            started.time_slice_ms)
thread_resumes_all_example = thread_resumes_all all_alive started 2 started-IsActive fits
  where
    fits : 2 < started.target_count
    fits = omega (arith, started_count)

remove_moves_last : window (step (removes (pos 11)) started) ≡ pos 10 ∷ pos 13 ∷ pos 12 ∷ []
unfolding started remove_target remove_at
remove_moves_last = refl

thread_round_switches_example :
    let p = prune_dead os started in
    let current = target p.targets p.current_index in
    let index = next_index p.current_index p.target_count in
    let next = target p.targets index in
    (thread_round os started ≡ (
      record p { current_index = index },
      slept (sigstop current ∷ sigcont next ∷ []) started.time_slice_ms,
    ))
    × (current ≢ next)
    × (pid_is_alive os.probe current ≡ true)
    × (pid_is_alive os.probe next ≡ true)
    × (window p ≡ keep (pid_is_alive os.probe) (window started))
unfolding started prune_dead prune_loop pid_is_alive
thread_round_switches_example =
    thread_round_switches os started started-IsValid refl refl (omega arith)

-- The same targets with slicing switched off.
stopped_slicing : Scheduler
unfolding started
stopped_slicing = step (sets_enabled false) started

stopped_slicing-IsValid : IsValid stopped_slicing
unfolding stopped_slicing
stopped_slicing-IsValid = step-IsValid (sets_enabled false) started (omega arith) started-IsValid

thread_round_idle_example :
    (thread_round os stopped_slicing ≡ (
      prune_dead os stopped_slicing,
      slept (map sigcont (window (prune_dead os stopped_slicing))) idle_sleep_ms,
    ))
    × (window (prune_dead os stopped_slicing)
        ≡ keep (pid_is_alive os.probe) (window stopped_slicing))
unfolding stopped_slicing
thread_round_idle_example =
    thread_round_idle os stopped_slicing stopped_slicing-IsValid refl (inl refl)
