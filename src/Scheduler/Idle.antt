-- ===== src/Scheduler/Idle.antt =====
-- A round of `scheduler_thread_main` that switches nothing: slicing is off or fewer than two
-- targets are left.
use container_internals_simu.Prelude.{
  ℕ, zero, suc, ◌+◌, ◌≤◌, ◌<◌, ◌≡◌, ◌⊎◌, refl, sym, ap, subst, true, false, List, [], ◌∷◌, map, All,
  keep, arith, length,
}
use container_internals_simu.Prelude.Int.{ℤ, positive}
use container_internals_simu.Scheduler.{
  Scheduler, Os, sigcont, slept, target, pid_is_alive, prune_dead, cont_all, thread_round,
  idle_sleep_ms,
}
use container_internals_simu.Scheduler.Window.{window, slice, slice-suc}
use container_internals_simu.Scheduler.Prune.{window-prune_dead}
use container_internals_simu.Scheduler.Invariant.{IsValid, prune_dead-IsValid}
use container_internals_simu.Scheduler.Rotation.{All-keep, alive-positive}

All-weaken :
    (os : Os) (xs : List ℤ)
    → All (λ x. pid_is_alive os.probe x ≡ true) xs
    → All (λ x. positive x ≡ true) xs
All-weaken os [] a = tt
All-weaken os (x ∷ xs) a = (alive-positive os x a.0, All-weaken os xs a.1)

cont_all-map :
    (n i : ℕ) (ts : List ℤ)
    → i + n ≤ length ts
    → All (λ x. positive x ≡ true) (slice n i ts)
    → cont_all n i ts ≡ map sigcont (slice n i ts)
unfolding cont_all
cont_all-map zero i ts fits a = refl
cont_all-map (suc n) i ts fits a =
    let e = slice-suc n i ts (omega arith) in
    let b = subst (All (λ x. positive x ≡ true)) e a in
    rw (e, b.0) (ap (λ r. sigcont (target ts i) ∷ r) (cont_all-map n (i + 1) ts (omega arith) b.1))

-- Nobody stays stopped: in a well-formed scheduler not asked to stop, a round with slicing off
-- or fewer than two live targets removes the dead, sends SIGCONT to every target that is left,
-- in order, and sends nothing else.
pub thread_round_idle :
    (os : Os) (s : Scheduler)
    → IsValid s
    → s.stop_requested ≡ false
    → (s.enabled ≡ false) ⊎ ((prune_dead os s).target_count < 2)
    → (thread_round os s
        ≡ (prune_dead os s, slept (map sigcont (window (prune_dead os s))) idle_sleep_ms))
      × (window (prune_dead os s) ≡ keep (pid_is_alive os.probe) (window s))
unfolding thread_round
thread_round_idle os s v runs off = (ground (arith, signals), kept)
  where
    kept : window (prune_dead os s) ≡ keep (pid_is_alive os.probe) (window s)
    kept = window-prune_dead os s (omega arith)

    p : Scheduler
    p = prune_dead os s

    signals : cont_all p.target_count 0 p.targets ≡ map sigcont (window p)
    signals = cont_all-map p.target_count 0 p.targets (omega (arith, prune_dead-IsValid os s v)) (
        All-weaken os (window p) (
          subst (All (λ x. pid_is_alive os.probe x ≡ true)) (sym kept)
            (All-keep (pid_is_alive os.probe) (window s))))
