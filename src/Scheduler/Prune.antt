-- ===== src/Scheduler/Prune.antt =====
-- `prune_dead_locked` is a filter: the live window keeps the pids that are alive, in order.
use mathlib.Core.List.{append_assoc, append-nil}
use container_internals_simu.Prelude.{
  ℕ, zero, suc, ◌+◌, ◌≤◌, ◌≡◌, refl, ap, sym, ◌∙◌, Bool, List, ◌++◌, inl, inr, arith, length, set,
  take, keep, drop-set_lt, length-set, Bool-cases,
}
use container_internals_simu.Prelude.Int.{ℤ}
use container_internals_simu.Scheduler.{Scheduler, Os, target, pid_is_alive, prune_loop, prune_dead}
use container_internals_simu.Scheduler.Window.{window, slice, slice-suc, take-write}

module _ (alive : ℤ → Bool) where
  length-prune_loop : (n i w : ℕ) (ts : List ℤ) → length (prune_loop alive n i w ts).0 ≡ length ts
  unfolding prune_loop
  length-prune_loop zero i w ts = refl
  length-prune_loop (suc n) i w ts = ground (
    arith,
    length-prune_loop n (i + 1) (w + 1) (set ts w (target ts i)),
    length-prune_loop n (i + 1) w ts,
    length-set ts w (target ts i),
  )

  prune_loop_count : (n i w : ℕ) (ts : List ℤ) → (prune_loop alive n i w ts).1 ≤ w + n
  unfolding prune_loop
  prune_loop_count zero i w ts = omega arith
  prune_loop_count (suc n) i w ts = ground (
    arith,
    prune_loop_count n (i + 1) (w + 1) (set ts w (target ts i)),
    prune_loop_count n (i + 1) w ts,
  )

  slice-write :
      (n i w : ℕ) (ts : List ℤ) (x : ℤ) → w ≤ i → slice n (i + 1) (set ts w x) ≡ slice n (i + 1) ts
  slice-write n i w ts x h = ap (take n) (drop-set_lt (i + 1) w ts x (omega arith))

  -- The written prefix grows by the live pids among those not yet read.
  prune_loop_lem :
      (n i w : ℕ) (ts : List ℤ)
      → w ≤ i
      → i + n ≤ length ts
      → let r = prune_loop alive n i w ts in take r.1 r.0 ≡ take w ts ++ keep alive (slice n i ts)
  unfolding prune_loop
  prune_loop_lem zero i w ts h fits = sym (append-nil (take w ts))
  prune_loop_lem (suc n) i w ts h fits = elim (Bool-cases (alive (target ts i))) [
    | inl live ↦
        rw (slice-suc n i ts (omega arith), live, prune_loop, keep)
          (prune_loop_lem n (i + 1) (w + 1) (set ts w (target ts i)) (omega arith)
              (omega (arith, length-set ts w (target ts i)))
            ∙ (rw (
              take-write w ts (target ts i) (omega arith),
              slice-write n i w ts (target ts i) h,
              append_assoc,
            )))
    | inr dead ↦
        rw (slice-suc n i ts (omega arith), dead, prune_loop, keep)
          (prune_loop_lem n (i + 1) w ts (omega arith) (omega arith))
  ]

-- Pruning keeps exactly the live pids, in their order.
pub window-prune_dead :
    (os : Os) (s : Scheduler)
    → s.target_count ≤ length s.targets
    → window (prune_dead os s) ≡ keep (pid_is_alive os.probe) (window s)
unfolding prune_dead
window-prune_dead os s fits =
    prune_loop_lem (pid_is_alive os.probe) s.target_count 0 0 s.targets (omega arith) (omega arith)

pub length-prune_dead :
    (os : Os) (s : Scheduler) → length (prune_dead os s).targets ≡ length s.targets
unfolding prune_dead
length-prune_dead os s = length-prune_loop (pid_is_alive os.probe) s.target_count 0 0 s.targets

pub prune_dead_count : (os : Os) (s : Scheduler) → (prune_dead os s).target_count ≤ s.target_count
unfolding prune_dead
prune_dead_count os s =
    omega (arith, prune_loop_count (pid_is_alive os.probe) s.target_count 0 0 s.targets)
