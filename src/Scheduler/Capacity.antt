-- ===== src/Scheduler/Capacity.antt =====
-- `ensure_capacity_locked`: the doubling loop ends with room enough, and no more than twice what is
-- asked for.
use native.Mathlib.Nat.{pow-suc}
use container_internals_simu.Prelude.{
  ℕ, zero, subst, suc, ◌+◌, ◌-◌, ◌*◌, ◌^◌, ◌%◌, ◌≤◌, ◌<◌, ◌≡◌, true, false, arith, length, take,
  replicate, take-append_left, length-append, length-replicate,
}
use container_internals_simu.Scheduler.{
  Scheduler, Os, size_mod, grow, next_capacity, ensure_capacity,
}

doubled : (fuel capacity : ℕ) → capacity * 2 ^ suc fuel ≡ capacity * 2 * 2 ^ fuel
doubled fuel capacity = rw (pow-suc 2 fuel) (omega arith)

-- With `capacity * 2 ^ fuel` above the wish and no wrap on the way, the loop ends by its test.
grow-ge :
    (fuel capacity desired : ℕ)
    → 0 < capacity
    → desired ≤ capacity * 2 ^ fuel
    → desired ≤ 2 ^ 62
    → desired ≤ grow fuel capacity desired
unfolding grow
grow-ge zero capacity desired p enough small = omega arith
grow-ge (suc fuel) capacity desired p enough small = ground (
  arith,
  grow-ge fuel (capacity * 2) desired (omega arith)
      (subst (λ k. desired ≤ k) (doubled fuel capacity) enough) small,
)

grow-le :
    (fuel capacity desired bound : ℕ)
    → capacity ≤ bound
    → 2 * desired ≤ bound
    → grow fuel capacity desired ≤ bound
unfolding grow
grow-le zero capacity desired bound p q = p
grow-le (suc fuel) capacity desired bound p q =
    ground (arith, grow-le fuel (capacity * 2 % size_mod) desired bound)

pub next_capacity_bounds :
    (capacity desired : ℕ)
    → capacity < desired
    → desired ≤ 2 ^ 60
    → (desired ≤ next_capacity capacity desired)
      × (next_capacity capacity desired ≤ 8 + 2 * desired)
next_capacity_bounds capacity desired p small = ground (
  arith,
  grow-ge 64 capacity desired,
  grow-ge 64 8 desired,
  grow-le 64 capacity desired (8 + 2 * desired),
  grow-le 64 8 desired (8 + 2 * desired),
)

module _ (os : Os) (desired : ℕ) (s : Scheduler) (allocated : length s.targets ≡ s.target_capacity)
    (small : desired ≤ 2 ^ 60) (grown : (ensure_capacity os desired s).1 ≡ true) where
  -- On success the array is as long as the recorded capacity, and has room for what was asked.
  pub ensure_capacity_room :
      (length (ensure_capacity os desired s).0.targets
        ≡ (ensure_capacity os desired s).0.target_capacity)
      × (desired ≤ (ensure_capacity os desired s).0.target_capacity)
  unfolding ensure_capacity
  ensure_capacity_room = ground (
    arith,
    next_capacity_bounds s.target_capacity desired,
    length-append s.targets
        (replicate (next_capacity s.target_capacity desired - length s.targets) os.garbage),
    length-replicate (next_capacity s.target_capacity desired - length s.targets) os.garbage,
  )

  -- The entries in use are kept.
  pub take-ensure_capacity :
      (n : ℕ)
      → n ≤ s.target_capacity
      → take n (ensure_capacity os desired s).0.targets ≡ take n s.targets
  unfolding ensure_capacity
  take-ensure_capacity n h = ground (
    arith,
    take-append_left n s.targets
        (replicate (next_capacity s.target_capacity desired - length s.targets) os.garbage),
  )

-- Apart from the array and its capacity nothing changes, and on failure nothing at all.
pub ensure_capacity_frame :
    (os : Os) (desired : ℕ) (s : Scheduler)
    → let t = (ensure_capacity os desired s).0 in
      (t.target_count ≡ s.target_count)
      × (t.current_index ≡ s.current_index)
      × (t.time_slice_ms ≡ s.time_slice_ms)
      × (t.enabled ≡ s.enabled)
      × (t.thread_started ≡ s.thread_started)
      × (t.stop_requested ≡ s.stop_requested)
unfolding ensure_capacity
ensure_capacity_frame os desired s = ground arith

pub ensure_capacity_failed :
    (os : Os) (desired : ℕ) (s : Scheduler)
    → (ensure_capacity os desired s).1 ≡ false
    → (ensure_capacity os desired s).0 ≡ s
unfolding ensure_capacity
ensure_capacity_failed os desired s h = ground arith
