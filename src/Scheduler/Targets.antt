-- ===== src/Scheduler/Targets.antt =====
-- `scheduler_add_target` and `scheduler_remove_target` on the live window.
use mathlib.Core.List.{Mem, Perm}
use container_internals_simu.Prelude.{
  ℕ, suc, ◌+◌, ◌-◌, ◌^◌, ◌≤◌, ◌<◌, ◌≡◌, ◌⊎◌, inl, inr, refl, ap, subst, ◌∙◌, true, none, some, [],
  ◌∷◌, ◌++◌, arith, length, take, Bool-cases, Option-cases, length-set, take-set, take-suc,
  get_or-take, length-take,
}
use container_internals_simu.Prelude.Int.{ℤ, pos}
use container_internals_simu.Scheduler.{
  Scheduler, Os, Status, ok, enomem, not_found, target, find_target, ensure_capacity, append_target,
  add_target, remove_at, remove_target,
}
use container_internals_simu.Scheduler.Window.{
  window, take-write, find_target-some, find_target-none, mem-window, swap_out-perm,
}
use container_internals_simu.Scheduler.Capacity.{
  ensure_capacity_room, take-ensure_capacity, ensure_capacity_frame, ensure_capacity_failed,
}

-- The bookkeeping of the array: what the code relies on before each call.
pub record IsAllocated (s : Scheduler) : Type 0 where
  pub allocated : length s.targets ≡ s.target_capacity
  pub count_fits : s.target_count ≤ s.target_capacity

abbrev pub Added : ℤ → Scheduler → Scheduler × Status → Type 0
Added pid s r =
    (Mem pid (window s) × (r ≡ (s, ok)))
    ⊎ ((¬ Mem pid (window s)) × (r ≡ (s, enomem)))
    ⊎ ((¬ Mem pid (window s)) × (r.1 ≡ ok) × (window r.0 ≡ window s ++ pid ∷ []) × IsAllocated r.0)

module _ (pid : ℤ) (s : Scheduler) (v : IsAllocated s) where
  found_mem : (j : ℕ) → find_target s.target_count 0 s.targets pid ≡ some j → Mem pid (window s)
  found_mem j e =
      let (_, lt, at) = find_target-some s.target_count 0 s.targets pid j e in
      subst (λ x. Mem x (window s)) at (mem-window s j (omega arith) (omega arith))

  missing : find_target s.target_count 0 s.targets pid ≡ none → ¬ Mem pid (window s)
  missing e = find_target-none s.target_count 0 s.targets pid e (omega arith)

module _ (os : Os) (pid : ℤ) (s : Scheduler) (v : IsAllocated s)
    (small : s.target_count < 2 ^ 60) where
  append_target_grown :
      (ensure_capacity os (s.target_count + 1) s).1 ≡ true
      → let r = append_target pid (ensure_capacity os (s.target_count + 1) s).0 true in
        (window r.0 ≡ window s ++ pid ∷ []) × IsAllocated r.0
  unfolding append_target
  append_target_grown grown =
      let t = (ensure_capacity os (s.target_count + 1) s).0 in
      let room = ensure_capacity_room os (s.target_count + 1) s v.allocated (omega arith) grown in
      let frame = ensure_capacity_frame os (s.target_count + 1) s in
      (
        take-write t.target_count t.targets pid (omega arith)
            ∙ ap (λ xs. xs ++ pid ∷ [])
                (ap (λ n. take n t.targets) frame.0
                  ∙ take-ensure_capacity os (s.target_count + 1) s v.allocated (omega arith) grown
                      s.target_count (omega arith)),
        record {
          allocated = length-set t.targets t.target_count pid ∙ room.0;
          count_fits = omega arith;
        },
      )

  -- With fewer than 2^60 targets in an array as long as its capacity, adding answers 0 and changes
  -- nothing if the pid is there; else it either reports ENOMEM and changes nothing, or puts the pid
  -- at the window's end.
  pub add_target_cases : Added pid s (add_target os pid s)
  unfolding add_target
  add_target_cases = elim (Option-cases (find_target s.target_count 0 s.targets pid)) [
    | inr (j, e) ↦ rw (e, add_target) (inl (found_mem pid s v j e, refl))
    | inl e ↦ elim (Bool-cases (ensure_capacity os (s.target_count + 1) s).1) [
      | inl grown ↦
          rw (e, add_target, grown)
            (inr (
              inr (
                missing pid s v e,
                refl,
                (append_target_grown grown).0,
                (append_target_grown grown).1,
              )))
      | inr full ↦
          rw (e, add_target, full)
            (inr (
              inl (
                missing pid s v e,
                ap (λ (t : Scheduler). (t, enomem))
                    (ensure_capacity_failed os (s.target_count + 1) s full),
              )))
    ]
  ]

abbrev pub Removed : ℤ → Scheduler → Scheduler × Status → Type 0
Removed pid s r =
    ((¬ Mem pid (window s)) × (r.1 ≡ not_found) × (window r.0 ≡ window s))
    ⊎ ((r.1 ≡ ok) × Perm (window s) (pid ∷ window r.0))

window-split :
    (s : Scheduler)
    → IsAllocated s
    → 0 < s.target_count
    → window s ≡ take (s.target_count - 1) s.targets ++ target s.targets (s.target_count - 1) ∷ []
window-split s v h =
    let e : s.target_count ≡ suc (s.target_count - 1) = omega arith in
    ap (λ n. take n s.targets) e ∙ take-suc (s.target_count - 1) s.targets (pos 0) (omega arith)

-- The window without its last entry, with that entry written over index `i`.
window-remove_at :
    (s : Scheduler) (i : ℕ)
    → IsAllocated s
    → i < s.target_count
    → Perm (window s) (target s.targets i ∷ window (remove_at (some i) s))
unfolding remove_at
window-remove_at s i v h =
    rw (take-set k i s.targets last, ← get_or-take s.target_count i s.targets (pos 0) h, split)
      (swap_out-perm (take k s.targets) last i
        (omega (arith, length-take k s.targets (omega arith))))
  where
    k : ℕ
    k = s.target_count - 1

    last : ℤ
    last = target s.targets k

    split : window s ≡ take k s.targets ++ last ∷ []
    split = window-split s v (omega arith)

-- Removing an absent pid reports it and keeps the window; else the window loses the pid, once, up
-- to order, and nothing else.
pub remove_target_cases :
    (pid : ℤ) (s : Scheduler) → IsAllocated s → Removed pid s (remove_target pid s)
unfolding remove_target
remove_target_cases pid s v = elim (Option-cases (find_target s.target_count 0 s.targets pid)) [
  | inl e ↦ rw (e, remove_target) (inl (missing pid s v e, refl, refl))
  | inr (j, e) ↦
      rw (e, remove_target)
        (let (_, lt, at) = find_target-some s.target_count 0 s.targets pid j e in
          inr (
            refl,
            subst (λ x. Perm (window s) (x ∷ window (remove_at (some j) s))) at
                (window-remove_at s j v (omega arith)),
          ))
]
