-- ===== src/Scheduler/Rotation.antt =====
-- One round of `scheduler_thread_main`, and a sequence of rounds: who is stopped and resumed.
use mathlib.Core.List.{Mem, Nodup, Nodup-cons}
use native.Mathlib.Nat.{mod-eq_of_lt, mod_self}
use native.Mathlib.Decide.{dec_lt}
use container_internals_simu.Prelude.{
  ℕ, zero, suc, ◌+◌, ◌%◌, ◌≤◌, ◌<◌, ◌≡◌, ◌≢◌, inl, inr, refl, sym, ap, subst, ◌∙◌, Bool, true,
  false, List, [], ◌∷◌, All, arith, length, keep, ◌==◌, length-take, get_or-take, Bool-cases,
  if◌then◌else◌,
}
use container_internals_simu.Prelude.Int.{ℤ, pos, positive}
use container_internals_simu.Scheduler.{
  Scheduler, Os, sigstop, sigcont, slept, target, pid_is_alive, prune_dead, thread_round,
}
use container_internals_simu.Scheduler.Window.{window, mem-get_or}
use container_internals_simu.Scheduler.Prune.{window-prune_dead}
use container_internals_simu.Scheduler.Invariant.{IsValid, prune_dead-IsValid}

pub All-keep : (p : ℤ → Bool) (xs : List ℤ) → All (λ x. p x ≡ true) (keep p xs)
All-keep p [] = tt
All-keep p (x ∷ xs) = elim (Bool-cases (p x)) [
  | inl e ↦ rw (e, keep) (e, All-keep p xs)
  | inr e ↦ rw (e, keep) (All-keep p xs)
]

All-target :
    (p : ℤ → Bool) (xs : List ℤ) (i : ℕ)
    → All (λ x. p x ≡ true) xs
    → i < length xs
    → p (target xs i) ≡ true
All-target p [] i a h = absurd (omega arith)
All-target p (x ∷ xs) zero a h = a.0
All-target p (x ∷ xs) (suc i) a h = All-target p xs i a.1 (omega arith)

-- Distinct entries stand at distinct indices.
pub target_inj :
    (xs : List ℤ) (i j : ℕ)
    → Nodup xs
    → i < length xs
    → j < length xs
    → target xs i ≡ target xs j
    → i ≡ j
target_inj [] i j d p q e = absurd (omega arith)
target_inj (x ∷ xs) zero zero d p q e = refl
target_inj (x ∷ xs) zero (suc j) d p q e =
    absurd ((Nodup-cons.0 d).0 (subst (λ y. Mem y xs) (sym e) (mem-get_or xs j (omega arith))))
target_inj (x ∷ xs) (suc i) zero d p q e =
    absurd ((Nodup-cons.0 d).0 (subst (λ y. Mem y xs) e (mem-get_or xs i (omega arith))))
target_inj (x ∷ xs) (suc i) (suc j) d p q e =
    ap suc (target_inj xs i j (Nodup-cons.0 d).1 (omega arith) (omega arith) e)

pub alive-positive : (os : Os) (pid : ℤ) → pid_is_alive os.probe pid ≡ true → positive pid ≡ true
unfolding pid_is_alive
alive-positive os pid h = ground arith

-- The pid at an index of a pruned window is alive.
pruned_alive :
    (os : Os) (s : Scheduler)
    → IsValid s
    → (i : ℕ) → i < (prune_dead os s).target_count
    → pid_is_alive os.probe (target (prune_dead os s).targets i) ≡ true
pruned_alive os s v i h =
    let p = prune_dead os s in
    let w = prune_dead-IsValid os s v in
    let same = get_or-take p.target_count i p.targets (pos 0) h in
    subst (λ x. pid_is_alive os.probe x ≡ true) same
      (All-target (pid_is_alive os.probe) (window p) i
        (subst (All (λ x. pid_is_alive os.probe x ≡ true))
          (sym (window-prune_dead os s (omega arith)))
          (All-keep (pid_is_alive os.probe) (window s)))
        (omega (arith, length-take p.target_count p.targets (omega arith))))

-- Within a valid window, two indices with one pid are one index.
pub index_inj :
    (s : Scheduler) (i j : ℕ)
    → IsValid s
    → i < s.target_count
    → j < s.target_count
    → target s.targets i ≡ target s.targets j
    → i ≡ j
index_inj s i j v p q e =
    target_inj (window s) i j v.distinct
      (omega (arith, length-take s.target_count s.targets (omega arith)))
      (omega (arith, length-take s.target_count s.targets (omega arith)))
      (get_or-take s.target_count i s.targets (pos 0) p
        ∙ e
        ∙ sym (get_or-take s.target_count j s.targets (pos 0) q))

-- The index after the current one, going round.
abbrev pub next_index : ℕ → ℕ → ℕ
next_index index count = if index + 1 == count then 0 else index + 1

pub next_index-mod :
    (index count : ℕ) → index < count → (index + 1) % count ≡ next_index index count
next_index-mod index count h = elim (dec_lt (index + 1) count) [
  | yes less ↦ rw (mod-eq_of_lt less) (ground arith)
  | no more ↦ ground (arith, full)
]
  where
    full : (index + 1 ≡ count) → (index + 1) % count ≡ 0
    full e = rw (e, mod_self) refl

module _ (os : Os) (s : Scheduler) (v : IsValid s) (runs : s.stop_requested ≡ false) where
  -- In a well-formed scheduler that is on and not asked to stop, a round that finds at least two
  -- live targets stops the current one and resumes the one after it in the ring, both alive and
  -- different, for one time slice; the window then holds the live targets in order.
  pub thread_round_switches :
      s.enabled ≡ true
      → 2 ≤ (prune_dead os s).target_count
      → let p = prune_dead os s in
        let current = target p.targets p.current_index in
        let index = next_index p.current_index p.target_count in
        let next = target p.targets index in
        (thread_round os s ≡ (
          record p { current_index = index },
          slept (sigstop current ∷ sigcont next ∷ []) s.time_slice_ms,
        ))
        × (current ≢ next)
        × (pid_is_alive os.probe current ≡ true)
        × (pid_is_alive os.probe next ≡ true)
        × (window p ≡ keep (pid_is_alive os.probe) (window s))
  unfolding thread_round
  thread_round_switches on two =
      let p = prune_dead os s in
      let w = prune_dead-IsValid os s v in
      let here : p.current_index < p.target_count = omega arith in
      let there : next_index p.current_index p.target_count < p.target_count = ground arith in
      let a = pruned_alive os s v p.current_index here in
      let b = pruned_alive os s v (next_index p.current_index p.target_count) there in
      (
        ground (
          arith,
          mod-eq_of_lt here,
          next_index-mod p.current_index p.target_count here,
          mod-eq_of_lt there,
          alive-positive os (target p.targets p.current_index) a,
          alive-positive os (target p.targets (next_index p.current_index p.target_count)) b,
        ),
        λ e. ground (
          arith,
          index_inj p p.current_index (next_index p.current_index p.target_count) w here there e,
        ),
        a,
        b,
        window-prune_dead os s (omega arith),
      )
