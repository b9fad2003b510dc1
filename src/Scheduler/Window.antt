-- ===== src/Scheduler/Window.antt =====
-- The live window of the target array, `targets[0 .. target_count)`, and the search in it.
use mathlib.Core.List.{
  Mem, Nodup, Perm, Sublist, append-nil, perm_middle, mem-cons, mem-cons_self, mem-cons_of_mem,
  not-mem-nil,
}
use mathlib.Core.List.Perm
use mathlib.Core.List.Nodup
use mathlib.Core.List.Sublist
use native.Mathlib.Numerals.{add-one}
use mathlib.Core.Logic.Or
use container_internals_simu.Prelude.{
  ℕ, zero, suc, ◌+◌, ◌≤◌, ◌<◌, ◌≡◌, inl, inr, ◌∙◌, ap, subst, Bool, none, some, List, [], ◌∷◌, ◌++◌,
  arith, set, keep, get_or-take, length-take, take-suc, take-set_ge, get_or-set_self, length-set,
  length, take, drop, drop-eq-cons, Bool-cases,
}
use container_internals_simu.Prelude.Int.{ℤ, pos, eq_ℤ_iff}
use container_internals_simu.Scheduler.{Scheduler, target, find_target}

-- The pids that the scheduler switches between, in order.
abbrev pub window : Scheduler → List ℤ
window s = take s.target_count s.targets

-- Entries `[i, i + n)` of an array.
abbrev pub slice : ℕ → ℕ → List ℤ → List ℤ
slice n i ts = take n (drop i ts)

pub slice-suc :
    (n i : ℕ) (ts : List ℤ) → i < length ts → slice (suc n) i ts ≡ target ts i ∷ slice n (i + 1) ts
slice-suc n i ts h =
    let e : suc i ≡ i + 1 = omega arith in
    ap (take (suc n)) (drop-eq-cons i ts (pos 0) h) ∙ ap (λ k. target ts i ∷ take n (drop k ts)) e

-- What the search finds is an index of the pid in the range.
pub find_target-some :
    (n i : ℕ) (ts : List ℤ) (pid : ℤ) (j : ℕ)
    → find_target n i ts pid ≡ some j
    → (i ≤ j) × (j < i + n) × (target ts j ≡ pid)
unfolding find_target
find_target-some zero i ts pid j h = cc
find_target-some (suc n) i ts pid j h =
    ground (arith, eq_ℤ_iff (target ts i) pid, find_target-some n (i + 1) ts pid j)

-- A search that finds nothing shows that the pid is not there.
pub find_target-none :
    (n i : ℕ) (ts : List ℤ) (pid : ℤ)
    → find_target n i ts pid ≡ none
    → i + n ≤ length ts
    → ¬ Mem pid (slice n i ts)
unfolding find_target
find_target-none zero i ts pid h fits m = not-mem-nil m
find_target-none (suc n) i ts pid h fits m =
    Or.elim (λ a b. absurd a) (mem-cons.0 (subst (Mem pid) (slice-suc n i ts (omega arith)) m))
      (λ e. ground (arith, eq_ℤ_iff (target ts i) pid))
      (find_target-none n (i + 1) ts pid (ground arith) (omega arith))

-- Writing the pid that was read extends the written prefix, and leaves what is still to be read.
pub take-write :
    (w : ℕ) (ts : List ℤ) (x : ℤ) → w < length ts → take (w + 1) (set ts w x) ≡ take w ts ++ x ∷ []
take-write w ts x h = rw (add-one w) (
    take-suc w (set ts w x) (pos 0) (omega (arith, length-set ts w x))
    ∙ (rw (take-set_ge w w ts x (omega arith), get_or-set_self ts w x (pos 0) h)))

pub mem-get_or : (xs : List ℤ) (i : ℕ) → i < length xs → Mem (target xs i) xs
mem-get_or [] i h = absurd (omega arith)
mem-get_or (x ∷ xs) zero h = mem-cons_self
mem-get_or (x ∷ xs) (suc i) h = mem-cons_of_mem x (mem-get_or xs i (omega arith))

-- An index in the window names one of its pids.
pub mem-window :
    (s : Scheduler) (i : ℕ)
    → s.target_count ≤ length s.targets
    → i < s.target_count
    → Mem (target s.targets i) (window s)
mem-window s i fits h =
    subst (λ x. Mem x (window s)) (get_or-take s.target_count i s.targets (pos 0) h)
      (mem-get_or (window s) i (omega (arith, length-take s.target_count s.targets fits)))

-- Taking an element out by writing the last one over it, and dropping the end.
pub swap_out-perm :
    (xs : List ℤ) (last : ℤ) (i : ℕ)
    → i ≤ length xs
    → Perm (xs ++ last ∷ []) (target (xs ++ last ∷ []) i ∷ set xs i last)
swap_out-perm [] last zero h = Perm.refl (last ∷ [])
swap_out-perm [] last (suc i) h = absurd (omega arith)
swap_out-perm (x ∷ xs) last zero h =
    Perm.cons x (subst (λ r. Perm (xs ++ last ∷ []) (last ∷ r)) (append-nil xs) (perm_middle xs []))
swap_out-perm (x ∷ xs) last (suc i) h =
    Perm.trans (Perm.cons x (swap_out-perm xs last i (omega arith)))
      (Perm.swap (target (xs ++ last ∷ []) i) x _)

keep-sublist : (p : ℤ → Bool) (xs : List ℤ) → Sublist (keep p xs) xs
keep-sublist p [] = Sublist.refl []
keep-sublist p (x ∷ xs) = elim (Bool-cases (p x)) [
  | inl e ↦ rw (e, keep) (Sublist.cons-cons x (keep-sublist p xs))
  | inr e ↦ rw (e, keep) (Sublist.cons x (keep-sublist p xs))
]

pub Nodup-keep : (p : ℤ → Bool) (xs : List ℤ) → Nodup xs → Nodup (keep p xs)
Nodup-keep p xs = Nodup.sublist (keep-sublist p xs)
