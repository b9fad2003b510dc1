-- ===== src/Lifecycle/Registry/Calls.antt =====
-- Any sequence of calls is the same on the linked structures and on a plain list.
use container_internals_simu.Prelude.{
  ℕ, ◌+◌, ◌≤◌, ◌<◌, ◌≢◌, List, [], ◌∷◌, ◌++◌, All, length, arith, length-append,
}
use container_internals_simu.Lifecycle.Registry.{
  Links, append_container, remove_container, IsList, without,
}
use container_internals_simu.Lifecycle.Registry.Append.{append_container-IsList}
use container_internals_simu.Lifecycle.Registry.Remove.{remove_container-IsList}

pub data LinkCall : Type 0 where
  append remove : ℕ → LinkCall

unfoldable pub run_links : ℕ → List LinkCall → Links → Links
unfolding append_container remove_container
run_links fuel [] l = l
run_links fuel (append c ∷ calls) l = run_links fuel calls (append_container c l)
run_links fuel (remove c ∷ calls) l = run_links fuel calls (remove_container fuel c l)

-- The same calls on a plain list.
unfoldable pub run_list : List LinkCall → List ℕ → List ℕ
unfolding without
run_list [] xs = xs
run_list (append c ∷ calls) xs = run_list calls (xs ++ c ∷ [])
run_list (remove c ∷ calls) xs = run_list calls (without c xs)

-- No call appends NULL or a structure that is in the list.
abbrev pub AppendsNew : List LinkCall → List ℕ → Type 0
AppendsNew [] xs = Unit
AppendsNew (append c ∷ calls) xs = (0 < c) × All (λ y. c ≢ y) xs × AppendsNew calls (xs ++ c ∷ [])
AppendsNew (remove c ∷ calls) xs = AppendsNew calls (without c xs)

length-without : (c : ℕ) (xs : List ℕ) → length (without c xs) ≤ length xs
unfolding without
length-without c [] = omega arith
length-without c (x ∷ xs) = ground (arith, length-without c xs)

-- Appending and removing on the linked structures is appending and removing on the list that they
-- stand for, for any sequence of calls that appends only new structures, with more fuel for the
-- walks than there can be structures. So `head` leads through exactly these structures, in order,
-- and `tail` is the last of them.
pub run_links-IsList :
    (fuel : ℕ) (calls : List LinkCall) (l : Links) (xs : List ℕ)
    → IsList l xs
    → AppendsNew calls xs
    → length xs + length calls < fuel
    → IsList (run_links fuel calls l) (run_list calls xs)
unfolding run_links run_list
run_links-IsList fuel [] l xs v new enough = v
run_links-IsList fuel (append c ∷ calls) l xs v new enough =
    run_links-IsList fuel calls (append_container c l) (xs ++ c ∷ [])
      (append_container-IsList l xs c v new.0 new.1) new.2
      (omega (arith, length-append xs (c ∷ [])))
run_links-IsList fuel (remove c ∷ calls) l xs v new enough =
    run_links-IsList fuel calls (remove_container fuel c l) (without c xs)
      (remove_container-IsList fuel c l xs v (omega arith)) new (omega (arith, length-without c xs))
