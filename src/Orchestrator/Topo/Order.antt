-- ===== src/Orchestrator/Topo/Order.antt =====
-- `topo_sort` gives a startup order, and finds one whenever there is one.
use native.Mathlib.Decide.{ℕ_discrete}
use container_internals_simu.Prelude.{
  ℕ, zero, suc, ◌≤◌, ◌<◌, ◌≡◌, refl, sym, subst, ◌∙◌, inl, inr, true, false, some, List, [], ◌∷◌,
  All, length, get_or, take, ◌==◌, arith, Bool-cases, Option-cases, take-suc,
}
use container_internals_simu.Prelude.Text.{Text, take-eq_of_le}
use container_internals_simu.Orchestrator.Types.{Spec, count}
use container_internals_simu.Orchestrator.Topo.{find_svc, started_order, topo_sort}
use container_internals_simu.Orchestrator.Topo.Count.{elem, waits, left, elem-append}
use container_internals_simu.Orchestrator.Topo.Queue.{
  deps_of, IsBounded, waiting_all, waiting_none, left_mono,
}
use container_internals_simu.Orchestrator.Topo.Visit.{ready_for}
use container_internals_simu.Orchestrator.Topo.Run.{IsClosedOrder, started_order-IsClosedOrder}

-- A dependency that names a service is met when that service is among those started before.
abbrev pub IsMet : Spec → List ℕ → Text → Type 0
IsMet spec before d = (j : ℕ) → find_svc spec d ≡ some j → elem j before ≡ true

-- Every service once, and each behind the services that it depends on.
pub record IsStartupOrder (spec : Spec) (order : List ℕ) : Type 0 where
  pub size : length order ≡ count spec
  pub in_range : (p : ℕ) → p < length order → get_or order p 0 < count spec
  pub all : (i : ℕ) → i < count spec → elem i order ≡ true
  pub once : (p : ℕ) → p < length order → elem (get_or order p 0) (take p order) ≡ false
  pub deps_first :
      (p : ℕ) → p < length order → All (IsMet spec (take p order)) (deps_of spec (get_or order p 0))

elem-get_or : (xs : List ℕ) (p : ℕ) → p < length xs → elem (get_or xs p 0) xs ≡ true
elem-get_or [] p h = absurd (omega arith)
elem-get_or (x ∷ xs) zero h = ground arith
elem-get_or (x ∷ xs) (suc p) h = ground (arith, elem-get_or xs p (omega arith))

left-IsMet :
    (spec : Spec) (before : List ℕ) (ds : List Text)
    → left spec before ds ≡ 0
    → All (IsMet spec before) ds
unfolding left
left-IsMet spec before [] h = tt
left-IsMet spec before (d ∷ ds) h = (met, left-IsMet spec before ds (omega (arith, h)))
  where
    waits_for_nothing : waits before (find_svc spec d) ≡ 0
    waits_for_nothing = omega (arith, h)

    met : IsMet spec before d
    met j e = ground (arith, subst (λ o. waits before o ≡ 0) e waits_for_nothing)

left-eq_zero :
    (spec : Spec) (before : List ℕ) (ds : List Text)
    → All (IsMet spec before) ds
    → left spec before ds ≡ 0
unfolding left
left-eq_zero spec before [] a = refl
left-eq_zero spec before (d ∷ ds) a = elim (Option-cases (find_svc spec d)) [
  | inl e ↦ rw e (omega (arith, left-eq_zero spec before ds a.1))
  | inr (j, e) ↦ rw (e, a.0 j e) (omega (arith, left-eq_zero spec before ds a.1))
]

topo_sort-some :
    (spec : Spec) (order : List ℕ)
    → topo_sort spec ≡ some order
    → (started_order spec ≡ order) × (length order ≡ count spec)
unfolding topo_sort
topo_sort-some spec order e = elim (Bool-cases (length (started_order spec) == count spec)) [
  | inl full ↦ ground (arith, full, e)
  | inr short ↦ absurd (ground (arith, short, e))
]

ready_lt : (spec : Spec) (order : List ℕ) (j : ℕ) → ready_for spec order j ≡ true → j < count spec
ready_lt spec order j h = ground (arith, h)

-- When `topo_sort` succeeds, on a specification within the bounds of its arrays, its result has
-- every service exactly once, each behind all the services that it depends on.
pub topo_sort-IsStartupOrder :
    (spec : Spec) (order : List ℕ)
    → IsBounded spec
    → topo_sort spec ≡ some order
    → IsStartupOrder spec order
topo_sort-IsStartupOrder spec order b e =
    let (same, size) = topo_sort-some spec order e in
    let c = subst (IsClosedOrder spec) same (started_order-IsClosedOrder spec b) in
    record {
      size = size;
      in_range = λ p lt.
          ready_lt spec order (get_or order p 0)
            (sym (c.members (get_or order p 0)) ∙ elem-get_or order p lt);
      all = waiting_none (count spec) order (omega (arith, c.room, size));
      once = c.once;
      deps_first =
          λ p lt. left-IsMet spec (take p order) (deps_of spec (get_or order p 0)) (c.behind p lt);
    }

-- A closed order that has everything before an entry of a startup order has the entry.
entry_inside :
    (spec : Spec) (order other : List ℕ) (p : ℕ)
    → IsClosedOrder spec order
    → IsStartupOrder spec other
    → p < length other
    → ((x : ℕ) → elem x (take p other) ≡ true → elem x order ≡ true)
    → elem (get_or other p 0) order ≡ true
entry_inside spec order other p c s lt inside =
    c.members (get_or other p 0) ∙ ground (arith, s.in_range p lt, ready)
  where
    ready : left spec order (deps_of spec (get_or other p 0)) ≡ 0
    ready = omega (
      arith,
      left_mono spec (take p other) order (deps_of spec (get_or other p 0)) inside,
      left-eq_zero spec (take p other) (deps_of spec (get_or other p 0)) (s.deps_first p lt),
    )

prefix_inside :
    (spec : Spec) (order other : List ℕ)
    → IsClosedOrder spec order
    → IsStartupOrder spec other
    → (p : ℕ) → p ≤ length other
    → (x : ℕ) → elem x (take p other) ≡ true
    → elem x order ≡ true
prefix_inside spec order other c s zero le x h = absurd (ground (arith, h))
prefix_inside spec order other c s (suc p) le x h =
    let inside = prefix_inside spec order other c s p (omega arith) in
    elim (ℕ_discrete x (get_or other p 0)) [
      | yes e ↦ rw e (entry_inside spec order other p c s le inside)
      | no ne ↦ inside x (
          ground (
            arith,
            subst (λ xs. elem x xs ≡ true) (take-suc p other 0 le) h,
            elem-append x (take p other) (get_or other p 0 ∷ []),
            ne,
          ))
    ]

-- If a specification within the bounds of its arrays has a startup order at all, topo_sort
-- finds one: it reports a cycle only if no order is possible.
pub topo_sort_finds :
    (spec : Spec) (other : List ℕ)
    → IsBounded spec
    → IsStartupOrder spec other
    → (order : List ℕ) × (topo_sort spec ≡ some order) × IsStartupOrder spec order
unfolding topo_sort
topo_sort_finds spec other b s =
    (started_order spec, found, topo_sort-IsStartupOrder spec (started_order spec) b found)
  where
    c : IsClosedOrder spec (started_order spec)
    c = started_order-IsClosedOrder spec b

    inside : (x : ℕ) → elem x other ≡ true → elem x (started_order spec) ≡ true
    inside x h =
        prefix_inside spec (started_order spec) other c s (length other) (omega arith) x (
          subst (λ xs. elem x xs ≡ true) (sym (take-eq_of_le (length other) other (omega arith))) h)

    full : length (started_order spec) ≡ count spec
    full = omega (
      arith,
      c.room,
      waiting_all (count spec) (started_order spec) (λ i lt. inside i (s.all i lt)),
    )

    found : topo_sort spec ≡ some (started_order spec)
    found = ground (arith, full)
