-- ===== src/Orchestrator/Topo/Count.antt =====
-- How many dependencies of a service are still to start, and what the loops of `topo_sort` over the
-- dependencies do to that number.
use container_internals_simu.Prelude.{
  ℕ, suc, ◌+◌, ◌-◌, ◌≤◌, ◌<◌, ◌≡◌, refl, ap, sym, ◌∙◌, inl, inr, Bool, false, ◌||◌, Option, none,
  some, List, [], ◌∷◌, ◌++◌, length, get_or, set, ◌==◌, if◌then◌else◌, arith, Bool-cases,
  Option-cases, get_or-set_self, length-set, set-set, set-get_or,
}
use container_internals_simu.Prelude.Text.{Text}
use container_internals_simu.Orchestrator.Types.{Spec}
use container_internals_simu.Orchestrator.Topo.{
  find_svc, int_mod, dec, is_cur, count_deps, visit_deps,
}

abbrev pub elem : ℕ → List ℕ → Bool
elem x [] = false
elem x (y ∷ ys) = (y == x) || elem x ys

-- Whether a dependency is one that has to start, and has not.
abbrev pub waits : List ℕ → Option ℕ → ℕ
waits order none = 0
waits order (some j) = if elem j order then 0 else 1

unfoldable pub left : Spec → List ℕ → List Text → ℕ
left spec order [] = 0
left spec order (d ∷ ds) = waits order (find_svc spec d) + left spec order ds

unfoldable pub hits : Spec → ℕ → List Text → ℕ
hits spec cur [] = 0
hits spec cur (d ∷ ds) =
    let rest = hits spec cur ds in if is_cur (find_svc spec d) cur then suc rest else rest

pub elem-append : (x : ℕ) (xs ys : List ℕ) → elem x (xs ++ ys) ≡ elem x xs || elem x ys
elem-append x [] ys = refl
elem-append x (y ∷ xs) ys = elim (Bool-cases (y == x)) [
  | inl e ↦ rw e
  | inr e ↦ rw e (elem-append x xs ys)
]

waits-snoc :
    (order : List ℕ) (cur : ℕ) (o : Option ℕ)
    → elem cur order ≡ false
    → waits order o ≡ (if is_cur o cur then 1 else 0) + waits (order ++ cur ∷ []) o
waits-snoc order cur none h = refl
waits-snoc order cur (some j) h = ground (arith, elem-append j order (cur ∷ []))

-- When `cur` starts, each dependency on it is met.
pub left-snoc :
    (spec : Spec) (order : List ℕ) (cur : ℕ) (ds : List Text)
    → elem cur order ≡ false
    → left spec order ds ≡ hits spec cur ds + left spec (order ++ cur ∷ []) ds
unfolding left hits
left-snoc spec order cur [] h = refl
left-snoc spec order cur (d ∷ ds) h =
    ground (arith, left-snoc spec order cur ds h, waits-snoc order cur (find_svc spec d) h)

pub count_deps-left :
    (spec : Spec) (ds : List Text) (k : ℕ) → count_deps spec ds k ≡ k + left spec [] ds
unfolding count_deps left
count_deps-left spec [] k = omega arith
count_deps-left spec (d ∷ ds) k = elim (Option-cases (find_svc spec d)) [
  | inl e ↦ rw e (count_deps-left spec ds k ∙ omega arith)
  | inr (j, e) ↦ rw e (count_deps-left spec ds (k + 1) ∙ omega arith)
]

-- The queue after a service's in-degree `k` has fallen by `m`.
abbrev pub queue_after : ℕ → ℕ → ℕ → List ℕ → List ℕ
queue_after i k m queue = if m == 0 then queue else if k == m then queue ++ i ∷ [] else queue

queue_after-suc :
    (i k m : ℕ) (queue : List ℕ)
    → suc m ≤ k
    → queue_after i (k - 1) m (if k - 1 == 0 then queue ++ i ∷ [] else queue)
      ≡ queue_after i k (suc m) queue
queue_after-suc i k m queue h = ground arith

-- The loop over the dependencies of service `i` takes off those on `cur`, and queues the service
-- if they were the last.
pub visit_deps_lem :
    (spec : Spec) (cur i : ℕ) (ds : List Text) (indegree queue : List ℕ)
    → i < length indegree
    → hits spec cur ds ≤ get_or indegree i 0
    → get_or indegree i 0 < int_mod
    → visit_deps spec cur i ds indegree queue ≡ (
      set indegree i (get_or indegree i 0 - hits spec cur ds),
      queue_after i (get_or indegree i 0) (hits spec cur ds) queue,
    )
unfolding visit_deps hits
visit_deps_lem spec cur i [] indegree queue lt le small =
    let e : get_or indegree i 0 ≡ get_or indegree i 0 - 0 = omega arith in
    ap (λ xs. (xs, queue)) (sym (set-get_or indegree i 0) ∙ ap (set indegree i) e)
visit_deps_lem spec cur i (d ∷ ds) indegree queue lt le small =
    elim (Bool-cases (is_cur (find_svc spec d) cur)) [
      | inr e ↦ rw e (visit_deps_lem spec cur i ds indegree queue lt (ground (arith, le, e)) small)
      | inl e ↦
          let k = get_or indegree i 0 in
          let m = hits spec cur ds in
          let more : suc m ≤ k = ground (arith, le, e) in
          let down : dec k ≡ k - 1 = omega arith in
          let at : get_or (set indegree i (k - 1)) i 0 ≡ k - 1 =
            get_or-set_self indegree i (k - 1) 0 lt in
          let diff : k - 1 - m ≡ k - suc m = omega arith in
          rw (e, down, at)
            (visit_deps_lem spec cur i ds (set indegree i (k - 1))
                (if k - 1 == 0 then queue ++ i ∷ [] else queue)
                (omega (arith, length-set indegree i (k - 1))) (omega (arith, at))
                (omega (arith, at))
              ∙ rw (at, set-set indegree i (k - 1) (k - 1 - m), diff)
                  (ap (λ q. (set indegree i (k - suc m), q)) (queue_after-suc i k m queue more)))
    ]
