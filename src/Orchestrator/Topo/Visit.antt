-- ===== src/Orchestrator/Topo/Visit.antt =====
-- The double loop of `topo_sort` for a service taken out of the queue: in-degrees count the
-- dependencies that wait, and the queue holds the services for which none does.
use native.Mathlib.Decide.{ℕ_discrete}
use container_internals_simu.Prelude.{
  ℕ, zero, suc, ◌+◌, ◌-◌, ◌≤◌, ◌<◌, ◌≡◌, ◌≢◌, ap, sym, subst, ◌∙◌, inl, inr, Bool, true, false,
  ◌&&◌, List, [], ◌∷◌, ◌++◌, length, get_or, set, take, ltb, ◌==◌, if◌then◌else◌, arith, Bool-cases,
  take-append_left, length-append, length-set, get_or-set_self, get_or-set_ne,
}
use container_internals_simu.Prelude.Text.{Text}
use container_internals_simu.Orchestrator.Types.{Spec, count, max_services}
use container_internals_simu.Orchestrator.Topo.{int_mod, visit_deps, visit_all}
use container_internals_simu.Orchestrator.Topo.Count.{
  elem, left, hits, left-snoc, visit_deps_lem, queue_after,
}
use container_internals_simu.Orchestrator.Topo.Queue.{
  deps_of, IsBounded, left_mono, left_le, elem-take, IsQueue, IsQueue-same, IsQueue-push,
}

-- A service of the specification for which no dependency waits.
abbrev pub ready_for : Spec → List ℕ → ℕ → Bool
ready_for spec order j = ltb j (count spec) && (left spec order (deps_of spec j) == 0)

-- What is counted as started for service `j`, when the loop has come to service `i`.
abbrev pub seen : ℕ → List ℕ → List ℕ → ℕ → List ℕ
seen i order order' j = if ltb j i then order' else order

-- Between two services of the loop that takes `cur`, at `qh`, out of the queue.
pub record IsVisiting (spec : Spec) (order : List ℕ) (cur qh i : ℕ) (indegree queue : List ℕ)
    : Type 0 where
  pub slots : length indegree ≡ max_services
  pub degrees :
      (j : ℕ)
      → j < count spec
      → get_or indegree j 0 ≡ left spec (seen i order (order ++ cur ∷ []) j) (deps_of spec j)
  pub queued : IsQueue spec (λ j. ready_for spec (seen i order (order ++ cur ∷ []) j) j) queue
  pub taken : order ++ cur ∷ [] ≡ take (suc qh) queue
  pub behind_end : suc qh ≤ length queue

module _ (spec : Spec) (b : IsBounded spec) (order : List ℕ) (cur qh : ℕ)
    (fresh : elem cur order ≡ false) where
  abbrev order' : List ℕ
  order' = order ++ cur ∷ []

  seen-next : (i j : ℕ) → j ≢ i → seen i order order' j ≡ seen (i + 1) order order' j
  seen-next i j ne = ground (arith, ne)

  seen_before : (i : ℕ) → seen i order order' i ≡ order
  seen_before i = ground arith

  seen_after : (i : ℕ) → seen (i + 1) order order' i ≡ order'
  seen_after i = ground arith

  -- What one pass of the loop does to the queue, if `m` dependencies of service `i` are met.
  queue_after-IsQueue :
      (i m : ℕ) (queue : List ℕ)
      → i < count spec
      → left spec order (deps_of spec i) ≡ m + left spec order' (deps_of spec i)
      → ((x : ℕ) → elem x order' ≡ true → elem x queue ≡ true)
      → IsQueue spec (λ j. ready_for spec (seen i order order' j) j) queue
      → IsQueue spec
          (λ j. ready_for spec (seen (i + 1) order order' j) j)
          (queue_after i (left spec order (deps_of spec i)) m queue)
  queue_after-IsQueue i m queue lt split inside q = elim (Bool-cases (m == 0)) [
    | inl none_met ↦
        rw none_met (IsQueue-same spec _ _ queue q (same (ground (arith, split, none_met))))
    | inr some_met ↦ elim (Bool-cases (left spec order (deps_of spec i) == m)) [
      | inr other ↦
          rw (some_met, other)
            (IsQueue-same spec _ _ queue q (same (ground (arith, split, some_met, other))))
      | inl last ↦
          rw (some_met, last)
            (IsQueue-push spec _ _ queue i q lt (before ∙ ground (arith, split, some_met))
              (ground (arith, split, last, left_mono spec order' queue (deps_of spec i) inside))
              (after ∙ ground (arith, split, last)) elsewhere)
    ]
  ]
    where
      elsewhere :
          (j : ℕ)
          → j ≢ i
          → ready_for spec (seen i order order' j) j
            ≡ ready_for spec (seen (i + 1) order order' j) j
      elsewhere j ne = ap (λ o. ready_for spec o j) (seen-next i j ne)

      before : ready_for spec (seen i order order' i) i ≡ (left spec order (deps_of spec i) == 0)
      before = rw (seen_before i) (ground (arith, lt))

      after :
          ready_for spec (seen (i + 1) order order' i) i ≡ (left spec order' (deps_of spec i) == 0)
      after = rw (seen_after i) (ground (arith, lt))

      same :
          (left spec order (deps_of spec i) == 0) ≡ (left spec order' (deps_of spec i) == 0)
          → (j : ℕ)
          → ready_for spec (seen i order order' j) j
            ≡ ready_for spec (seen (i + 1) order order' j) j
      same e j = elim (ℕ_discrete j i) [
        | yes here ↦ rw here (before ∙ e ∙ sym after)
        | no ne ↦ elsewhere j ne
      ]

  -- Appending behind `k` entries keeps them.
  queue_after-take :
      (k i l m : ℕ) (queue : List ℕ)
      → k ≤ length queue
      → (take k (queue_after i l m queue) ≡ take k queue) × (k ≤ length (queue_after i l m queue))
  queue_after-take k i l m queue le =
      ground (arith, take-append_left k queue (i ∷ []) le, length-append queue (i ∷ []))

  taken-inside :
      (queue : List ℕ)
      → order' ≡ take (suc qh) queue
      → (x : ℕ) → elem x order' ≡ true
      → elem x queue ≡ true
  taken-inside queue e x h = elem-take (suc qh) x queue (subst (λ o. elem x o ≡ true) e h)

  visit_step :
      (i : ℕ) (indegree queue : List ℕ)
      → i < count spec
      → IsVisiting spec order cur qh i indegree queue
      → let r = visit_deps spec cur i (deps_of spec i) indegree queue in
        IsVisiting spec order cur qh (i + 1) r.0 r.1
  visit_step i indegree queue lt v =
      rw (visit_deps_lem spec cur i ds indegree queue fits enough small, here)
        (record {
          slots = length-set indegree i (l - m) ∙ v.slots;
          degrees = degrees;
          queued = queue_after-IsQueue i m queue lt split (taken-inside queue v.taken) v.queued;
          taken = v.taken ∙ sym (queue_after-take (suc qh) i l m queue v.behind_end).0;
          behind_end = (queue_after-take (suc qh) i l m queue v.behind_end).1;
        })
    where
      ds : List Text
      ds = deps_of spec i

      l : ℕ
      l = left spec order ds

      m : ℕ
      m = hits spec cur ds

      split : l ≡ m + left spec order' ds
      split = left-snoc spec order cur ds fresh

      here : get_or indegree i 0 ≡ l
      here = v.degrees i lt ∙ ap (λ o. left spec o ds) (seen_before i)

      fits : i < length indegree
      fits = omega (arith, v.slots, b.few)

      enough : m ≤ get_or indegree i 0
      enough = omega (arith, here, split)

      small : get_or indegree i 0 < int_mod
      small = omega (arith, here, left_le spec order ds, b.few_deps i)

      degrees :
          (j : ℕ)
          → j < count spec
          → get_or (set indegree i (l - m)) j 0
            ≡ left spec (seen (i + 1) order order' j) (deps_of spec j)
      degrees j lt_j = elim (ℕ_discrete j i) [
        | yes e ↦
            rw (e, seen_after i, get_or-set_self indegree i (l - m) 0 fits) (omega (arith, split))
        | no ne ↦
            get_or-set_ne indegree i j (l - m) 0 (λ e. ne (sym e))
            ∙ v.degrees j lt_j
            ∙ ap (λ o. left spec o (deps_of spec j)) (seen-next i j ne)
      ]

  pub visit_all-IsVisiting :
      (n i : ℕ) (indegree queue : List ℕ)
      → i + n ≡ count spec
      → IsVisiting spec order cur qh i indegree queue
      → let r = visit_all n i spec cur indegree queue in
        IsVisiting spec order cur qh (count spec) r.0 r.1
  unfolding visit_all
  visit_all-IsVisiting zero i indegree queue e v =
      subst (λ k. IsVisiting spec order cur qh k indegree queue) (omega (arith, e)) v
  visit_all-IsVisiting (suc n) i indegree queue e v =
      visit_all-IsVisiting n (i + 1) _ _ (omega arith) (visit_step i indegree queue (omega arith) v)
