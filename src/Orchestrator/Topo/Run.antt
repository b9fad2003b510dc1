-- ===== src/Orchestrator/Topo/Run.antt =====
-- The main loop of `topo_sort`, and what it starts from.
use native.Mathlib.Decide.{ℕ_discrete}
use container_internals_simu.Prelude.{
  ℕ, zero, suc, ◌+◌, ◌≤◌, ◌<◌, ◌≡◌, ◌≢◌, refl, ap, sym, subst, ◌∙◌, inl, inr, Bool, false, ◌&&◌,
  List, [], ◌∷◌, ◌++◌, length, get_or, set, take, replicate, ltb, ◌==◌, if◌then◌else◌, arith, tests,
  Bool-cases, length-set, get_or-set_self, get_or-set_ne, length-replicate, get_or-replicate,
  take-suc,
}
use container_internals_simu.Prelude.Text.{take-eq_of_le}
use container_internals_simu.Orchestrator.Types.{Spec, count, max_services}
use container_internals_simu.Orchestrator.Topo.{
  count_deps, count_indegrees, enqueue_ready, visit_all, drain, started_order,
}
use container_internals_simu.Orchestrator.Topo.Count.{elem, left, count_deps-left}
use container_internals_simu.Orchestrator.Topo.Queue.{
  deps_of, IsBounded, waiting, waiting_nil, left_mono, IsQueue, IsQueue-same, IsQueue-push,
}
use container_internals_simu.Orchestrator.Topo.Visit.{
  ready_for, seen, IsVisiting, visit_all-IsVisiting,
}

-- At the head of the loop `while (qh < qt)`.
pub record IsDraining (spec : Spec) (qh : ℕ) (indegree queue order : List ℕ) : Type 0 where
  pub slots : length indegree ≡ max_services
  pub degrees : (j : ℕ) → j < count spec → get_or indegree j 0 ≡ left spec order (deps_of spec j)
  pub queued : IsQueue spec (ready_for spec order) queue
  pub taken : order ≡ take qh queue
  pub bound : qh ≤ length queue

drain_step :
    (spec : Spec) (qh : ℕ) (indegree queue order : List ℕ)
    → IsBounded spec
    → qh < length queue
    → IsDraining spec qh indegree queue order
    → let cur = get_or queue qh 0 in
      let r = visit_all (count spec) 0 spec cur indegree queue in
      IsDraining spec (qh + 1) r.0 r.1 (order ++ cur ∷ [])
drain_step spec qh indegree queue order b more d = record {
  slots = v.slots;
  degrees = λ j lt. v.degrees j lt ∙ ap (λ o. left spec o (deps_of spec j)) (at_end j lt);
  queued = IsQueue-same spec _ _ _ v.queued ready_end;
  taken = v.taken ∙ ap (λ k. take k queue') next;
  bound = subst (λ k. k ≤ length queue') next v.behind_end;
}
  where
    cur : ℕ
    cur = get_or queue qh 0

    queue' : List ℕ
    queue' = (visit_all (count spec) 0 spec cur indegree queue).1

    order' : List ℕ
    order' = order ++ cur ∷ []

    next : suc qh ≡ qh + 1
    next = omega arith

    fresh : elem cur order ≡ false
    fresh = rw d.taken (d.queued.once qh more)

    at_start : (j : ℕ) → order ≡ seen 0 order order' j
    at_start j = ground arith

    at_end : (j : ℕ) → j < count spec → seen (count spec) order order' j ≡ order'
    at_end j lt = ground (arith, lt)

    ready_end :
        (j : ℕ) → ready_for spec (seen (count spec) order order' j) j ≡ ready_for spec order' j
    ready_end j = elim (Bool-cases (ltb j (count spec))) [ inl e ↦ rw e | inr e ↦ rw e ]

    v :
        IsVisiting spec order cur qh
          (count spec)
          (visit_all (count spec) 0 spec cur indegree queue).0
          (visit_all (count spec) 0 spec cur indegree queue).1
    v =
        visit_all-IsVisiting spec b order cur qh fresh (count spec) 0 indegree queue (omega arith)
          (record {
            slots = d.slots;
            degrees = λ j lt. d.degrees j lt ∙ ap (λ o. left spec o (deps_of spec j)) (at_start j);
            queued =
                IsQueue-same spec _ _ queue d.queued
                  (λ j. ap (λ o. ready_for spec o j) (at_start j));
            taken = ap (λ o. o ++ cur ∷ []) d.taken ∙ sym (take-suc qh queue 0 more);
            behind_end = omega arith;
          })

-- A list that holds each service once, behind all that it depends on, and every service for which
-- nothing outside the list waits.
abbrev pub IsClosedOrder : Spec → List ℕ → Type 0
IsClosedOrder spec order = IsQueue spec (ready_for spec order) order

IsDraining-end :
    (spec : Spec) (qh : ℕ) (indegree queue order : List ℕ)
    → length queue ≤ qh
    → IsDraining spec qh indegree queue order
    → IsClosedOrder spec order
IsDraining-end spec qh indegree queue order done d =
    let e : order ≡ queue = d.taken ∙ take-eq_of_le qh queue done in
    subst (IsQueue spec (ready_for spec order)) (sym e) d.queued

-- The number of services is fuel enough: none is taken out of the queue twice.
drain-IsClosedOrder :
    (fuel : ℕ) (spec : Spec) (qh : ℕ) (indegree queue order : List ℕ)
    → IsBounded spec
    → count spec ≤ fuel + qh
    → IsDraining spec qh indegree queue order
    → IsClosedOrder spec (drain fuel spec qh indegree queue order)
unfolding drain
drain-IsClosedOrder zero spec qh indegree queue order b enough d =
    IsDraining-end spec qh indegree queue order (omega (arith, d.queued.room)) d
drain-IsClosedOrder (suc fuel) spec qh indegree queue order b enough d =
    elim (Bool-cases (ltb qh (length queue))) [
      | inr done ↦ rw done (IsDraining-end spec qh indegree queue order (omega (tests, done)) d)
      | inl more ↦ rw more (
          drain-IsClosedOrder fuel spec (qh + 1) _ _ _ b (omega arith)
            (drain_step spec qh indegree queue order b (omega (tests, more)) d))
    ]

count_indegrees_lem :
    (n i : ℕ) (spec : Spec) (indegree : List ℕ)
    → i + n ≤ length indegree
    → (length (count_indegrees n i spec indegree) ≡ length indegree)
      × ((j : ℕ)
          → get_or (count_indegrees n i spec indegree) j 0
            ≡ get_or indegree j 0
              + (if ltb j i then 0 else if ltb j (i + n) then left spec [] (deps_of spec j) else 0))
unfolding count_indegrees
count_indegrees_lem zero i spec indegree h = (refl, λ j. ground arith)
count_indegrees_lem (suc n) i spec indegree h =
    let v = count_deps spec (deps_of spec i) (get_or indegree i 0) in
    let (size, at) =
      count_indegrees_lem n (i + 1) spec (set indegree i v)
        (omega (arith, length-set indegree i v)) in
    (
      size ∙ length-set indegree i v,
      λ j. at j ∙ elim (ℕ_discrete j i) [
        | yes e ↦
            rw
              (
                e,
                get_or-set_self indegree i v 0 (omega arith),
                count_deps-left spec (deps_of spec i) (get_or indegree i 0),
              )
              (ground arith)
        | no ne ↦ rw (get_or-set_ne indegree i j v 0 (λ e. ne (sym e))) (ground (arith, ne))
      ],
    )

-- Below the service that the loop has come to.
abbrev below : Spec → ℕ → ℕ → Bool
below spec i j = ltb j i && (left spec [] (deps_of spec j) == 0)

enqueue_ready-IsQueue :
    (n i : ℕ) (spec : Spec) (indegree queue : List ℕ)
    → i + n ≡ count spec
    → ((j : ℕ) → j < count spec → get_or indegree j 0 ≡ left spec [] (deps_of spec j))
    → IsQueue spec (below spec i) queue
    → IsQueue spec (ready_for spec []) (enqueue_ready n i indegree queue)
unfolding enqueue_ready
enqueue_ready-IsQueue zero i spec indegree queue e degrees q =
    subst (λ k. IsQueue spec (below spec k) queue) (omega (arith, e)) q
enqueue_ready-IsQueue (suc n) i spec indegree queue e degrees q =
    enqueue_ready-IsQueue n (i + 1) spec indegree _ (omega arith) degrees (
      rw (degrees i (omega arith)) (elim (Bool-cases (left spec [] (deps_of spec i) == 0)) [
        | inl free ↦ rw free (
            IsQueue-push spec _ _ queue i q (omega arith) (ground arith)
              (ground (
                arith,
                free,
                left_mono spec [] queue (deps_of spec i) (λ x h. absurd (ground (arith, h))),
              ))
              (ground (arith, free)) elsewhere)
        | inr waiting ↦ rw waiting (
            IsQueue-same spec _ _ queue q (λ j. elim (ℕ_discrete j i) [
              | yes here ↦ rw here (ground (arith, waiting))
              | no ne ↦ elsewhere j ne
            ]))
      ]))
  where
    elsewhere : (j : ℕ) → j ≢ i → below spec i j ≡ below spec (i + 1) j
    elsewhere j ne = ground (arith, ne)

-- Before any service is counted the queue is empty.
empty-IsQueue : (spec : Spec) → IsQueue spec (below spec 0) []
empty-IsQueue spec = record {
  members = λ j. ground arith;
  room = omega (arith, waiting_nil (count spec));
  once = λ p lt. absurd (omega arith);
  behind = λ p lt. absurd (omega arith);
}

pub started_order-IsClosedOrder :
    (spec : Spec) → IsBounded spec → IsClosedOrder spec (started_order spec)
unfolding started_order
started_order-IsClosedOrder spec b =
    drain-IsClosedOrder (count spec) spec 0 indegree _ [] b (omega arith) (record {
      slots = counted.0 ∙ replicated;
      degrees = degrees;
      queued =
          enqueue_ready-IsQueue (count spec) 0 spec indegree [] (omega arith) degrees
            (empty-IsQueue spec);
      taken = refl;
      bound = omega arith;
    })
  where
    zeros : (j : ℕ) → get_or {A = ℕ} (replicate max_services 0) j 0 ≡ 0
    zeros j = get_or-replicate {A = ℕ} max_services j 0

    replicated : length (replicate {A = ℕ} max_services 0) ≡ max_services
    replicated = length-replicate {A = ℕ} max_services 0

    indegree : List ℕ
    indegree = count_indegrees (count spec) 0 spec (replicate max_services 0)

    counted :
        (length indegree ≡ length (replicate {A = ℕ} max_services 0))
        × ((j : ℕ)
            → get_or indegree j 0
              ≡ get_or (replicate max_services 0) j 0
                + (if ltb j 0
                    then 0
                    else if ltb j (0 + count spec)
                    then left spec [] (deps_of spec j)
                    else 0))
    counted =
        count_indegrees_lem (count spec) 0 spec (replicate max_services 0)
          (omega (arith, b.few, replicated))

    degrees : (j : ℕ) → j < count spec → get_or indegree j 0 ≡ left spec [] (deps_of spec j)
    degrees j lt = counted.1 j ∙ ground (arith, lt, zeros j)
