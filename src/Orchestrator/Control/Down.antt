-- ===== src/Orchestrator/Control/Down.antt =====
-- `orch_down` stops every container, dependents before what they depend on.
use native.Mathlib.Decide.{ℕ_discrete}
use container_internals_simu.Prelude.{
  ℕ, zero, suc, ◌≤◌, ◌<◌, ◌≡◌, ◌≢◌, refl, ap, ap₂, sym, subst, ◌∙◌, inl, inr, true, false, some,
  List, [], ◌∷◌, ◌++◌, arith, length, take, ◌==◌, get_or, if◌then◌else◌, Bool-cases,
  get_or-set_self, get_or-set_ne, length-set, take-suc,
}
use container_internals_simu.Prelude.Int.{pos}
use container_internals_simu.Prelude.Text.{Text, is_empty, take-eq_of_le}
use container_internals_simu.EventBus.Types.{orch_spec_down}
use container_internals_simu.Orchestrator.Types.{Service, Spec, zero_service, count, service}
use container_internals_simu.Orchestrator.Topo.{topo_sort}
use container_internals_simu.Orchestrator.Topo.Count.{elem, elem-append}
use container_internals_simu.Orchestrator.Topo.Queue.{IsBounded}
use container_internals_simu.Orchestrator.Topo.Order.{IsStartupOrder, topo_sort-IsStartupOrder}
use container_internals_simu.Orchestrator.State.{
  Orchestrator, Action, emitted, deleted, stopped_container,
}
use container_internals_simu.Orchestrator.Control.{stop_service, stop_down, down_order, orch_down}

-- The calls that stop the container of a service, if it has one.
abbrev pub stop_calls : Text → List Action
stop_calls cid = if is_empty cid then [] else stopped_container cid 5 ∷ deleted cid ∷ []

-- The calls for the first `n` services of an order, from the last to the first.
unfoldable pub stop_calls_down : ℕ → List ℕ → Spec → List Action
stop_calls_down zero order spec = []
stop_calls_down (suc n) order spec =
    stop_calls (service spec (get_or order n 0)).container_id ++ stop_calls_down n order spec

is_empty-eq : (s : Text) → is_empty s ≡ true → s ≡ []
is_empty-eq [] h = refl
is_empty-eq (c ∷ s) h = absurd (cc h)

stop_service_lem :
    (i : ℕ) (o : Orchestrator)
    → i < count o.spec
    → ((stop_service i o).1 ≡ stop_calls (service o.spec i).container_id)
      × ((j : ℕ) → j ≢ i → service (stop_service i o).0.spec j ≡ service o.spec j)
      × ((service (stop_service i o).0.spec i).container_id ≡ [])
      × (count (stop_service i o).0.spec ≡ count o.spec)
unfolding stop_service
stop_service_lem i o lt = elim (Bool-cases (is_empty (service o.spec i).container_id)) [
  | inl none_there ↦
      rw none_there
        (refl, λ j ne. refl, is_empty-eq (service o.spec i).container_id none_there, refl)
  | inr there ↦ rw there (
    refl,
    λ j ne. get_or-set_ne o.spec.services i j _ zero_service (λ e. ne (sym e)),
    ap (λ (x : Service). x.container_id) (get_or-set_self o.spec.services i _ zero_service lt),
    length-set o.spec.services i _,
  )
]

elem-take_get :
    (order : List ℕ) (p n : ℕ)
    → p < n
    → n ≤ length order
    → elem (get_or order p 0) (take n order) ≡ true
elem-take_get [] p n lt le = absurd (omega arith)
elem-take_get (x ∷ order) p zero lt le = absurd (omega arith)
elem-take_get (x ∷ order) zero (suc n) lt le = ground arith
elem-take_get (x ∷ order) (suc p) (suc n) lt le =
    ground (arith, elem-take_get order p n (omega arith) (omega arith))

elem-take-suc :
    (order : List ℕ) (n j : ℕ)
    → n < length order
    → elem j (take (suc n) order) ≡ (if get_or order n 0 == j then true else elem j (take n order))
elem-take-suc order n j lt =
    ap (elem j) (take-suc n order 0 lt)
    ∙ elem-append j (take n order) (get_or order n 0 ∷ [])
    ∙ ground arith

-- Entries at different places differ.
entries-differ :
    (order : List ℕ) (p n : ℕ)
    → p < n
    → n < length order
    → elem (get_or order n 0) (take n order) ≡ false
    → get_or order p 0 ≢ get_or order n 0
entries-differ order p n lt le once e = absurd (
    cc (
      elem-take_get order p n lt (omega arith),
      subst (λ x. elem x (take n order) ≡ false) (sym e) once,
    ))

stop_calls_down-same :
    (n : ℕ) (order : List ℕ) (spec spec' : Spec)
    → ((p : ℕ) → p < n → service spec (get_or order p 0) ≡ service spec' (get_or order p 0))
    → stop_calls_down n order spec ≡ stop_calls_down n order spec'
unfolding stop_calls_down
stop_calls_down-same zero order spec spec' same = refl
stop_calls_down-same (suc n) order spec spec' same =
    ap₂ (λ (x : Service) (r : List Action). stop_calls x.container_id ++ r) (same n (omega arith))
      (stop_calls_down-same n order spec spec' (λ p lt. same p (omega arith)))

stop_down_lem :
    (n : ℕ) (order : List ℕ) (o : Orchestrator)
    → n ≤ length order
    → ((p : ℕ) → p < length order → get_or order p 0 < count o.spec)
    → ((p : ℕ) → p < length order → elem (get_or order p 0) (take p order) ≡ false)
    → ((stop_down n order o).1 ≡ stop_calls_down n order o.spec)
      × ((j : ℕ)
          → elem j (take n order) ≡ false
          → service (stop_down n order o).0.spec j ≡ service o.spec j)
      × ((j : ℕ)
          → elem j (take n order) ≡ true
          → (service (stop_down n order o).0.spec j).container_id ≡ [])
unfolding stop_down stop_calls_down
stop_down_lem zero order o le range once = (refl, λ j out. refl, λ j isin. absurd (cc isin))
stop_down_lem (suc n) order o le range once =
    let i = get_or order n 0 in
    let split : (j : ℕ)
        → elem j (take (suc n) order) ≡ false
        → (elem j (take n order) ≡ false) × (j ≢ i) =
      λ j absent. ground (arith, absent, elem-take-suc order n j (omega arith)) in
    let next = (stop_service i o).0 in
    let (calls, others, cleared, size) = stop_service_lem i o (range n (omega arith)) in
    let (rest, out, isin) =
      stop_down_lem n order next (omega arith) (λ p lt. omega (arith, range p lt, size)) once in
    (
      ap₂ (λ (a b : List Action). a ++ b) calls
          (rest
            ∙ stop_calls_down-same n order next.spec o.spec (λ p lt.
              others (get_or order p 0)
                (entries-differ order p n lt (omega arith) (once n (omega arith))))),
      λ j absent. let (gone, ne) = split j absent in out j gone ∙ others j ne,
      λ j present. elim (ℕ_discrete j i) [
        | yes e ↦
            rw e (ap (λ (x : Service). x.container_id) (out i (once n (omega arith))) ∙ cleared)
        | no ne ↦ isin j (ground (arith, ne, present, elem-take-suc order n j (omega arith)))
      ],
    )

-- Bringing a running specification down, whose dependencies have no cycle, stops and deletes the
-- container of every service that has one, once, in the reverse of a startup order, so dependents
-- before what they depend on; then it says that the specification is down. Afterwards no service
-- has a container.
pub orch_down_lem :
    (garbage order : List ℕ) (o : Orchestrator)
    → IsBounded o.spec
    → o.is_running ≡ true
    → topo_sort o.spec ≡ some order
    → let r = orch_down garbage o in
      IsStartupOrder o.spec order
      × (r.1
          ≡ stop_calls_down (length order) order o.spec
            ++ emitted orch_spec_down o.spec.name [] (pos 0) ∷ [])
      × ((i : ℕ) → i < count o.spec → (service r.0.spec i).container_id ≡ [])
unfolding orch_down
orch_down_lem garbage order o b on found =
    let s = topo_sort-IsStartupOrder o.spec order b found in
    let off = record o { is_running = false } in
    let (calls, out, cleared) =
      stop_down_lem (length order) order off (omega arith) s.in_range s.once in
    rw (found, on, down_order, ← s.size)
      (
        s,
        ap (λ xs. xs ++ emitted orch_spec_down o.spec.name [] (pos 0) ∷ []) calls,
        λ i lt. cleared i (
            subst (λ xs. elem i xs ≡ true) (sym (take-eq_of_le (length order) order (omega arith)))
              (s.all i (omega (arith, s.size)))),
      )
