-- ===== src/Orchestrator/Topo.antt =====
-- `find_svc` and `topo_sort`. The queue and the order are the used parts of the two arrays.
pub mod Count
pub mod Queue
pub mod Visit
pub mod Run
pub mod Order
use container_internals_simu.Prelude.{
  ℕ, zero, suc, ◌+◌, ◌-◌, ◌%◌, ◌^◌, Bool, Option, none, some, List, [], ◌∷◌, ◌++◌, length, get_or,
  set, replicate, ltb, ◌==◌, if◌then◌else◌,
}
use container_internals_simu.Prelude.Text.{Text, str_eq}
use container_internals_simu.Orchestrator.Types.{
  Service, Spec, zero_service, max_services, count, service,
}

-- The first service of that name, `n` entries from `i` on; `none` stands for -1.
unfoldable pub find_from : ℕ → ℕ → Spec → Text → Option ℕ
find_from zero i spec name = none
find_from (suc n) i spec name =
    let rest = find_from n (i + 1) spec name in
    if str_eq (service spec i).name name then some i else rest

abbrev pub find_svc : Spec → Text → Option ℕ
find_svc spec name = find_from (count spec) 0 spec name

abbrev pub int_mod : ℕ
int_mod = 2 ^ 32

-- An `int` less one, as its 32 bits.
abbrev pub dec : ℕ → ℕ
dec k = (k + (int_mod - 1)) % int_mod

-- `if (dep >= 0) indegree[i]++;` over the dependencies of a service
unfoldable pub count_deps : Spec → List Text → ℕ → ℕ
count_deps spec [] k = k
count_deps spec (d ∷ ds) k =
    count_deps spec ds (elim (find_svc spec d) [ none ↦ k | some _ ↦ k + 1 ])

unfoldable pub count_indegrees : ℕ → ℕ → Spec → List ℕ → List ℕ
count_indegrees zero i spec indegree = indegree
count_indegrees (suc n) i spec indegree =
    count_indegrees n (i + 1) spec
      (set indegree i (count_deps spec (service spec i).deps (get_or indegree i 0)))

-- `if (indegree[i] == 0) queue[qt++] = i;`
unfoldable pub enqueue_ready : ℕ → ℕ → List ℕ → List ℕ → List ℕ
enqueue_ready zero i indegree queue = queue
enqueue_ready (suc n) i indegree queue =
    enqueue_ready n (i + 1) indegree (if get_or indegree i 0 == 0 then queue ++ i ∷ [] else queue)

-- `find_svc(...) == cur`
abbrev pub is_cur : Option ℕ → ℕ → Bool
is_cur none cur = Bool.false
is_cur (some j) cur = j == cur

-- The loop over the dependencies of service `i`, when `cur` has started.
unfoldable pub visit_deps : Spec → ℕ → ℕ → List Text → List ℕ → List ℕ → List ℕ × List ℕ
visit_deps spec cur i [] indegree queue = (indegree, queue)
visit_deps spec cur i (d ∷ ds) indegree queue =
    let hit = is_cur (find_svc spec d) cur in
    let less = set indegree i (dec (get_or indegree i 0)) in
    visit_deps spec cur i ds (if hit then less else indegree)
      (if hit then (if get_or less i 0 == 0 then queue ++ i ∷ [] else queue) else queue)

unfoldable pub visit_all : ℕ → ℕ → Spec → ℕ → List ℕ → List ℕ → List ℕ × List ℕ
visit_all zero i spec cur indegree queue = (indegree, queue)
visit_all (suc n) i spec cur indegree queue =
    let (indegree', queue') = visit_deps spec cur i (service spec i).deps indegree queue in
    visit_all n (i + 1) spec cur indegree' queue'

-- `while (qh < qt)`; `order` is what was taken out of the queue.
unfoldable pub drain : ℕ → Spec → ℕ → List ℕ → List ℕ → List ℕ → List ℕ
drain zero spec qh indegree queue order = order
drain (suc fuel) spec qh indegree queue order =
    let cur = get_or queue qh 0 in
    let (indegree', queue') = visit_all (count spec) 0 spec cur indegree queue in
    let rest = drain fuel spec (qh + 1) indegree' queue' (order ++ cur ∷ []) in
    if ltb qh (length queue) then rest else order

unfoldable pub started_order : Spec → List ℕ
started_order spec =
    let indegree = count_indegrees (count spec) 0 spec (replicate max_services 0) in
    let queue = enqueue_ready (count spec) 0 indegree [] in
    drain (count spec) spec 0 indegree queue []

-- `none` stands for -1.
unfoldable pub topo_sort : Spec → Option (List ℕ)
topo_sort spec =
    let order = started_order spec in if length order == count spec then some order else none
