-- ===== src/Orchestrator/Validate/Sound.antt =====
-- `orch_validate` accepts exactly the specifications that can be started.
use container_internals_simu.Prelude.{
  ℕ, zero, suc, ◌+◌, ◌<◌, ◌≡◌, ◌≢◌, ◌↔◌, refl, subst, inl, inr, Option, none, some, List, [], ◌∷◌,
  ◌++◌, All, arith, Option-cases,
}
use container_internals_simu.Prelude.Text.{Text, is_empty}
use container_internals_simu.Orchestrator.Types.{Service, Spec, count, service}
use container_internals_simu.Orchestrator.Topo.{find_svc, topo_sort}
use container_internals_simu.Orchestrator.Topo.Queue.{IsBounded}
use container_internals_simu.Orchestrator.Topo.Order.{
  IsStartupOrder, topo_sort-IsStartupOrder, topo_sort_finds,
}
use container_internals_simu.Orchestrator.Validate.{
  Problem, missing_image, missing_command, problem_if, unknown, check_deps, check_service,
  check_services, check_cycle, orch_validate,
}

-- A dependency that names a service.
abbrev pub IsKnown : Spec → Text → Type 0
IsKnown spec d = (j : ℕ) × (find_svc spec d ≡ some j)

pub record IsComplete (spec : Spec) (s : Service) : Type 0 where
  pub has_image : s.image ≢ []
  pub has_command : s.command ≢ []
  pub known : All (IsKnown spec) s.deps

append_nil : (xs ys : List Problem) → ((xs ++ ys) ≡ []) ↔ ((xs ≡ []) × (ys ≡ []))
append_nil [] ys = (λ e. (refl, e), λ e. e.1)
append_nil (x ∷ xs) ys = (λ e. absurd (cc e), λ e. absurd (cc e.0))

unknown-nil : (name d : Text) (o : Option ℕ) → (unknown name d o ≡ []) ↔ ((j : ℕ) × (o ≡ some j))
unknown-nil name d none = (λ e. absurd (cc e), λ k. absurd (cc k.1))
unknown-nil name d (some j) = (λ e. (j, refl), λ k. refl)

problem_if-nil : (s : Text) (p : Problem) → (problem_if (is_empty s) p ≡ []) ↔ (s ≢ [])
problem_if-nil [] p = (λ e. absurd (cc e), λ h. absurd (h refl))
problem_if-nil (x ∷ s) p = (λ e. λ h. cc, λ h. refl)

check_deps-nil :
    (spec : Spec) (name : Text) (ds : List Text)
    → (check_deps spec name ds ≡ []) ↔ All (IsKnown spec) ds
unfolding check_deps
check_deps-nil spec name [] = (λ e. tt, λ a. refl)
check_deps-nil spec name (d ∷ ds) =
    let here = unknown-nil name d (find_svc spec d) in
    let rest = check_deps-nil spec name ds in
    let both = append_nil (unknown name d (find_svc spec d)) (check_deps spec name ds) in
    (λ e. (here.0 (both.0 e).0, rest.0 (both.0 e).1), λ a. both.1 (here.1 a.0, rest.1 a.1))

check_service-nil : (spec : Spec) (s : Service) → (check_service spec s ≡ []) ↔ IsComplete spec s
unfolding check_service
check_service-nil spec s =
    let image = problem_if-nil s.image (missing_image s.name) in
    let command = problem_if-nil s.command (missing_command s.name) in
    let deps = check_deps-nil spec s.name s.deps in
    let outer = append_nil (problem_if (is_empty s.image) (missing_image s.name)) _ in
    let inner = append_nil (problem_if (is_empty s.command) (missing_command s.name)) _ in
    (
      λ e. record {
        has_image = image.0 (outer.0 e).0;
        has_command = command.0 (inner.0 (outer.0 e).1).0;
        known = deps.0 (inner.0 (outer.0 e).1).1;
      },
      λ c. outer.1 (image.1 c.has_image, inner.1 (command.1 c.has_command, deps.1 c.known)),
    )

check_services-nil :
    (n i : ℕ) (spec : Spec)
    → check_services n i spec ≡ []
    → (k : ℕ) → k < n
    → IsComplete spec (service spec (i + k))
unfolding check_services
check_services-nil zero i spec e k lt = absurd (omega arith)
check_services-nil (suc n) i spec e zero lt =
    subst (λ j. IsComplete spec (service spec j)) (omega arith)
      ((check_service-nil spec (service spec i)).0
        ((append_nil (check_service spec (service spec i)) _).0 e).0)
check_services-nil (suc n) i spec e (suc k) lt =
    subst (λ j. IsComplete spec (service spec j)) (omega arith)
      (check_services-nil n (i + 1) spec
        ((append_nil (check_service spec (service spec i)) _).0 e).1 k (omega arith))

nil-check_services :
    (n i : ℕ) (spec : Spec)
    → ((k : ℕ) → k < n → IsComplete spec (service spec (i + k)))
    → check_services n i spec ≡ []
unfolding check_services
nil-check_services zero i spec h = refl
nil-check_services (suc n) i spec h =
    (append_nil (check_service spec (service spec i)) (check_services n (i + 1) spec)).1 (
      (check_service-nil spec (service spec i)).1
          (subst (λ j. IsComplete spec (service spec j)) (omega arith) (h 0 (omega arith))),
      nil-check_services n (i + 1) spec (λ k lt.
          subst (λ j. IsComplete spec (service spec j)) (omega arith) (h (suc k) (omega arith))),
    )

check_cycle-nil :
    (spec : Spec) (ps : List Problem)
    → check_cycle spec ps ≡ []
    → (ps ≡ []) × ((order : List ℕ) × (topo_sort spec ≡ some order))
unfolding check_cycle
check_cycle-nil spec (p ∷ ps) e = absurd (cc e)
check_cycle-nil spec [] e = elim (Option-cases (topo_sort spec)) [
  | inl none_found ↦ absurd (cc (rw (none_found, check_cycle) at e))
  | inr (order, found) ↦ (refl, (order, found))
]

-- What a specification needs to be started.
pub record IsStartable (spec : Spec) : Type 0 where
  pub complete : (i : ℕ) → i < count spec → IsComplete spec (service spec i)
  pub order : List ℕ
  pub ordered : IsStartupOrder spec order

-- Within the bounds of the arrays, validation answers 0 exactly if every service has an image and a
-- command and only known dependencies, and the services can be put in an order that starts each
-- behind what it depends on.
pub orch_validate_iff :
    (spec : Spec) → IsBounded spec → (orch_validate spec ≡ []) ↔ IsStartable spec
unfolding orch_validate
orch_validate_iff spec b = (
  λ e.
      let (clean, (order, found)) = check_cycle-nil spec (check_services (count spec) 0 spec) e in
      record {
        complete = λ i lt.
            subst (λ j. IsComplete spec (service spec j)) (omega arith)
              (check_services-nil (count spec) 0 spec clean i lt);
        order = order;
        ordered = topo_sort-IsStartupOrder spec order b found;
      },
  λ s.
      let (order, found, ordered) = topo_sort_finds spec s.order b s.ordered in
      rw
        (
          nil-check_services (count spec) 0 spec (λ k lt.
              subst (λ j. IsComplete spec (service spec j)) (omega arith) (s.complete k lt)),
          check_cycle,
          found,
        )
        refl,
)
