-- ===== src/Orchestrator/Validate.antt =====
-- `orch_validate`: what it complains about, and what a specification without complaints is like.
pub mod Sound
use container_internals_simu.Prelude.{
  ℕ, zero, suc, ◌+◌, Bool, true, false, Option, none, some, List, [], ◌∷◌, ◌++◌, if◌then◌else◌,
}
use container_internals_simu.Prelude.Text.{Text, is_empty}
use container_internals_simu.Orchestrator.Types.{Service, Spec, count, service}
use container_internals_simu.Orchestrator.Topo.{find_svc, topo_sort}

-- A line that is printed. With each of them `ok` becomes 0.
pub data Problem : Type 0 where
  missing_image missing_command : Text → Problem
  unknown_dependency : Text → Text → Problem
  dependency_cycle : Problem

abbrev pub problem_if : Bool → Problem → List Problem
problem_if b p = if b then p ∷ [] else []

-- `if (find_svc(spec, s->deps[d]) < 0)`
abbrev pub unknown : Text → Text → Option ℕ → List Problem
unknown name d none = unknown_dependency name d ∷ []
unknown name d (some _) = []

unfoldable pub check_deps : Spec → Text → List Text → List Problem
check_deps spec name [] = []
check_deps spec name (d ∷ ds) = unknown name d (find_svc spec d) ++ check_deps spec name ds

unfoldable pub check_service : Spec → Service → List Problem
check_service spec s =
    problem_if (is_empty s.image) (missing_image s.name)
    ++ (problem_if (is_empty s.command) (missing_command s.name) ++ check_deps spec s.name s.deps)

-- `n` services from `i` on.
unfoldable pub check_services : ℕ → ℕ → Spec → List Problem
check_services zero i spec = []
check_services (suc n) i spec = check_service spec (service spec i) ++ check_services n (i + 1) spec

check_cycle : Spec → List Problem → List Problem
check_cycle spec (p ∷ ps) = p ∷ ps
check_cycle spec [] = elim (topo_sort spec) [ none ↦ dependency_cycle ∷ [] | some _ ↦ [] ]

-- The result is 0 if there is no problem, and else -1.
unfoldable pub orch_validate : Spec → List Problem
unfolding check_cycle
orch_validate spec = check_cycle spec (check_services (count spec) 0 spec)
