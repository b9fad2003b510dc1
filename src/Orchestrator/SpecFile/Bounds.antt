-- ===== src/Orchestrator/SpecFile/Bounds.antt =====
-- What a specification file gives stays within the arrays and the ranges of the settings.
use container_internals_simu.Prelude.{
  ℕ, zero, suc, ◌≤◌, ◌<◌, ◌≡◌, ◌⊎◌, refl, ap, subst, inl, inr, false, Option, none, some, List, [],
  ◌∷◌, ◌++◌, All, arith, tests, All-append, length, length-append, get_or, ltb, Bool-cases,
}
use container_internals_simu.Prelude.Int.{ℤ}
use container_internals_simu.Prelude.Text.{Text, codes, is_empty, copy_string}
use container_internals_simu.Orchestrator.Types.{
  HealthCheck, Service, Spec, zero_service, max_services, max_deps, name_size, count,
}
use container_internals_simu.Orchestrator.Topo.Queue.{IsBounded}
use container_internals_simu.Orchestrator.SpecFile.{
  JNode, arr_node, obj_node, JItems, no_items, item, JFields, no_fields, field, clamp, read_deps,
  deps_of_node, add_dep, jp_str, jp_get, checks_of_exec, check_with, setting, health_of_node,
  parse_service, read_services, spec_of_services, spec_of_root,
}

clamp_bounds :
    (low high : ℕ) (v : ℤ) → low ≤ high → (low ≤ clamp low high v) × (clamp low high v ≤ high)
clamp_bounds low high v h = ground (arith, h)

-- Health checks that are on have settings in range.
pub record IsTimed (h : HealthCheck) : Type 0 where
  pub interval : (100 ≤ h.interval_ms) × (h.interval_ms ≤ 300000)
  pub timeout : (100 ≤ h.timeout_ms) × (h.timeout_ms ≤ 60000)
  pub retry : (1 ≤ h.retries) × (h.retries ≤ 100)
  pub grace : h.start_period_ms ≤ 300000

pub record IsConfigured (svc : Service) : Type 0 where
  pub few_deps : length svc.deps ≤ max_deps
  pub limit : svc.max_restarts ≤ 1000
  pub health : (svc.health.enabled ≡ false) ⊎ IsTimed svc.health
  pub unstarted : (svc.container_id ≡ []) × (svc.restart_count ≡ 0) × (svc.health_fail_count ≡ 0)

add_dep_bound :
    (deps : List Text) (d : Option Text)
    → length deps < max_deps
    → length (add_dep deps d) ≤ max_deps
add_dep_bound deps none h = omega arith
add_dep_bound deps (some d) h = omega (arith, length-append deps (copy_string name_size d ∷ []))

-- Of two results, the services of the second.
services_of : Option Spec → List Service
services_of none = []
services_of (some spec) = spec.services

deps_bounded :
    (services : List Service)
    → All IsConfigured services
    → (i : ℕ) → length (get_or services i zero_service).deps ≤ max_deps
deps_bounded [] a i = omega arith
deps_bounded (svc ∷ services) a zero = a.0.few_deps
deps_bounded (svc ∷ services) a (suc i) = deps_bounded services a.1 i

read_deps_bound :
    (items : JItems) (deps : List Text)
    → length deps ≤ max_deps
    → length (read_deps items deps) ≤ max_deps
unfolding read_deps
read_deps_bound no_items deps h = h
read_deps_bound (item v rest) deps h = elim (Bool-cases (ltb (length deps) max_deps)) [
  | inr full ↦ rw full h
  | inl more ↦ rw more (
      read_deps_bound rest (add_dep deps (jp_str (some v)))
        (add_dep_bound deps (jp_str (some v)) (omega (tests, more))))
]

deps_of_node_bound : (node : Option JNode) → length (deps_of_node node) ≤ max_deps
unfolding deps_of_node
deps_of_node_bound (some (arr_node items)) = read_deps_bound items [] (omega arith)
deps_of_node_bound _ = omega arith

module _ (to_int : Text → ℤ) where
  check_with-IsTimed : (hc : Option JNode) (exec : Text) → IsTimed (check_with to_int hc exec)
  check_with-IsTimed hc exec = record {
    interval = clamp_bounds 100 300000 (setting to_int hc (codes "interval_ms") 5000) (omega arith);
    timeout = clamp_bounds 100 60000 (setting to_int hc (codes "timeout_ms") 1000) (omega arith);
    retry = clamp_bounds 1 100 (setting to_int hc (codes "retries") 3) (omega arith);
    grace =
        (clamp_bounds 0 300000 (setting to_int hc (codes "start_period_ms") 1000) (omega arith)).1;
  }

  checks_of_exec-IsTimed :
      (hc : Option JNode) (exec : Option Text)
      → ((checks_of_exec to_int hc exec).enabled ≡ false) ⊎ IsTimed (checks_of_exec to_int hc exec)
  unfolding checks_of_exec
  checks_of_exec-IsTimed hc none = inl refl
  checks_of_exec-IsTimed hc (some exec) = elim (Bool-cases (is_empty exec)) [
    | inl empty ↦ rw empty (inl refl)
    | inr some_exec ↦ rw some_exec (inr (check_with-IsTimed hc exec))
  ]

  parse_service-IsConfigured :
      (sobj : Option JNode) (name : Text) → IsConfigured (parse_service to_int sobj name)
  unfolding parse_service health_of_node
  parse_service-IsConfigured sobj name = record {
    few_deps = deps_of_node_bound (jp_get sobj (codes "depends_on"));
    limit = (clamp_bounds 0 1000 (setting to_int sobj (codes "max_restarts") 0) (omega arith)).1;
    health =
        checks_of_exec-IsTimed (jp_get sobj (codes "health_check"))
          (jp_str (jp_get (jp_get sobj (codes "health_check")) (codes "exec")));
    unstarted = (refl, refl, refl);
  }

  read_services-IsConfigured :
      (members : JFields) (services : List Service)
      → All IsConfigured services
      → length services ≤ max_services
      → All IsConfigured (read_services to_int members services)
        × (length (read_services to_int members services) ≤ max_services)
  unfolding read_services
  read_services-IsConfigured no_fields services a h = (a, h)
  read_services-IsConfigured (field k v rest) services a h =
      elim (Bool-cases (ltb (length services) max_services)) [
        | inr full ↦ rw full (a, h)
        | inl more ↦ rw more (
            read_services-IsConfigured rest (services ++ parse_service to_int (some v) k ∷ [])
              (All-append IsConfigured services (parse_service to_int (some v) k ∷ []) a
                (parse_service-IsConfigured (some v) k, tt))
              (omega (tests, more, length-append services (parse_service to_int (some v) k ∷ []))))
      ]

  spec_of_services-IsConfigured :
      (path : Text) (name : Option Text) (node : Option JNode) (spec : Spec)
      → spec_of_services to_int path name node ≡ some spec
      → All IsConfigured spec.services × (count spec ≤ max_services)
  unfolding spec_of_services services_of
  spec_of_services-IsConfigured path name (some (obj_node members)) spec e =
      let read = read_services-IsConfigured members [] tt (omega arith) in
      let same : read_services to_int members [] ≡ spec.services = ap services_of e in
      subst (λ xs. All IsConfigured xs × (length xs ≤ max_services)) same read
  spec_of_services-IsConfigured path name _ spec e = absurd (cc e)

  -- Whatever a specification file says, the specification that is read from it stays within the
  -- bounds of the arrays, its services have not been started, and their limits and the settings of
  -- their health checks are in range.
  pub spec_of_root-IsBounded :
      (path : Text) (root : Option JNode) (spec : Spec)
      → spec_of_root to_int path root ≡ some spec
      → IsBounded spec × All IsConfigured spec.services
  unfolding spec_of_root
  spec_of_root-IsBounded path (some (obj_node members)) spec e =
      let (configured, few) =
        spec_of_services-IsConfigured path
          (jp_str (jp_get (some (obj_node members)) (codes "name")))
          (jp_get (some (obj_node members)) (codes "services")) spec e in
      (record { few = few; few_deps = deps_bounded spec.services configured }, configured)
  spec_of_root-IsBounded path _ spec e = absurd (cc e)
