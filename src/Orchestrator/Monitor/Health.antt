-- ===== src/Orchestrator/Monitor/Health.antt =====
-- Health checks of one service, one after the other.
use container_internals_simu.Prelude.{
  ℕ, ◌+◌, ◌≤◌, ◌<◌, ◌≡◌, refl, ap, ◌∙◌, inl, inr, Bool, true, List, [], ◌∷◌, any, arith, leb,
  if◌then◌else◌, Bool-cases, get_or-set_self, length-set,
}
use container_internals_simu.Prelude.Int.{ℤ, pos, eq_ℤ}
use container_internals_simu.Prelude.Text.{Text, str_eq, str_eq_refl}
use container_internals_simu.Orchestrator.Types.{
  ServiceState, healthy, unhealthy, Service, zero_service, count, service,
}
use container_internals_simu.Orchestrator.State.{Orchestrator, put}
use container_internals_simu.Orchestrator.Scan.{is_healthy_state}
use container_internals_simu.Orchestrator.Monitor.{finish_health}

abbrev succeeds : ℤ → Bool
succeeds hc = eq_ℤ hc (pos 0)

-- The checks with these results, the latest first.
abbrev pub run_checks : List ℤ → ℕ → Text → Orchestrator → Orchestrator
run_checks [] i cid o = o
run_checks (hc ∷ earlier) i cid o = (finish_health hc i cid (run_checks earlier i cid o)).0

-- How many failures there were since the last success.
abbrev pub streak : List ℤ → ℕ
streak [] = 0
streak (hc ∷ earlier) = if succeeds hc then 0 else streak earlier + 1

-- What the service looks like after checks with these results.
abbrev pub checked : List ℤ → Service → Service
checked results svc = record svc {
  health_fail_count = streak results;
  state =
      if leb svc.health.retries (streak results)
      then unhealthy
      else if any succeeds results
      then healthy
      else svc.state;
}

service-put :
    (i : ℕ) (svc : Service) (o : Orchestrator)
    → i < count o.spec
    → service (put i svc o).spec i ≡ svc
service-put i svc o lt = get_or-set_self o.spec.services i svc zero_service lt

-- One more check of a service.
abbrev after_check : ℤ → Service → Service
after_check hc svc = record svc {
  health_fail_count = if succeeds hc then 0 else svc.health_fail_count + 1;
  state =
      if succeeds hc
      then healthy
      else if leb svc.health.retries (svc.health_fail_count + 1)
      then unhealthy
      else svc.state;
}

is_healthy_state-eq : (s : ServiceState) → is_healthy_state s ≡ true → s ≡ healthy
is_healthy_state-eq healthy h = refl
is_healthy_state-eq _ h = absurd (cc h)

finish_health_lem :
    (hc : ℤ) (i : ℕ) (cid : Text) (o : Orchestrator)
    → i < count o.spec
    → o.is_running ≡ true
    → (service o.spec i).container_id ≡ cid
    → let after = (finish_health hc i cid o).0 in
      (service after.spec i ≡ after_check hc (service o.spec i))
      × (after.is_running ≡ true)
      × (count after.spec ≡ count o.spec)
unfolding finish_health
finish_health_lem hc i cid o lt on same =
    let known : str_eq (service o.spec i).container_id cid ≡ true = rw same (str_eq_refl cid) in
    elim (Bool-cases (succeeds hc)) [
      | inl good ↦ elim (Bool-cases (is_healthy_state (service o.spec i).state)) [
        | inl already ↦
            rw (on, known, good, already)
              (
                service-put i _ o lt
                    ∙ ap (λ st. record (service o.spec i) { health_fail_count = 0; state = st })
                        (is_healthy_state-eq (service o.spec i).state already),
                refl,
                length-set o.spec.services i _,
              )
        | inr not_yet ↦
            rw (on, known, good, not_yet)
              (service-put i _ o lt, refl, length-set o.spec.services i _)
      ]
      | inr bad ↦
          elim (Bool-cases
            (leb (service o.spec i).health.retries ((service o.spec i).health_fail_count + 1))) [
              | inl limit ↦
                  rw (on, known, bad, limit)
                    (service-put i _ o lt, refl, length-set o.spec.services i _)
              | inr more ↦
                  rw (on, known, bad, more)
                    (service-put i _ o lt, refl, length-set o.spec.services i _)
            ]
    ]

after_check-checked :
    (hc : ℤ) (earlier : List ℤ) (svc : Service)
    → 1 ≤ svc.health.retries
    → after_check hc (checked earlier svc) ≡ checked (hc ∷ earlier) svc
after_check-checked hc earlier svc some_retry =
    ap (λ st. record svc { health_fail_count = streak (hc ∷ earlier); state = st })
      (ground (arith, some_retry))

-- Of a running specification, starting from no failures and with at least one retry: after any
-- series of health checks of one container the service is unhealthy if and only if its last
-- `retries` checks failed; else it is healthy after any success, and as before if there was none.
pub run_checks_lem :
    (results : List ℤ) (i : ℕ) (cid : Text) (o : Orchestrator)
    → i < count o.spec
    → o.is_running ≡ true
    → (service o.spec i).container_id ≡ cid
    → (service o.spec i).health_fail_count ≡ 0
    → 1 ≤ (service o.spec i).health.retries
    → let after = run_checks results i cid o in
      (service after.spec i ≡ checked results (service o.spec i))
      × (after.is_running ≡ true)
      × (count after.spec ≡ count o.spec)
run_checks_lem [] i cid o lt on same none_yet some_retry =
    (ground (arith, none_yet, some_retry), on, refl)
run_checks_lem (hc ∷ earlier) i cid o lt on same none_yet some_retry =
    let (svc, still_on, size) = run_checks_lem earlier i cid o lt on same none_yet some_retry in
    let (next, on', size') =
      finish_health_lem hc i cid (run_checks earlier i cid o) (omega (arith, size)) still_on
        (ap (λ (x : Service). x.container_id) svc ∙ same) in
    (
      next ∙ ap (after_check hc) svc ∙ after_check-checked hc earlier (service o.spec i) some_retry,
      on',
      size' ∙ size,
    )
