-- ===== src/Orchestrator/Monitor/Bound.antt =====
-- A pass of the monitor respects `max_restarts`.
use container_internals_simu.Prelude.{
  ℕ, ◌+◌, ◌≡◌, ◌⊎◌, refl, sym, subst, inl, inr, Bool, true, false, not, ◌||◌, Option, none, some,
  List, [], ◌∷◌, arith, leb, if◌then◌else◌, Bool-cases, get_or-set_ne,
}
use container_internals_simu.Prelude.Int.{ℤ, pos, eq_ℤ}
use container_internals_simu.Prelude.Text.{Text, str_eq}
use container_internals_simu.Orchestrator.Types.{Service, zero_service, count, service}
use container_internals_simu.Orchestrator.State.{
  Orchestrator, Action, Runtime, WorkItem, health_check, restart_item, put,
}
use container_internals_simu.Orchestrator.Scan.{is_healthy_state, scan}
use container_internals_simu.Orchestrator.Monitor.{
  rootfs_of, finish_health, finish_restart, perform, perform_all, tick,
}
use container_internals_simu.Orchestrator.Monitor.Limits.{
  IsLimited, HasRoom, index_of, IsAllowed, IsPending, IsPending-same, AllLimited, put-cases,
  scan-IsPending,
}

-- What a critical section may do: nothing, or change service `i` within its limit.
abbrev IsUpdate : ℕ → Orchestrator → Orchestrator → Type 0
IsUpdate i o after = (after ≡ o) ⊎ ((svc : Service) × (after ≡ put i svc o) × IsLimited svc)

finish_health-IsUpdate :
    (hc : ℤ) (i : ℕ) (cid : Text) (o : Orchestrator)
    → IsLimited (service o.spec i)
    → IsUpdate i o (finish_health hc i cid o).0
unfolding finish_health
finish_health-IsUpdate hc i cid o l =
    let svc = service o.spec i in
    elim (Bool-cases (not o.is_running || not (str_eq svc.container_id cid))) [
      | inl gone ↦ rw gone (inl refl)
      | inr there ↦ elim (Bool-cases (eq_ℤ hc (pos 0))) [
        | inl good ↦ elim (Bool-cases (is_healthy_state svc.state)) [
          | inl already ↦ rw (there, good, already) (inr (_, refl, l))
          | inr not_yet ↦ rw (there, good, not_yet) (inr (_, refl, l))
        ]
        | inr bad ↦ elim (Bool-cases (leb svc.health.retries (svc.health_fail_count + 1))) [
          | inl limit ↦ rw (there, bad, limit) (inr (_, refl, l))
          | inr more ↦ rw (there, bad, more) (inr (_, refl, l))
        ]
      ]
    ]

finish_restart-IsUpdate :
    (now i : ℕ) (backoff_s : ℤ) (new_id : Option Text) (o : Orchestrator)
    → HasRoom (service o.spec i)
    → IsUpdate i o (finish_restart now i backoff_s new_id o).0
unfolding finish_restart
finish_restart-IsUpdate now i backoff_s none o room = elim (Bool-cases (not o.is_running)) [
  | inl off ↦ rw off (inl refl)
  | inr on ↦ rw on (inr (_, refl, ground (arith, room)))
]
finish_restart-IsUpdate now i backoff_s (some new_id) o room =
    elim (Bool-cases (not o.is_running)) [
      | inl off ↦ rw off (inl refl)
      | inr on ↦ rw on (inr (_, refl, ground (arith, room)))
    ]

perform-IsUpdate :
    (rt : Runtime) (clock : ℕ → ℕ) (item : WorkItem) (o : Orchestrator)
    → AllLimited o
    → IsAllowed (service o.spec) item
    → IsUpdate (index_of item) o (perform rt clock item o).0
unfolding perform
perform-IsUpdate rt clock (health_check i cid hcmd name) o a ok =
    finish_health-IsUpdate (rt.exec_quiet cid hcmd) i cid o (a i)
perform-IsUpdate rt clock (restart_item i r) o a ok =
    finish_restart-IsUpdate (clock i) i r.backoff_s
      (rt.run_background r.name (rootfs_of rt r.image) r.command) o ok

IsUpdate-AllLimited :
    (i : ℕ) (o after : Orchestrator) → IsUpdate i o after → AllLimited o → AllLimited after
IsUpdate-AllLimited i o after (inl same) a = subst AllLimited (sym same) a
IsUpdate-AllLimited i o after (inr (svc, e, l)) a =
    subst AllLimited (sym e) (put-cases (λ j t. IsLimited t) i svc o l a)

IsUpdate-IsPending :
    (i hi : ℕ) (o after : Orchestrator) (work : List WorkItem)
    → IsUpdate i o after
    → IsPending (service o.spec) (i + 1) hi work
    → IsPending (service after.spec) (i + 1) hi work
IsUpdate-IsPending i hi o after work (inl same) p =
    subst (λ (x : Orchestrator). IsPending (service x.spec) (i + 1) hi work) (sym same) p
IsUpdate-IsPending i hi o after work (inr (svc, e, l)) p =
    subst (λ (x : Orchestrator). IsPending (service x.spec) (i + 1) hi work) (sym e)
      (IsPending-same (service o.spec) (service (put i svc o).spec) (i + 1) hi work
        (λ j low high room.
          subst HasRoom (sym (get_or-set_ne o.spec.services i j svc zero_service (omega arith)))
            room)
        p)

either-AllLimited :
    (b : Bool) (x y : Orchestrator × List Action)
    → AllLimited x.0
    → AllLimited y.0
    → AllLimited (if b then x else y).0
either-AllLimited true x y a c = a
either-AllLimited false x y a c = c

perform_all-AllLimited :
    (rt : Runtime) (clock : ℕ → ℕ) (lo hi : ℕ) (work : List WorkItem) (o : Orchestrator)
    → IsPending (service o.spec) lo hi work
    → AllLimited o
    → AllLimited (perform_all rt clock work o).0
unfolding perform_all IsPending
perform_all-AllLimited rt clock lo hi [] o p a = a
perform_all-AllLimited rt clock lo hi (item ∷ work) o (low, high, ok, rest) a =
    let u = perform-IsUpdate rt clock item o a ok in
    let next = (perform rt clock item o).0 in
    either-AllLimited o.is_running _ _
      (perform_all-AllLimited rt clock (index_of item + 1) hi work next
        (IsUpdate-IsPending (index_of item) hi o next work u rest)
        (IsUpdate-AllLimited (index_of item) o next u a))
      a

-- A pass of the monitor restarts no service more often than its limit: if none has been, none has
-- been after it, whatever the containers, the health commands and the image store do.
pub tick-AllLimited :
    (rt : Runtime) (now : ℕ) (clock : ℕ → ℕ) (o : Orchestrator)
    → AllLimited o
    → AllLimited (tick rt now clock o).0
unfolding tick IsPending
tick-AllLimited rt now clock o a =
    let (hi, p, b) = scan-IsPending rt now (count o.spec) 0 o [] [] tt a in
    let r = scan rt now (count o.spec) 0 o [] [] in
    either-AllLimited o.is_running _ _ (perform_all-AllLimited rt clock 0 hi r.1 r.0 p b) a
