-- ===== src/Orchestrator/Monitor/Limits.antt =====
-- How often and how fast the monitor restarts a service.

use native.Mathlib.Decide.{ℕ_discrete, dec_lt}
use container_internals_simu.Prelude.{
  ℕ, zero, suc, ◌+◌, ◌≤◌, ◌<◌, ◌≡◌, ◌⊎◌, refl, sym, subst, inl, inr, Bool, true, false, ◌||◌, ◌&&◌,
  not, Option, none, some, List, [], ◌∷◌, ◌++◌, arith, length, get_or, ltb, ◌==◌, Bool-cases,
  get_or-set_self, get_or-set_ne, set_ge,
}
use container_internals_simu.Prelude.Int.{ℤ}
use container_internals_simu.Prelude.Text.{is_empty}
use container_internals_simu.Orchestrator.Types.{
  max_services, Service, zero_service, count, service,
}
use container_internals_simu.Container.{ContainerState}
use container_internals_simu.Orchestrator.State.{
  Orchestrator, Runtime, Info, Action, WorkItem, health_check, restart_item, put,
}
use container_internals_simu.Orchestrator.Scan.{
  add_item, wants_restart, scan_exited, scan_alive, scan_info, scan_service, scan, Scanned,
  is_state_stopped, has_ended, is_settling,
}

-- The service has not been restarted more often than it may be; no limit is written as 0.
abbrev pub IsLimited : Service → Type 0
IsLimited svc = (svc.max_restarts ≡ 0) ⊎ (svc.restart_count ≤ svc.max_restarts)

abbrev pub HasRoom : Service → Type 0
HasRoom svc = (svc.max_restarts ≡ 0) ⊎ (svc.restart_count < svc.max_restarts)

abbrev pub index_of : WorkItem → ℕ
index_of (health_check i cid hcmd name) = i
index_of (restart_item i r) = i

abbrev pub IsAllowed : (ℕ → Service) → WorkItem → Type 0
IsAllowed at (health_check i cid hcmd name) = Unit
IsAllowed at (restart_item i r) = HasRoom (at i)

-- What the scan of service `i` may collect.
abbrev IsFrom : ℕ → Service → Option WorkItem → Type 0
IsFrom i svc none = Unit
IsFrom i svc (some (health_check k cid hcmd name)) = k ≡ i
IsFrom i svc (some (restart_item k r)) = (k ≡ i) × HasRoom svc

-- The scan keeps what the limit is about.
abbrev IsScanOf : ℕ → Service → Scanned → Type 0
IsScanOf i svc s =
    (s.svc.max_restarts ≡ svc.max_restarts)
    × (s.svc.restart_count ≡ svc.restart_count)
    × IsFrom i svc s.item

has_room :
    (svc : Service) (wanted : Bool)
    → (wanted && (svc.max_restarts == 0 || ltb svc.restart_count svc.max_restarts)) ≡ true
    → HasRoom svc
has_room svc true h = ground (arith, h)
has_room svc false h = absurd (cc h)

scan_exited-IsScanOf :
    (overshift : ℕ → ℤ) (i : ℕ) (exit_code : ℤ) (svc : Service)
    → IsScanOf i svc (scan_exited overshift i exit_code svc)
unfolding scan_exited
scan_exited-IsScanOf overshift i exit_code svc =
    elim (Bool-cases (
      wants_restart svc.restart exit_code
      && (svc.max_restarts == 0 || ltb svc.restart_count svc.max_restarts))) [
        | inl again ↦
            rw again (refl, refl, (refl, has_room svc (wants_restart svc.restart exit_code) again))
        | inr ended ↦ rw ended (refl, refl, tt)
      ]

scan_alive-IsScanOf :
    (now i : ℕ) (cst : ContainerState) (svc : Service) → IsScanOf i svc (scan_alive now i cst svc)
unfolding scan_alive
scan_alive-IsScanOf now i cst svc = ground arith

scan_info-IsScanOf :
    (overshift : ℕ → ℤ) (now i : ℕ) (svc : Service) (info : Option Info)
    → IsScanOf i svc (scan_info overshift now i svc info)
unfolding scan_info
scan_info-IsScanOf overshift now i svc none = (refl, refl, tt)
scan_info-IsScanOf overshift now i svc (some info) =
    elim (Bool-cases (is_state_stopped info.state && not (has_ended svc.state))) [
      | inl exited ↦ rw exited (scan_exited-IsScanOf overshift i info.exit_code svc)
      | inr other ↦ rw other (scan_alive-IsScanOf now i info.state svc)
    ]

scan_service-IsScanOf :
    (rt : Runtime) (now i : ℕ) (svc : Service) → IsScanOf i svc (scan_service rt now i svc)
unfolding scan_service
scan_service-IsScanOf rt now i svc =
    elim (Bool-cases (is_empty svc.container_id || is_settling svc.state)) [
      | inl skip ↦ rw skip (refl, refl, tt)
      | inr watch ↦
          rw watch (scan_info-IsScanOf rt.overshift now i svc (rt.get_info svc.container_id))
    ]

-- Work collected in the order of the services, from `lo` on and below `hi`.
unfoldable pub IsPending : (ℕ → Service) → ℕ → ℕ → List WorkItem → Type 0
IsPending at lo hi [] = Unit
IsPending at lo hi (item ∷ work) =
    (lo ≤ index_of item)
    × (index_of item < hi)
    × IsAllowed at item
    × IsPending at (index_of item + 1) hi work

-- Only the services that the work is about matter.
pub IsPending-same :
    (at at' : ℕ → Service) (lo hi : ℕ) (work : List WorkItem)
    → ((j : ℕ) → lo ≤ j → j < hi → HasRoom (at j) → HasRoom (at' j))
    → IsPending at lo hi work
    → IsPending at' lo hi work
unfolding IsPending
IsPending-same at at' lo hi [] keeps p = tt
IsPending-same at at' lo hi (health_check i cid hcmd name ∷ work) keeps (low, high, ok, rest) =
    (low, high, tt, IsPending-same at at' (i + 1) hi work (λ j a b. keeps j (omega arith) b) rest)
IsPending-same at at' lo hi (restart_item i r ∷ work) keeps (low, high, ok, rest) = (
  low,
  high,
  keeps i low high ok,
  IsPending-same at at' (i + 1) hi work (λ j a b. keeps j (omega arith) b) rest,
)

IsPending-snoc :
    (at : ℕ → Service) (lo hi : ℕ) (work : List WorkItem) (item : Option WorkItem)
    → lo ≤ hi
    → IsFrom hi (at hi) item
    → IsPending at lo hi work
    → IsPending at lo (hi + 1) (add_item work item)
unfolding IsPending
IsPending-snoc at lo hi [] none le from p = tt
IsPending-snoc at lo hi [] (some (health_check i cid hcmd name)) le from p =
    (omega (arith, from), omega (arith, from), tt, tt)
IsPending-snoc at lo hi [] (some (restart_item i r)) le from p = (
  omega (arith, from.0),
  omega (arith, from.0),
  subst (λ k. HasRoom (at k)) (sym from.0) from.1,
  tt,
)
IsPending-snoc at lo hi (first ∷ work) none le from (low, high, ok, rest) = (
  low,
  omega arith,
  ok,
  IsPending-snoc at (index_of first + 1) hi work none (omega arith) from rest,
)
IsPending-snoc at lo hi (first ∷ work) (some item) le from (low, high, ok, rest) = (
  low,
  omega arith,
  ok,
  IsPending-snoc at (index_of first + 1) hi work (some item) (omega arith) from rest,
)

abbrev pub AllLimited : Orchestrator → Type 0
AllLimited o = (j : ℕ) → IsLimited (service o.spec j)

pub put-cases :
    (P : ℕ → Service → Type 0) (i : ℕ) (svc : Service) (o : Orchestrator)
    → P i svc
    → ((j : ℕ) → P j (service o.spec j))
    → (j : ℕ) → P j (service (put i svc o).spec j)
put-cases P i svc o new old j = elim (ℕ_discrete i j) [
  | no ne ↦ subst (P j) (sym (get_or-set_ne o.spec.services i j svc zero_service ne)) (old j)
  | yes e ↦ elim (dec_lt i (count o.spec)) [
    | yes lt ↦
        subst (λ k. P k (service (put i svc o).spec k)) e
          (subst (P i) (sym (get_or-set_self o.spec.services i svc zero_service lt)) new)
    | no out ↦
        subst (λ xs. P j (get_or xs j zero_service))
          (sym (set_ge o.spec.services i svc (omega (arith, out)))) (old j)
  ]
]

pub scan-IsPending :
    (rt : Runtime) (now n i : ℕ) (o : Orchestrator) (work : List WorkItem) (actions : List Action)
    → IsPending (service o.spec) 0 i work
    → AllLimited o
    → let r = scan rt now n i o work actions in
      (hi : ℕ) × IsPending (service r.0.spec) 0 hi r.1 × AllLimited r.0
unfolding scan
scan-IsPending rt now zero i o work actions p a = (i, p, a)
scan-IsPending rt now (suc n) i o work actions p a =
    elim (Bool-cases (ltb (length work) max_services)) [
      | inr full ↦ rw full (i, p, a)
      | inl more ↦
          let svc = service o.spec i in
          let s = scan_service rt now i svc in
          let (max, restarts, from) = scan_service-IsScanOf rt now i svc in
          let keeps : (j : ℕ)
              → HasRoom (service o.spec j)
              → HasRoom (service (put i s.svc o).spec j) =
            put-cases (λ j t. HasRoom (service o.spec j) → HasRoom t) i s.svc o
              (λ room. rw (max, restarts) room) (λ j room. room) in
          rw more (
            scan-IsPending rt now n (i + 1) (put i s.svc o) (add_item work s.item)
              (actions ++ s.actions)
              (IsPending-same (service o.spec) (service (put i s.svc o).spec) 0 (i + 1)
                (add_item work s.item) (λ j low high. keeps j)
                (IsPending-snoc (service o.spec) 0 i work s.item (omega arith) from p))
              (put-cases (λ j t. IsLimited t) i s.svc o (rw (max, restarts) (a i)) a))
    ]
