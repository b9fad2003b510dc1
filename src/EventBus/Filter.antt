-- ===== src/EventBus/Filter.antt =====
-- The filter of `eventbus_print_filtered`.
use mathlib.Core.Logic.{ite, if_pos, if_neg}
use container_internals_simu.Prelude.{
  ◌≡◌, ◌≢◌, inl, inr, refl, sym, ap, ◌∙◌, Option, none, some, true, List, [], ◌∷◌, arith, get_or,
  keep, ◌==◌, Bool-cases, ==_refl, false,
}
use container_internals_simu.EventBus.Types.{
  Event, EventType, EventType-discrete, all_types, type_code, container_created, container_started,
  container_stopped, container_deleted, container_paused, container_unpaused, exec_launched,
  oom_kill, image_built, image_removed, image_tagged, net_init, net_teardown,
  security_profile_applied, sched_enabled, sched_disabled, orch_spec_up, orch_spec_down,
  orch_svc_started, orch_svc_healthy, orch_svc_unhealthy, orch_svc_restarted, alert_fired,
  alert_resolved,
}
use container_internals_simu.EventBus.{passes}

-- The events whose type is the one asked for; all, if none is.
abbrev pub of_type : Option EventType → List Event → List Event
of_type none events = events
of_type (some t) [] = []
of_type (some t) (e ∷ events) =
    ite (EventType-discrete e.type t) (e ∷ of_type (some t) events) (of_type (some t) events)

-- Different types have different values.
codes_differ : (a b : EventType) → a ≢ b → (type_code a == type_code b) ≡ false
codes_differ a b differ = elim (Bool-cases (type_code a == type_code b)) [
  | inr other ↦ other
  | inl same ↦
      let equal : type_code a ≡ type_code b = ground (arith, same) in
      absurd (
        differ (
          sym (type_at-code a)
          ∙ ap (λ k. get_or all_types k container_created) equal
          ∙ type_at-code b))
]
  where
    type_at-code : (t : EventType) → get_or all_types (type_code t) container_created ≡ t
    type_at-code container_created = refl
    type_at-code container_started = refl
    type_at-code container_stopped = refl
    type_at-code container_deleted = refl
    type_at-code container_paused = refl
    type_at-code container_unpaused = refl
    type_at-code exec_launched = refl
    type_at-code oom_kill = refl
    type_at-code image_built = refl
    type_at-code image_removed = refl
    type_at-code image_tagged = refl
    type_at-code net_init = refl
    type_at-code net_teardown = refl
    type_at-code security_profile_applied = refl
    type_at-code sched_enabled = refl
    type_at-code sched_disabled = refl
    type_at-code orch_spec_up = refl
    type_at-code orch_spec_down = refl
    type_at-code orch_svc_started = refl
    type_at-code orch_svc_healthy = refl
    type_at-code orch_svc_unhealthy = refl
    type_at-code orch_svc_restarted = refl
    type_at-code alert_fired = refl
    type_at-code alert_resolved = refl

pub keep-of_type :
    (filter : Option EventType) (events : List Event)
    → keep (passes filter) events ≡ of_type filter events
keep-of_type none [] = refl
keep-of_type none (e ∷ events) = ap (λ r. e ∷ r) (keep-of_type none events)
keep-of_type (some t) [] = refl
keep-of_type (some t) (e ∷ events) = elim (EventType-discrete e.type t) [
  | yes same ↦
      let hit : (type_code e.type == type_code t) ≡ true =
        ap (λ x. type_code x == type_code t) same ∙ ==_refl (type_code t) in
      rw (hit, keep)
        (ap (λ r. e ∷ r) (keep-of_type (some t) events)
          ∙ sym (if_pos (EventType-discrete e.type t) same _ _))
  | no other ↦
      rw (codes_differ e.type t other, keep)
        (keep-of_type (some t) events ∙ sym (if_neg (EventType-discrete e.type t) other _ _))
]
