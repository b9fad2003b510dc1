-- ===== src/EventBus/Types.antt =====
-- `Event`, `EventType` and the table of type names in src/eventbus.h and src/eventbus.c.
use container_internals_simu.Prelude.{
  ℕ, ◌≡◌, refl, Option, none, some, List, [], ◌∷◌, if◌then◌else◌,
}
use container_internals_simu.Prelude.Int.{ℤ, pos}
use container_internals_simu.Prelude.Text.{Text, codes, str_eq, copy_string, is_empty}

pub data EventType : Type 0 where
  container_created container_started container_stopped container_deleted : EventType
  container_paused container_unpaused exec_launched oom_kill : EventType
  image_built image_removed image_tagged net_init net_teardown : EventType
  security_profile_applied sched_enabled sched_disabled orch_spec_up orch_spec_down : EventType
  orch_svc_started orch_svc_healthy orch_svc_unhealthy orch_svc_restarted : EventType
  alert_fired alert_resolved : EventType

pub EventType-discrete : Discrete EventType
EventType-discrete = hlevel

-- In the order of the enumeration.
abbrev pub all_types : List EventType
all_types =
    container_created ∷ container_started ∷ container_stopped ∷ container_deleted ∷ container_paused
    ∷ container_unpaused ∷ exec_launched ∷ oom_kill ∷ image_built ∷ image_removed ∷ image_tagged
    ∷ net_init ∷ net_teardown ∷ security_profile_applied ∷ sched_enabled ∷ sched_disabled
    ∷ orch_spec_up ∷ orch_spec_down ∷ orch_svc_started ∷ orch_svc_healthy ∷ orch_svc_unhealthy
    ∷ orch_svc_restarted ∷ alert_fired ∷ alert_resolved ∷ []

-- The value of the enumeration.
abbrev pub type_code : EventType → ℕ
type_code container_created = 0
type_code container_started = 1
type_code container_stopped = 2
type_code container_deleted = 3
type_code container_paused = 4
type_code container_unpaused = 5
type_code exec_launched = 6
type_code oom_kill = 7
type_code image_built = 8
type_code image_removed = 9
type_code image_tagged = 10
type_code net_init = 11
type_code net_teardown = 12
type_code security_profile_applied = 13
type_code sched_enabled = 14
type_code sched_disabled = 15
type_code orch_spec_up = 16
type_code orch_spec_down = 17
type_code orch_svc_started = 18
type_code orch_svc_healthy = 19
type_code orch_svc_unhealthy = 20
type_code orch_svc_restarted = 21
type_code alert_fired = 22
type_code alert_resolved = 23

unfoldable pub type_name : EventType → Text
type_name container_created = codes "CONTAINER_CREATED"
type_name container_started = codes "CONTAINER_STARTED"
type_name container_stopped = codes "CONTAINER_STOPPED"
type_name container_deleted = codes "CONTAINER_DELETED"
type_name container_paused = codes "CONTAINER_PAUSED"
type_name container_unpaused = codes "CONTAINER_UNPAUSED"
type_name exec_launched = codes "EXEC_LAUNCHED"
type_name oom_kill = codes "OOM_KILL"
type_name image_built = codes "IMAGE_BUILT"
type_name image_removed = codes "IMAGE_REMOVED"
type_name image_tagged = codes "IMAGE_TAGGED"
type_name net_init = codes "NET_INIT"
type_name net_teardown = codes "NET_TEARDOWN"
type_name security_profile_applied = codes "SECURITY_PROFILE_APPLIED"
type_name sched_enabled = codes "SCHED_ENABLED"
type_name sched_disabled = codes "SCHED_DISABLED"
type_name orch_spec_up = codes "ORCH_SPEC_UP"
type_name orch_spec_down = codes "ORCH_SPEC_DOWN"
type_name orch_svc_started = codes "ORCH_SVC_STARTED"
type_name orch_svc_healthy = codes "ORCH_SVC_HEALTHY"
type_name orch_svc_unhealthy = codes "ORCH_SVC_UNHEALTHY"
type_name orch_svc_restarted = codes "ORCH_SVC_RESTARTED"
type_name alert_fired = codes "ALERT_FIRED"
type_name alert_resolved = codes "ALERT_RESOLVED"

-- The loop of `parse_event_line` over the table: the first type with this name.
unfoldable pub resolve_in : List EventType → Text → Option EventType
resolve_in [] name = none
resolve_in (t ∷ ts) name = if str_eq (type_name t) name then some t else resolve_in ts name

abbrev pub resolve : Text → Option EventType
resolve = resolve_in all_types

-- Names tell the types apart.
pub resolve-type_name : (t : EventType) → resolve (type_name t) ≡ some t
unfolding resolve_in type_name str_eq
resolve-type_name container_created = refl
resolve-type_name container_started = refl
resolve-type_name container_stopped = refl
resolve-type_name container_deleted = refl
resolve-type_name container_paused = refl
resolve-type_name container_unpaused = refl
resolve-type_name exec_launched = refl
resolve-type_name oom_kill = refl
resolve-type_name image_built = refl
resolve-type_name image_removed = refl
resolve-type_name image_tagged = refl
resolve-type_name net_init = refl
resolve-type_name net_teardown = refl
resolve-type_name security_profile_applied = refl
resolve-type_name sched_enabled = refl
resolve-type_name sched_disabled = refl
resolve-type_name orch_spec_up = refl
resolve-type_name orch_spec_down = refl
resolve-type_name orch_svc_started = refl
resolve-type_name orch_svc_healthy = refl
resolve-type_name orch_svc_unhealthy = refl
resolve-type_name orch_svc_restarted = refl
resolve-type_name alert_fired = refl
resolve-type_name alert_resolved = refl

pub record Event : Type 0 where
  pub type : EventType
  pub timestamp : ℤ
  pub container_id : Text
  pub detail : Text
  pub value : ℤ
  pub seq : ℕ

-- All bytes zero.
abbrev pub zero_event : Event
zero_event = record {
  type = container_created;
  timestamp = pos 0;
  container_id = [];
  detail = [];
  value = pos 0;
  seq = 0;
}

abbrev pub id_size : ℕ
id_size = 64

abbrev pub detail_size : ℕ
detail_size = 128

-- A text argument that may be NULL, copied into a field of the event.
abbrev pub copy_arg : ℕ → Option Text → Text
copy_arg size none = []
copy_arg size (some s) = if is_empty s then [] else copy_string size s
