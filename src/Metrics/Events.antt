-- ===== src/Metrics/Events.antt =====
-- The counters of `metrics_on_event` count the events of their types.
use container_internals_simu.Prelude.{
  ℕ, ◌+◌, ◌≤◌, ◌<◌, ◌≡◌, refl, List, [], ◌∷◌, arith, length, ◌==◌, if◌then◌else◌,
}
use container_internals_simu.Prelude.Int.{ℤ}
use container_internals_simu.EventBus.Types.{
  Event, EventType, type_code, container_started, container_stopped, container_deleted,
  container_paused, container_unpaused, exec_launched, oom_kill, image_built, image_removed,
  sched_enabled, sched_disabled,
}
use container_internals_simu.Metrics.{Metrics, ulong_mod, init, inc, count_type, on_event}

-- Events, the latest first.
abbrev pub on_events : List Event → Metrics → Metrics
on_events [] m = m
on_events (e ∷ earlier) m = on_event e (on_events earlier m)

abbrev pub count_of : EventType → List Event → ℕ
count_of t [] = 0
count_of t (e ∷ es) = if type_code e.type == type_code t then count_of t es + 1 else count_of t es

-- Each counter has the number of events of its type.
pub record Counts (m : Metrics) (es : List Event) : Type 0 where
  pub started : m.containers_started ≡ count_of container_started es
  pub stopped : m.containers_stopped ≡ count_of container_stopped es
  pub deleted : m.containers_deleted ≡ count_of container_deleted es
  pub paused : m.containers_paused ≡ count_of container_paused es
  pub unpaused : m.containers_unpaused ≡ count_of container_unpaused es
  pub launched : m.exec_launches ≡ count_of exec_launched es
  pub oom : m.oom_kills ≡ count_of oom_kill es
  pub built : m.images_built ≡ count_of image_built es
  pub removed : m.images_removed ≡ count_of image_removed es
  pub toggled : m.sched_toggles ≡ count_of sched_enabled es + count_of sched_disabled es
  pub all : m.events_total ≡ length es

-- Two types' numbers of events are no more than all.
count_of-le : (t : EventType) (es : List Event) → count_of t es ≤ length es
count_of-le t [] = omega arith
count_of-le t (e ∷ es) = ground (arith, count_of-le t es)

toggles-le : (es : List Event) → count_of sched_enabled es + count_of sched_disabled es ≤ length es
toggles-le [] = omega arith
toggles-le (e ∷ es) = ground (arith, toggles-le es)

count_type-Counts :
    (t : EventType) (e : Event) (m : Metrics) (es : List Event)
    → length es + 1 < ulong_mod
    → type_code e.type ≡ type_code t
    → Counts m es
    → Counts
        (count_type t
          (record m { last_event_time = e.timestamp; events_total = inc m.events_total }))
        (e ∷ es)
unfolding count_type
count_type-Counts container_started e m es few k c =
    ground (arith, k, few, c, count_of-le container_started es)
count_type-Counts container_stopped e m es few k c =
    ground (arith, k, few, c, count_of-le container_stopped es)
count_type-Counts container_deleted e m es few k c =
    ground (arith, k, few, c, count_of-le container_deleted es)
count_type-Counts container_paused e m es few k c =
    ground (arith, k, few, c, count_of-le container_paused es)
count_type-Counts container_unpaused e m es few k c =
    ground (arith, k, few, c, count_of-le container_unpaused es)
count_type-Counts exec_launched e m es few k c =
    ground (arith, k, few, c, count_of-le exec_launched es)
count_type-Counts oom_kill e m es few k c = ground (arith, k, few, c, count_of-le oom_kill es)
count_type-Counts image_built e m es few k c = ground (arith, k, few, c, count_of-le image_built es)
count_type-Counts image_removed e m es few k c =
    ground (arith, k, few, c, count_of-le image_removed es)
count_type-Counts sched_enabled e m es few k c = ground (arith, k, few, c, toggles-le es)
count_type-Counts sched_disabled e m es few k c = ground (arith, k, few, c, toggles-le es)
count_type-Counts _ e m es few k c = ground (arith, k, few, c)

init-Counts : (now : ℤ) → Counts (init now) []
unfolding init
init-Counts now = record {
  started = refl;
  stopped = refl;
  deleted = refl;
  paused = refl;
  unpaused = refl;
  launched = refl;
  oom = refl;
  built = refl;
  removed = refl;
  toggled = omega arith;
  all = refl;
}

-- After `metrics_init` and fewer than 2^64 events each counter is the number of events of its type,
-- and `events_total` that of all events.
pub on_events-Counts :
    (now : ℤ) (es : List Event) → length es < ulong_mod → Counts (on_events es (init now)) es
unfolding on_event
on_events-Counts now [] few = init-Counts now
on_events-Counts now (e ∷ es) few =
    count_type-Counts e.type e (on_events es (init now)) es (omega arith) refl
      (on_events-Counts now es (omega arith))
