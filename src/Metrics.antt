-- ===== src/Metrics.antt =====
-- src/metrics.c and src/metrics.h: the counters and the histogram of startup times. An
-- `unsigned long` has 64 bits.
pub mod Events
pub mod Startup
pub mod Normal
pub mod Persist
mod Tests
use container_internals_simu.Prelude.{
  ℕ, zero, suc, ◌+◌, ◌-◌, ◌*◌, ◌/◌, ◌%◌, ◌^◌, Bool, true, false, ◌||◌, List, get_or, set, replicate,
  ltb, leb, ◌==◌, if◌then◌else◌,
}
use container_internals_simu.Prelude.Int.{ℤ, pos}
use container_internals_simu.EventBus.Types.{
  Event, EventType, container_started, container_stopped, container_deleted, container_paused,
  container_unpaused, exec_launched, oom_kill, image_built, image_removed, sched_enabled,
  sched_disabled,
}

abbrev pub ulong_mod : ℕ
ulong_mod = 2 ^ 64

abbrev pub ulong_max : ℕ
ulong_max = ulong_mod - 1

abbrev pub max_startup_ms : ℕ
max_startup_ms = 10 * 60 * 1000

abbrev pub lat_buckets : ℕ
lat_buckets = 2000

pub record Metrics : Type 0 where
  pub containers_started : ℕ
  pub containers_stopped : ℕ
  pub containers_deleted : ℕ
  pub containers_paused : ℕ
  pub exec_launches : ℕ
  pub oom_kills : ℕ
  pub images_built : ℕ
  pub images_removed : ℕ
  pub sched_toggles : ℕ
  pub containers_unpaused : ℕ
  pub events_total : ℕ
  pub startup_count : ℕ
  pub startup_total_ms : ℕ
  pub startup_max_ms : ℕ
  pub startup_min_ms : ℕ
  pub startup_buckets : List ℕ
  pub mem_highwater_mb : ℕ
  pub uptime_start : ℤ
  pub last_event_time : ℤ

-- `metrics_init` at time `now`
unfoldable pub init : ℤ → Metrics
init now = record {
  containers_started = 0;
  containers_stopped = 0;
  containers_deleted = 0;
  containers_paused = 0;
  exec_launches = 0;
  oom_kills = 0;
  images_built = 0;
  images_removed = 0;
  sched_toggles = 0;
  containers_unpaused = 0;
  events_total = 0;
  startup_count = 0;
  startup_total_ms = 0;
  startup_max_ms = 0;
  startup_min_ms = ulong_max;
  startup_buckets = replicate lat_buckets 0;
  mem_highwater_mb = 0;
  uptime_start = now;
  last_event_time = pos 0;
}

-- `++` of an `unsigned long`
abbrev pub inc : ℕ → ℕ
inc n = (n + 1) % ulong_mod

-- The switch of `metrics_on_event`.
unfoldable pub count_type : EventType → Metrics → Metrics
count_type container_started m = record m { containers_started = inc m.containers_started }
count_type container_stopped m = record m { containers_stopped = inc m.containers_stopped }
count_type container_deleted m = record m { containers_deleted = inc m.containers_deleted }
count_type container_paused m = record m { containers_paused = inc m.containers_paused }
count_type container_unpaused m = record m { containers_unpaused = inc m.containers_unpaused }
count_type exec_launched m = record m { exec_launches = inc m.exec_launches }
count_type oom_kill m = record m { oom_kills = inc m.oom_kills }
count_type image_built m = record m { images_built = inc m.images_built }
count_type image_removed m = record m { images_removed = inc m.images_removed }
count_type sched_enabled m = record m { sched_toggles = inc m.sched_toggles }
count_type sched_disabled m = record m { sched_toggles = inc m.sched_toggles }
count_type _ m = m

unfoldable pub on_event : Event → Metrics → Metrics
on_event e m =
    count_type e.type
      (record m { last_event_time = e.timestamp; events_total = inc m.events_total })

-- `(ms < METRICS_LAT_BUCKETS) ? ms : (METRICS_LAT_BUCKETS - 1)`
abbrev pub bucket_of : ℕ → ℕ
bucket_of ms = if ltb ms lat_buckets then ms else lat_buckets - 1

unfoldable pub record_startup_ms : ℕ → Metrics → Metrics
record_startup_ms ms m = if ltb max_startup_ms ms then m else record m {
  startup_count = inc m.startup_count;
  startup_total_ms = (m.startup_total_ms + ms) % ulong_mod;
  startup_max_ms = if ltb m.startup_max_ms ms then ms else m.startup_max_ms;
  startup_min_ms = if ltb ms m.startup_min_ms then ms else m.startup_min_ms;
  startup_buckets =
      set m.startup_buckets (bucket_of ms) (inc (get_or m.startup_buckets (bucket_of ms) 0));
}

unfoldable pub update_mem_highwater : ℕ → Metrics → Metrics
update_mem_highwater mb m =
    if ltb m.mem_highwater_mb mb then record m { mem_highwater_mb = mb } else m

-- The loop of `compute_p99`: `n` buckets from `i` on.
unfoldable pub p99_loop : ℕ → ℕ → ℕ → ℕ → List ℕ → ℕ
p99_loop zero i cumulative target buckets = lat_buckets - 1
p99_loop (suc n) i cumulative target buckets =
    let more = (cumulative + get_or buckets i 0) % ulong_mod in
    let rest = p99_loop n (i + 1) more target buckets in if leb target more then i else rest

abbrev pub p99_target : ℕ → ℕ
p99_target count = ((count * 99 + 99) % ulong_mod) / 100

unfoldable pub compute_p99 : Metrics → ℕ
compute_p99 m =
    if m.startup_count == 0
    then 0
    else p99_loop lat_buckets 0 0 (p99_target m.startup_count) m.startup_buckets

-- The startup fields as `metrics_init` sets them.
abbrev pub without_startup : Metrics → Metrics
without_startup m = record m {
  startup_count = 0;
  startup_total_ms = 0;
  startup_max_ms = 0;
  startup_min_ms = ulong_max;
  startup_buckets = replicate lat_buckets 0;
}

-- What `normalize_startup_metrics_locked` takes for a damaged file.
abbrev pub is_damaged : Metrics → Bool
is_damaged m =
    m.startup_min_ms == ulong_max
    || ltb m.startup_max_ms m.startup_min_ms
    || ltb m.startup_total_ms m.startup_max_ms
    || ltb max_startup_ms (m.startup_total_ms / m.startup_count)

unfoldable pub normalize_startup_metrics : Metrics → Metrics
normalize_startup_metrics m =
    if m.startup_count == 0
    then without_startup m
    else if is_damaged m
    then without_startup m
    else m
