-- ===== src/Metrics/Tests.antt =====
-- Runs of the metrics, and the theorems at concrete samples and events.
use container_internals_simu.Prelude.{ℕ, ◌≤◌, ◌≡◌, refl, List, [], ◌∷◌, All, arith}
use container_internals_simu.Prelude.Int.{pos}
use container_internals_simu.EventBus.Types.{Event, zero_event, container_started, oom_kill}
use container_internals_simu.Metrics.Persist.{metrics_save, metrics_load}
use container_internals_simu.Metrics.Persist.RoundTrip.{metrics_load-metrics_save}
use container_internals_simu.Metrics.{
  Metrics, normalize_startup_metrics, init, on_event, count_type, max_startup_ms, compute_p99,
}
use container_internals_simu.Metrics.Startup.{
  record_all, IsSummary, IsQuantile, record_all-IsSummary, compute_p99-IsQuantile,
}
use container_internals_simu.Metrics.Normal.{normalize_startup_metrics-record_all}
use container_internals_simu.Metrics.Events.{on_events, Counts, on_events-Counts}

abbrev samples : List ℕ
samples = 3 ∷ 2500 ∷ 5 ∷ []

samples-short : All (λ x. x ≤ max_startup_ms) samples
samples-short = omega arith

record_all-IsSummary_example : IsSummary (record_all samples (init (pos 9))) samples
record_all-IsSummary_example = record_all-IsSummary (pos 9) samples samples-short (omega arith)

compute_p99-IsQuantile_example :
    IsQuantile 3 (compute_p99 (record_all samples (init (pos 9)))) samples
compute_p99-IsQuantile_example =
    compute_p99-IsQuantile (pos 9) samples samples-short (omega arith) (omega arith)

abbrev events : List Event
events =
    record zero_event { type = oom_kill }
    ∷ record zero_event { type = container_started }
    ∷ record zero_event { type = container_started }
    ∷ []

started_twice : (on_events events (init (pos 9))).containers_started ≡ 2
unfolding init on_event count_type
started_twice = refl

on_events-Counts_example : Counts (on_events events (init (pos 9))) events
on_events-Counts_example = on_events-Counts (pos 9) events (omega arith)

normalize_startup_metrics-record_all_example :
    normalize_startup_metrics (record_all samples (init (pos 9)))
    ≡ record_all samples (init (pos 9))
normalize_startup_metrics-record_all_example =
    normalize_startup_metrics-record_all (pos 9) samples samples-short (omega arith)

abbrev saved_metrics : Metrics
saved_metrics = record (init (pos 100)) {
  containers_started = 7;
  startup_count = 1;
  startup_total_ms = 12;
  startup_max_ms = 12;
  startup_min_ms = 12;
}

metrics_load-metrics_save_example :
    metrics_load (metrics_save saved_metrics) (init (pos 200))
    ≡ normalize_startup_metrics (record saved_metrics {
      startup_buckets = (init (pos 200)).startup_buckets;
      uptime_start = (init (pos 200)).uptime_start;
      last_event_time = (init (pos 200)).last_event_time;
    })
unfolding init
metrics_load-metrics_save_example =
    metrics_load-metrics_save saved_metrics (init (pos 200)) (omega arith)
