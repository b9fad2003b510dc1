-- ===== src/Lifecycle/Stats/Tests.antt =====
-- Samples of two containers, of which one runs and has an alert; the values are natural numbers.
use container_internals_simu.Prelude.{
  ap, get_or, ℕ, ◌/◌, ◌≡◌, true, false, some, List, [], ◌∷◌, All, arith, leb,
}
use container_internals_simu.Prelude.Int.{ℤ, pos}
use container_internals_simu.Prelude.Text.{codes}
use container_internals_simu.Prelude.Decimal.{print_nat}
use container_internals_simu.Json.{json_escape_copy, escape_loop, escape_byte}
use container_internals_simu.Alert.{Reals, Alert, mem, new_alert}
use container_internals_simu.Metrics.{init}
use container_internals_simu.Container.{Container, zeroed, state_running, state_stopped}
use container_internals_simu.Lifecycle.Stats.{
  Sampling, Sampled, HasRoom, is_sampled, sample_container, stats_loop, container_stats_json_all,
  container_stats_json_all-Sampled,
}

abbrev reals : Reals
reals = record { Real = ℕ; is_negative = λ x. false; is_ge = λ x y. leb y x; zero_real = 0 }

abbrev to_mb : ℕ → ℕ
to_mb kb = kb / 1024

abbrev rss_kb : ℤ → ℕ
rss_kb pid = 614400

abbrev containers : List Container
containers =
    record (zeroed 1) { id = codes "container-0001"; state = state_running; pid = pos 4710 }
    ∷ record (zeroed 2) { id = codes "container-0002"; state = state_stopped }
    ∷ []

abbrev alerts : List (Alert reals)
alerts = new_alert reals (codes "container-0001") mem 512 ∷ []

room :
    HasRoom reals to_mb rss_kb 4096
      (container_stats_json_all reals to_mb rss_kb 7 true 4096 containers (init (pos 0)) alerts)
unfolding container_stats_json_all stats_loop sample_container json_escape_copy escape_loop
    escape_byte print_nat
room = omega arith

container_stats_json_all-Sampled_example :
    (s : Sampling reals to_mb rss_kb) × (container_stats_json_all reals to_mb rss_kb 7 true 4096
        containers
        (init (pos 0))
        alerts
      ≡ some s)
    × All
        (λ c. is_sampled reals to_mb rss_kb c ≡ true → Sampled reals to_mb rss_kb s.alerts c)
        containers
container_stats_json_all-Sampled_example =
    container_stats_json_all-Sampled reals to_mb rss_kb 7 4096 containers (init (pos 0)) alerts
      ((λ e. omega (arith, ap (λ s. get_or s 13 0) e), tt), (tt, tt)) (omega arith) room
