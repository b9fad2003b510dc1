-- ===== src/Alert/Tests.antt =====
-- The theorems on alerts at a table with two alerts; the values are natural numbers.
use container_internals_simu.Prelude.{ℕ, ◌≡◌, refl, false, none, some, List, [], ◌∷◌, arith, leb}
use container_internals_simu.Prelude.Text.{codes, str_eq}
use container_internals_simu.EventBus.Types.{alert_fired}
use container_internals_simu.Alert.{
  Reals, Alert, cpu, mem, empty_alert, new_alert, alert_clear_all, alert_check_sample, check_slot,
  check_slots, transition,
}
use container_internals_simu.Alert.Map.{
  Call, set, clear, check_sample, run_calls, run_map, observed, seen_run,
}
use container_internals_simu.Alert.Refine.{run_calls-run_map}

abbrev reals : Reals
reals = record { Real = ℕ; is_negative = λ x. false; is_ge = λ x y. leb y x; zero_real = 0 }

abbrev table : List (Alert reals)
table =
    new_alert reals (codes "c1") cpu 80
    ∷ empty_alert reals
    ∷ new_alert reals (codes "c1") mem 512
    ∷ []

sample :
    (alert_check_sample reals 7 (some (codes "c1")) none 600 table).1
    ≡ transition alert_fired (codes "c1") mem 600 512 ∷ []
unfolding alert_check_sample check_slots check_slot str_eq
sample = refl

abbrev calls : List (Call reals)
calls =
    set (codes "c1") mem 512
    ∷ check_sample 7 (codes "c1") none 600
    ∷ set (codes "c2") cpu 80
    ∷ clear (codes "c1") cpu
    ∷ clear (codes "c1") mem
    ∷ []

run_calls-run_map_example :
    seen_run reals (run_calls reals calls (alert_clear_all reals))
    ≡ run_map reals (observed reals calls (alert_clear_all reals)) (λ id metric. none)
run_calls-run_map_example = run_calls-run_map reals calls (omega arith)
