-- ===== src/Alert/Refine.antt =====
-- The calls of src/alert.c implement the map of the alerts.
pub mod Set
pub mod Sample
use container_internals_simu.Prelude.{
  ℕ, zero, suc, ◌+◌, ◌<◌, ◌≡◌, refl, ap, ap₂, inl, inr, Bool, true, false, not, ◌&&◌, ◌||◌, Option,
  none, some, List, [], ◌∷◌, All, arith, Bool-cases, length, replicate, if◌then◌else◌,
}
use mathlib.Core.Path.{fun_ext, sym, ◌∙◌}
use container_internals_simu.Prelude.Text.{Text, str_eq, str_eq_iff, is_empty}
use container_internals_simu.Alert.{
  Reals, Alert, AlertMetric, Result, ok, einval, enomem, not_found, id_size, same_metric,
  empty_alert, first_free, search, store, alert_set, alert_clear, alert_clear_all, value_of,
  compare_value, check_slot, check_slots, alert_check_sample, alert_max,
}
use container_internals_simu.Alert.Table.{applies, applies-eq, find, both, same_metric-eq}
use container_internals_simu.Alert.Table.Set.{IsSetting, alert_set_cases}
use container_internals_simu.Alert.Table.Clear.{is_found, alert_clear_cases}
use container_internals_simu.Alert.Map.{
  is_held, set, clear, clear_all, check_sample, Call, Fits, call, Entry, View, entry_of, view, seen,
  update, judge, sampled, map_call, is_full, observed, run_calls, run_map, seen_run,
}
use container_internals_simu.Alert.Refine.Set.{
  update-eq, set-refused, set-accepted, set-answer, answered,
}
use container_internals_simu.Alert.Refine.Sample.{check_slots-view}

module _ (r : Reals) where
  find-replicate :
      (id : Text) (metric : AlertMetric) (n : ℕ)
      → find r id metric (replicate n (empty_alert r)) ≡ none
  unfolding find
  find-replicate id metric zero = refl
  find-replicate id metric (suc n) = find-replicate id metric n

  empty-view : view r (alert_clear_all r) ≡ (λ id metric. none)
  empty-view =
      fun_ext (λ id. fun_ext (λ metric. ap (entry_of r) (find-replicate id metric alert_max)))

  is_found-is_held : (o : Option (Alert r)) → is_found r o ≡ is_held (entry_of r o)
  is_found-is_held none = refl
  is_found-is_held (some a) = refl

  call-map_call :
      (c : Call r) (table : List (Alert r))
      → Fits r c
      → seen r (call r c table) ≡ map_call r c (is_full r table) (view r table)
  unfolding call map_call alert_check_sample
  call-map_call (set id metric threshold) table fits =
      elim (Bool-cases (is_empty id || r.is_negative threshold)) [
        | inl bad ↦ rw bad (ap (seen r) (set-refused r id metric threshold table bad))
        | inr fine ↦ rw fine (
            answered r id metric threshold table (alert_set r (some id) metric threshold table)
              (set-accepted r id metric threshold table fine fits)
              (set-answer r id metric threshold table fine))
      ]
  call-map_call (clear id metric) table fits =
      let (res, gone, others) = alert_clear_cases r id metric table in
      ap₂ (λ (v : View r) (res : Result). (v, res))
        (update-eq r id metric none (view r table) (view r (alert_clear r (some id) metric table).0)
          (ap (entry_of r) gone) (λ id' metric' other. ap (entry_of r) (others id' metric' other)))
        (res ∙ ap (λ b. if b then ok else not_found) (is_found-is_held (find r id metric table)))
  call-map_call clear_all table fits = ap (λ (v : View r). (v, ok)) empty-view
  call-map_call (check_sample now id cpu_pct rss_mb) table fits =
      ap (λ (v : View r). (v, ok))
        (fun_ext
          (λ id'. fun_ext (λ metric. check_slots-view r now id cpu_pct rss_mb table id' metric)))

  run_calls-run_map_from :
      (calls : List (Call r)) (table : List (Alert r))
      → All (Fits r) calls
      → seen_run r (run_calls r calls table) ≡ run_map r (observed r calls table) (view r table)
  unfolding run_calls run_map observed
  run_calls-run_map_from [] table fits = refl
  run_calls-run_map_from (c ∷ calls) table fits =
      let ih = run_calls-run_map_from calls (call r c table).0 fits.1 in
      rw (sym (call-map_call c table fits.0), sym ih) refl

  -- Any calls since the start of the program, with names that fit, answer and leave the table
  -- as if it were a map from container and metric to a threshold and whether the alert fires.
  -- Setting refuses an empty name, a negative threshold and, while every slot is in force, a
  -- new alert; else it stores the threshold, not firing. Clearing removes the alert and says
  -- whether there was one. A sample lets the alerts of its container, for which it has a value,
  -- fire exactly if the value has reached the threshold.
  pub run_calls-run_map :
      (calls : List (Call r))
      → All (Fits r) calls
      → seen_run r (run_calls r calls (alert_clear_all r))
        ≡ run_map r (observed r calls (alert_clear_all r)) (λ id metric. none)
  run_calls-run_map calls fits =
      run_calls-run_map_from calls (alert_clear_all r) fits
      ∙ ap (run_map r (observed r calls (alert_clear_all r))) empty-view
