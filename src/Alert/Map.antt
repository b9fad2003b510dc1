-- ===== src/Alert/Map.antt =====
-- The map that the table of src/alert.c stands for: from a container and a metric to a threshold
-- and whether the alert fires; and what each call does to it.
use container_internals_simu.Prelude.{
  ℕ, ◌<◌, Bool, true, false, not, ◌&&◌, ◌||◌, Option, none, some, List, [], ◌∷◌, length,
  if◌then◌else◌,
}
use container_internals_simu.Prelude.Text.{Text, str_eq, is_empty}
use container_internals_simu.Alert.{
  Reals, Alert, AlertMetric, Result, ok, einval, enomem, not_found, id_size, same_metric, alert_set,
  alert_clear, alert_clear_all, value_of, alert_check_sample,
}
use container_internals_simu.Alert.Table.{find}

abbrev pub is_held {ℓ} : {A : Type ℓ} → Option A → Bool
is_held none = false
is_held (some a) = true

module _ (r : Reals) where
  pub data Call : Type 0 where
    set : Text → AlertMetric → r.Real → Call
    clear : Text → AlertMetric → Call
    clear_all : Call
    check_sample : ℕ → Text → Option r.Real → r.Real → Call

  -- The name is not cut off.
  abbrev pub Fits : Call → Type 0
  Fits (set id metric threshold) = length id < id_size
  Fits (clear id metric) = Unit
  Fits clear_all = Unit
  Fits (check_sample now id cpu_pct rss_mb) = Unit

  unfoldable pub call : Call → List (Alert r) → List (Alert r) × Result
  call (set id metric threshold) table = alert_set r (some id) metric threshold table
  call (clear id metric) table = alert_clear r (some id) metric table
  call clear_all table = (alert_clear_all r, ok)
  call (check_sample now id cpu_pct rss_mb) table =
      ((alert_check_sample r now (some id) cpu_pct rss_mb table).0, ok)

  -- The threshold of an alert, and whether it fires.
  abbrev pub Entry : Type 0
  Entry = Option (r.Real × Bool)

  abbrev pub View : Type 0
  View = Text → AlertMetric → Entry

  abbrev pub entry_of : Option (Alert r) → Entry
  entry_of none = none
  entry_of (some a) = some (a.threshold, a.firing)

  abbrev pub view : List (Alert r) → View
  view table id metric = entry_of (find r id metric table)

  -- What a caller can see of a call.
  abbrev pub seen : List (Alert r) × Result → View × Result
  seen (table, res) = (view table, res)

  abbrev pub update : Text → AlertMetric → Entry → View → View
  update id metric e v id' metric' =
      if str_eq id id' && same_metric metric metric' then e else v id' metric'

  abbrev pub judge : Option r.Real → Entry → Entry
  judge value none = none
  judge none (some e) = some e
  judge (some value) (some (threshold, firing)) = some (threshold, r.is_ge value threshold)

  abbrev pub sampled : Text → Option r.Real → r.Real → View → View
  sampled id cpu_pct rss_mb v id' metric =
      if str_eq id' id
      then judge (value_of r metric cpu_pct rss_mb) (v id' metric)
      else v id' metric

  -- What a call does to the map and what it answers; `full` says that every slot is in force.
  unfoldable pub map_call : Call → Bool → View → View × Result
  map_call (set id metric threshold) full v =
      if is_empty id || r.is_negative threshold
      then (v, einval)
      else if full && not (is_held (v id metric))
      then (v, enomem)
      else (update id metric (some (threshold, false)) v, ok)
  map_call (clear id metric) full v =
      (update id metric none v, if is_held (v id metric) then ok else not_found)
  map_call clear_all full v = (λ id metric. none, ok)
  map_call (check_sample now id cpu_pct rss_mb) full v = (sampled id cpu_pct rss_mb v, ok)

  unfoldable pub is_full : List (Alert r) → Bool
  is_full [] = true
  is_full (a ∷ rest) = a.active && is_full rest

  -- The calls, each with whether every slot was in force before it.
  unfoldable pub observed : List Call → List (Alert r) → List (Call × Bool)
  observed [] table = []
  observed (c ∷ calls) table = (c, is_full table) ∷ observed calls (call c table).0

  unfoldable pub run_calls : List Call → List (Alert r) → List (Alert r) × List Result
  run_calls [] table = (table, [])
  run_calls (c ∷ calls) table =
      let (after, res) = call c table in
      let (last, answers) = run_calls calls after in (last, res ∷ answers)

  unfoldable pub run_map : List (Call × Bool) → View → View × List Result
  run_map [] v = (v, [])
  run_map ((c, full) ∷ calls) v =
      let (after, res) = map_call c full v in
      let (last, answers) = run_map calls after in (last, res ∷ answers)

  abbrev pub seen_run : List (Alert r) × List Result → View × List Result
  seen_run (table, answers) = (view table, answers)
