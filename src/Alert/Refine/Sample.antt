-- ===== src/Alert/Refine/Sample.antt =====
-- `alert_check_sample` does to the map what the specification says.
use container_internals_simu.Prelude.{
  ℕ, ◌≡◌, refl, ap, inl, inr, true, ◌&&◌, Option, none, some, List, [], ◌∷◌, arith, Bool-cases,
}
use mathlib.Core.Path.{◌∙◌}
use container_internals_simu.Prelude.Text.{Text, str_eq}
use container_internals_simu.Alert.{
  Reals, Alert, AlertMetric, value_of, compare_value, check_slot, check_slots,
}
use container_internals_simu.Alert.Table.{applies, applies-eq, find}
use container_internals_simu.Alert.Map.{entry_of, view, judge, sampled}

module _ (r : Reals) where
  compare_value-judge :
      (now : ℕ) (id : Text) (a : Alert r) (value : Option r.Real)
      → let b = (compare_value r now id a value).0 in
        (b.active ≡ a.active)
        × (b.container_id ≡ a.container_id)
        × (b.metric ≡ a.metric)
        × (entry_of r (some b) ≡ judge r value (entry_of r (some a)))
  compare_value-judge now id a none = (refl, refl, refl, refl)
  compare_value-judge now id a (some value) = ground arith

  check_slot-applies :
      (now : ℕ) (id : Text) (cpu_pct : Option r.Real) (rss_mb : r.Real) (a : Alert r) (id' : Text)
      (metric : AlertMetric)
      → applies r id' metric (check_slot r now id cpu_pct rss_mb a).0 ≡ applies r id' metric a
  unfolding check_slot
  check_slot-applies now id cpu_pct rss_mb a id' metric =
      let (on, named, kind, judged) =
        compare_value-judge now id a (value_of r a.metric cpu_pct rss_mb) in
      elim (Bool-cases (a.active && str_eq a.container_id id)) [
        | inl mine ↦ rw (mine, on, named, kind) refl
        | inr other ↦ rw other refl
      ]

  check_slot-entry :
      (now : ℕ) (id : Text) (cpu_pct : Option r.Real) (rss_mb : r.Real) (a : Alert r) (id' : Text)
      (metric : AlertMetric)
      → applies r id' metric a ≡ true
      → entry_of r (some (check_slot r now id cpu_pct rss_mb a).0)
        ≡ sampled r id cpu_pct rss_mb (λ id metric. entry_of r (some a)) id' metric
  unfolding check_slot
  check_slot-entry now id cpu_pct rss_mb a id' metric there =
      let (on, at, of) = applies-eq r id' metric a there in
      let judged = (compare_value-judge now id a (value_of r a.metric cpu_pct rss_mb)).3 in
      let same : (a.active && str_eq a.container_id id) ≡ str_eq id' id = rw (on, at) refl in
      elim (Bool-cases (str_eq id' id)) [
        | inl mine ↦
            simp (same, mine)
              (judged ∙ ap (λ m. judge r (value_of r m cpu_pct rss_mb) (entry_of r (some a))) of)
        | inr other ↦ simp (same, other) refl
      ]

  pub check_slots-view :
      (now : ℕ) (id : Text) (cpu_pct : Option r.Real) (rss_mb : r.Real) (table : List (Alert r))
      (id' : Text) (metric : AlertMetric)
      → view r (check_slots r now id cpu_pct rss_mb table).0 id' metric
        ≡ sampled r id cpu_pct rss_mb (view r table) id' metric
  unfolding check_slots find
  check_slots-view now id cpu_pct rss_mb [] id' metric = elim (Bool-cases (str_eq id' id)) [
    | inl mine ↦ rw mine refl
    | inr other ↦ rw other refl
  ]
  check_slots-view now id cpu_pct rss_mb (a ∷ rest) id' metric =
      elim (Bool-cases (applies r id' metric a)) [
        | inl there ↦
            rw (check_slot-applies now id cpu_pct rss_mb a id' metric, there)
              (check_slot-entry now id cpu_pct rss_mb a id' metric there)
        | inr not_there ↦
            rw (check_slot-applies now id cpu_pct rss_mb a id' metric, not_there)
              (check_slots-view now id cpu_pct rss_mb rest id' metric)
      ]
