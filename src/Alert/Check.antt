-- ===== src/Alert/Check.antt =====
-- `alert_check_sample` puts each alert of a container into the state that the value asks for.
use container_internals_simu.Prelude.{
  ℕ, ◌≡◌, refl, ap₂, inl, inr, true, ◌&&◌, Option, none, some, List, [], ◌∷◌, ◌++◌, All, arith,
  Bool-cases,
}
use container_internals_simu.Prelude.Text.{Text, str_eq}
use container_internals_simu.Alert.{
  Reals, Alert, Transition, value_of, compare_value, check_slot, check_slots, alert_check_sample,
}

module _ (r : Reals) where
  -- The alert fires exactly if its value has reached the threshold.
  abbrev pub Agrees : Option r.Real → Alert r → Type 0
  Agrees none a = Unit
  Agrees (some value) a = a.firing ≡ r.is_ge value a.threshold

  -- An alert of the container agrees with the sample, where there is a value for its metric.
  abbrev pub IsSettled : Text → Option r.Real → r.Real → Alert r → Type 0
  IsSettled id cpu_pct rss_mb a =
      (a.active && str_eq a.container_id id) ≡ true → Agrees (value_of r a.metric cpu_pct rss_mb) a

  compare_value-Agrees :
      (now : ℕ) (id : Text) (a : Alert r) (value : Option r.Real)
      → Agrees value (compare_value r now id a value).0
  compare_value-Agrees now id a none = tt
  compare_value-Agrees now id a (some value) = ground arith

  compare_value-again :
      (now : ℕ) (id : Text) (a : Alert r) (value : Option r.Real)
      → Agrees value a
      → compare_value r now id a value ≡ (a, [])
  compare_value-again now id a none h = refl
  compare_value-again now id a (some value) h = ground (arith, h)

  pub compare_value-frame :
      (now : ℕ) (id : Text) (a : Alert r) (value : Option r.Real)
      → let b = (compare_value r now id a value).0 in
        (b.active ≡ a.active) × (b.container_id ≡ a.container_id) × (b.metric ≡ a.metric)
  compare_value-frame now id a none = (refl, refl, refl)
  compare_value-frame now id a (some value) = ground arith

  check_slot-IsSettled :
      (now : ℕ) (id : Text) (cpu_pct : Option r.Real) (rss_mb : r.Real) (a : Alert r)
      → IsSettled id cpu_pct rss_mb (check_slot r now id cpu_pct rss_mb a).0
  unfolding check_slot
  check_slot-IsSettled now id cpu_pct rss_mb a =
      elim (Bool-cases (a.active && str_eq a.container_id id)) [
        | inr other ↦ rw other (λ mine. absurd (cc (other, mine)))
        | inl mine ↦ rw mine (λ still.
            let value = value_of r a.metric cpu_pct rss_mb in
            let (on, named, kind) = compare_value-frame now id a value in
            rw kind (compare_value-Agrees now id a value))
      ]

  check_slot-again :
      (now : ℕ) (id : Text) (cpu_pct : Option r.Real) (rss_mb : r.Real) (a : Alert r)
      → IsSettled id cpu_pct rss_mb a
      → check_slot r now id cpu_pct rss_mb a ≡ (a, [])
  unfolding check_slot
  check_slot-again now id cpu_pct rss_mb a settled =
      elim (Bool-cases (a.active && str_eq a.container_id id)) [
        | inr other ↦ rw other refl
        | inl mine ↦
            rw mine
              (compare_value-again now id a (value_of r a.metric cpu_pct rss_mb) (settled mine))
      ]

  pub check_slots-IsSettled :
      (now : ℕ) (id : Text) (cpu_pct : Option r.Real) (rss_mb : r.Real) (table : List (Alert r))
      → All (IsSettled id cpu_pct rss_mb) (check_slots r now id cpu_pct rss_mb table).0
  unfolding check_slots
  check_slots-IsSettled now id cpu_pct rss_mb [] = tt
  check_slots-IsSettled now id cpu_pct rss_mb (a ∷ rest) = (
    check_slot-IsSettled now id cpu_pct rss_mb a,
    check_slots-IsSettled now id cpu_pct rss_mb rest,
  )

  check_slots-again :
      (now : ℕ) (id : Text) (cpu_pct : Option r.Real) (rss_mb : r.Real) (table : List (Alert r))
      → All (IsSettled id cpu_pct rss_mb) table
      → check_slots r now id cpu_pct rss_mb table ≡ (table, [])
  unfolding check_slots
  check_slots-again now id cpu_pct rss_mb [] settled = refl
  check_slots-again now id cpu_pct rss_mb (a ∷ rest) settled =
      ap₂
        (λ (x : Alert r × List (Transition r)) (y : List (Alert r) × List (Transition r)).
          (x.0 ∷ y.0, x.1 ++ y.1))
        (check_slot-again now id cpu_pct rss_mb a settled.0)
        (check_slots-again now id cpu_pct rss_mb rest settled.1)

  -- After a sample each alert in force for the container, for whose metric there is a value, fires
  -- exactly if the value has reached its threshold; the same sample again, at whatever time, makes
  -- no transition and changes nothing.
  alert_check_sample_settles :
      (now later : ℕ) (id : Text) (cpu_pct : Option r.Real) (rss_mb : r.Real)
      (table : List (Alert r))
      → let after = (alert_check_sample r now (some id) cpu_pct rss_mb table).0 in
        All (IsSettled id cpu_pct rss_mb) after
        × (alert_check_sample r later (some id) cpu_pct rss_mb after ≡ (after, []))
  unfolding alert_check_sample
  alert_check_sample_settles now later id cpu_pct rss_mb table =
      let settled = check_slots-IsSettled now id cpu_pct rss_mb table in
      (
        settled,
        check_slots-again later id cpu_pct rss_mb (check_slots r now id cpu_pct rss_mb table).0
            settled,
      )
