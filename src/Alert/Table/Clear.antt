-- ===== src/Alert/Table/Clear.antt =====
-- Clearing an alert in the table.
use container_internals_simu.Prelude.{
  ◌≡◌, refl, ap, inl, inr, Bool, true, false, Option, none, some, List, [], ◌∷◌, Bool-cases,
  if◌then◌else◌,
}
use container_internals_simu.Prelude.Text.{Text}
use container_internals_simu.Alert.{
  Reals, Alert, AlertMetric, ok, not_found, clear_slots, alert_clear,
}
use container_internals_simu.Alert.Table.{Differs, applies, find, applies-eq, applies_other}

module _ (r : Reals) where
  clear_slots-find :
      (id : Text) (metric : AlertMetric) (table : List (Alert r))
      → find r id metric (clear_slots r id metric table).0 ≡ none
  unfolding find clear_slots
  clear_slots-find id metric [] = refl
  clear_slots-find id metric (a ∷ rest) = elim (Bool-cases (applies r id metric a)) [
    | inl there ↦ rw there (clear_slots-find id metric rest)
    | inr not_there ↦ rw (not_there, not_there) (clear_slots-find id metric rest)
  ]

  clear_slots-other :
      (id : Text) (metric : AlertMetric) (id' : Text) (metric' : AlertMetric)
      (table : List (Alert r))
      → Differs id metric id' metric'
      → find r id' metric' (clear_slots r id metric table).0 ≡ find r id' metric' table
  unfolding find clear_slots
  clear_slots-other id metric id' metric' [] other = refl
  clear_slots-other id metric id' metric' (a ∷ rest) other =
      elim (Bool-cases (applies r id metric a)) [
        | inl there ↦
            let (on, named, kind) = applies-eq r id metric a there in
            rw (there, applies_other r id metric id' metric' a other named kind)
              (clear_slots-other id metric id' metric' rest other)
        | inr not_there ↦ rw not_there (
            ap (λ o. if applies r id' metric' a then some a else o)
              (clear_slots-other id metric id' metric' rest other))
      ]

  abbrev pub is_found : Option (Alert r) → Bool
  is_found none = false
  is_found (some a) = true

  clear_slots-is_found :
      (id : Text) (metric : AlertMetric) (table : List (Alert r))
      → (clear_slots r id metric table).1 ≡ is_found (find r id metric table)
  unfolding find clear_slots
  clear_slots-is_found id metric [] = refl
  clear_slots-is_found id metric (a ∷ rest) = elim (Bool-cases (applies r id metric a)) [
    | inl there ↦ rw there refl
    | inr not_there ↦ rw not_there (clear_slots-is_found id metric rest)
  ]

  -- Clearing reports whether an alert was in force for the container and the metric; afterwards
  -- none is, and no other container or metric is affected.
  pub alert_clear_cases :
      (id : Text) (metric : AlertMetric) (table : List (Alert r))
      → let (after, res) = alert_clear r (some id) metric table in
        (res ≡ (if is_found (find r id metric table) then ok else not_found))
        × (find r id metric after ≡ none)
        × ((id' : Text) (metric' : AlertMetric)
            → Differs id metric id' metric'
            → find r id' metric' after ≡ find r id' metric' table)
  unfolding alert_clear
  alert_clear_cases id metric table = (
    ap (λ b. if b then ok else not_found) (clear_slots-is_found id metric table),
    clear_slots-find id metric table,
    λ id' metric' other. clear_slots-other id metric id' metric' table other,
  )
