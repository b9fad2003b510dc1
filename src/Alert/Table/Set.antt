-- ===== src/Alert/Table/Set.antt =====
-- Setting an alert in the table.
use container_internals_simu.Prelude.{
  ℕ, ◌<◌, ◌≡◌, ◌⊎◌, refl, inl, inr, true, false, Option, none, some, List, arith, get_or, length,
}
use container_internals_simu.Prelude.Text.{
  Text, str_eq_refl, copy_string, copy_string_fits, is_empty,
}
use container_internals_simu.Alert.{
  Reals, Alert, AlertMetric, Result, ok, enomem, id_size, empty_alert, search, rearmed, new_alert,
  store, alert_set,
}
use container_internals_simu.Alert.Table.{
  same_metric_refl, Differs, applies, find, applies-eq, find-set_other, find-set_new, search-some,
  search-none, search-free, applies_other,
}

module _ (r : Reals) where
  -- What a call of `alert_set` for an alert may do.
  abbrev pub IsSetting :
      Text → AlertMetric → r.Real → List (Alert r) → List (Alert r) × Result → Type 0
  IsSetting id metric threshold table (after, res) =
      ((res ≡ enomem) × (after ≡ table) × (find r id metric table ≡ none))
      ⊎ ((res ≡ ok)
          × ((a : Alert r) × (find r id metric after ≡ some a)
              × (a.threshold ≡ threshold)
              × (a.firing ≡ false))
          × ((id' : Text) (metric' : AlertMetric)
              → Differs id metric id' metric'
              → find r id' metric' after ≡ find r id' metric' table))

  store-IsSetting :
      (id : Text) (metric : AlertMetric) (threshold : r.Real) (table : List (Alert r))
      (found free : Option ℕ)
      → length id < id_size
      → (search r id metric table 0 none).0 ≡ found
      → (search r id metric table 0 none).1 ≡ free
      → IsSetting id metric threshold table (store r id metric threshold table (found, free))
  unfolding store
  store-IsSetting id metric threshold table none none short e f =
      inl (refl, refl, search-none r id metric table 0 none e)
  store-IsSetting id metric threshold table (some k) free short e f =
      let (p, at, first) = search-some r id metric table 0 none k e in
      let (on, named, kind) = applies-eq r id metric (get_or table p (empty_alert r)) first.here in
      let same : k ≡ p = omega (arith, at) in
      let a = rearmed r threshold (get_or table p (empty_alert r)) in
      let fits : applies r id metric a ≡ true = first.here in
      rw same (
        inr (
          refl,
          (a, first.replaced a fits, refl, refl),
          λ id' metric' other.
              find-set_other r id' metric' table p a
                (applies_other r id metric id' metric' (get_or table p (empty_alert r)) other named
                  kind)
                (applies_other r id metric id' metric' a other named kind),
        ))
  store-IsSetting id metric threshold table none (some k) short e f =
      elim (search-free r id metric table 0 none k e f) [
        | inl never ↦ absurd (cc never)
        | inr (p, at, lt, idle) ↦
            let same : k ≡ p = omega (arith, at) in
            let whole : copy_string id_size id ≡ id = copy_string_fits id_size id short in
            let a = new_alert r id metric threshold in
            let fits : applies r id metric a ≡ true =
              rw (whole, str_eq_refl id, same_metric_refl metric) refl in
            rw same (
              inr (
                refl,
                (
                  a,
                  find-set_new r id metric table p a (search-none r id metric table 0 none e) lt
                      fits,
                  refl,
                  refl,
                ),
                λ id' metric' other.
                    find-set_other r id' metric' table p a (rw idle refl)
                      (applies_other r id metric id' metric' a other whole refl),
              ))
      ]

  -- Setting an alert, with a name that fits and a threshold that is not negative, either reports
  -- ENOMEM for a container and metric without an alert and changes nothing, or puts an alert in
  -- force that has this threshold and is not firing; no other container or metric is affected.
  pub alert_set_cases :
      (id : Text) (metric : AlertMetric) (threshold : r.Real) (table : List (Alert r))
      → is_empty id ≡ false
      → length id < id_size
      → r.is_negative threshold ≡ false
      → IsSetting id metric threshold table (alert_set r (some id) metric threshold table)
  unfolding alert_set
  alert_set_cases id metric threshold table named short fine =
      rw (named, fine)
        (store-IsSetting id metric threshold table (search r id metric table 0 none).0
          (search r id metric table 0 none).1 short refl refl)
