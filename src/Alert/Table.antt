-- ===== src/Alert/Table.antt =====
-- The table of alerts is a map from a container and a metric to an alert.
pub mod Set
pub mod Clear
use container_internals_simu.Prelude.{
  ℕ, zero, suc, ◌+◌, ◌<◌, ◌≡◌, ◌⊎◌, refl, ap, inl, inr, Bool, true, false, ◌&&◌, Option, none, some,
  List, [], ◌∷◌, arith, Bool-cases, get_or, set, length, if◌then◌else◌,
}
use container_internals_simu.Prelude.Text.{
  Text, str_eq, str_eq_iff, str_eq_refl, copy_string, copy_string_fits, is_empty,
}
use container_internals_simu.Alert.{
  Reals, Alert, AlertMetric, cpu, mem, Result, ok, enomem, not_found, id_size, same_metric,
  empty_alert, is_for, first_free, search, rearmed, new_alert, store, alert_set, clear_slots,
  alert_clear,
}

pub same_metric-eq : (m n : AlertMetric) → same_metric m n ≡ true → m ≡ n
same_metric-eq cpu cpu h = refl
same_metric-eq mem mem h = refl
same_metric-eq cpu mem h = absurd (cc h)
same_metric-eq mem cpu h = absurd (cc h)

pub same_metric_refl : (m : AlertMetric) → same_metric m m ≡ true
same_metric_refl cpu = refl
same_metric_refl mem = refl

pub both : (a b : Bool) → (a && b) ≡ true → (a ≡ true) × (b ≡ true)
both true true h = (refl, refl)
both true false h = absurd (cc h)
both false b h = absurd (cc h)

-- Another container or another metric.
abbrev pub Differs : Text → AlertMetric → Text → AlertMetric → Type 0
Differs id metric id' metric' = (str_eq id id' && same_metric metric metric') ≡ false

module _ (r : Reals) where
  abbrev pub applies : Text → AlertMetric → Alert r → Bool
  applies id metric a = a.active && is_for r id metric a

  -- The alert in force for a container and a metric.
  unfoldable pub find : Text → AlertMetric → List (Alert r) → Option (Alert r)
  find id metric [] = none
  find id metric (a ∷ rest) = if applies id metric a then some a else find id metric rest

  pub applies-eq :
      (id : Text) (metric : AlertMetric) (a : Alert r)
      → applies id metric a ≡ true
      → (a.active ≡ true) × (a.container_id ≡ id) × (a.metric ≡ metric)
  applies-eq id metric a h =
      let (on, for) = both a.active (is_for r id metric a) h in
      let (named, kind) = both (str_eq a.container_id id) (same_metric a.metric metric) for in
      (on, (str_eq_iff a.container_id id).0 named, same_metric-eq a.metric metric kind)

  pub find-set_other :
      (id : Text) (metric : AlertMetric) (table : List (Alert r)) (p : ℕ) (v : Alert r)
      → applies id metric (get_or table p (empty_alert r)) ≡ false
      → applies id metric v ≡ false
      → find id metric (set table p v) ≡ find id metric table
  unfolding find
  find-set_other id metric [] p v old new = refl
  find-set_other id metric (a ∷ rest) zero v old new = rw (old, new) refl
  find-set_other id metric (a ∷ rest) (suc p) v old new =
      ap (λ o. if applies id metric a then some a else o)
        (find-set_other id metric rest p v old new)

  pub find-set_new :
      (id : Text) (metric : AlertMetric) (table : List (Alert r)) (p : ℕ) (v : Alert r)
      → find id metric table ≡ none
      → p < length table
      → applies id metric v ≡ true
      → find id metric (set table p v) ≡ some v
  unfolding find
  find-set_new id metric [] p v absent lt new = absurd (omega arith)
  find-set_new id metric (a ∷ rest) zero v absent lt new = rw new refl
  find-set_new id metric (a ∷ rest) (suc p) v absent lt new =
      elim (Bool-cases (applies id metric a)) [
        | inl there ↦ absurd (cc (rw there at absent))
        | inr not_there ↦
            rw not_there
              (find-set_new id metric rest p v (rw not_there at absent) (omega arith) new)
      ]

  -- Slot `p` has the first alert that applies.
  pub record IsFirst (id : Text) (metric : AlertMetric) (table : List (Alert r)) (p : ℕ)
      : Type 0 where
    pub here : applies id metric (get_or table p (empty_alert r)) ≡ true
    pub replaced :
        (v : Alert r) → applies id metric v ≡ true → find id metric (set table p v) ≡ some v

  pub search-some :
      (id : Text) (metric : AlertMetric) (table : List (Alert r)) (i : ℕ) (free : Option ℕ) (k : ℕ)
      → (search r id metric table i free).0 ≡ some k
      → (p : ℕ) × (k ≡ i + p) × IsFirst id metric table p
  unfolding search find
  search-some id metric [] i free k e = absurd (cc e)
  search-some id metric (a ∷ rest) i free k e = elim (Bool-cases (applies id metric a)) [
    | inl there ↦
        let found : i ≡ k = ground (arith, e, there) in
        (0, omega (arith, found), record { here = there; replaced = λ v new. rw new refl })
    | inr not_there ↦
        let (p, at, f) = search-some id metric rest (i + 1) _ k (rw not_there at e) in
        (
          suc p,
          omega (arith, at),
          record { here = f.here; replaced = λ v new. rw not_there (f.replaced v new) },
        )
  ]

  pub search-none :
      (id : Text) (metric : AlertMetric) (table : List (Alert r)) (i : ℕ) (free : Option ℕ)
      → (search r id metric table i free).0 ≡ none
      → find id metric table ≡ none
  unfolding search find
  search-none id metric [] i free e = refl
  search-none id metric (a ∷ rest) i free e = elim (Bool-cases (applies id metric a)) [
    | inl there ↦ absurd (cc (rw there at e))
    | inr not_there ↦ rw not_there (search-none id metric rest (i + 1) _ (rw not_there at e))
  ]

  pick-free :
      (b : Bool) (free : Option ℕ) (i k : ℕ)
      → (if b then free else first_free free i) ≡ some k
      → (free ≡ some k) ⊎ ((k ≡ i) × (b ≡ false))
  pick-free true free i k e = inl e
  pick-free false none i k e = inr (ground (arith, e), refl)
  pick-free false (some j) i k e = inl e

  -- The free slot of a search that finds no alert.
  pub search-free :
      (id : Text) (metric : AlertMetric) (table : List (Alert r)) (i : ℕ) (free : Option ℕ) (k : ℕ)
      → (search r id metric table i free).0 ≡ none
      → (search r id metric table i free).1 ≡ some k
      → (free ≡ some k)
        ⊎ ((p : ℕ) × (k ≡ i + p)
            × (p < length table)
            × ((get_or table p (empty_alert r)).active ≡ false))
  unfolding search
  search-free id metric [] i free k none_found e = inl e
  search-free id metric (a ∷ rest) i free k none_found e = elim (Bool-cases (applies id metric a)) [
    | inl there ↦ absurd (cc (rw there at none_found))
    | inr not_there ↦
        elim (search-free id metric rest (i + 1) _ k (rw not_there at none_found)
          (rw not_there at e)) [
            | inl before ↦ elim (pick-free a.active free i k before) [
              | inl earlier ↦ inl earlier
              | inr (here, idle) ↦ inr (0, omega (arith, here), omega arith, idle)
            ]
            | inr (p, at, lt, idle) ↦ inr (suc p, omega (arith, at), omega (arith, lt), idle)
          ]
  ]

  pub applies_other :
      (id : Text) (metric : AlertMetric) (id' : Text) (metric' : AlertMetric) (a : Alert r)
      → Differs id metric id' metric'
      → a.container_id ≡ id
      → a.metric ≡ metric
      → applies id' metric' a ≡ false
  applies_other id metric id' metric' a other named kind =
      let e : (str_eq a.container_id id' && same_metric a.metric metric') ≡ false =
        rw (named, kind) other in
      elim (Bool-cases a.active) [ inl on ↦ rw (on, e) refl | inr off ↦ rw off refl ]
