-- ===== src/Alert/Refine/Set.antt =====
-- `alert_set` does to the map what the specification says.
use container_internals_simu.Prelude.{
  ℕ, ◌+◌, ◌<◌, ◌≡◌, refl, ap, ap₂, inl, inr, Bool, true, false, not, ◌&&◌, ◌||◌, Option, none, some,
  List, [], ◌∷◌, arith, Bool-cases, length, if◌then◌else◌,
}
use mathlib.Core.Path.{fun_ext, sym, ◌∙◌}
use container_internals_simu.Prelude.Text.{Text, str_eq, str_eq_iff, is_empty}
use container_internals_simu.Alert.{
  Reals, Alert, AlertMetric, Result, ok, einval, enomem, id_size, same_metric, first_free, search,
  store, alert_set,
}
use container_internals_simu.Alert.Table.{applies, find, both, same_metric-eq}
use container_internals_simu.Alert.Table.Set.{IsSetting, alert_set_cases}
use container_internals_simu.Alert.Map.{is_held, Entry, View, entry_of, view, seen, update, is_full}

module _ (r : Reals) where
  search-held :
      (id : Text) (metric : AlertMetric) (table : List (Alert r)) (i : ℕ) (free : Option ℕ)
      → is_held (search r id metric table i free).0 ≡ is_held (view r table id metric)
  unfolding search find
  search-held id metric [] i free = refl
  search-held id metric (a ∷ rest) i free = elim (Bool-cases (applies r id metric a)) [
    | inl there ↦ rw there refl
    | inr not_there ↦ rw not_there (search-held id metric rest (i + 1) _)
  ]

  search-full :
      (id : Text) (metric : AlertMetric) (table : List (Alert r)) (i : ℕ) (free : Option ℕ)
      → is_held (view r table id metric) ≡ false
      → is_held (search r id metric table i free).1 ≡ (is_held free || not (is_full r table))
  unfolding search find is_full
  search-full id metric [] i free absent = ground arith
  search-full id metric (a ∷ rest) i free absent = elim (Bool-cases (applies r id metric a)) [
    | inl there ↦ absurd (cc (rw there at absent))
    | inr not_there ↦
        let ih =
          search-full id metric rest (i + 1) (if a.active then free else first_free free i)
            (rw not_there at absent) in
        rw (not_there, ih) (ground arith)
  ]

  store-answer :
      (id : Text) (metric : AlertMetric) (threshold : r.Real) (table : List (Alert r))
      (found free : Option ℕ)
      → (store r id metric threshold table (found, free)).1
        ≡ (if is_held found || is_held free then ok else enomem)
  unfolding store
  store-answer id metric threshold table none none = refl
  store-answer id metric threshold table none (some k) = refl
  store-answer id metric threshold table (some k) free = refl

  pub set-answer :
      (id : Text) (metric : AlertMetric) (threshold : r.Real) (table : List (Alert r))
      → (is_empty id || r.is_negative threshold) ≡ false
      → (alert_set r (some id) metric threshold table).1
        ≡ (if is_full r table && not (is_held (view r table id metric)) then enomem else ok)
  unfolding alert_set
  set-answer id metric threshold table fine =
      let s = search r id metric table 0 none in
      rw (fine, store-answer id metric threshold table s.0 s.1, search-held id metric table 0 none)
        (elim (Bool-cases (is_held (view r table id metric))) [
          | inl there ↦ ground arith
          | inr not_there ↦ rw (search-full id metric table 0 none not_there) (ground arith)
        ])

  pub update-eq :
      (id : Text) (metric : AlertMetric) (e : Entry r) (v w : View r)
      → w id metric ≡ e
      → ((id' : Text) (metric' : AlertMetric)
          → (str_eq id id' && same_metric metric metric') ≡ false
          → w id' metric' ≡ v id' metric')
      → w ≡ update r id metric e v
  update-eq id metric e v w here others = fun_ext (λ id'. fun_ext (λ metric'.
      elim (Bool-cases (str_eq id id' && same_metric metric metric')) [
        | inl same ↦
            let (named, kind) = both (str_eq id id') (same_metric metric metric') same in
            let p = (str_eq_iff id id').0 named in
            let q = same_metric-eq metric metric' kind in rw same (ap₂ w (sym p) (sym q) ∙ here)
        | inr other ↦ rw other (others id' metric' other)
      ]))

  set-view :
      (id : Text) (metric : AlertMetric) (threshold : r.Real) (table : List (Alert r)) (full : Bool)
      (after : List (Alert r) × Result)
      → IsSetting r id metric threshold table after
      → after.1 ≡ (if full && not (is_held (view r table id metric)) then enomem else ok)
      → view r after.0 ≡ (
          if full && not (is_held (view r table id metric))
          then view r table
          else update r id metric (some (threshold, false)) (view r table))
  set-view id metric threshold table full after (inl (e, same, absent)) res =
      elim (Bool-cases (full && not (is_held (view r table id metric)))) [
        | inl refused ↦ rw refused (ap (view r) same)
        | inr fine ↦ absurd (cc (rw fine at res, e))
      ]
  set-view id metric threshold table full after (inr (e, (a, at, limit, armed), others)) res =
      elim (Bool-cases (full && not (is_held (view r table id metric)))) [
        | inl refused ↦ absurd (cc (rw refused at res, e))
        | inr fine ↦ rw fine (
            update-eq id metric (some (threshold, false)) (view r table) (view r after.0)
              (rw (at, limit, armed) refl)
              (λ id' metric' other. ap (entry_of r) (others id' metric' other)))
      ]

  pub set-refused :
      (id : Text) (metric : AlertMetric) (threshold : r.Real) (table : List (Alert r))
      → (is_empty id || r.is_negative threshold) ≡ true
      → alert_set r (some id) metric threshold table ≡ (table, einval)
  unfolding alert_set
  set-refused id metric threshold table bad = rw bad refl

  pub set-accepted :
      (id : Text) (metric : AlertMetric) (threshold : r.Real) (table : List (Alert r))
      → (is_empty id || r.is_negative threshold) ≡ false
      → length id < id_size
      → IsSetting r id metric threshold table (alert_set r (some id) metric threshold table)
  set-accepted id metric threshold table fine short =
      alert_set_cases r id metric threshold table (ground (arith, fine)) short
        (ground (arith, fine))

  pub answered :
      (id : Text) (metric : AlertMetric) (threshold : r.Real) (table : List (Alert r))
      (after : List (Alert r) × Result)
      → IsSetting r id metric threshold table after
      → after.1 ≡ (if is_full r table && not (is_held (view r table id metric)) then enomem else ok)
      → seen r after ≡ (
          if is_full r table && not (is_held (view r table id metric))
          then (view r table, enomem)
          else (update r id metric (some (threshold, false)) (view r table), ok))
  answered id metric threshold table after setting res =
      let content = set-view id metric threshold table (is_full r table) after setting res in
      elim (Bool-cases (is_full r table && not (is_held (view r table id metric)))) [
        | inl refused ↦
            rw refused (
              ap₂ (λ (v : View r) (b : Result). (v, b)) (rw refused at content) (rw refused at res))
        | inr fine ↦
            rw fine
              (ap₂ (λ (v : View r) (b : Result). (v, b)) (rw fine at content) (rw fine at res))
      ]
