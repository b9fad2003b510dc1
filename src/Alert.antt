-- ===== src/Alert.antt =====
-- src/alert.c and src/alert.h: the table of thresholds. A `double` is an element of `Reals`, which
-- says how they are compared and printed.
pub mod Table
pub mod Check
pub mod Json
pub mod Map
pub mod Refine
mod Tests
use container_internals_simu.Prelude.{
  ℕ, zero, suc, ◌+◌, Bool, true, false, not, ◌&&◌, ◌||◌, Option, none, some, List, [], ◌∷◌, ◌++◌,
  get_or, set, replicate, if◌then◌else◌,
}
use container_internals_simu.Prelude.Int.{ℤ, pos}
use container_internals_simu.Prelude.Text.{Text, str_eq, is_empty, copy_string}
use container_internals_simu.EventBus.Types.{EventType, alert_fired, alert_resolved}

-- The type `double`: `x < 0`, `x >= y`, and `0.0`.
pub record Reals : Type 1 where
  pub Real : Type 0
  pub is_negative : Real → Bool
  pub is_ge : Real → Real → Bool
  pub zero_real : Real

pub data AlertMetric : Type 0 where
  cpu mem : AlertMetric

pub record Alert (r : Reals) : Type 0 where
  pub container_id : Text
  pub metric : AlertMetric
  pub threshold : r.Real
  pub active : Bool
  pub firing : Bool
  pub fired_at : ℕ

-- A call's result: 0, or -1 with the `errno` that it sets (`not_found` sets none).
pub data Result : Type 0 where
  ok einval enomem not_found : Result

abbrev pub alert_max : ℕ
alert_max = 128

abbrev pub id_size : ℕ
id_size = 64

abbrev pub same_metric : AlertMetric → AlertMetric → Bool
same_metric cpu cpu = true
same_metric mem mem = true
same_metric _ _ = false

-- `if (free_slot < 0) free_slot = i;`
abbrev pub first_free : Option ℕ → ℕ → Option ℕ
first_free none i = some i
first_free (some k) i = some k

module _ (r : Reals) where
  abbrev pub empty_alert : Alert r
  empty_alert = record {
    container_id = [];
    metric = cpu;
    threshold = r.zero_real;
    active = false;
    firing = false;
    fired_at = 0;
  }

  abbrev pub is_for : Text → AlertMetric → Alert r → Bool
  is_for id metric a = str_eq a.container_id id && same_metric a.metric metric

  -- The loop of `alert_set` from slot `i` on: the slot of the alert, and the first free slot.
  unfoldable pub search : Text → AlertMetric → List (Alert r) → ℕ → Option ℕ → Option ℕ × Option ℕ
  search id metric [] i free = (none, free)
  search id metric (a ∷ rest) i free =
      let later = search id metric rest (i + 1) (if a.active then free else first_free free i) in
      if a.active && is_for id metric a then (some i, free) else later

  abbrev pub rearmed : r.Real → Alert r → Alert r
  rearmed threshold a = record a { threshold = threshold; firing = false }

  abbrev pub new_alert : Text → AlertMetric → r.Real → Alert r
  new_alert id metric threshold = record {
    container_id = copy_string id_size id;
    metric = metric;
    threshold = threshold;
    active = true;
    firing = false;
    fired_at = 0;
  }

  store :
      Text → AlertMetric → r.Real → List (Alert r) → Option ℕ × Option ℕ → List (Alert r) × Result
  store id metric threshold table (some k, free) =
      (set table k (rearmed threshold (get_or table k empty_alert)), ok)
  store id metric threshold table (none, none) = (table, enomem)
  store id metric threshold table (none, some k) = (set table k (new_alert id metric threshold), ok)

  -- `none` stands for NULL.
  unfoldable pub alert_set :
      Option Text → AlertMetric → r.Real → List (Alert r) → List (Alert r) × Result
  unfolding store
  alert_set none metric threshold table = (table, einval)
  alert_set (some id) metric threshold table =
      if is_empty id || r.is_negative threshold
      then (table, einval)
      else store id metric threshold table (search id metric table 0 none)

  -- The loop of `alert_clear`: the table, and whether a slot was found.
  unfoldable pub clear_slots : Text → AlertMetric → List (Alert r) → List (Alert r) × Bool
  clear_slots id metric [] = ([], false)
  clear_slots id metric (a ∷ rest) =
      let (table, found) = clear_slots id metric rest in
      if a.active && is_for id metric a
      then (record a { active = false } ∷ table, true)
      else (a ∷ table, found)

  unfoldable pub alert_clear : Option Text → AlertMetric → List (Alert r) → List (Alert r) × Result
  alert_clear none metric table = (table, einval)
  alert_clear (some id) metric table =
      let (cleared, found) = clear_slots id metric table in
      (cleared, if found then ok else not_found)

  abbrev pub alert_clear_all : List (Alert r)
  alert_clear_all = replicate alert_max empty_alert

  -- A transition, with the value: the event, the container, the metric, the value, the threshold.
  pub data Transition : Type 0 where
    transition : EventType → Text → AlertMetric → r.Real → r.Real → Transition

  -- `(has_cpu_pct, cpu_pct)` is `none` if there is no CPU value.
  abbrev pub value_of : AlertMetric → Option r.Real → r.Real → Option r.Real
  value_of cpu cpu_pct rss_mb = cpu_pct
  value_of mem cpu_pct rss_mb = some rss_mb

  -- The body of the loop of `alert_check_sample` for an alert of the container, with its value.
  abbrev pub compare_value : ℕ → Text → Alert r → Option r.Real → Alert r × List Transition
  compare_value now id a none = (a, [])
  compare_value now id a (some value) =
      let over = r.is_ge value a.threshold in
      if over && not a.firing
      then (
        record a { firing = true; fired_at = now },
        transition alert_fired id a.metric value a.threshold ∷ [],
      )
      else if not over && a.firing
      then (
        record a { firing = false },
        transition alert_resolved id a.metric value a.threshold ∷ [],
      )
      else (a, [])

  unfoldable pub check_slot :
      ℕ → Text → Option r.Real → r.Real → Alert r → Alert r × List Transition
  check_slot now id cpu_pct rss_mb a =
      if a.active && str_eq a.container_id id
      then compare_value now id a (value_of a.metric cpu_pct rss_mb)
      else (a, [])

  -- The loop, while no other thread changes the table when the lock is given up for an event.
  unfoldable pub check_slots :
      ℕ → Text → Option r.Real → r.Real → List (Alert r) → List (Alert r) × List Transition
  check_slots now id cpu_pct rss_mb [] = ([], [])
  check_slots now id cpu_pct rss_mb (a ∷ rest) =
      let (checked, first) = check_slot now id cpu_pct rss_mb a in
      let (table, others) = check_slots now id cpu_pct rss_mb rest in
      (checked ∷ table, first ++ others)

  -- The result is the number of transitions.
  unfoldable pub alert_check_sample :
      ℕ → Option Text → Option r.Real → r.Real → List (Alert r) → List (Alert r) × List Transition
  alert_check_sample now none cpu_pct rss_mb table = (table, [])
  alert_check_sample now (some id) cpu_pct rss_mb table = check_slots now id cpu_pct rss_mb table

  unfoldable pub alert_check :
      ℕ → Option Text → r.Real → r.Real → List (Alert r) → List (Alert r) × List Transition
  alert_check now id cpu_pct rss_mb table = alert_check_sample now id (some cpu_pct) rss_mb table
