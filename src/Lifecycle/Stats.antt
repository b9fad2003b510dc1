-- ===== src/Lifecycle/Stats.antt =====
-- `container_stats_json_all` of src/container.c, which samples the memory of the running containers
-- for the metrics and for the alerts. What /proc says of a process is a parameter, in kilobytes, and
-- so is the number of megabytes as a `double`; all samples are taken at one time.
mod Tests
use container_internals_simu.Prelude.{
  ℕ, ◌-◌, ◌*◌, ◌/◌, ◌≤◌, ◌<◌, ◌≡◌, ◌≢◌, refl, sym, ap, subst, ◌∙◌, inl, inr, Bool, true, false, not,
  ◌&&◌, ◌||◌, Option, none, some, List, [], ◌∷◌, ◌++◌, map, All, ltb, leb, arith, tests, Bool-cases,
  if◌then◌else◌,
}
use container_internals_simu.Prelude.Int.{ℤ, positive}
use container_internals_simu.Prelude.Text.{Text, codes, str_eq, str_eq_iff}
use container_internals_simu.Prelude.Decimal.{print_nat}
use container_internals_simu.Json.Array.{Out, in_buffer, append_text, separated, close_with}
use container_internals_simu.Alert.{
  Reals, Alert, Transition, compare_value, value_of, check_slot, check_slots, alert_check_sample,
}
use container_internals_simu.Alert.Check.{IsSettled, check_slots-IsSettled, compare_value-frame}
use container_internals_simu.Alert.Table.{both}
use container_internals_simu.Metrics.{Metrics, update_mem_highwater}
use container_internals_simu.Container.{Container}
use container_internals_simu.Lifecycle.{is_running}
use container_internals_simu.Lifecycle.Invariant.{Distinct, ids}

module _ (r : Reals) (to_mb : ℕ → r.Real) (rss_kb : ℤ → ℕ) where
  -- The buffer, `first`, and what the samples change.
  pub record Sampling : Type 0 where
    pub out : Out
    pub first : Bool
    pub metrics : Metrics
    pub alerts : List (Alert r)
    pub transitions : List (Transition r)

  abbrev pub is_sampled : Container → Bool
  is_sampled c = is_running c.state && positive c.pid

  abbrev pub stats_entry : Text → ℕ → Text
  stats_entry id mb =
      codes "\"" ++ (in_buffer 128 id ++ (codes "\":{\"rss_mb\":" ++ (print_nat mb ++ codes "}")))

  unfoldable pub sample_container : ℕ → ℕ → Container → Sampling → Sampling
  sample_container now buflen c s =
      let kb = rss_kb c.pid in
      let (alerts, told) = alert_check_sample r now (some c.id) none (to_mb kb) s.alerts in
      if is_sampled c
      then record {
        out = append_text buflen (separated s.first (stats_entry c.id (kb / 1024))) s.out;
        first = false;
        metrics = update_mem_highwater (kb / 1024) s.metrics;
        alerts = alerts;
        transitions = s.transitions ++ told;
      }
      else s

  unfoldable pub stats_loop : ℕ → ℕ → List Container → Sampling → Sampling
  stats_loop now buflen [] s = s
  stats_loop now buflen (c ∷ cs) s =
      let rest = stats_loop now buflen cs (sample_container now buflen c s) in
      if ltb s.out.written (buflen - 128) then rest else s

  -- The buffer and the result, and the rest; `none` is the result -1.
  unfoldable pub container_stats_json_all :
      ℕ → Bool → ℕ → List Container → Metrics → List (Alert r) → Option Sampling
  container_stats_json_all now buf_given buflen cs metrics alerts =
      let s = stats_loop now buflen cs (record {
        out = append_text buflen (codes "{") (record { text = []; written = 0 });
        first = true;
        metrics = metrics;
        alerts = alerts;
        transitions = [];
      }) in
      if not buf_given || leb buflen 2
      then none
      else some (record s { out = close_with b'}' buflen s.out })

  -- Every alert for the memory of the container agrees with its sample.
  abbrev pub Sampled : List (Alert r) → Container → Type 0
  Sampled alerts c = All (IsSettled r c.id none (to_mb (rss_kb c.pid))) alerts

  check_slot-other :
      (now : ℕ) (id id' : Text) (mb mb' : r.Real) (a : Alert r)
      → id ≢ id'
      → IsSettled r id' none mb' a
      → IsSettled r id' none mb' (check_slot r now id none mb a).0
  unfolding check_slot
  check_slot-other now id id' mb mb' a other settled =
      elim (Bool-cases (a.active && str_eq a.container_id id)) [
        | inr not_mine ↦ rw not_mine settled
        | inl mine ↦ rw mine (λ his.
            let b = (compare_value r now id a (value_of r a.metric none mb)).0 in
            let named = (compare_value-frame r now id a (value_of r a.metric none mb)).1 in
            let p = (str_eq_iff a.container_id id).0 (both a.active _ mine).1 in
            let q = (str_eq_iff b.container_id id').0 (both b.active _ his).1 in
            absurd (other (sym p ∙ sym named ∙ q)))
      ]

  check_slots-other :
      (now : ℕ) (id id' : Text) (mb mb' : r.Real) (table : List (Alert r))
      → id ≢ id'
      → All (IsSettled r id' none mb') table
      → All (IsSettled r id' none mb') (check_slots r now id none mb table).0
  unfolding check_slots
  check_slots-other now id id' mb mb' [] other settled = tt
  check_slots-other now id id' mb mb' (a ∷ rest) other settled = (
    check_slot-other now id id' mb mb' a other settled.0,
    check_slots-other now id id' mb mb' rest other settled.1,
  )

  sample_container-Sampled :
      (now buflen : ℕ) (c : Container) (s : Sampling)
      → is_sampled c ≡ true
      → Sampled (sample_container now buflen c s).alerts c
  unfolding sample_container alert_check_sample
  sample_container-Sampled now buflen c s live =
      rw live (check_slots-IsSettled r now c.id none (to_mb (rss_kb c.pid)) s.alerts)

  sample_container-other :
      (now buflen : ℕ) (c d : Container) (s : Sampling)
      → c.id ≢ d.id
      → Sampled s.alerts d
      → Sampled (sample_container now buflen c s).alerts d
  unfolding sample_container alert_check_sample
  sample_container-other now buflen c d s other settled = elim (Bool-cases (is_sampled c)) [
    | inr not_live ↦ rw not_live settled
    | inl live ↦ rw live (
        check_slots-other now c.id d.id (to_mb (rss_kb c.pid)) (to_mb (rss_kb d.pid)) s.alerts other
          settled)
  ]

  stats_loop-other :
      (now buflen : ℕ) (d : Container) (cs : List Container) (s : Sampling)
      → All (λ id. d.id ≢ id) (ids cs)
      → Sampled s.alerts d
      → Sampled (stats_loop now buflen cs s).alerts d
  unfolding stats_loop
  stats_loop-other now buflen d [] s others settled = settled
  stats_loop-other now buflen d (c ∷ cs) s others settled =
      elim (Bool-cases (ltb s.out.written (buflen - 128))) [
        | inr full ↦ rw full settled
        | inl more ↦ rw more (
            stats_loop-other now buflen d cs (sample_container now buflen c s) others.1
              (sample_container-other now buflen c d s (λ e. others.0 (sym e)) settled))
      ]

  stats_loop-Sampled :
      (now buflen : ℕ) (cs : List Container) (s last : Sampling)
      → last ≡ stats_loop now buflen cs s
      → Distinct (ids cs)
      → last.out.written < buflen - 128
      → All (λ c. is_sampled c ≡ true → Sampled last.alerts c) cs
  unfolding stats_loop
  stats_loop-Sampled now buflen [] s last e distinct room = tt
  stats_loop-Sampled now buflen (c ∷ cs) s last e distinct room =
      elim (Bool-cases (ltb s.out.written (buflen - 128))) [
        | inr full ↦
            absurd (omega (tests, full, room, ap (λ (s : Sampling). s.out.written) (rw full at e)))
        | inl more ↦ (
          λ live.
              subst (λ (s : Sampling). Sampled s.alerts c) (sym (rw more at e))
                (stats_loop-other now buflen c cs (sample_container now buflen c s) distinct.0
                  (sample_container-Sampled now buflen c s live)),
          stats_loop-Sampled now buflen cs (sample_container now buflen c s) last (rw more at e)
              distinct.1 room,
        )
      ]

  -- Where the answer leaves more than 128 bytes of the buffer.
  abbrev pub HasRoom : ℕ → Option Sampling → Type 0
  HasRoom buflen none = Unit
  HasRoom buflen (some s) = s.out.written < buflen - 128

  close_with_written : (c buflen : ℕ) (out : Out) → out.written ≤ (close_with c buflen out).written
  close_with_written c buflen out = ground arith

  -- If no two containers share an id, and with more than two bytes of buffer of which the
  -- answer leaves more than 128, container_stats_json_all succeeds, and then each alert in
  -- force for the memory of a container that runs with a process fires exactly if what was read
  -- for this container has reached its threshold.
  pub container_stats_json_all-Sampled :
      (now buflen : ℕ) (cs : List Container) (metrics : Metrics) (alerts : List (Alert r))
      → Distinct (ids cs)
      → 2 < buflen
      → HasRoom buflen (container_stats_json_all now true buflen cs metrics alerts)
      → (s : Sampling) × (container_stats_json_all now true buflen cs metrics alerts ≡ some s)
        × All (λ c. is_sampled c ≡ true → Sampled s.alerts c) cs
  unfolding container_stats_json_all
  container_stats_json_all-Sampled now buflen cs metrics alerts distinct big room =
      let begun : Sampling = record {
        out = append_text buflen (codes "{") (record { text = []; written = 0 });
        first = true;
        metrics = metrics;
        alerts = alerts;
        transitions = [];
      } in
      let last = stats_loop now buflen cs begun in
      let fits : leb buflen 2 ≡ false = ground (arith, big) in
      let left : (close_with b'}' buflen last.out).written < buflen - 128 = rw fits at room in
      (
        record last { out = close_with b'}' buflen last.out },
        rw fits refl,
        stats_loop-Sampled now buflen cs begun last refl distinct
            (omega (arith, left, close_with_written b'}' buflen last.out)),
      )
