-- ===== src/Alert/Json.antt =====
-- `alert_json` of src/alert.c. The texts of a threshold and of a time are parameters.
use container_internals_simu.Prelude.{
  ℕ, ◌*◌, Bool, not, ◌||◌, Option, none, some, List, [], ◌++◌, map, keep, ltb, leb, if◌then◌else◌,
}
use container_internals_simu.Prelude.Text.{Text, codes}
use container_internals_simu.Json.Array.{Out, in_buffer, json_array}
use container_internals_simu.Alert.{Reals, Alert, AlertMetric, cpu, mem, id_size}

abbrev pub metric_name : AlertMetric → Text
metric_name cpu = codes "cpu"
metric_name mem = codes "mem"

-- `print_threshold` stands for the two formats of a threshold, and `local_time` for `localtime` and
-- `strftime`.
module _ (r : Reals) (print_threshold : AlertMetric → r.Real → Text) (local_time : ℕ → Text) where
  abbrev pub fired_text : ℕ → Text
  fired_text fired_at = if ltb 0 fired_at then local_time fired_at else []

  unfoldable pub json_alert : Alert r → Text
  json_alert a =
      codes "{\"container_id\":\""
      ++ (in_buffer (id_size * 2) a.container_id
          ++ (codes "\",\"metric\":\""
              ++ (in_buffer 16 (metric_name a.metric)
                  ++ (codes "\",\"threshold\":\""
                      ++ (in_buffer 48 (print_threshold a.metric a.threshold)
                          ++ (codes "\",\"firing\":"
                              ++ ((if a.firing then codes "true" else codes "false")
                                  ++ (codes ",\"fired_at\":\""
                                      ++ (in_buffer 32 (fired_text a.fired_at)
                                          ++ codes "\"}")))))))))

  -- The buffer and the result; `none` is the result -1.
  unfoldable pub alert_json : Bool → ℕ → List (Alert r) → Option Out
  alert_json buf_given buflen table =
      if not buf_given || leb buflen 2
      then none
      else some (json_array 256 buflen (map json_alert (keep (λ a. a.active) table)))
