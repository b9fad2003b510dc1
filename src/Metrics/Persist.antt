-- ===== src/Metrics/Persist.antt =====
-- `metrics_save` and `metrics_load` of src/metrics.c.
pub mod RoundTrip
use container_internals_simu.Prelude.{
  ℕ, zero, suc, ◌+◌, ◌-◌, ◌^◌, ◌≤◌, ◌<◌, ◌≡◌, ◌≢◌, refl, ap, ◌∙◌, Bool, true, false, Option, none,
  some, List, [], ◌∷◌, ◌++◌, map, All, All-append, length, length-append, arith, if◌then◌else◌, ltb,
}
use mathlib.Core.List.{append_assoc}
use container_internals_simu.Prelude.Text.{Text, codes, str_eq}
use container_internals_simu.Prelude.Decimal.{
  print_nat, strtoull, skip_spaces, signed, wrap_ulong, read_digits, signed-digits, IsDigit,
  print_nat-IsDigit, read_digits-print_nat, length-print_nat, length-print_nat_pos, ulong_max,
}
use container_internals_simu.Prelude.Scan.{read_digits-append}
use container_internals_simu.EventBus.Line.{cut, cut_lem, Lacks-append, Lacks-print_nat}
use container_internals_simu.Metrics.{Metrics, normalize_startup_metrics}
use container_internals_simu.Prelude.FileLines.{newline, file_lines, print_all}

-- A line of `MF` and of `TRY`: the name, and the field that it stands for.
pub record Counter : Type 0 where
  pub name : Text
  pub get : Metrics → ℕ
  pub put : ℕ → Metrics → Metrics

abbrev pub startup_counters : List Counter
startup_counters =
    record {
      name = codes "startup_count";
      get = λ m. m.startup_count;
      put = λ n m. record m { startup_count = n };
    }
    ∷ record {
      name = codes "startup_total_ms";
      get = λ m. m.startup_total_ms;
      put = λ n m. record m { startup_total_ms = n };
    }
    ∷ record {
      name = codes "startup_max_ms";
      get = λ m. m.startup_max_ms;
      put = λ n m. record m { startup_max_ms = n };
    }
    ∷ record {
      name = codes "startup_min_ms";
      get = λ m. m.startup_min_ms;
      put = λ n m. record m { startup_min_ms = n };
    }
    ∷ record {
      name = codes "mem_highwater_mb";
      get = λ m. m.mem_highwater_mb;
      put = λ n m. record m { mem_highwater_mb = n };
    }
    ∷ []

abbrev pub counters : List Counter
counters =
    record {
      name = codes "containers_started";
      get = λ m. m.containers_started;
      put = λ n m. record m { containers_started = n };
    }
    ∷ record {
      name = codes "containers_stopped";
      get = λ m. m.containers_stopped;
      put = λ n m. record m { containers_stopped = n };
    }
    ∷ record {
      name = codes "containers_deleted";
      get = λ m. m.containers_deleted;
      put = λ n m. record m { containers_deleted = n };
    }
    ∷ record {
      name = codes "containers_paused";
      get = λ m. m.containers_paused;
      put = λ n m. record m { containers_paused = n };
    }
    ∷ record {
      name = codes "containers_unpaused";
      get = λ m. m.containers_unpaused;
      put = λ n m. record m { containers_unpaused = n };
    }
    ∷ record {
      name = codes "exec_launches";
      get = λ m. m.exec_launches;
      put = λ n m. record m { exec_launches = n };
    }
    ∷ record {
      name = codes "oom_kills";
      get = λ m. m.oom_kills;
      put = λ n m. record m { oom_kills = n };
    }
    ∷ record {
      name = codes "images_built";
      get = λ m. m.images_built;
      put = λ n m. record m { images_built = n };
    }
    ∷ record {
      name = codes "images_removed";
      get = λ m. m.images_removed;
      put = λ n m. record m { images_removed = n };
    }
    ∷ record {
      name = codes "sched_toggles";
      get = λ m. m.sched_toggles;
      put = λ n m. record m { sched_toggles = n };
    }
    ∷ record {
      name = codes "events_total";
      get = λ m. m.events_total;
      put = λ n m. record m { events_total = n };
    }
    ∷ startup_counters

abbrev pub equals : ℕ
equals = b'='

-- `fprintf(f, name "=%lu\n", snap.field)`
unfoldable pub save_line : Metrics → Counter → Text
save_line m c = (c.name ++ equals ∷ print_nat (c.get m)) ++ newline ∷ []

abbrev pub save_lines : Metrics → List Counter → Text
save_lines m = print_all (save_line m)

-- The text of the file.
unfoldable pub metrics_save : Metrics → Text
metrics_save m = save_lines m counters

-- The chain of `TRY`.
unfoldable pub try_counters : List Counter → Text → ℕ → Metrics → Metrics
try_counters [] name val m = m
try_counters (c ∷ cs) name val m =
    let later = try_counters cs name val m in if str_eq name c.name then c.put val m else later

-- A line without an equals sign is passed over.
unfoldable pub take_value : Text × Option Text → Metrics → Metrics
take_value (name, none) m = m
take_value (name, some rest) m = try_counters counters name (strtoull rest) m

unfoldable pub load_line : Text → Metrics → Metrics
unfolding take_value
load_line line m = take_value (cut equals line) m

unfoldable pub load_lines : List Text → Metrics → Metrics
load_lines [] m = m
load_lines (line ∷ lines) m = load_lines lines (load_line line m)

-- The lines that `fgets` gives with a buffer of 128 bytes.
abbrev pub metrics_lines : ℕ → Text → List Text
metrics_lines = file_lines 127

-- From the text of a file that can be opened.
unfoldable pub metrics_load : Text → Metrics → Metrics
metrics_load text m = normalize_startup_metrics (load_lines (metrics_lines (length text) text) m)
