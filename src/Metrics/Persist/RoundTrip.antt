-- ===== src/Metrics/Persist/RoundTrip.antt =====
-- Loading reads what was saved.
use container_internals_simu.Prelude.{
  ◌&◌, ℕ, ◌≤◌, ◌<◌, ◌≡◌, refl, ap, ◌∙◌, Bool, false, Option, List, [], ◌∷◌, ◌++◌, map, All, length,
  length-append, arith,
}
use mathlib.Core.List.{append_assoc}
use container_internals_simu.Prelude.Text.{Text, str_eq}
use container_internals_simu.Prelude.Decimal.{
  print_nat, strtoull, skip_spaces, signed, wrap_ulong, read_digits, IsDigit, print_nat-IsDigit,
  read_digits-print_nat, length-print_nat, length-print_nat_pos, ulong_max,
}
use container_internals_simu.Prelude.Scan.{read_digits-append}
use container_internals_simu.EventBus.Line.{cut, cut_lem, Lacks-append, Lacks-print_nat}
use container_internals_simu.Metrics.{Metrics, normalize_startup_metrics}
use container_internals_simu.Metrics.Persist.{
  Counter, counters, equals, save_line, metrics_save, try_counters, take_value, load_line,
  load_lines, metrics_load,
}
use container_internals_simu.Prelude.FileLines.{newline, Lacks, IsLine, file_lines-print_all}

signed-digits_line {ℓ} :
    {A : Type ℓ} (k : Bool → Text → A) (s rest : Text)
    → All IsDigit s
    → 0 < length s
    → signed k (skip_spaces (s ++ rest)) ≡ k false (s ++ rest)
unfolding skip_spaces
signed-digits_line k [] rest a h = absurd (omega arith)
signed-digits_line k (c ∷ s) rest a h = ground (arith, a.0)

strtoull-line : (n : ℕ) → n ≤ ulong_max → strtoull (print_nat n ++ newline ∷ []) ≡ n
unfolding strtoull wrap_ulong
strtoull-line n h =
    signed-digits_line (λ neg t. wrap_ulong neg (read_digits t 0)) (print_nat n) (newline ∷ [])
      (print_nat-IsDigit n) (length-print_nat_pos n)
    ∙ rw
        (
          read_digits-append (print_nat n) (newline ∷ []) 0 (print_nat-IsDigit n) refl,
          read_digits-print_nat n,
        )
        (ground arith)

-- The name stands for its own field, in the chain, and can stand in a line.
record IsNamed (c : Counter) : Type 0 where
  found : (val : ℕ) (m : Metrics) → try_counters counters c.name val m ≡ c.put val m
  no_equals : Lacks equals c.name
  no_newline : Lacks newline c.name
  short : length c.name < 100

load_line-save_line :
    (a m : Metrics) (c : Counter)
    → IsNamed c
    → c.get a ≤ ulong_max
    → load_line (save_line a c) m ≡ c.put (c.get a) m
unfolding load_line save_line take_value
load_line-save_line a m c v h =
    let value = print_nat (c.get a) in
    ap (λ (s : Text). take_value (cut equals s) m)
      (append_assoc c.name (equals ∷ value) (newline ∷ []))
    ∙ ap (λ (r : Text × Option Text). take_value r m)
        (cut_lem equals c.name (value ++ newline ∷ []) v.no_equals)
    ∙ ap (λ (n : ℕ). try_counters counters c.name n m) (strtoull-line (c.get a) h)
    ∙ v.found (c.get a) m

-- All fields taken over, one after the other.
abbrev pub put_all : List Counter → Metrics → Metrics → Metrics
put_all [] a m = m
put_all (c ∷ cs) a m = put_all cs a (c.put (c.get a) m)

load_lines-map :
    (cs : List Counter) (a m : Metrics)
    → All IsNamed cs
    → All (λ c. c.get a ≤ ulong_max) cs
    → load_lines (map (save_line a) cs) m ≡ put_all cs a m
unfolding load_lines
load_lines-map [] a m v h = refl
load_lines-map (c ∷ cs) a m v h =
    ap (load_lines (map (save_line a) cs)) (load_line-save_line a m c v.0 h.0)
    ∙ load_lines-map cs a (c.put (c.get a) m) v.1 h.1

save_line-IsLine :
    (a : Metrics) (c : Counter) → IsNamed c × (c.get a ≤ ulong_max) → IsLine 127 (save_line a c)
unfolding save_line
save_line-IsLine a c (v, h) = record {
  body = c.name ++ equals ∷ print_nat (c.get a);
  ends = refl;
  one =
      Lacks-append newline c.name (equals ∷ print_nat (c.get a)) v.no_newline
        (λ e. omega arith, Lacks-print_nat newline (c.get a) (omega arith));
  short = omega (
    arith,
    v.short,
    length-append c.name (equals ∷ print_nat (c.get a)),
    length-print_nat (c.get a) 19,
  );
}

All-both :
    (a : Metrics) (cs : List Counter)
    → All IsNamed cs
    → All (λ c. c.get a ≤ ulong_max) cs
    → All (λ c. IsNamed c × (c.get a ≤ ulong_max)) cs
All-both a [] v h = tt
All-both a (c ∷ cs) v h = ((v.0, h.0), All-both a cs v.1 h.1)

abbrev named :
    (c : Counter)
    → ((val : ℕ) (m : Metrics) → try_counters counters c.name val m ≡ c.put val m)
    → Lacks equals c.name
    → Lacks newline c.name
    → length c.name < 100
    → IsNamed c
named c f e n s = record { found = f; no_equals = e; no_newline = n; short = s }

counters-IsNamed : All IsNamed counters
unfolding try_counters str_eq
counters-IsNamed =
    named _ (λ val m. refl) (omega arith) (omega arith) (omega arith)
    & named _ (λ val m. refl) (omega arith) (omega arith) (omega arith)
    & named _ (λ val m. refl) (omega arith) (omega arith) (omega arith)
    & named _ (λ val m. refl) (omega arith) (omega arith) (omega arith)
    & named _ (λ val m. refl) (omega arith) (omega arith) (omega arith)
    & named _ (λ val m. refl) (omega arith) (omega arith) (omega arith)
    & named _ (λ val m. refl) (omega arith) (omega arith) (omega arith)
    & named _ (λ val m. refl) (omega arith) (omega arith) (omega arith)
    & named _ (λ val m. refl) (omega arith) (omega arith) (omega arith)
    & named _ (λ val m. refl) (omega arith) (omega arith) (omega arith)
    & named _ (λ val m. refl) (omega arith) (omega arith) (omega arith)
    & named _ (λ val m. refl) (omega arith) (omega arith) (omega arith)
    & named _ (λ val m. refl) (omega arith) (omega arith) (omega arith)
    & named _ (λ val m. refl) (omega arith) (omega arith) (omega arith)
    & named _ (λ val m. refl) (omega arith) (omega arith) (omega arith)
    & named _ (λ val m. refl) (omega arith) (omega arith) (omega arith)
    & tt

-- Loading what was saved takes over every counter of the file, if each fits an `unsigned long`, and
-- keeps the rest, the histogram among it, as it was; then the startup times are normalised.
pub metrics_load-metrics_save :
    (a m : Metrics)
    → All (λ c. c.get a ≤ ulong_max) counters
    → metrics_load (metrics_save a) m
      ≡ normalize_startup_metrics (record a {
        startup_buckets = m.startup_buckets;
        uptime_start = m.uptime_start;
        last_event_time = m.last_event_time;
      })
unfolding metrics_load metrics_save
metrics_load-metrics_save a m h =
    ap (λ (lines : List Text). normalize_startup_metrics (load_lines lines m))
      (file_lines-print_all (λ c. IsNamed c × (c.get a ≤ ulong_max)) (save_line a) 127
        (save_line-IsLine a) (length (metrics_save a)) counters
        (All-both a counters counters-IsNamed h) (omega arith))
    ∙ ap normalize_startup_metrics (load_lines-map counters a m counters-IsNamed h)
