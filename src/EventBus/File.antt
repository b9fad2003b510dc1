-- ===== src/EventBus/File.antt =====
-- events.log as a text: the lines that `fgets` reads back from what `fprintf` wrote.
use mathlib.Core.List.{append_assoc, append-nil}
use container_internals_simu.Prelude.{
  ℕ, ◌+◌, ◌-◌, ◌≤◌, ◌<◌, ◌≡◌, ◌≢◌, sym, ap, ◌∙◌, List, [], ◌∷◌, ◌++◌, map, All, length,
  length-append, arith,
}
use container_internals_simu.Prelude.Text.{Text}
use container_internals_simu.Prelude.Decimal.{
  print_nat, print_int, length-print_nat, length-print_int,
}
use container_internals_simu.EventBus.Types.{Event, EventType, container_created, type_name}
use container_internals_simu.EventBus.Line.{
  field, or_dash, tab, format_line, IsPlain, Lacks-append, Lacks-print_nat, Lacks-print_int,
  Lacks-type_name, Lacks-or_dash,
}
use container_internals_simu.EventBus.{read_lines, line_size}
use container_internals_simu.Prelude.FileLines.{
  newline, Lacks, print_all, IsLine, file_lines-print_all,
}

-- The line without its newline.
line_body : Event → Text
line_body e = field (print_nat e.seq) (
    field (print_int e.timestamp) (
      field (type_name e.type)
        (field (or_dash e.container_id) (field (or_dash e.detail) (print_int e.value)))))

format_line-eq : (e : Event) → format_line e ≡ line_body e ++ newline ∷ []
unfolding format_line line_body
format_line-eq e = simp append_assoc

Lacks-field : (c : ℕ) (s t : Text) → c ≢ tab → Lacks c s → Lacks c t → Lacks c (field s t)
Lacks-field c s t n a b = Lacks-append c s (tab ∷ t) a (λ e. n (sym e), b)

length-field : (s t : Text) → length (field s t) ≡ length s + length t + 1
length-field s t = omega (arith, length-append s (tab ∷ t))

length-type_name : (t : EventType) → length (type_name t) ≤ 24
unfolding type_name
length-type_name container_created = omega arith
length-type_name _ = omega arith

length-or_dash : (s : Text) → length (or_dash s) ≤ length s + 1
length-or_dash [] = omega arith
length-or_dash (x ∷ s) = omega arith

line_body-Lacks : (e : Event) → IsPlain e → Lacks newline (line_body e)
unfolding line_body
line_body-Lacks e p =
    Lacks-field newline (print_nat e.seq) _ other (Lacks-print_nat newline e.seq (omega arith)) (
      Lacks-field newline (print_int e.timestamp) _ other
        (Lacks-print_int newline e.timestamp (omega arith))
        (Lacks-field newline (type_name e.type) _ other (Lacks-type_name e.type).1 (
          Lacks-field newline (or_dash e.container_id) _ other
            (Lacks-or_dash newline e.container_id (omega arith) p.id_lacks.1)
            (Lacks-field newline (or_dash e.detail) (print_int e.value) other
              (Lacks-or_dash newline e.detail (omega arith) p.detail_lacks.1)
              (Lacks-print_int newline e.value (omega arith))))))
  where
    other : newline ≢ tab
    other = omega arith

length-line_body : (e : Event) → IsPlain e → length (line_body e) < line_size - 1
unfolding line_body
length-line_body e p = omega (
  arith,
  length-field (print_nat e.seq) (
      field (print_int e.timestamp) (
        field (type_name e.type)
          (field (or_dash e.container_id) (field (or_dash e.detail) (print_int e.value))))),
  length-field (print_int e.timestamp) (
      field (type_name e.type)
        (field (or_dash e.container_id) (field (or_dash e.detail) (print_int e.value)))),
  length-field (type_name e.type)
      (field (or_dash e.container_id) (field (or_dash e.detail) (print_int e.value))),
  length-field (or_dash e.container_id) (field (or_dash e.detail) (print_int e.value)),
  length-field (or_dash e.detail) (print_int e.value),
  length-print_nat e.seq 19,
  length-print_int e.timestamp p.timestamp_fits,
  length-print_int e.value p.value_fits,
  length-type_name e.type,
  length-or_dash e.container_id,
  length-or_dash e.detail,
)

-- What events.log holds after these events.
abbrev pub log_text : List Event → Text
log_text = print_all format_line

pub log_text-append :
    (xs : List Event) (e : Event) → log_text (xs ++ e ∷ []) ≡ log_text xs ++ format_line e
log_text-append [] e = append-nil (format_line e)
log_text-append (x ∷ xs) e =
    ap (λ t. format_line x ++ t) (log_text-append xs e)
    ∙ sym (append_assoc (format_line x) (log_text xs) (format_line e))

format_line-IsLine : (e : Event) → IsPlain e → IsLine (line_size - 1) (format_line e)
format_line-IsLine e p = record {
  body = line_body e;
  ends = format_line-eq e;
  one = line_body-Lacks e p;
  short = length-line_body e p;
}

-- The lines read back are the lines written.
pub read_lines-log_text :
    (fuel : ℕ) (es : List Event)
    → All IsPlain es
    → length (log_text es) ≤ fuel
    → read_lines fuel (log_text es) ≡ map format_line es
read_lines-log_text = file_lines-print_all IsPlain format_line (line_size - 1) format_line-IsLine
