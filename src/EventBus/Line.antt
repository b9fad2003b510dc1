-- ===== src/EventBus/Line.antt =====
-- The line of events.log for an event: `fprintf` in `eventbus_emit`, and `parse_event_line`.
use container_internals_simu.Prelude.{
  ℕ, zero, suc, ◌≤◌, ◌<◌, ◌≡◌, ◌≢◌, refl, ap, ◌∙◌, Option, none, some, List, [], ◌∷◌, ◌++◌, All,
  length, arith, ◌==◌, if◌then◌else◌, Bool-cases, inl, inr,
}
use container_internals_simu.Prelude.Int.{ℤ, pos, negsuc}
use container_internals_simu.Prelude.Text.{
  Text, codes, str_eq, str_eq_iff, copy_string, copy_string_fits, is_empty,
}
use container_internals_simu.Prelude.Decimal.{
  print_nat, print_int, strtol, strtoull, FitsLong, IsDigit, ulong_max, strtol-print_int,
  strtoull-print_nat, print_nat-IsDigit,
}
use container_internals_simu.EventBus.Types.{
  Event, EventType, container_created, type_name, resolve, resolve-type_name, id_size, detail_size,
}
use container_internals_simu.Prelude.FileLines.{newline, Lacks}

abbrev pub tab : ℕ
tab = 9

abbrev pub dash : Text
dash = codes "-"

-- An empty text is written as a dash.
abbrev pub or_dash : Text → Text
or_dash s = if is_empty s then dash else s

-- A field and its tab, in front of the rest of the line.
abbrev pub field : Text → Text → Text
field s rest = s ++ tab ∷ rest

unfoldable pub format_line : Event → Text
format_line e = field (print_nat e.seq) (
    field (print_int e.timestamp) (
      field (type_name e.type) (
        field (or_dash e.container_id)
          (field (or_dash e.detail) (print_int e.value ++ newline ∷ [])))))

-- `strchr`: the text before the first `c`, and the text behind it.
unfoldable pub cut : ℕ → Text → Text × Option Text
cut c [] = ([], none)
cut c (x ∷ s) =
    let (before, after) = cut c s in if x == c then ([], some s) else (x ∷ before, after)

-- The loop that splits off `n` fields at tabs.
unfoldable pub split_fields : ℕ → Text → List Text
split_fields zero p = []
split_fields (suc n) p =
    let (before, after) = cut tab p in
    elim after [ none ↦ before ∷ [] | some rest ↦ before ∷ split_fields n rest ]

-- A dash is read as an empty text.
abbrev pub from_dash : Text → Text
from_dash s = if str_eq s dash then [] else s

event_of : List Text → Option Event
event_of (seq ∷ timestamp ∷ name ∷ id ∷ detail ∷ value ∷ []) = elim (resolve name) [
  | none ↦ none
  | some type ↦ some (record {
    type = type;
    timestamp = strtol timestamp;
    container_id = copy_string id_size (from_dash id);
    detail = copy_string detail_size (from_dash detail);
    value = strtol (cut newline value).0;
    seq = strtoull seq;
  })
]
event_of _ = none

-- `none` stands for the result 0.
unfoldable pub parse_event_line : Text → Option Event
unfolding event_of
parse_event_line line = event_of (split_fields 6 line)

-- An event whose line can be read back: the texts fit their fields, have no tab and no newline,
-- and are not a single dash; the numbers fit their types.
pub record IsPlain (e : Event) : Type 0 where
  pub id_fits : length e.container_id < id_size
  pub detail_fits : length e.detail < detail_size
  pub id_lacks : Lacks tab e.container_id × Lacks newline e.container_id
  pub detail_lacks : Lacks tab e.detail × Lacks newline e.detail
  pub id_ne_dash : e.container_id ≢ dash
  pub detail_ne_dash : e.detail ≢ dash
  pub seq_fits : e.seq ≤ ulong_max
  pub timestamp_fits : FitsLong e.timestamp
  pub value_fits : FitsLong e.value

pub cut_lem : (c : ℕ) (s rest : Text) → Lacks c s → cut c (s ++ c ∷ rest) ≡ (s, some rest)
unfolding cut
cut_lem c [] rest a = ground arith
cut_lem c (x ∷ s) rest a = ground (arith, cut_lem c s rest)

pub split_fields-cons :
    (n : ℕ) (s rest : Text)
    → Lacks tab s
    → split_fields (suc n) (s ++ tab ∷ rest) ≡ s ∷ split_fields n rest
unfolding split_fields
split_fields-cons n s rest a =
    rw (cut_lem tab s rest a, split_fields)
      (ap (λ (r : Text × Option Text). r.0 ∷ split_fields n rest) (cut_lem tab s rest a))

cut-none : (c : ℕ) (s : Text) → Lacks c s → cut c s ≡ (s, none)
unfolding cut
cut-none c [] a = refl
cut-none c (x ∷ s) a = ground (arith, cut-none c s)

pub Lacks-append : (c : ℕ) (s t : Text) → Lacks c s → Lacks c t → Lacks c (s ++ t)
Lacks-append c [] t a b = b
Lacks-append c (x ∷ s) t a b = (a.0, Lacks-append c s t a.1 b)

-- The last field ends the line.
pub split_fields-last : (s : Text) → Lacks tab s → split_fields 1 s ≡ s ∷ []
unfolding split_fields
split_fields-last s a =
    rw (cut-none tab s a, split_fields)
      (ap (λ (r : Text × Option Text). r.0 ∷ []) (cut-none tab s a))

-- Digits are neither tabs nor newlines.
Lacks-IsDigit : (c : ℕ) (s : Text) → c < b'-' → All IsDigit s → Lacks c s
Lacks-IsDigit c [] h a = tt
Lacks-IsDigit c (x ∷ s) h a = (λ e. omega arith, Lacks-IsDigit c s h a.1)

pub Lacks-print_nat : (c n : ℕ) → c < b'-' → Lacks c (print_nat n)
Lacks-print_nat c n h = Lacks-IsDigit c (print_nat n) h (print_nat-IsDigit n)

pub Lacks-print_int : (c : ℕ) (z : ℤ) → c < b'-' → Lacks c (print_int z)
unfolding print_int
Lacks-print_int c (pos n) h = Lacks-print_nat c n h
Lacks-print_int c (negsuc n) h = (λ e. omega arith, Lacks-print_nat c (suc n) h)

pub Lacks-type_name : (t : EventType) → Lacks tab (type_name t) × Lacks newline (type_name t)
unfolding type_name
Lacks-type_name container_created = omega arith
Lacks-type_name _ = omega arith

pub Lacks-or_dash : (c : ℕ) (s : Text) → c < b'-' → Lacks c s → Lacks c (or_dash s)
Lacks-or_dash c [] h a = (λ e. omega arith, tt)
Lacks-or_dash c (x ∷ s) h a = a

from_dash-or_dash : (s : Text) → s ≢ dash → from_dash (or_dash s) ≡ s
unfolding str_eq
from_dash-or_dash [] h = refl
from_dash-or_dash (x ∷ s) h = elim (Bool-cases (str_eq (x ∷ s) dash)) [
  | inl same ↦ absurd (h ((str_eq_iff (x ∷ s) dash).0 same))
  | inr other ↦ rw other
]

module _ (e : Event) (p : IsPlain e) where
  abbrev last_field : Text
  last_field = print_int e.value ++ newline ∷ []

  split_fields-texts :
      split_fields 3 (field (or_dash e.container_id) (field (or_dash e.detail) last_field))
      ≡ or_dash e.container_id ∷ or_dash e.detail ∷ last_field ∷ []
  split_fields-texts =
      split_fields-cons 2 (or_dash e.container_id) _
        (Lacks-or_dash tab e.container_id (omega arith) p.id_lacks.0)
      ∙ ap (λ r. or_dash e.container_id ∷ r)
          (split_fields-cons 1 (or_dash e.detail) last_field
              (Lacks-or_dash tab e.detail (omega arith) p.detail_lacks.0)
            ∙ ap (λ r. or_dash e.detail ∷ r)
                (split_fields-last last_field (
                  Lacks-append tab (print_int e.value) (newline ∷ [])
                    (Lacks-print_int tab e.value (omega arith)) (omega arith))))

  split_fields-format_line :
      split_fields 6 (format_line e)
      ≡ print_nat e.seq
        ∷ print_int e.timestamp
        ∷ type_name e.type
        ∷ or_dash e.container_id
        ∷ or_dash e.detail
        ∷ (print_int e.value ++ newline ∷ [])
        ∷ []
  unfolding format_line
  split_fields-format_line =
      split_fields-cons 5 (print_nat e.seq) _ (Lacks-print_nat tab e.seq (omega arith))
      ∙ ap (λ r. print_nat e.seq ∷ r)
          (split_fields-cons 4 (print_int e.timestamp) _
              (Lacks-print_int tab e.timestamp (omega arith))
            ∙ ap (λ r. print_int e.timestamp ∷ r)
                (split_fields-cons 3 (type_name e.type) _ (Lacks-type_name e.type).0
                  ∙ ap (λ r. type_name e.type ∷ r) split_fields-texts))

  -- Parsing the log line of an event whose texts fit their fields, have no tab or newline and
  -- are not a single dash, and whose numbers fit their types, gives the event back.
  pub parse-format_line : parse_event_line (format_line e) ≡ some e
  unfolding parse_event_line
  parse-format_line = rw (
    split_fields-format_line,
    resolve-type_name e.type,
    event_of,
    cut_lem newline (print_int e.value) [] (Lacks-print_int newline e.value (omega arith)),
    strtol-print_int e.value p.value_fits,
    strtol-print_int e.timestamp p.timestamp_fits,
    strtoull-print_nat e.seq p.seq_fits,
    from_dash-or_dash e.container_id p.id_ne_dash,
    from_dash-or_dash e.detail p.detail_ne_dash,
    copy_string_fits id_size e.container_id p.id_fits,
    copy_string_fits detail_size e.detail p.detail_fits,
  )
