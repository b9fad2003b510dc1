-- ===== src/Json/Array.antt =====
-- A JSON array that is printed into a buffer, as `eventbus_json_recent` and `alert_json` do: the
-- loop stops when fewer than `slack` bytes are left, and then the array is closed if there is room.
use mathlib.Core.List.{append_assoc, append-nil}
use container_internals_simu.Prelude.{
  none, some, ℕ, zero, suc, ◌+◌, ◌-◌, ◌≤◌, ◌<◌, ◌≡◌, ◌⊎◌, refl, sym, ap, ap₂, ◌∙◌, inl, inr, Bool,
  true, false, List, [], ◌∷◌, ◌++◌, length, length-append, take, ltb, arith, tests, Bool-cases,
  if◌then◌else◌,
}
use container_internals_simu.Json.{json_escape_copy}
use container_internals_simu.Prelude.Text.{Text, take-eq_of_le}

-- A string in the buffer of so many bytes that `json_escape_copy` fills.
abbrev pub in_buffer : ℕ → Text → Text
in_buffer size s = elim (json_escape_copy size (some s)) [ none ↦ [] | some t ↦ t ]

-- What the buffer holds, without the terminator, and `written`.
pub record Out : Type 0 where
  pub text : Text
  pub written : ℕ

-- `written += snprintf(buf + written, buflen - written, ...)`: at most what fits is in the buffer,
-- but the length of the whole is added. It is only called while `written` is below `buflen`.
abbrev pub append_text : ℕ → Text → Out → Out
append_text buflen s out = record {
  text = out.text ++ take (buflen - out.written - 1) s;
  written = out.written + length s;
}

-- `first ? "" : ","`
abbrev pub separated : Bool → Text → Text
separated first s = if first then s else b',' ∷ s

unfoldable pub print_entries : ℕ → ℕ → Bool → List Text → Out → Out
print_entries slack buflen first [] out = out
print_entries slack buflen first (e ∷ es) out =
    let rest = print_entries slack buflen false es (append_text buflen (separated first e) out) in
    if ltb out.written (buflen - slack) then rest else out

-- `if (written < buflen - 1) { buf[written++] = c; buf[written] = '\0'; }`
abbrev pub close_with : ℕ → ℕ → Out → Out
close_with c buflen out =
    if ltb out.written (buflen - 1)
    then record { text = out.text ++ c ∷ []; written = out.written + 1 }
    else out

abbrev pub close_array : ℕ → Out → Out
close_array = close_with b']'

unfoldable pub json_array : ℕ → ℕ → List Text → Out
json_array slack buflen entries = close_array buflen (
    print_entries slack buflen true entries
      (append_text buflen (b'[' ∷ []) (record { text = []; written = 0 })))

-- The entries, with commas between them, or in front of each.
abbrev pub joined : Bool → List Text → Text
joined first [] = []
joined first (e ∷ es) = separated first e ++ joined false es

-- The first `k` entries are those that are printed: all, or the next would begin within `slack`
-- bytes of the end; none of them does.
pub record IsPrinted (slack buflen : ℕ) (before : Text) (first : Bool) (es : List Text) (k : ℕ)
    : Type 0 where
  pub all_or_full : (k ≡ length es) ⊎ (buflen ≤ length (before ++ joined first (take k es)) + slack)
  pub room : (j : ℕ) → j < k → length (before ++ joined first (take j es)) + slack < buflen
  pub within : k ≤ length es

-- What is left of a text that is printed into the buffer.
abbrev pub out_of : ℕ → Text → Out
out_of buflen s = record { text = take (buflen - 1) s; written = length s }

take-append_length_add : (m n : ℕ) (s t : Text) → m ≡ length s + n → take m (s ++ t) ≡ s ++ take n t
take-append_length_add m n [] t e = ap (λ k. take k t) (omega (arith, e))
take-append_length_add zero n (c ∷ s) t e = absurd (omega (arith, e))
take-append_length_add (suc m) n (c ∷ s) t e =
    ap (λ (r : Text). c ∷ r) (take-append_length_add m n s t (omega (arith, e)))

append_text-out_of :
    (buflen : ℕ) (before s : Text)
    → length before < buflen
    → append_text buflen s (out_of buflen before) ≡ out_of buflen (before ++ s)
append_text-out_of buflen before s short =
    let whole : take (buflen - 1) before ≡ before =
      take-eq_of_le (buflen - 1) before (omega arith) in
    let n = buflen - length before - 1 in
    let cut = take-append_length_add (buflen - 1) n before s (omega arith) in
    ap₂ (λ (text : Text) (written : ℕ). record { text = text; written = written })
      (ap (λ (r : Text). r ++ take n s) whole ∙ sym cut) (sym (length-append before s))

IsPrinted-cons :
    (slack buflen : ℕ) (first : Bool) (e : Text) (es : List Text) (before : Text) (k : ℕ)
    → length before + slack < buflen
    → IsPrinted slack buflen (before ++ separated first e) false es k
    → IsPrinted slack buflen before first (e ∷ es) (suc k)
IsPrinted-cons slack buflen first e es before k short p = record {
  all_or_full = elim p.all_or_full [
    | inl all ↦ inl (ap suc all)
    | inr full ↦
        inr (rw (sym (append_assoc before (separated first e) (joined false (take k es)))) full)
  ];
  room = room;
  within = omega (arith, p.within);
}
  where
    room : (j : ℕ) → j < suc k → length (before ++ joined first (take j (e ∷ es))) + slack < buflen
    room zero h = rw (append-nil before) short
    room (suc j) h =
        rw (sym (append_assoc before (separated first e) (joined false (take j es))))
          (p.room j (omega arith))

pub print_entries_lem :
    (slack buflen : ℕ) (first : Bool) (es : List Text) (before : Text)
    → (k : ℕ) × IsPrinted slack buflen before first es k
      × (print_entries slack buflen first es (out_of buflen before)
          ≡ out_of buflen (before ++ joined first (take k es)))
unfolding print_entries
print_entries_lem slack buflen first [] before = (
  0,
  record { all_or_full = inl refl; room = λ j h. absurd (omega arith); within = omega arith },
  ap (out_of buflen) (sym (append-nil before)),
)
print_entries_lem slack buflen first (e ∷ es) before =
    elim (Bool-cases (ltb (length before) (buflen - slack))) [
      | inr full ↦ rw full (
        0,
        record {
          all_or_full = inr (rw (append-nil before) (omega (tests, full)));
          room = λ j h. absurd (omega arith);
          within = omega arith;
        },
        ap (out_of buflen) (sym (append-nil before)),
      )
      | inl more ↦
          let short : length before + slack < buflen = omega (tests, more) in
          let (k, printed, e_k) =
            print_entries_lem slack buflen false es (before ++ separated first e) in
          rw more (
            suc k,
            IsPrinted-cons slack buflen first e es before k short printed,
            ap (print_entries slack buflen false es)
                  (append_text-out_of buflen before (separated first e) (omega arith))
                ∙ e_k
                ∙ ap (out_of buflen)
                    (append_assoc before (separated first e) (joined false (take k es))),
          )
    ]

-- What the array looks like: the entries that are printed, closed if there is room; else cut off
-- behind the last byte of the buffer, with a result that is the whole length.
abbrev pub finished : ℕ → Text → Out
finished buflen text =
    if ltb (length text) (buflen - 1)
    then record { text = text ++ b']' ∷ []; written = length text + 1 }
    else out_of buflen text

close_array-out_of :
    (buflen : ℕ) (text : Text) → close_array buflen (out_of buflen text) ≡ finished buflen text
close_array-out_of buflen text = elim (Bool-cases (ltb (length text) (buflen - 1))) [
  | inl short ↦ rw (short, take-eq_of_le (buflen - 1) text (omega (tests, short))) refl
  | inr long ↦ rw long refl
]

pub json_array_lem :
    (slack buflen : ℕ) (entries : List Text)
    → 1 < buflen
    → (k : ℕ) × IsPrinted slack buflen (b'[' ∷ []) true entries k
      × (json_array slack buflen entries ≡ finished buflen (b'[' ∷ joined true (take k entries)))
unfolding json_array
json_array_lem slack buflen entries room =
    let (k, printed, e) = print_entries_lem slack buflen true entries (b'[' ∷ []) in
    (
      k,
      printed,
      ap (λ (o : Out). close_array buflen (print_entries slack buflen true entries o))
            (ap (λ (n : ℕ). record { text = take n (b'[' ∷ []); written = 0 + 1 }) (omega arith))
          ∙ ap (close_array buflen) e
          ∙ close_array-out_of buflen (b'[' ∷ joined true (take k entries)),
    )
