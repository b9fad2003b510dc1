-- ===== src/Json/RoundTrip.antt =====
-- The parser reads an escaped string back.
use native.Mathlib.Decide.{ℕ_discrete}
use container_internals_simu.Prelude.{
  ℕ, zero, suc, ◌*◌, ◌≤◌, ◌≡◌, ◌≢◌, ◌⊎◌, refl, ap, inl, inr, false, some, [], ◌∷◌, ◌++◌, All, arith,
  length, ◌==◌,
}
use container_internals_simu.Prelude.Text.{Text}
use container_internals_simu.Json.{json_escape_copy, backslash, quote, decode, raw_string}
use container_internals_simu.Json.Escape.{escaped_byte, escaped, json_escape_copy_lem}

-- A byte that is not dropped: a newline, a return, a tab, or no control character.
abbrev pub IsKept : ℕ → Type 0
IsKept c = (c ≡ 10) ⊎ (c ≡ 13) ⊎ (c ≡ 9) ⊎ (32 ≤ c)

raw_string-end : (room : ℕ) (rest : Text) → raw_string room (quote ∷ rest) ≡ ([], rest)
unfolding raw_string
raw_string-end zero rest = refl
raw_string-end (suc room) [] = refl
raw_string-end (suc room) (d ∷ rest) = refl

raw_string-escape :
    (room d : ℕ) (src text rest : Text)
    → raw_string room src ≡ (text, rest)
    → raw_string (suc room) (backslash ∷ d ∷ src) ≡ (decode d ∷ text, rest)
unfolding raw_string
raw_string-escape room d src text rest e = ap (λ (r : Text × Text). (decode d ∷ r.0, r.1)) e

raw_string-plain :
    (room c : ℕ) (src text rest : Text)
    → c ≢ quote
    → c ≢ backslash
    → src ≢ []
    → raw_string room src ≡ (text, rest)
    → raw_string (suc room) (c ∷ src) ≡ (c ∷ text, rest)
unfolding raw_string
raw_string-plain room c [] text rest p q some_src e = absurd (some_src refl)
raw_string-plain room c (d ∷ src) text rest p q some_src e =
    let not_quote : (c == quote) ≡ false = ground (arith, p) in
    let not_backslash : (c == backslash) ≡ false = ground (arith, q) in
    rw (not_quote, not_backslash) (ap (λ (r : Text × Text). (c ∷ r.0, r.1)) e)

append_cons_ne : (xs : Text) (y : ℕ) (ys : Text) → (xs ++ y ∷ ys) ≢ []
append_cons_ne [] y ys e = cc
append_cons_ne (x ∷ xs) y ys e = cc

-- How a kept byte is written.
byte-cases :
    (c : ℕ)
    → IsKept c
    → ((d : ℕ) × (escaped_byte c ≡ backslash ∷ d ∷ []) × (decode d ≡ c))
      ⊎ ((escaped_byte c ≡ c ∷ []) × (c ≢ quote) × (c ≢ backslash))
byte-cases c k = elim (ℕ_discrete c backslash) [
  | yes e ↦ rw e (inl (backslash, refl, refl))
  | no no_backslash ↦ elim (ℕ_discrete c quote) [
    | yes e ↦ rw e (inl (quote, refl, refl))
    | no no_quote ↦ elim (ℕ_discrete c 10) [
      | yes e ↦ rw e (inl (b'n', refl, refl))
      | no no_newline ↦ elim (ℕ_discrete c 13) [
        | yes e ↦ rw e (inl (b'r', refl, refl))
        | no no_return ↦ elim (ℕ_discrete c 9) [
          | yes e ↦ rw e (inl (b't', refl, refl))
          | no no_tab ↦ inr (
            ground (arith, k, no_backslash, no_quote, no_newline, no_return, no_tab),
            no_quote,
            no_backslash,
          )
        ]
      ]
    ]
  ]
]

raw_string-escaped :
    (room : ℕ) (s rest : Text)
    → All IsKept s
    → length s ≤ room
    → raw_string room (escaped s ++ quote ∷ rest) ≡ (s, rest)
raw_string-escaped room [] rest kept fits = raw_string-end room rest
raw_string-escaped zero (c ∷ s) rest kept fits = absurd (omega arith)
raw_string-escaped (suc room) (c ∷ s) rest kept fits =
    let later = raw_string-escaped room s rest kept.1 (omega arith) in
    elim (byte-cases c kept.0) [
      | inl (d, e, back) ↦
          rw (e, ← back) (raw_string-escape room d (escaped s ++ quote ∷ rest) s rest later)
      | inr (e, p, q) ↦ rw e (
          raw_string-plain room c (escaped s ++ quote ∷ rest) s rest p q
            (append_cons_ne (escaped s) quote rest) later)
    ]

-- A string without other control characters than newlines, returns and tabs, of at most 510 bytes,
-- that `json_escape_copy` writes into a buffer with more than two bytes for each of its own, is what
-- the specification parser reads, behind an opening quote, from the result and a closing quote; it
-- goes on behind that quote.
pub raw_string-json_escape_copy :
    (n : ℕ) (s rest : Text)
    → All IsKept s
    → 2 * length s ≤ n
    → length s ≤ 510
    → (dst : Text) × (json_escape_copy (suc n) (some s) ≡ some dst)
      × (raw_string 510 (dst ++ quote ∷ rest) ≡ (s, rest))
raw_string-json_escape_copy n s rest kept room short =
    let (dst, e, low, full) = json_escape_copy_lem n s in
    (dst, e, rw (full room) (raw_string-escaped 510 s rest kept short))
