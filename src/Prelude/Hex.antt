-- ===== src/Prelude/Hex.antt =====
-- Hexadecimal text: what `printf` writes for `%PRIx64`, and what `strtoull` reads in base 16.
use Prim.Native.Nat.{ℕ, zero, suc, ◌+◌, ◌-◌, ◌*◌, ◌/◌, ◌%◌, ◌^◌, ◌≤◌, ◌<◌}
use mathlib.Core.Path.{◌≡◌, refl, ap, subst, ◌∙◌}
use mathlib.Core.Bool.{Bool, false, ◌&&◌, ◌||◌}
use mathlib.Core.Option.{Option, none, some}
use mathlib.Core.Logic.{◌≢◌, inl, inr}
use mathlib.Core.List.{[], ◌∷◌}
use native.Mathlib.Omega.{arith}
use container_internals_simu.Prelude.Tests.{ltb, leb, ◌==◌, if◌then◌else◌, ==_iff, Bool-cases}
use container_internals_simu.Prelude.Lists.{All}
use container_internals_simu.Prelude.Text.{Text}
use container_internals_simu.Prelude.Decimal.{skip_spaces, signed, wrap_ulong}

abbrev pub hex_digit : ℕ → ℕ
hex_digit d = if ltb d 10 then b'0' + d else b'a' + (d - 10)

hex_digits : ℕ → ℕ → Text → Text
hex_digits zero n acc = acc
hex_digits (suc fuel) n acc =
    let d = hex_digit (n % 16) in
    let rest = hex_digits fuel (n / 16) (d ∷ acc) in if n / 16 == 0 then d ∷ acc else rest

unfoldable pub print_hex : ℕ → Text
unfolding hex_digits
print_hex n = hex_digits (suc n) n []

-- The value of a digit of either case.
abbrev pub hex_value : ℕ → Option ℕ
hex_value c =
    if leb b'0' c && leb c b'9'
    then some (c - b'0')
    else if leb b'a' c && leb c b'f'
    then some (c - b'a' + 10)
    else if leb b'A' c && leb c b'F'
    then some (c - b'A' + 10)
    else none

unfoldable pub read_hex : Text → ℕ → ℕ
read_hex [] acc = acc
read_hex (c ∷ s) acc = elim (hex_value c) [ none ↦ acc | some v ↦ read_hex s (acc * 16 + v) ]

-- `0x` in front of a digit is left out.
unfoldable pub skip_0x : Text → Text
skip_0x (z ∷ x ∷ d ∷ s) = elim (hex_value d) [
  | none ↦ z ∷ x ∷ d ∷ s
  | some v ↦ if z == b'0' && (x == b'x' || x == b'X') then d ∷ s else z ∷ x ∷ d ∷ s
]
skip_0x s = s

-- `strtoull(s, NULL, 16)`
unfoldable pub strtoull16 : Text → ℕ
unfolding read_hex skip_spaces skip_0x wrap_ulong
strtoull16 s = signed (λ neg t. wrap_ulong neg (read_hex (skip_0x t) 0)) (skip_spaces s)

hex_value-hex_digit : (d : ℕ) → d < 16 → hex_value (hex_digit d) ≡ some d
hex_value-hex_digit d h = ground arith

read_hex-cons : (n : ℕ) (acc : Text) → read_hex (hex_digit (n % 16) ∷ acc) (n / 16) ≡ read_hex acc n
unfolding read_hex
read_hex-cons n acc =
    rw (hex_value-hex_digit (n % 16) (omega arith), read_hex) (ap (read_hex acc) (whole n))
  where
    whole : (n : ℕ) → n / 16 * 16 + n % 16 ≡ n
    whole n = omega arith

read_hex-hex_digits :
    (fuel n : ℕ) (acc : Text) → n < fuel → read_hex (hex_digits fuel n acc) 0 ≡ read_hex acc n
unfolding hex_digits
read_hex-hex_digits zero n acc h = absurd (omega arith)
read_hex-hex_digits (suc fuel) n acc h = elim (Bool-cases (n / 16 == 0)) [
  | inl last ↦ rw last (
      subst (λ a. read_hex (hex_digit (n % 16) ∷ acc) a ≡ read_hex acc n)
        ((==_iff (n / 16) 0).0 last) (read_hex-cons n acc))
  | inr more ↦ rw more (
      read_hex-hex_digits fuel (n / 16) (hex_digit (n % 16) ∷ acc) (ground arith)
      ∙ read_hex-cons n acc)
]

abbrev pub IsHexDigit : ℕ → Type 0
IsHexDigit c = (b'0' ≤ c) × (c ≤ b'f') × (c ≢ b'x') × (c ≢ b'X')

All-hex_digits :
    (fuel n : ℕ) (acc : Text) → All IsHexDigit acc → All IsHexDigit (hex_digits fuel n acc)
unfolding hex_digits
All-hex_digits zero n acc a = a
All-hex_digits (suc fuel) n acc a = elim (Bool-cases (n / 16 == 0)) [
  | inl last ↦ rw last (ok (n % 16) (omega arith), a)
  | inr more ↦
      rw more
        (All-hex_digits fuel (n / 16) (hex_digit (n % 16) ∷ acc) (ok (n % 16) (omega arith), a))
]
  where
    ok : (d : ℕ) → d < 16 → IsHexDigit (hex_digit d)
    ok d h = ground arith

pub print_hex-IsHexDigit : (n : ℕ) → All IsHexDigit (print_hex n)
unfolding print_hex
print_hex-IsHexDigit n = All-hex_digits (suc n) n [] tt

skip_0x_lem : (s : Text) → All IsHexDigit s → skip_0x s ≡ s
unfolding skip_0x
skip_0x_lem [] a = refl
skip_0x_lem (z ∷ []) a = refl
skip_0x_lem (z ∷ x ∷ []) a = refl
skip_0x_lem (z ∷ x ∷ d ∷ s) a = ground (arith, a.1.0)

signed-hex {ℓ} :
    {A : Type ℓ} (k : Bool → Text → A) (s : Text)
    → All IsHexDigit s
    → signed k (skip_spaces s) ≡ k false s
unfolding skip_spaces
signed-hex k [] a = refl
signed-hex k (c ∷ s) a = ground (arith, a.0)

pub strtoull16-print_hex : (n : ℕ) → n < 2 ^ 64 → strtoull16 (print_hex n) ≡ n
unfolding strtoull16 wrap_ulong print_hex
strtoull16-print_hex n h =
    signed-hex (λ neg t. wrap_ulong neg (read_hex (skip_0x t) 0)) (print_hex n)
      (print_hex-IsHexDigit n)
    ∙ rw
        (
          skip_0x_lem (print_hex n) (print_hex-IsHexDigit n),
          read_hex-hex_digits (suc n) n [] (omega arith),
        )
        (ground arith)
