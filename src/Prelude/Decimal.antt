-- ===== src/Prelude/Decimal.antt =====
-- Decimal text: what `printf` writes for `%lu` and `%ld`, and what `strtoull` and `strtol` read.
use Prim.Native.Nat.{ℕ, zero, suc, ◌+◌, ◌-◌, ◌*◌, ◌/◌, ◌%◌, ◌^◌, ◌≤◌, ◌<◌, min}
use native.Mathlib.Nat.{pow-suc}
use mathlib.Core.Path.{◌≡◌, refl, ap, subst, ◌∙◌}
use mathlib.Core.Bool.{Bool, true, false, ◌&&◌, ◌||◌}
use mathlib.Core.Logic.{inl, inr}
use mathlib.Core.List.{[], ◌∷◌}
use native.Mathlib.Omega.{arith}
use container_internals_simu.Prelude.Tests.{ltb, leb, ◌==◌, if◌then◌else◌, ==_iff, Bool-cases}
use container_internals_simu.Prelude.Lists.{length, All}
use container_internals_simu.Prelude.Int.{ℤ, pos, negsuc}
use container_internals_simu.Prelude.Text.{Text}

-- The digits of `n` in front of `acc`; more fuel than `n` is enough.
digits : ℕ → ℕ → Text → Text
digits zero n acc = acc
digits (suc fuel) n acc =
    let d = b'0' + n % 10 in
    let rest = digits fuel (n / 10) (d ∷ acc) in if n / 10 == 0 then d ∷ acc else rest

-- `%lu`
unfoldable pub print_nat : ℕ → Text
unfolding digits
print_nat n = digits (suc n) n []

-- `%ld`
unfoldable pub print_int : ℤ → Text
print_int (pos n) = print_nat n
print_int (negsuc n) = b'-' ∷ print_nat (suc n)

abbrev pub is_digit : ℕ → Bool
is_digit c = leb b'0' c && leb c b'9'

-- The value of the digits at the front of a text, after `acc`.
unfoldable pub read_digits : Text → ℕ → ℕ
read_digits [] acc = acc
read_digits (c ∷ s) acc =
    let rest = read_digits s (acc * 10 + (c - b'0')) in if is_digit c then rest else acc

-- `isspace`
abbrev pub is_space : ℕ → Bool
is_space c = c == b' ' || leb 9 c && leb c 13

unfoldable pub skip_spaces : Text → Text
skip_spaces [] = []
skip_spaces (c ∷ s) = if is_space c then skip_spaces s else c ∷ s

-- The optional sign, and the number behind it.
abbrev pub signed {ℓ} : {A : Type ℓ} → (Bool → Text → A) → Text → A
signed k [] = k false []
signed k (c ∷ s) = if c == b'-' then k true s else if c == b'+' then k false s else k false (c ∷ s)

abbrev pub long_max : ℕ
long_max = 2 ^ 63 - 1

abbrev pub ulong_max : ℕ
ulong_max = 2 ^ 64 - 1

unfoldable pub clamp_long : Bool → ℕ → ℤ
clamp_long false n = pos (min n long_max)
clamp_long true zero = pos 0
clamp_long true (suc n) = negsuc (min n long_max)

-- `strtol(s, NULL, 10)`, saturated at the ends of `long`.
unfoldable pub strtol : Text → ℤ
unfolding clamp_long read_digits skip_spaces
strtol s = signed (λ neg t. clamp_long neg (read_digits t 0)) (skip_spaces s)

unfoldable pub wrap_ulong : Bool → ℕ → ℕ
wrap_ulong neg n = if ltb ulong_max n then ulong_max else if neg then (2 ^ 64 - n) % 2 ^ 64 else n

-- `strtoull(s, NULL, 10)`; a minus sign negates in the unsigned type.
unfoldable pub strtoull : Text → ℕ
unfolding wrap_ulong read_digits skip_spaces
strtoull s = signed (λ neg t. wrap_ulong neg (read_digits t 0)) (skip_spaces s)

read_digits-cons :
    (n : ℕ) (acc : Text) → read_digits ((b'0' + n % 10) ∷ acc) (n / 10) ≡ read_digits acc n
unfolding read_digits
read_digits-cons n acc = ground (arith, ap (read_digits acc) (whole n))
  where
    whole : (n : ℕ) → n / 10 * 10 + (b'0' + n % 10 - b'0') ≡ n
    whole n = omega arith

read_digits-digits :
    (fuel n : ℕ) (acc : Text) → n < fuel → read_digits (digits fuel n acc) 0 ≡ read_digits acc n
unfolding digits
read_digits-digits zero n acc h = absurd (omega arith)
read_digits-digits (suc fuel) n acc h = elim (Bool-cases (n / 10 == 0)) [
  | inl last ↦ rw last (
      subst (λ a. read_digits ((b'0' + n % 10) ∷ acc) a ≡ read_digits acc n)
        ((==_iff (n / 10) 0).0 last) (read_digits-cons n acc))
  | inr more ↦ rw more (
      read_digits-digits fuel (n / 10) ((b'0' + n % 10) ∷ acc) (ground arith)
      ∙ read_digits-cons n acc)
]

length-digits :
    (fuel n k : ℕ) (acc : Text) → n < 10 ^ suc k → length (digits fuel n acc) ≤ suc k + length acc
unfolding digits
length-digits zero n k acc h = omega arith
length-digits (suc fuel) n zero acc h = ground arith
length-digits (suc fuel) n (suc k) acc h = ground (
  arith,
  length-digits fuel (n / 10) k ((b'0' + n % 10) ∷ acc) (omega (arith, pow-suc 10 (suc k))),
)

-- The values of the type `long`.
abbrev pub FitsLong : ℤ → Type 0
FitsLong (pos n) = n ≤ long_max
FitsLong (negsuc n) = n ≤ long_max

abbrev pub IsDigit : ℕ → Type 0
IsDigit c = (b'0' ≤ c) × (c ≤ b'9')

All-digits : (fuel n : ℕ) (acc : Text) → All IsDigit acc → All IsDigit (digits fuel n acc)
unfolding digits
All-digits zero n acc a = a
All-digits (suc fuel) n acc a = elim (Bool-cases (n / 10 == 0)) [
  | inl last ↦ rw last (omega arith, a)
  | inr more ↦ rw more (All-digits fuel (n / 10) ((b'0' + n % 10) ∷ acc) (omega arith, a))
]

pub print_nat-IsDigit : (n : ℕ) → All IsDigit (print_nat n)
unfolding print_nat
print_nat-IsDigit n = All-digits (suc n) n [] tt

pub length-print_nat : (n k : ℕ) → n < 10 ^ suc k → length (print_nat n) ≤ suc k
unfolding print_nat
length-print_nat n k h = omega (arith, length-digits (suc n) n k [] h)

-- A text of digits has no space and no sign in front.
pub signed-digits {ℓ} :
    {A : Type ℓ} (k : Bool → Text → A) (s : Text)
    → All IsDigit s
    → signed k (skip_spaces s) ≡ k false s
unfolding skip_spaces
signed-digits k [] a = refl
signed-digits k (c ∷ s) a = ground arith

pub read_digits-print_nat : (n : ℕ) → read_digits (print_nat n) 0 ≡ n
unfolding print_nat read_digits
read_digits-print_nat n = read_digits-digits (suc n) n [] (omega arith)

-- `strtoull` reads back what `%lu` wrote.
pub strtoull-print_nat : (n : ℕ) → n ≤ ulong_max → strtoull (print_nat n) ≡ n
unfolding strtoull
strtoull-print_nat n h =
    signed-digits (λ neg t. wrap_ulong neg (read_digits t 0)) (print_nat n) (print_nat-IsDigit n)
    ∙ ground (arith, read_digits-print_nat n)

-- `strtol` reads back what `%ld` wrote.
pub strtol-print_int : (z : ℤ) → FitsLong z → strtol (print_int z) ≡ z
unfolding strtol print_int
strtol-print_int (pos n) h =
    signed-digits (λ neg t. clamp_long neg (read_digits t 0)) (print_nat n) (print_nat-IsDigit n)
    ∙ ground (arith, read_digits-print_nat n)
strtol-print_int (negsuc n) h = rw (read_digits-print_nat (suc n)) (ground arith)

pub length-print_int : (z : ℤ) → FitsLong z → length (print_int z) ≤ 20
unfolding print_int
length-print_int (pos n) h = omega (arith, length-print_nat n 19)
length-print_int (negsuc n) h = omega (arith, length-print_nat (suc n) 18)

le-length-digits : (fuel n : ℕ) (acc : Text) → length acc ≤ length (digits fuel n acc)
unfolding digits
le-length-digits zero n acc = omega arith
le-length-digits (suc fuel) n acc =
    ground (arith, le-length-digits fuel (n / 10) ((b'0' + n % 10) ∷ acc))

-- A number has a digit at least.
pub length-print_nat_pos : (n : ℕ) → 0 < length (print_nat n)
unfolding print_nat digits
length-print_nat_pos n = ground (arith, le-length-digits n (n / 10) ((b'0' + n % 10) ∷ []))
