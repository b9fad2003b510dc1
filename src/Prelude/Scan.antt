-- ===== src/Prelude/Scan.antt =====
-- The conversions of `sscanf` that the program uses: literal text, `%d` and `%3s`.
use Prim.Native.Nat.{ℕ, ◌+◌, ◌-◌, ◌*◌, ◌^◌, ◌%◌, ◌<◌}
use mathlib.Core.Path.{◌≡◌, refl, ◌∙◌}
use mathlib.Core.Bool.{Bool, false}
use mathlib.Core.Option.{Option, none, some}
use mathlib.Core.List.{[], ◌∷◌, ◌++◌}
use native.Mathlib.Omega.{arith}
use container_internals_simu.Prelude.Tests.{◌==◌, ltb, if◌then◌else◌}
use container_internals_simu.Prelude.Lists.{All, length}
use container_internals_simu.Prelude.Int.{ℤ, pos, negsuc}
use container_internals_simu.Prelude.Text.{Text}
use container_internals_simu.Prelude.Decimal.{
  print_nat, is_digit, skip_spaces, signed, read_digits, clamp_long, IsDigit, print_nat-IsDigit,
  read_digits-print_nat, length-print_nat_pos,
}

-- Literal text in a format.
unfoldable pub strip_prefix : Text → Text → Option Text
strip_prefix [] s = some s
strip_prefix (c ∷ cs) [] = none
strip_prefix (c ∷ cs) (x ∷ xs) = let rest = strip_prefix cs xs in if c == x then rest else none

unfoldable pub drop_digits : Text → Text
drop_digits [] = []
drop_digits (c ∷ s) = let rest = drop_digits s in if is_digit c then rest else c ∷ s

-- A `long` stored in an `int` of 32 bits.
unfoldable pub to_int : ℤ → ℤ
to_int (pos n) = let m = n % 2 ^ 32 in if ltb m (2 ^ 31) then pos m else negsuc (2 ^ 32 - m - 1)
to_int (negsuc n) = let m = n % 2 ^ 32 in if ltb m (2 ^ 31) then negsuc m else pos (2 ^ 32 - m - 1)

-- The value of an `int` that is kept as its 32 bits.
unfoldable pub as_int : ℕ → ℤ
unfolding to_int
as_int bits = to_int (pos bits)

-- The 32 bits of `z + 1`; 2147483647 + 1 wraps around to -2147483648.
unfoldable pub succ_bits : ℤ → ℕ
succ_bits (pos n) = (n + 1) % 2 ^ 32
succ_bits (negsuc n) = (2 ^ 32 - n) % 2 ^ 32

pub as_int-pos : (n : ℕ) → n < 2 ^ 31 → as_int n ≡ pos n
unfolding as_int to_int
as_int-pos n h = ground arith

pub succ_bits-pos : (n : ℕ) → n < 2 ^ 31 → succ_bits (pos n) ≡ n + 1
unfolding succ_bits
succ_bits-pos n h = omega arith

abbrev pub at_digit : Text → Bool
at_digit [] = false
at_digit (c ∷ s) = is_digit c

-- `%d`, as `strtol` reads it; the number and what follows it.
unfoldable pub scan_int : Text → Option (ℤ × Text)
unfolding to_int clamp_long read_digits skip_spaces drop_digits
scan_int s =
    signed
      (λ neg t.
        if at_digit t
        then some (to_int (clamp_long neg (read_digits t 0)), drop_digits t)
        else none)
      (skip_spaces s)

pub strip_prefix_lem : (p s : Text) → strip_prefix p (p ++ s) ≡ some s
unfolding strip_prefix
strip_prefix_lem [] s = refl
strip_prefix_lem (c ∷ p) s = ground (arith, strip_prefix_lem p s)

pub read_digits-append :
    (ds rest : Text) (acc : ℕ)
    → All IsDigit ds
    → at_digit rest ≡ false
    → read_digits (ds ++ rest) acc ≡ read_digits ds acc
unfolding read_digits
read_digits-append [] [] acc a h = refl
read_digits-append [] (c ∷ rest) acc a h = rw h
read_digits-append (d ∷ ds) rest acc a h =
    ground (arith, read_digits-append ds rest (acc * 10 + (d - b'0')) a.1 h)

drop_digits-append :
    (ds rest : Text) → All IsDigit ds → at_digit rest ≡ false → drop_digits (ds ++ rest) ≡ rest
unfolding drop_digits
drop_digits-append [] [] a h = refl
drop_digits-append [] (c ∷ rest) a h = rw h
drop_digits-append (d ∷ ds) rest a h = ground (arith, drop_digits-append ds rest a.1 h)

scan_int-digits :
    (ds rest : Text)
    → All IsDigit ds
    → 0 < length ds
    → at_digit rest ≡ false
    → scan_int (ds ++ rest)
      ≡ some (to_int (clamp_long false (read_digits (ds ++ rest) 0)), drop_digits (ds ++ rest))
unfolding scan_int
scan_int-digits [] rest a l h = absurd (omega arith)
scan_int-digits (d ∷ ds) rest a l h = ground arith

-- `%d` reads the digits up to the first byte that is none, if their number is an `int`.
pub scan_int_lem :
    (ds rest : Text) (n : ℕ)
    → All IsDigit ds
    → 0 < length ds
    → at_digit rest ≡ false
    → read_digits ds 0 ≡ n
    → n < 2 ^ 31
    → scan_int (ds ++ rest) ≡ some (pos n, rest)
unfolding to_int clamp_long
scan_int_lem ds rest n a l h e lt =
    scan_int-digits ds rest a l h
    ∙ rw (read_digits-append ds rest 0 a h, drop_digits-append ds rest a h, e) (ground arith)

-- `%d` reads back what it printed of an `int` that is not negative.
pub scan_int-print_nat :
    (n : ℕ) (rest : Text)
    → n < 2 ^ 31
    → at_digit rest ≡ false
    → scan_int (print_nat n ++ rest) ≡ some (pos n, rest)
scan_int-print_nat n rest lt h =
    scan_int_lem (print_nat n) rest n (print_nat-IsDigit n) (length-print_nat_pos n) h
      (read_digits-print_nat n) lt
