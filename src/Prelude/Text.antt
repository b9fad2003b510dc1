-- ===== src/Prelude/Text.antt =====
-- C strings as lists of bytes without the terminator, their comparison and their truncation.
use Prim.Native.Nat.{ℕ, zero, suc, ◌-◌, ◌≤◌, ◌<◌}
use Prim.Native.Char.{code}
use Prim.Native.String.{String}
use mathlib.Core.Path.{◌≡◌, refl, ap}
use mathlib.Core.Logic.{◌↔◌}
use mathlib.Core.Bool.{Bool, true, false, ◌&&◌}
use mathlib.Core.List.{List, [], ◌∷◌}
use native.Mathlib.Omega.{arith}
use container_internals_simu.Prelude.Tests.{◌==◌}
use container_internals_simu.Prelude.Lists.{length, take}

abbrev pub Text : Type 0
Text = List ℕ

abbrev pub codes : String → Text
codes String.[] = []
codes (String.◌∷◌ c s) = code c ∷ codes s

-- `strcmp(a, b) == 0`
unfoldable pub str_eq : Text → Text → Bool
str_eq [] [] = true
str_eq [] (y ∷ ys) = false
str_eq (x ∷ xs) [] = false
str_eq (x ∷ xs) (y ∷ ys) = (x == y) && str_eq xs ys

pub str_eq_refl : (a : Text) → str_eq a a ≡ true
unfolding str_eq
str_eq_refl [] = refl
str_eq_refl (x ∷ xs) = ground (arith, str_eq_refl xs)

pub str_eq_sound : (a b : Text) → str_eq a b ≡ true → a ≡ b
unfolding str_eq
str_eq_sound [] [] h = refl
str_eq_sound [] (y ∷ ys) h = cc
str_eq_sound (x ∷ xs) [] h = cc
str_eq_sound (x ∷ xs) (y ∷ ys) h = ground (arith, str_eq_sound xs ys)

pub str_eq_iff : (a b : Text) → (str_eq a b ≡ true) ↔ (a ≡ b)
str_eq_iff a b = (str_eq_sound a b, λ e. rw e (str_eq_refl b))

-- `s[0] == '\0'`
abbrev pub is_empty : Text → Bool
is_empty [] = true
is_empty (x ∷ xs) = false

-- `snprintf(dst, size, "%s", s)` keeps at most `size - 1` bytes.
abbrev pub copy_string : ℕ → Text → Text
copy_string size s = take (size - 1) s

module _ {ℓ} {A : Type ℓ} where
  pub take-eq_of_le : (n : ℕ) (s : List A) → length s ≤ n → take n s ≡ s
  take-eq_of_le zero [] h = refl
  take-eq_of_le zero (x ∷ s) h = absurd (omega arith)
  take-eq_of_le (suc n) [] h = refl
  take-eq_of_le (suc n) (x ∷ s) h = ap (λ (r : List A). x ∷ r) (take-eq_of_le n s (omega arith))

-- A copy into a buffer with room for the terminator loses nothing.
pub copy_string_fits : (size : ℕ) (s : Text) → length s < size → copy_string size s ≡ s
copy_string_fits size s h = take-eq_of_le (size - 1) s (omega arith)
