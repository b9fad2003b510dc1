-- ===== src/Prelude/FileLines.antt =====
-- Files read line by line with `fgets`, and what this makes of a file that was written so.
use mathlib.Core.List.{List, [], ◌∷◌, ◌++◌, map, append_assoc}
use mathlib.Core.Path.{◌≡◌, refl, ap, ◌∙◌}
use mathlib.Core.Logic.{◌≢◌}
use native.Mathlib.Omega.{arith}
use Prim.Native.Nat.{ℕ, zero, suc, ◌≤◌, ◌<◌}
use container_internals_simu.Prelude.Tests.{◌==◌, if◌then◌else◌}
use container_internals_simu.Prelude.Lists.{All, length, length-append}
use container_internals_simu.Prelude.Text.{Text}

abbrev pub newline : ℕ
newline = 10

-- The byte does not stand in the text.
abbrev pub Lacks : ℕ → Text → Type 0
Lacks c = All (λ x. x ≢ c)

-- `fgets(line, n + 1, f)`: at most `n` bytes, up to a newline, and what is left of the file.
unfoldable pub fgets : ℕ → Text → Text × Text
fgets zero s = ([], s)
fgets (suc n) [] = ([], [])
fgets (suc n) (c ∷ s) =
    let (line, rest) = fgets n s in if c == newline then (c ∷ [], s) else (c ∷ line, rest)

-- The lines that a loop reads; the text's length is fuel enough.
unfoldable pub file_lines : ℕ → ℕ → Text → List Text
file_lines n zero s = []
file_lines n (suc fuel) [] = []
file_lines n (suc fuel) (c ∷ s) =
    let (line, rest) = fgets n (c ∷ s) in line ∷ file_lines n fuel rest

-- The text that one print for each element makes.
abbrev pub print_all {ℓ} : {A : Type ℓ} → (A → Text) → List A → Text
print_all print [] = []
print_all print (x ∷ xs) = print x ++ print_all print xs

-- The text is one line that `fgets` takes whole.
pub record IsLine (n : ℕ) (line : Text) : Type 0 where
  pub body : Text
  pub ends : line ≡ body ++ newline ∷ []
  pub one : Lacks newline body
  pub short : length body < n

fgets-line :
    (n : ℕ) (s rest : Text)
    → Lacks newline s
    → length s < n
    → fgets n (s ++ newline ∷ rest) ≡ (s ++ newline ∷ [], rest)
unfolding fgets
fgets-line zero s rest a h = absurd (omega arith)
fgets-line (suc n) [] rest a h = refl
fgets-line (suc n) (x ∷ s) rest a h = ground (arith, fgets-line n s rest)

fgets-IsLine : (n : ℕ) (line rest : Text) → IsLine n line → fgets n (line ++ rest) ≡ (line, rest)
fgets-IsLine n line rest l =
    rw (l.ends, append_assoc l.body (newline ∷ []) rest) (fgets-line n l.body rest l.one l.short)

length-IsLine : (n : ℕ) (line : Text) → IsLine n line → 0 < length line
length-IsLine n line l = omega (arith, ap length l.ends, length-append l.body (newline ∷ []))

file_lines-cons :
    (n fuel : ℕ) (s : Text)
    → 0 < length s
    → file_lines n (suc fuel) s ≡ (fgets n s).0 ∷ file_lines n fuel (fgets n s).1
unfolding file_lines
file_lines-cons n fuel [] h = absurd (omega arith)
file_lines-cons n fuel (c ∷ s) h = refl

-- The lines read are the lines printed.
pub file_lines-print_all {ℓ κ} :
    {A : Type ℓ} (P : A → Type κ) (print : A → Text) (n : ℕ)
    → ((x : A) → P x → IsLine n (print x))
    → (fuel : ℕ) (xs : List A) → All P xs
    → length (print_all print xs) ≤ fuel
    → file_lines n fuel (print_all print xs) ≡ map print xs
unfolding file_lines
file_lines-print_all P print n line zero [] a h = refl
file_lines-print_all P print n line (suc fuel) [] a h = refl
file_lines-print_all P print n line zero (x ∷ xs) a h = absurd (
    omega
      (arith, length-IsLine n (print x) (line x a.0), length-append (print x) (print_all print xs)))
file_lines-print_all P print n line (suc fuel) (x ∷ xs) a h =
    let more = length-IsLine n (print x) (line x a.0) in
    let long = length-append (print x) (print_all print xs) in
    file_lines-cons n fuel (print x ++ print_all print xs) (omega (arith, more, long))
    ∙ ap (λ (r : Text × Text). r.0 ∷ file_lines n fuel r.1)
        (fgets-IsLine n (print x) (print_all print xs) (line x a.0))
    ∙ ap (λ (r : List Text). print x ∷ r)
        (file_lines-print_all P print n line fuel xs a.1 (omega (arith, more, long)))
