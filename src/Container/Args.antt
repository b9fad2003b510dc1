-- ===== src/Container/Args.antt =====
-- `split_command_argv` splits what was joined, and stays within `argv`.
use mathlib.Core.List.{append_assoc, append-nil}
use container_internals_simu.Prelude.{
  ℕ, zero, suc, ◌+◌, ◌-◌, ◌≤◌, ◌<◌, ◌≡◌, ◌≢◌, ◌⊎◌, refl, ap, sym, ◌∙◌, inl, inr, false, List, [],
  ◌∷◌, ◌++◌, All, arith, tests, length, length-append, ltb, leb, Bool-cases,
}
use container_internals_simu.Prelude.Text.{Text}
use container_internals_simu.Container.{
  is_blank, is_quote, skip_blanks, until, next_arg, Split, split, e2big, einval, split_loop,
  some_args, split_command_argv,
}

-- The result fits into `argv` with its final NULL.
abbrev pub Fits : ℕ → Split → Type 0
Fits max_args (split argv) = (length argv ≤ max_args - 1) × (argv ≢ [])
Fits max_args e2big = Unit
Fits max_args einval = Unit

abbrev FitsLoop : ℕ → Split → Type 0
FitsLoop max_args (split argv) = length argv ≤ max_args - 1
FitsLoop max_args e2big = Unit
FitsLoop max_args einval = Unit

text-cases : (s : Text) → (s ≡ []) ⊎ ((c : ℕ) × (rest : Text) × (s ≡ c ∷ rest))
text-cases [] = inl refl
text-cases (c ∷ rest) = inr (c, rest, refl)

split_loop-FitsLoop :
    (fuel max_args : ℕ) (argv : List Text) (s : Text)
    → length argv ≤ max_args - 1
    → FitsLoop max_args (split_loop fuel max_args argv s)
unfolding split_loop
split_loop-FitsLoop zero max_args argv s h = h
split_loop-FitsLoop (suc fuel) max_args argv s h = elim (text-cases (skip_blanks s)) [
  | inl done ↦ rw (done, split_loop, FitsLoop) h
  | inr (c, rest, e) ↦ elim (Bool-cases (leb (max_args - 1) (length argv))) [
    | inl full ↦ rw (e, split_loop, FitsLoop, full) tt
    | inr room ↦
        rw (e, split_loop, FitsLoop, room)
          (split_loop-FitsLoop fuel max_args (argv ++ (next_arg c rest).0 ∷ []) (next_arg c rest).1
            (omega (tests, room, length-append argv ((next_arg c rest).0 ∷ []))))
  ]
]

some_args-Fits : (max_args : ℕ) (r : Split) → FitsLoop max_args r → Fits max_args (some_args r)
unfolding some_args
some_args-Fits max_args (split []) h = tt
some_args-Fits max_args (split (w ∷ ws)) h = (h, λ e. cc)
some_args-Fits max_args e2big h = tt
some_args-Fits max_args einval h = tt

-- Whatever the text, `argv` holds the arguments and the final NULL, and a success has at least one
-- argument.
pub split_command_argv-Fits :
    (buffer : Text) (max_args : ℕ) → Fits max_args (split_command_argv buffer max_args)
unfolding split_command_argv
split_command_argv-Fits buffer max_args = elim (Bool-cases (ltb max_args 2)) [
  | inl few ↦ rw few tt
  | inr enough ↦ rw enough (
      some_args-Fits max_args _
        (split_loop-FitsLoop (suc (length buffer)) max_args [] buffer (omega arith)))
]

-- An argument that needs no quotes: not empty, without blanks, and not beginning with a quote.
abbrev pub IsPlain : Text → Type 0
IsPlain [] = ⊥
IsPlain (c ∷ s) = (is_quote c ≡ false) × All (λ x. is_blank x ≡ false) (c ∷ s)

-- The arguments with a space between each two.
abbrev pub join : List Text → Text
join [] = []
join (w ∷ []) = w
join (w ∷ v ∷ ws) = w ++ 32 ∷ join (v ∷ ws)

until-blank :
    (w rest : Text) → All (λ x. is_blank x ≡ false) w → until is_blank (w ++ 32 ∷ rest) ≡ (w, rest)
unfolding until
until-blank [] rest a = refl
until-blank (c ∷ w) rest a =
    rw a.0 (ap (λ (r : Text × Text). (c ∷ r.0, r.1)) (until-blank w rest a.1))

until-end : (w : Text) → All (λ x. is_blank x ≡ false) w → until is_blank w ≡ (w, [])
unfolding until
until-end [] a = refl
until-end (c ∷ w) a = rw a.0 (ap (λ (r : Text × Text). (c ∷ r.0, r.1)) (until-end w a.1))

skip_blanks-solid : (c : ℕ) (s : Text) → is_blank c ≡ false → skip_blanks (c ∷ s) ≡ c ∷ s
unfolding skip_blanks
skip_blanks-solid c s solid = rw solid refl

-- A turn of the loop at a plain argument.
split_loop-step :
    (fuel max_args : ℕ) (argv : List Text) (c : ℕ) (s word left : Text)
    → is_blank c ≡ false
    → is_quote c ≡ false
    → until is_blank (c ∷ s) ≡ (word, left)
    → length argv < max_args - 1
    → split_loop (suc fuel) max_args argv (c ∷ s)
      ≡ split_loop fuel max_args (argv ++ word ∷ []) left
unfolding split_loop skip_blanks next_arg
split_loop-step fuel max_args argv c s word left solid bare cut room =
    let more : leb (max_args - 1) (length argv) ≡ false = ground (arith, room) in
    rw (skip_blanks-solid c s solid, split_loop, more, bare)
      (ap (λ (r : Text × Text). split_loop fuel max_args (argv ++ r.0 ∷ []) r.1) cut)

split_loop-done :
    (fuel max_args : ℕ) (argv : List Text) → split_loop fuel max_args argv [] ≡ split argv
unfolding split_loop skip_blanks
split_loop-done zero max_args argv = refl
split_loop-done (suc fuel) max_args argv = refl

split_loop-join :
    (fuel max_args : ℕ) (argv ws : List Text)
    → All IsPlain ws
    → length ws ≤ fuel
    → length argv + length ws ≤ max_args - 1
    → split_loop fuel max_args argv (join ws) ≡ split (argv ++ ws)
split_loop-join fuel max_args argv [] plain le fits =
    split_loop-done fuel max_args argv ∙ ap split (sym (append-nil argv))
split_loop-join zero max_args argv (w ∷ ws) plain le fits = absurd (omega arith)
split_loop-join (suc fuel) max_args argv ([] ∷ ws) plain le fits = absurd plain.0
split_loop-join (suc fuel) max_args argv ((c ∷ s) ∷ []) plain le fits =
    split_loop-step fuel max_args argv c s (c ∷ s) [] plain.0.1.0 plain.0.0
      (until-end (c ∷ s) plain.0.1) (omega arith)
    ∙ split_loop-done fuel max_args (argv ++ (c ∷ s) ∷ [])
split_loop-join (suc fuel) max_args argv ((c ∷ s) ∷ v ∷ ws) plain le fits =
    split_loop-step fuel max_args argv c (s ++ 32 ∷ join (v ∷ ws)) (c ∷ s) (join (v ∷ ws))
      plain.0.1.0 plain.0.0 (until-blank (c ∷ s) (join (v ∷ ws)) plain.0.1) (omega arith)
    ∙ split_loop-join fuel max_args (argv ++ (c ∷ s) ∷ []) (v ∷ ws) plain.1 (omega arith)
        (omega (arith, length-append argv ((c ∷ s) ∷ [])))
    ∙ ap split (append_assoc argv ((c ∷ s) ∷ []) (v ∷ ws))

length-join : (ws : List Text) → All IsPlain ws → length ws ≤ length (join ws)
length-join [] plain = omega arith
length-join ([] ∷ ws) plain = absurd plain.0
length-join ((c ∷ s) ∷ []) plain = omega arith
length-join ((c ∷ s) ∷ v ∷ ws) plain =
    omega (arith, length-join (v ∷ ws) plain.1, length-append s (32 ∷ join (v ∷ ws)))

-- Plain arguments joined by spaces are split into the same arguments, if there is one at least and
-- `argv` has room for them and the final NULL.
pub split_command_argv-join :
    (ws : List Text) (max_args : ℕ)
    → All IsPlain ws
    → ws ≢ []
    → length ws < max_args
    → split_command_argv (join ws) max_args ≡ split ws
unfolding split_command_argv some_args
split_command_argv-join [] max_args plain some_word room = absurd (some_word refl)
split_command_argv-join (w ∷ ws) max_args plain some_word room =
    let two : ltb max_args 2 ≡ false = ground (arith, room) in
    rw
      (
        two,
        split_loop-join (suc (length (join (w ∷ ws)))) max_args [] (w ∷ ws) plain
            (omega (arith, length-join (w ∷ ws) plain)) (omega arith),
      )
      refl
