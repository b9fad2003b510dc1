-- ===== src/Json/Escape.antt =====
-- `json_escape_copy` stays in its buffer, and escapes the whole of a string if the buffer has two
-- bytes for each.
use container_internals_simu.Prelude.{
  ℕ, suc, ◌+◌, ◌*◌, ◌≤◌, ◌<◌, ◌≡◌, refl, ap, inl, inr, true, ◌||◌, some, [], ◌∷◌, ◌++◌, arith,
  tests, length, length-append, ltb, leb, ◌==◌, if◌then◌else◌, Bool-cases,
}
use container_internals_simu.Prelude.Text.{Text}
use container_internals_simu.Json.{escape_byte, escape_loop, json_escape_copy, backslash, quote}

-- A byte as JSON has it; other control characters are left out.
abbrev pub escaped_byte : ℕ → Text
escaped_byte c =
    if c == backslash || c == quote
    then backslash ∷ c ∷ []
    else if c == 10
    then backslash ∷ b'n' ∷ []
    else if c == 13
    then backslash ∷ b'r' ∷ []
    else if c == 9
    then backslash ∷ b't' ∷ []
    else if leb 32 c
    then c ∷ []
    else []

abbrev pub escaped : Text → Text
escaped [] = []
escaped (c ∷ src) = escaped_byte c ++ escaped src

escape_byte_bound : (size out c : ℕ) → out + 1 < size → out + length (escape_byte size out c) < size
unfolding escape_byte
escape_byte_bound size out c h = ground (arith, h)

escape_byte_full :
    (size out c : ℕ)
    → out + 2 < size
    → (escape_byte size out c ≡ escaped_byte c) × (length (escaped_byte c) ≤ 2)
unfolding escape_byte
escape_byte_full size out c h = ground (arith, h)

escape_loop_bound :
    (size out : ℕ) (src : Text) → out < size → out + length (escape_loop size out src) < size
unfolding escape_loop
escape_loop_bound size out [] h = omega arith
escape_loop_bound size out (c ∷ src) h = elim (Bool-cases (ltb (out + 1) size)) [
  | inr full ↦ rw full (omega arith)
  | inl more ↦ rw more (
      omega (
        arith,
        length-append (escape_byte size out c)
            (escape_loop size (out + length (escape_byte size out c)) src),
        escape_loop_bound size (out + length (escape_byte size out c)) src
            (escape_byte_bound size out c (omega (tests, more))),
      ))
]

escape_loop_full :
    (size out : ℕ) (src : Text)
    → out + 2 * length src < size
    → escape_loop size out src ≡ escaped src
unfolding escape_loop
escape_loop_full size out [] h = refl
escape_loop_full size out (c ∷ src) h =
    let (same, two) = escape_byte_full size out c (omega arith) in
    let more : ltb (out + 1) size ≡ true = ground (arith, h) in
    rw (more, same)
      (ap (λ (s : Text). escaped_byte c ++ s)
        (escape_loop_full size (out + length (escaped_byte c)) src (omega (arith, two))))

-- Into a buffer of any size, with room for the terminator, the call writes fewer bytes than the
-- buffer has; the buffer gets the whole escaped string if it has more than two bytes for each of
-- the source's.
pub json_escape_copy_lem :
    (n : ℕ) (src : Text)
    → (dst : Text) × (json_escape_copy (suc n) (some src) ≡ some dst)
      × (length dst ≤ n)
      × (2 * length src ≤ n → dst ≡ escaped src)
unfolding json_escape_copy
json_escape_copy_lem n src = (
  escape_loop (suc n) 0 src,
  refl,
  omega (arith, escape_loop_bound (suc n) 0 src (omega arith)),
  λ fits. escape_loop_full (suc n) 0 src (omega arith),
)
