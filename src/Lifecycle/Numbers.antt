-- ===== src/Lifecycle/Numbers.antt =====
-- The numbers that ids are made of: different numbers give different ids, and a number that is
-- not used yet gives a new id.
use mathlib.Core.List.{append-nil}
use container_internals_simu.Prelude.{
  ℕ, zero, suc, ◌+◌, ◌-◌, ◌^◌, ◌<◌, ◌≡◌, ◌≢◌, refl, sym, ap, ◌∙◌, Option, none, some, inl, inr,
  Option-cases, List, [], ◌∷◌, ◌++◌, All, All-append, length, length-append, length-replicate,
  replicate, arith, leb, if◌then◌else◌,
}
use container_internals_simu.Prelude.Int.{ℤ, pos, negsuc}
use container_internals_simu.Prelude.Text.{Text, codes, copy_string, copy_string_fits}
use container_internals_simu.Prelude.Decimal.{
  print_nat, length-print_nat, read_digits, IsDigit, print_nat-IsDigit, length-print_nat_pos,
  read_digits-print_nat,
}
use container_internals_simu.Prelude.Scan.{
  as_int-pos, succ_bits-pos, scan_int, strip_prefix, strip_prefix_lem, scan_int_lem,
}
use container_internals_simu.Prelude.Counters.{IsBelowMax, past_number}
use container_internals_simu.Lifecycle.Create.{pad4, print_04d, id_of, update_next_sequence}
use container_internals_simu.Lifecycle.Invariant.{IsNumbered}

read_zeros : (k : ℕ) (s : Text) → read_digits (replicate k b'0' ++ s) 0 ≡ read_digits s 0
unfolding read_digits
read_zeros zero s = refl
read_zeros (suc k) s = read_zeros k s

All-zeros : (k : ℕ) → All IsDigit (replicate k b'0')
All-zeros zero = tt
All-zeros (suc k) = (omega arith, All-zeros k)

-- An id is not cut.
id_of_lem : (n : ℕ) → n < 2 ^ 31 → id_of n ≡ codes "container-" ++ pad4 (print_nat n)
unfolding id_of pad4 print_04d
id_of_lem n h =
    ap (λ z. copy_string 64 (codes "container-" ++ print_04d z)) (as_int-pos n h)
    ∙ copy_string_fits 64 (codes "container-" ++ pad4 (print_nat n)) (
        omega (
          arith,
          length-append (replicate (4 - length (print_nat n)) b'0') (print_nat n),
          length-replicate {A = ℕ} (4 - length (print_nat n)) b'0',
          length-print_nat n 9,
        ))

scan-pad4 : (n : ℕ) → n < 2 ^ 31 → scan_int (pad4 (print_nat n)) ≡ some (pos n, [])
unfolding pad4
scan-pad4 n h =
    let zeros : Text = replicate (4 - length (print_nat n)) b'0' in
    ap scan_int (sym (append-nil (zeros ++ print_nat n)))
    ∙ scan_int_lem (zeros ++ print_nat n) [] n
        (All-append IsDigit zeros (print_nat n) (All-zeros (4 - length (print_nat n)))
          (print_nat-IsDigit n))
        (omega (arith, length-append zeros (print_nat n), length-print_nat_pos n)) refl
        (read_zeros (4 - length (print_nat n)) (print_nat n) ∙ read_digits-print_nat n) h

pub update_next_sequence-id_of :
    (k next : ℕ)
    → k < 2 ^ 31
    → next < 2 ^ 31
    → update_next_sequence (id_of k) next ≡ (if leb next k then k + 1 else next)
unfolding update_next_sequence
update_next_sequence-id_of k next h small =
    rw
      (
        id_of_lem k h,
        strip_prefix_lem (codes "container-") (pad4 (print_nat k)),
        update_next_sequence,
      )
      (rw (scan-pad4 k h, as_int-pos next small, succ_bits-pos k h) (ground arith))

-- The number in an id.
abbrev pub number_of : Text → Option ℤ
number_of id = elim (strip_prefix (codes "container-") id) [
  | none ↦ none
  | some rest ↦ elim (scan_int rest) [ none ↦ none | some (value, after) ↦ some value ]
]

-- The next number is past that of an id that was read.
pub update_next_sequence_lem :
    (id : Text) (next : ℕ)
    → next < 2 ^ 31
    → IsBelowMax (number_of id)
    → update_next_sequence id next ≡ past_number (number_of id) next
unfolding update_next_sequence strip_prefix
update_next_sequence_lem id next small below =
    elim (Option-cases (strip_prefix (codes "container-") id)) [
      | inl other ↦ rw (other, update_next_sequence) refl
      | inr (rest, named) ↦ elim (Option-cases (scan_int rest)) [
        | inl missing ↦ rw (named, update_next_sequence) (rw missing refl)
        | inr (read, found) ↦ by_value rest named read.0 read.1 found
      ]
    ]
  where
    number :
        (rest : Text)
        → strip_prefix (codes "container-") id ≡ some rest
        → (value : ℤ) → (after : Text) → scan_int rest ≡ some (value, after)
        → number_of id ≡ some value
    number rest named value after found = rw named (rw found refl)

    by_value :
        (rest : Text)
        → strip_prefix (codes "container-") id ≡ some rest
        → (value : ℤ) (after : Text) → scan_int rest ≡ some (value, after)
        → update_next_sequence id next ≡ past_number (number_of id) next
    by_value rest named (pos n) after found =
        let less = below n (number rest named (pos n) after found) in
        rw (named, update_next_sequence)
          (rw (found, as_int-pos next small, succ_bits-pos n (omega arith)) (ground arith))
    by_value rest named (negsuc n) after found =
        rw (named, update_next_sequence) (rw (found, as_int-pos next small) (ground arith))

id_of-injective : (m n : ℕ) → m < 2 ^ 31 → n < 2 ^ 31 → id_of m ≡ id_of n → m ≡ n
id_of-injective m n h k e = ground (
  arith,
  update_next_sequence-id_of m 0 h (omega arith),
  update_next_sequence-id_of n 0 k (omega arith),
  ap (λ (id : Text). update_next_sequence id 0) e,
)

-- A number that is not used yet gives a new id.
pub id_of-fresh :
    (n : ℕ) (taken : List Text)
    → n < 2 ^ 31
    → All (IsNumbered n) taken
    → All (λ id. id ≢ id_of n) taken
id_of-fresh n [] h a = tt
id_of-fresh n (id ∷ taken) h ((k, below, e), a) = (
  λ same. absurd (omega (arith, id_of-injective k n (omega arith) h (sym e ∙ same))),
  id_of-fresh n taken h a,
)
