-- ===== src/Bridge/Pool.antt =====
-- The pool of addresses: `bridge_mark_ip_used` and `bridge_alloc_ip`, and that no address is given
-- out twice.
use container_internals_simu.Prelude.{
  ℕ, ◌+◌, ◌^◌, ◌≤◌, ◌<◌, ◌≡◌, ◌≢◌, refl, sym, subst, ap, ◌∙◌, inl, inr, ◌⊎◌, Option, none, some,
  List, [], ◌∷◌, ◌++◌, length, All, arith, leb, if◌then◌else◌, Bool-cases, Option-cases,
}
use container_internals_simu.Prelude.Int.{ℤ, pos, negsuc, leb_ℤ, ltb_ℤ}
use container_internals_simu.Prelude.Text.{Text, codes, copy_string, copy_string_fits}
use container_internals_simu.Prelude.Decimal.{print_nat, print_int, length-print_nat}
use container_internals_simu.Prelude.Scan.{
  scan_int, strip_prefix, scan_int-print_nat, as_int, succ_bits, as_int-pos, succ_bits-pos,
}
use mathlib.Core.List.{append-nil}
use container_internals_simu.Prelude.Counters.{IsBelowMax, past_number}
use container_internals_simu.Bridge.{Bridge, no_error, pool_exhausted, initial_bridge}

-- The host part of an address, by `sscanf(ip, "172.17.0.%d", &last)`.
unfoldable pub scan_ip : Text → Option ℤ
scan_ip ip = elim (strip_prefix (codes "172.17.0.") ip) [
  | none ↦ none
  | some rest ↦ elim (scan_int rest) [ none ↦ none | some (last, after) ↦ some last ]
]

-- `if (last >= g_next_ip_host) g_next_ip_host = last + 1;`
unfoldable pub mark_last : ℤ → ℕ → ℕ
unfolding as_int succ_bits
mark_last last next = if leb_ℤ (as_int next) last then succ_bits last else next

unfoldable pub bridge_mark_ip_used : Text → Bridge → Bridge
unfolding mark_last
bridge_mark_ip_used ip b = elim (scan_ip ip) [
  | none ↦ b
  | some last ↦ record b { next_ip_host = mark_last last b.next_ip_host }
]

unfoldable pub ip_of : ℕ → Text
unfolding as_int print_int
ip_of host = codes "172.17.0." ++ print_int (as_int host)

-- The address, in a buffer of 16 bytes; `none` is the result -1.
unfoldable pub bridge_alloc_ip : Bridge → Bridge × Option Text
unfolding ip_of as_int succ_bits
bridge_alloc_ip b =
    if ltb_ℤ (pos 254) (as_int b.next_ip_host)
    then (record b { last_error = pool_exhausted }, none)
    else (
      record b { last_error = no_error; next_ip_host = succ_bits (as_int b.next_ip_host) },
      some (copy_string 16 (ip_of b.next_ip_host)),
    )

-- A call of the pool.
pub data PoolCall : Type 0 where
  mark : Text → PoolCall
  alloc : PoolCall

abbrev pub add : Option Text → List Text → List Text
add none used = used
add (some ip) used = ip ∷ used

-- The bridge after a series of calls, and the addresses that they marked or gave out.
unfoldable pub run_pool : List PoolCall → Bridge → Bridge × List Text
run_pool [] b = (b, [])
run_pool (mark ip ∷ calls) b =
    let (b', used) = run_pool calls (bridge_mark_ip_used ip b) in (b', ip ∷ used)
run_pool (alloc ∷ calls) b =
    let (b', given) = bridge_alloc_ip b in
    let (b'', used) = run_pool calls b' in (b'', add given used)

abbrev pub address : ℕ → Text
address n = codes "172.17.0." ++ print_nat n

ip_of_lem : (n : ℕ) → n < 2 ^ 31 → ip_of n ≡ address n
unfolding ip_of print_int
ip_of_lem n h = ap (λ z. codes "172.17.0." ++ print_int z) (as_int-pos n h)

length-ip_of : (n : ℕ) → n ≤ 254 → length (ip_of n) ≤ 12
length-ip_of n h = omega (arith, ap length (ip_of_lem n (omega arith)), length-print_nat n 2)

scan_ip-ip_of : (n : ℕ) → n < 2 ^ 31 → scan_ip (ip_of n) ≡ some (pos n)
unfolding scan_ip strip_prefix
scan_ip-ip_of n h =
    let read : scan_int (print_nat n) ≡ some (pos n, []) =
      ap scan_int (sym (append-nil (print_nat n))) ∙ scan_int-print_nat n [] h refl in
    ap scan_ip (ip_of_lem n h) ∙ rw (read, scan_ip) refl

-- The host number of the address, if it has one, is less than 2147483647, the greatest `int`.
abbrev pub IsCountable : Text → Type 0
IsCountable ip = IsBelowMax (scan_ip ip)

mark_last-pos :
    (last next : ℕ)
    → next < 2 ^ 31
    → last < 2 ^ 31
    → mark_last (pos last) next ≡ (if leb next last then last + 1 else next)
unfolding mark_last
mark_last-pos last next h k = rw (as_int-pos next h, succ_bits-pos last k) (ground arith)

mark_last-negsuc : (m next : ℕ) → next < 2 ^ 31 → mark_last (negsuc m) next ≡ next
unfolding mark_last
mark_last-negsuc m next h = rw (as_int-pos next h) (ground arith)

-- A marked address is behind the next one.
pub bridge_mark_ip_used_lem :
    (ip : Text) (b : Bridge)
    → b.next_ip_host < 2 ^ 31
    → IsCountable ip
    → bridge_mark_ip_used ip b ≡ record b { next_ip_host = past_number (scan_ip ip) b.next_ip_host }
unfolding bridge_mark_ip_used
bridge_mark_ip_used_lem ip b h countable = elim (Option-cases (scan_ip ip)) [
  | inl missing ↦ rw (missing, bridge_mark_ip_used) refl
  | inr (last, found) ↦
      rw (found, bridge_mark_ip_used) (ap (λ n. record b { next_ip_host = n }) (by_last last found))
]
  where
    by_last :
        (last : ℤ)
        → scan_ip ip ≡ some last
        → mark_last last b.next_ip_host ≡ past_number (some last) b.next_ip_host
    by_last (pos n) e =
        let small = countable n e in ground (arith, mark_last-pos n b.next_ip_host h (omega arith))
    by_last (negsuc n) e = mark_last-negsuc n b.next_ip_host h

-- Marking an address never moves the next one back.
le-mark :
    (ip : Text) (b : Bridge)
    → b.next_ip_host < 2 ^ 31
    → IsCountable ip
    → (b.next_ip_host ≤ (bridge_mark_ip_used ip b).next_ip_host)
      × ((bridge_mark_ip_used ip b).next_ip_host < 2 ^ 31)
unfolding bridge_mark_ip_used
le-mark ip b h countable = elim (Option-cases (scan_ip ip)) [
  | inl missing ↦ rw (missing, bridge_mark_ip_used) (omega arith, h)
  | inr (last, found) ↦ rw (found, bridge_mark_ip_used) (by_last last found)
]
  where
    by_last :
        (last : ℤ)
        → scan_ip ip ≡ some last
        → (b.next_ip_host ≤ mark_last last b.next_ip_host)
          × (mark_last last b.next_ip_host < 2 ^ 31)
    by_last (pos n) e =
        let small = countable n e in
        let step = mark_last-pos n b.next_ip_host h (omega arith) in
        (ground (arith, step), ground (arith, step))
    by_last (negsuc n) e = rw (mark_last-negsuc n b.next_ip_host h) (omega arith, h)

-- Addresses below the pool's next one that are used.
abbrev pub IsPast : ℕ → Text → Type 0
IsPast next ip = (n : ℕ) → n ≤ 254 → ip ≡ ip_of n → n < next

IsPast-mark :
    (ip : Text) (b : Bridge)
    → b.next_ip_host < 2 ^ 31
    → IsPast (bridge_mark_ip_used ip b).next_ip_host ip
unfolding bridge_mark_ip_used
IsPast-mark ip b small n h e =
    rw (e, scan_ip-ip_of n (omega arith), bridge_mark_ip_used)
      (ground (arith, mark_last-pos n b.next_ip_host small (omega arith)))

ip_of-injective : (m n : ℕ) → m ≤ 254 → n ≤ 254 → ip_of m ≡ ip_of n → m ≡ n
ip_of-injective m n h k e =
    let same : some (pos m) ≡ some (pos n) =
      sym (scan_ip-ip_of m (omega arith)) ∙ ap scan_ip e ∙ scan_ip-ip_of n (omega arith) in
    cc

IsPast-alloc : (m : ℕ) → m ≤ 254 → IsPast (m + 1) (ip_of m)
IsPast-alloc m h n k e = omega (arith, ip_of-injective m n h k e)

IsPast-le : {m n : ℕ} (ip : Text) → m ≤ n → IsPast m ip → IsPast n ip
IsPast-le ip h past k le e = ground (arith, past k le e)

bridge_alloc_ip_cases :
    (b : Bridge)
    → b.next_ip_host < 2 ^ 31
    → ((254 < b.next_ip_host)
        × ((bridge_alloc_ip b).0.next_ip_host ≡ b.next_ip_host)
        × ((bridge_alloc_ip b).1 ≡ none))
      ⊎ ((b.next_ip_host ≤ 254)
          × ((bridge_alloc_ip b).0.next_ip_host ≡ b.next_ip_host + 1)
          × ((bridge_alloc_ip b).1 ≡ some (ip_of b.next_ip_host)))
unfolding bridge_alloc_ip
bridge_alloc_ip_cases b small =
    let value = as_int-pos b.next_ip_host small in
    elim (Bool-cases (ltb_ℤ (pos 254) (pos b.next_ip_host))) [
      | inl full ↦ inl (ground arith, rw (value, full) refl, rw (value, full) refl)
      | inr room ↦ inr (
        ground arith,
        rw (value, room) (succ_bits-pos b.next_ip_host small),
        rw (value, room) (ap {B = Option Text} some (fits (ground arith))),
      )
    ]
  where
    fits :
        b.next_ip_host ≤ 254
        → copy_string 16 (codes "172.17.0." ++ print_nat b.next_ip_host)
          ≡ codes "172.17.0." ++ print_nat b.next_ip_host
    fits h =
        copy_string_fits 16 (codes "172.17.0." ++ print_nat b.next_ip_host)
          (omega (arith, length-print_nat b.next_ip_host 2))

-- The addresses that are marked are countable.
abbrev pub AllCountable : List PoolCall → Type 0
AllCountable [] = Unit
AllCountable (mark ip ∷ calls) = IsCountable ip × AllCountable calls
AllCountable (alloc ∷ calls) = AllCountable calls

-- Every address marked or given out is past the next one, which only grows and stays an `int`.
run_pool-IsPast :
    (calls : List PoolCall) (b : Bridge)
    → b.next_ip_host < 2 ^ 31
    → AllCountable calls
    → (b.next_ip_host ≤ (run_pool calls b).0.next_ip_host)
      × All (IsPast (run_pool calls b).0.next_ip_host) (run_pool calls b).1
      × ((run_pool calls b).0.next_ip_host < 2 ^ 31)
unfolding run_pool
run_pool-IsPast [] b small all = (omega arith, tt, small)
run_pool-IsPast (mark ip ∷ calls) b small all =
    let b' = bridge_mark_ip_used ip b in
    let grows = le-mark ip b small all.0 in
    let rest = run_pool-IsPast calls b' grows.1 all.1 in
    (omega (arith, grows.0, rest.0), (IsPast-le ip rest.0 (IsPast-mark ip b small), rest.1), rest.2)
run_pool-IsPast (alloc ∷ calls) b small all = elim (bridge_alloc_ip_cases b small) [
  | inl (full, same, nothing) ↦
      let rest = run_pool-IsPast calls (bridge_alloc_ip b).0 (omega (arith, same)) all in
      rw nothing (omega (arith, same, rest.0), rest.1, rest.2)
  | inr (room, next, given) ↦
      let rest = run_pool-IsPast calls (bridge_alloc_ip b).0 (omega (arith, next)) all in
      rw given (
        omega (arith, next, rest.0),
        (
          IsPast-le (ip_of b.next_ip_host) (omega (arith, next, rest.0))
              (IsPast-alloc b.next_ip_host room),
          rest.1,
        ),
        rest.2,
      )
]

IsPast-ne :
    (next : ℕ) (used : List Text)
    → next ≤ 254
    → All (IsPast next) used
    → All (λ ip. ip ≢ ip_of next) used
IsPast-ne next [] h past = tt
IsPast-ne next (ip ∷ used) h past =
    ((λ e. absurd (omega (arith, past.0 next h e))), IsPast-ne next used h past.1)

-- After any calls of the pool since the start of the program, in which no address is marked whose
-- host number is 2147483647, an address that is given out is one of 172.17.0.2 to 172.17.0.254, and
-- was neither given out nor marked before; the call fails only when the pool's next address is past
-- the last of these.
pub bridge_alloc_ip-run_pool :
    (calls : List PoolCall)
    → AllCountable calls
    → (((bridge_alloc_ip (run_pool calls initial_bridge).0).1 ≡ none)
        × (254 < (run_pool calls initial_bridge).0.next_ip_host))
      ⊎ ((n : ℕ) × (2 ≤ n)
          × (n ≤ 254)
          × ((bridge_alloc_ip (run_pool calls initial_bridge).0).1 ≡ some (address n))
          × All (λ ip. ip ≢ address n) (run_pool calls initial_bridge).1)
unfolding initial_bridge
bridge_alloc_ip-run_pool calls all =
    let b = (run_pool calls initial_bridge).0 in
    let past = run_pool-IsPast calls initial_bridge (omega arith) all in
    elim (bridge_alloc_ip_cases b past.2) [
      | inl (full, same, nothing) ↦ inl (nothing, full)
      | inr (room, next, given) ↦
          let n = b.next_ip_host in
          let text = ip_of_lem n past.2 in
          inr (
            n,
            past.0,
            room,
            given ∙ ap {B = Option Text} some text,
            subst (λ a. All (λ ip. ip ≢ a) (run_pool calls initial_bridge).1) text
                (IsPast-ne n _ room past.1),
          )
    ]
