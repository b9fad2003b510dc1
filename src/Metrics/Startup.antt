-- ===== src/Metrics/Startup.antt =====
-- Startup times: what is recorded of a series of samples, and the 99th percentile.
use native.Mathlib.Decide.{ℕ_discrete}
use container_internals_simu.Prelude.{
  ℕ, zero, suc, ◌+◌, ◌*◌, ◌/◌, ◌%◌, ◌^◌, ◌≤◌, ◌<◌, ◌≡◌, ◌≢◌, refl, ap, sym, subst, ◌∙◌, inl, inr,
  Bool, false, true, List, [], ◌∷◌, All, arith, tests, Bool-cases, length, get_or, set, ltb, leb,
  ◌==◌, if◌then◌else◌, get_or-set_self, get_or-set_ne, length-set, length-replicate,
  get_or-replicate,
}
use container_internals_simu.Prelude.Int.{ℤ}
use container_internals_simu.Metrics.{
  Metrics, ulong_mod, ulong_max, max_startup_ms, lat_buckets, init, inc, bucket_of,
  record_startup_ms, p99_loop, p99_target, compute_p99,
}

-- Samples, the latest first.
abbrev pub record_all : List ℕ → Metrics → Metrics
record_all [] m = m
record_all (ms ∷ earlier) m = record_startup_ms ms (record_all earlier m)

abbrev pub count_if : (ℕ → Bool) → List ℕ → ℕ
count_if p [] = 0
count_if p (x ∷ xs) = if p x then count_if p xs + 1 else count_if p xs

abbrev pub total : List ℕ → ℕ
total [] = 0
total (x ∷ xs) = total xs + x

abbrev pub greatest : List ℕ → ℕ
greatest [] = 0
greatest (x ∷ xs) = if ltb (greatest xs) x then x else greatest xs

abbrev pub least : List ℕ → ℕ
least [] = ulong_max
least (x ∷ xs) = if ltb x (least xs) then x else least xs

-- A sample belongs to the bucket of its milliseconds; the last one is for all from 1999 on.
abbrev pub falls_in : ℕ → ℕ → Bool
falls_in i ms = if i == 1999 then leb 1999 ms else ms == i

-- What the metrics have of a series of samples.
pub record IsSummary (m : Metrics) (samples : List ℕ) : Type 0 where
  pub count : m.startup_count ≡ length samples
  pub sum : m.startup_total_ms ≡ total samples
  pub max : m.startup_max_ms ≡ greatest samples
  pub min : m.startup_min_ms ≡ least samples
  pub size : length m.startup_buckets ≡ 2000
  pub buckets : (i : ℕ) → i < 2000 → get_or m.startup_buckets i 0 ≡ count_if (falls_in i) samples

count_if-le : (p : ℕ → Bool) (xs : List ℕ) → count_if p xs ≤ length xs
count_if-le p [] = omega arith
count_if-le p (x ∷ xs) = ground (arith, count_if-le p xs)

pub total-le :
    (xs : List ℕ) → All (λ x. x ≤ max_startup_ms) xs → total xs ≤ length xs * max_startup_ms
total-le [] a = omega arith
total-le (x ∷ xs) a = omega (arith, total-le xs a.1, a.0)

record-IsSummary :
    (ms : ℕ) (m : Metrics) (samples : List ℕ)
    → ms ≤ max_startup_ms
    → All (λ x. x ≤ max_startup_ms) samples
    → length samples < 2 ^ 40
    → IsSummary m samples
    → IsSummary (record_startup_ms ms m) (ms ∷ samples)
unfolding record_startup_ms
record-IsSummary ms m samples fits all few s =
    let ok : ltb max_startup_ms ms ≡ false = ground (arith, fits) in
    let b = bucket_of ms in
    let inside : b < length m.startup_buckets = ground (arith, s.size) in
    let low = count_if-le (falls_in b) samples in
    let here : falls_in b ms ≡ true = ground arith in
    let more = inc (get_or m.startup_buckets b 0) in
    let counted : more ≡ count_if (falls_in b) (ms ∷ samples) =
      rw here (omega (arith, s.buckets b (omega (arith, inside, s.size)), low, few)) in
    rw ok (record {
      count = omega (arith, s.count);
      sum = omega (arith, s.sum, total-le samples all);
      max = rw s.max refl;
      min = rw s.min refl;
      size = length-set m.startup_buckets b _ ∙ s.size;
      buckets = λ i lt. elim (ℕ_discrete b i) [
        | yes e ↦
            subst
              (λ k.
                get_or (set m.startup_buckets b more) k 0 ≡ count_if (falls_in k) (ms ∷ samples))
              e (get_or-set_self m.startup_buckets b more 0 inside ∙ counted)
        | no ne ↦ get_or-set_ne m.startup_buckets b i _ 0 ne ∙ s.buckets i lt ∙ other i lt ne
      ];
    })
  where
    other :
        (i : ℕ)
        → i < 2000
        → bucket_of ms ≢ i
        → count_if (falls_in i) samples ≡ count_if (falls_in i) (ms ∷ samples)
    other i lt ne = ground (arith, ne, lt)

init-IsSummary : (now : ℤ) → IsSummary (init now) []
unfolding init
init-IsSummary now = record {
  count = refl;
  sum = refl;
  max = refl;
  min = refl;
  size = length-replicate {A = ℕ} lat_buckets 0;
  buckets = λ i lt. get_or-replicate {A = ℕ} lat_buckets i 0;
}

-- After `metrics_init`, a series of fewer than 2^40 samples of at most ten minutes gives their
-- number, sum, maximum and minimum, and in each bucket the number of samples of that many
-- milliseconds, and in the last of 2000 that of all samples of 1999 milliseconds or more.
pub record_all-IsSummary :
    (now : ℤ) (samples : List ℕ)
    → All (λ x. x ≤ max_startup_ms) samples
    → length samples < 2 ^ 40
    → IsSummary (record_all samples (init now)) samples
record_all-IsSummary now [] all few = init-IsSummary now
record_all-IsSummary now (ms ∷ samples) all few =
    record-IsSummary ms (record_all samples (init now)) samples all.0 all.1 (omega arith)
      (record_all-IsSummary now samples all.1 (omega arith))

-- How many samples fall into the buckets below `i`.
abbrev pub in_below : ℕ → ℕ → Bool
in_below i ms = ltb (bucket_of ms) i

count_below-suc :
    (i : ℕ) (xs : List ℕ)
    → i < 2000
    → count_if (in_below (suc i)) xs ≡ count_if (in_below i) xs + count_if (falls_in i) xs
count_below-suc i [] lt = refl
count_below-suc i (x ∷ xs) lt = ground (arith, count_below-suc i xs lt)

count_below_zero : (xs : List ℕ) → count_if (in_below 0) xs ≡ 0
count_below_zero [] = refl
count_below_zero (x ∷ xs) = ground (arith, count_below_zero xs)

count_below_all : (xs : List ℕ) → count_if (in_below lat_buckets) xs ≡ length xs
count_below_all [] = refl
count_below_all (x ∷ xs) = ground (arith, count_below_all xs)

-- The bucket at which at least `target` samples have been counted, and fewer before it.
pub record IsQuantile (target p : ℕ) (samples : List ℕ) : Type 0 where
  pub reached : target ≤ count_if (in_below (suc p)) samples
  pub first : count_if (in_below p) samples < target

p99_loop-IsQuantile :
    (n i target : ℕ) (m : Metrics) (samples : List ℕ)
    → i + n ≡ lat_buckets
    → IsSummary m samples
    → length samples < 2 ^ 40
    → target ≤ length samples
    → count_if (in_below i) samples < target
    → IsQuantile target
        (p99_loop n i (count_if (in_below i) samples) target m.startup_buckets)
        samples
unfolding p99_loop
p99_loop-IsQuantile zero i target m samples e s few le lt =
    let at_end : i ≡ lat_buckets = omega (arith, e) in
    let short : count_if (in_below lat_buckets) samples < target =
      subst (λ k. count_if (in_below k) samples < target) at_end lt in
    absurd (omega (arith, short, count_below_all samples))
p99_loop-IsQuantile (suc n) i target m samples e s few le lt =
    let more : (count_if (in_below i) samples + get_or m.startup_buckets i 0) % ulong_mod
        ≡ count_if (in_below (i + 1)) samples =
      omega (
        arith,
        s.buckets i (omega (arith, e)),
        count_below-next,
        count_if-le (in_below (i + 1)) samples,
      ) in
    rw more (elim (Bool-cases (leb target (count_if (in_below (i + 1)) samples))) [
      | inl reached ↦ rw reached (record { reached = omega (tests, reached, next); first = lt })
      | inr short ↦ rw short (
          p99_loop-IsQuantile n (i + 1) target m samples (omega arith) s few le
            (omega (tests, short)))
    ])
  where
    next : count_if (in_below (suc i)) samples ≡ count_if (in_below (i + 1)) samples
    next = ap (λ k. count_if (in_below k) samples) (omega arith)

    count_below-next :
        count_if (in_below (i + 1)) samples
        ≡ count_if (in_below i) samples + count_if (falls_in i) samples
    count_below-next = sym next ∙ count_below-suc i samples (omega (arith, e))

-- The 99th percentile of startup times is the bucket of the sample that at least 99 in 100 samples
-- do not exceed, and fewer do not exceed any bucket before it; for at least one and fewer than 2^40
-- samples of at most ten minutes since `metrics_init`.
pub compute_p99-IsQuantile :
    (now : ℤ) (samples : List ℕ)
    → All (λ x. x ≤ max_startup_ms) samples
    → 0 < length samples
    → length samples < 2 ^ 40
    → IsQuantile
        ((length samples * 99 + 99) / 100)
        (compute_p99 (record_all samples (init now)))
        samples
unfolding compute_p99
compute_p99-IsQuantile now samples all some_sample few =
    let m = record_all samples (init now) in
    let s = record_all-IsSummary now samples all few in
    let nonzero : (m.startup_count == 0) ≡ false = ground (arith, s.count, some_sample) in
    let t : p99_target m.startup_count ≡ (length samples * 99 + 99) / 100 =
      omega (arith, s.count, few) in
    let target = (length samples * 99 + 99) / 100 in
    rw (nonzero, t)
      (subst (λ c. IsQuantile target (p99_loop lat_buckets 0 c target m.startup_buckets) samples)
        (count_below_zero samples)
        (p99_loop-IsQuantile lat_buckets 0 target m samples refl s few (omega arith)
          (omega (arith, count_below_zero samples))))
