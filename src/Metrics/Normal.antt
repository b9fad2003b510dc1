-- ===== src/Metrics/Normal.antt =====
-- `normalize_startup_metrics_locked` leaves what was recorded.
use native.Mathlib.Nat.{div-le_of_le-mul}
use container_internals_simu.Prelude.{
  ℕ, ◌/◌, ◌^◌, ◌≤◌, ◌<◌, ◌≡◌, refl, false, List, [], ◌∷◌, All, arith, length, ◌==◌,
}
use container_internals_simu.Prelude.Int.{ℤ}
use container_internals_simu.Metrics.{max_startup_ms, init, is_damaged, normalize_startup_metrics}
use container_internals_simu.Metrics.Startup.{
  record_all, total, greatest, least, record_all-IsSummary, total-le,
}

least-le : (x : ℕ) (xs : List ℕ) → least (x ∷ xs) ≤ x
least-le x xs = ground arith

greatest-ge : (x : ℕ) (xs : List ℕ) → x ≤ greatest (x ∷ xs)
greatest-ge x xs = ground arith

greatest-le-total : (xs : List ℕ) → greatest xs ≤ total xs
greatest-le-total [] = omega arith
greatest-le-total (x ∷ xs) = ground (arith, greatest-le-total xs)

-- Normalising after fewer than 2^40 samples of at most ten minutes since `metrics_init` changes
-- nothing: what was recorded is never taken for damaged.
pub normalize_startup_metrics-record_all :
    (now : ℤ) (samples : List ℕ)
    → All (λ x. x ≤ max_startup_ms) samples
    → length samples < 2 ^ 40
    → normalize_startup_metrics (record_all samples (init now)) ≡ record_all samples (init now)
unfolding normalize_startup_metrics init
normalize_startup_metrics-record_all now [] all few = refl
normalize_startup_metrics-record_all now (x ∷ xs) all few =
    let m = record_all (x ∷ xs) (init now) in
    let s = record_all-IsSummary now (x ∷ xs) all few in
    let counted : (m.startup_count == 0) ≡ false = ground (arith, s.count) in
    let mean : m.startup_total_ms / m.startup_count ≤ max_startup_ms =
      rw (s.count, s.sum) (div-le_of_le-mul (length (x ∷ xs)) (total-le (x ∷ xs) all)) in
    let sound : is_damaged m ≡ false = ground (
      arith,
      s.count,
      s.sum,
      s.max,
      s.min,
      mean,
      all.0,
      least-le x xs,
      greatest-ge x xs,
      greatest-le-total (x ∷ xs),
    ) in
    rw (counted, sound) refl
