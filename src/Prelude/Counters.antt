-- ===== src/Prelude/Counters.antt =====
-- Counters that are moved past the numbers that a file has, as `next_sequence` and
-- `g_next_ip_host`.
use container_internals_simu.Prelude.{
  ℕ, ◌+◌, ◌-◌, ◌^◌, ◌<◌, ◌≡◌, Option, none, some, ltb, if◌then◌else◌,
}
use container_internals_simu.Prelude.Int.{ℤ, pos, negsuc}

-- A number that was read, if there is one, is less than 2147483647, the greatest `int`.
abbrev pub IsBelowMax : Option ℤ → Type 0
IsBelowMax number = (n : ℕ) → number ≡ some (pos n) → n < 2 ^ 31 - 1

-- The greater one of the counter and the number behind the one that was read.
abbrev pub past_number : Option ℤ → ℕ → ℕ
past_number (some (pos n)) next = if ltb next (n + 1) then n + 1 else next
past_number (some (negsuc n)) next = next
past_number none next = next
