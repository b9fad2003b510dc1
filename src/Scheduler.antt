-- ===== src/Scheduler.antt =====
-- src/scheduler.c and src/scheduler.h: round-robin time slicing of container processes by
-- SIGSTOP and SIGCONT. Each critical section of `g_state.mutex` is one function of the state; the
-- system calls (`kill`, `realloc`, `pthread_create`) are parameters.

pub mod Capacity
pub mod Window
pub mod Prune
pub mod Targets
pub mod Invariant
pub mod Rotation
pub mod Idle
pub mod Fairness
mod Tests
use container_internals_simu.Prelude.{
  ℕ, zero, suc, ◌+◌, ◌-◌, ◌*◌, ◌%◌, ◌^◌, Bool, true, false, not, ◌||◌, Option, none, some, List, [],
  ◌∷◌, ◌++◌, length, get_or, set, replicate, ltb, leb, ◌==◌, if◌then◌else◌,
}
use container_internals_simu.Prelude.Int.{ℤ, pos, eq_ℤ, positive}

-- How `kill(pid, 0)` ends.
pub data Probe : Type 0 where
  delivered eperm esrch : Probe

-- What the operating system decides: the result of `kill(pid, 0)`, whether `realloc` of so many
-- bytes succeeds, and what stands in the memory that `realloc` adds.
pub record Os : Type 0 where
  pub probe : ℤ → Probe
  pub can_realloc : ℕ → Bool
  pub garbage : ℤ

-- `SchedulerState`, less the mutex and the thread's handle. `targets` is the allocated array.
pub record Scheduler : Type 0 where
  pub enabled : Bool
  pub time_slice_ms : ℕ
  pub targets : List ℤ
  pub target_count : ℕ
  pub target_capacity : ℕ
  pub current_index : ℕ
  pub thread_started : Bool
  pub stop_requested : Bool

unfoldable pub init : Scheduler
init = record {
  enabled = false;
  time_slice_ms = 200;
  targets = [];
  target_count = 0;
  target_capacity = 0;
  current_index = 0;
  thread_started = false;
  stop_requested = false;
}

-- A call's result: 0, or -1 with the `errno` that it sets (`not_found` sets none).
pub data Status : Type 0 where
  ok einval eagain enomem not_found : Status

pub data Signal : Type 0 where
  sigstop sigcont : ℤ → Signal

abbrev pub size_mod : ℕ
size_mod = 2 ^ 64

abbrev pub pid_size : ℕ
pid_size = 4

-- `targets[i]`
abbrev pub target : List ℤ → ℕ → ℤ
target ts i = get_or ts i (pos 0)

unfoldable pub pid_is_alive : (ℤ → Probe) → ℤ → Bool
pid_is_alive probe pid =
    if positive pid then elim (probe pid) [ Probe.esrch ↦ false | _ ↦ true ] else false

-- The loop `while (next_capacity < desired) next_capacity *= 2;`
unfoldable pub grow : ℕ → ℕ → ℕ → ℕ
grow zero capacity desired = capacity
grow (suc fuel) capacity desired =
    let rest = grow fuel ((capacity * 2) % size_mod) desired in
    if ltb capacity desired then rest else capacity

abbrev pub grow_fuel : ℕ
grow_fuel = 64

abbrev pub next_capacity : ℕ → ℕ → ℕ
next_capacity capacity desired = grow grow_fuel (if capacity == 0 then 8 else capacity) desired

unfoldable pub ensure_capacity : Os → ℕ → Scheduler → Scheduler × Bool
ensure_capacity os desired s =
    if leb desired s.target_capacity
    then (s, true)
    else let next = next_capacity s.target_capacity desired in
      if os.can_realloc ((next * pid_size) % size_mod)
      then (
        record s {
          targets = s.targets ++ replicate (next - length s.targets) os.garbage;
          target_capacity = next;
        },
        true,
      )
      else (s, false)

-- The loop of `prune_dead_locked`: `n` rounds are left, at index `i`.
unfoldable pub prune_loop : (ℤ → Bool) → ℕ → ℕ → ℕ → List ℤ → List ℤ × ℕ
prune_loop alive zero i write_index ts = (ts, write_index)
prune_loop alive (suc n) i write_index ts =
    let here = alive (target ts i) in
    prune_loop alive n (i + 1) (if here then write_index + 1 else write_index)
      (if here then set ts write_index (target ts i) else ts)

-- `if (current_index >= target_count) current_index = 0;`
abbrev pub clamp_index : ℕ → ℕ → ℕ
clamp_index index count = if leb count index then 0 else index

unfoldable pub prune_dead : Os → Scheduler → Scheduler
prune_dead os s =
    let (ts, count) = prune_loop (pid_is_alive os.probe) s.target_count 0 0 s.targets in
    record s {
      targets = ts;
      target_count = count;
      current_index = clamp_index s.current_index count;
    }

-- SIGCONT to each positive pid among `n` entries from index `i`.
unfoldable pub cont_all : ℕ → ℕ → List ℤ → List Signal
cont_all zero i ts = []
cont_all (suc n) i ts =
    let rest = cont_all n (i + 1) ts in
    if positive (target ts i) then sigcont (target ts i) ∷ rest else rest

abbrev pub idle_sleep_ms : ℕ
idle_sleep_ms = 50

-- What one round of the thread's loop does besides changing the state.
pub data Round : Type 0 where
  exited : Round
  slept : List Signal → ℕ → Round

abbrev signal_if : Bool → Signal → List Signal
signal_if b sig = if b then sig ∷ [] else []

-- One round of `scheduler_thread_main`.
unfoldable pub thread_round : Os → Scheduler → Scheduler × Round
thread_round os s =
    if s.stop_requested
    then (s, exited)
    else let p = prune_dead os s in
      let count = p.target_count in
      if not s.enabled || ltb count 2
      then (p, slept (cont_all count 0 p.targets) idle_sleep_ms)
      else let current = target p.targets (p.current_index % count) in
        let index = (p.current_index + 1) % count in
        let next = target p.targets (index % count) in
        (
          record p { current_index = index },
          slept
              (signal_if (positive current) (sigstop current)
                ++ signal_if (positive next) (sigcont next))
              s.time_slice_ms,
        )

-- `scheduler_start`; the configuration is `none` for NULL, and `created` says whether
-- `pthread_create` succeeds.
unfoldable pub start : Bool → Option ℕ → Scheduler → Scheduler × Status
start created none s = (s, einval)
start created (some slice) s =
    if slice == 0
    then (s, einval)
    else let t = record s { time_slice_ms = slice } in
      if s.thread_started
      then (t, ok)
      else if created
      then (record t { stop_requested = false; thread_started = true }, ok)
      else (record t { stop_requested = false }, eagain)

-- `scheduler_stop` up to `pthread_join`, and after it. Other calls and the thread's last rounds
-- run between the two; the second runs only if the first asked for the join.
unfoldable pub request_stop : Scheduler → Scheduler × Bool
request_stop s = if s.thread_started then (record s { stop_requested = true }, true) else (s, false)

unfoldable pub finish_stop : Scheduler → Scheduler
finish_stop s = record s { thread_started = false; stop_requested = false }

unfoldable pub set_enabled : Bool → Scheduler → Scheduler
set_enabled enabled s = record s { enabled = enabled }

unfoldable pub set_time_slice_ms : ℕ → Scheduler → Scheduler × Status
set_time_slice_ms slice s =
    if slice == 0 then (s, einval) else (record s { time_slice_ms = slice }, ok)

-- The first index of `pid` among `n` entries from index `i`.
unfoldable pub find_target : ℕ → ℕ → List ℤ → ℤ → Option ℕ
find_target zero i ts pid = none
find_target (suc n) i ts pid =
    if eq_ℤ (target ts i) pid then some i else find_target n (i + 1) ts pid

append_target : ℤ → Scheduler → Bool → Scheduler × Status
append_target pid s false = (s, enomem)
append_target pid s true =
    (record s { targets = set s.targets s.target_count pid; target_count = s.target_count + 1 }, ok)

unfoldable pub add_target : Os → ℤ → Scheduler → Scheduler × Status
unfolding append_target
add_target os pid s = elim (find_target s.target_count 0 s.targets pid) [
  | some _ ↦ (s, ok)
  | none ↦ let (t, grown) = ensure_capacity os (s.target_count + 1) s in append_target pid t grown
]

remove_at : Option ℕ → Scheduler → Scheduler
remove_at none s = s
remove_at (some i) s = record s {
  targets = set s.targets i (target s.targets (s.target_count - 1));
  target_count = s.target_count - 1;
}

abbrev reset_index : Scheduler → Scheduler
reset_index s = record s { current_index = clamp_index s.current_index s.target_count }

unfoldable pub remove_target : ℤ → Scheduler → Scheduler × Status
unfolding remove_at
remove_target pid s =
    let found = find_target s.target_count 0 s.targets pid in
    (reset_index (remove_at found s), elim found [ some _ ↦ ok | none ↦ not_found ])

unfoldable pub clear_targets : Scheduler → Scheduler
clear_targets s = record s { target_count = 0; current_index = 0 }

abbrev pub is_enabled : Scheduler → Bool
is_enabled s = s.enabled

abbrev pub get_time_slice_ms : Scheduler → ℕ
get_time_slice_ms s = s.time_slice_ms
