-- ===== src/Scheduler/Fairness.antt =====
-- A sequence of rounds of `scheduler_thread_main` while nothing dies and nobody calls: the targets
-- take turns, and one at a time is not stopped.
use mathlib.Core.Path.{ap₂}
use container_internals_simu.Prelude.{
  ℕ, zero, suc, ◌+◌, ◌-◌, ◌≤◌, ◌<◌, ◌≡◌, refl, sym, ap, ◌∙◌, true, false, [], ◌∷◌, arith, length,
  keep, ltb, if◌then◌else◌, length-take, get_or-take,
}
use container_internals_simu.Prelude.Int.{pos}
use container_internals_simu.Scheduler.{
  Scheduler, Os, sigstop, sigcont, Round, slept, target, pid_is_alive, prune_dead, thread_round,
}
use container_internals_simu.Scheduler.Window.{window}
use container_internals_simu.Scheduler.Prune.{window-prune_dead}
use container_internals_simu.Scheduler.Invariant.{
  IsValid, prune_dead-IsValid, prune_dead-frame, prune_dead_index, prune_dead_enabled,
  thread_round-IsValid,
}
use container_internals_simu.Scheduler.Rotation.{next_index, thread_round_switches}

-- The thread runs, slicing is on, there is something to switch, and every target is alive.
pub record IsActive (os : Os) (s : Scheduler) : Type 0 where
  pub valid : IsValid s
  pub on : s.enabled ≡ true
  pub runs : s.stop_requested ≡ false
  pub many : 2 ≤ s.target_count
  pub alive : keep (pid_is_alive os.probe) (window s) ≡ window s

length-window : (s : Scheduler) → IsValid s → length (window s) ≡ s.target_count
length-window s v = length-take s.target_count s.targets (omega arith)

window-prune_alive : (os : Os) (s : Scheduler) → IsActive os s → window (prune_dead os s) ≡ window s
window-prune_alive os s a = window-prune_dead os s (omega arith) ∙ a.alive

-- With nobody dead, pruning keeps the count and the index.
prune_alive :
    (os : Os) (s : Scheduler)
    → IsActive os s
    → ((prune_dead os s).target_count ≡ s.target_count)
      × ((prune_dead os s).current_index ≡ s.current_index)
prune_alive os s a = (count, index)
  where
    count : (prune_dead os s).target_count ≡ s.target_count
    count =
        sym (length-window (prune_dead os s) (prune_dead-IsValid os s a.valid))
        ∙ ap length (window-prune_alive os s a)
        ∙ length-window s a.valid

    index : (prune_dead os s).current_index ≡ s.current_index
    index = ground (arith, count, prune_dead_index os s)

-- What a round leaves, and what it signals, in terms of the window before it.
abbrev pub Turned : Os → Scheduler → Scheduler × Round → Type 0
Turned os s r =
    (r.0.current_index ≡ next_index s.current_index s.target_count)
    × (r.0.target_count ≡ s.target_count)
    × (r.0.time_slice_ms ≡ s.time_slice_ms)
    × (window r.0 ≡ window s)
    × (r.1
        ≡ slept
            (sigstop (target (window s) s.current_index)
              ∷ sigcont (target (window s) (next_index s.current_index s.target_count))
              ∷ [])
            s.time_slice_ms)
    × IsActive os r.0

module _ (os : Os) (s : Scheduler) (a : IsActive os s) where
  round_eq :
      let p = prune_dead os s in
      thread_round os s ≡ (
        record p { current_index = next_index p.current_index p.target_count },
        slept
            (sigstop (target p.targets p.current_index)
              ∷ sigcont (target p.targets (next_index p.current_index p.target_count))
              ∷ [])
            s.time_slice_ms,
      )
  round_eq =
      (thread_round_switches os s a.valid a.runs a.on (omega (arith, (prune_alive os s a).0))).0

  -- An index of the pruned window names what it named before.
  target-prune_alive :
      (i : ℕ) → i < s.target_count → target (prune_dead os s).targets i ≡ target (window s) i
  target-prune_alive i h =
      let p = prune_dead os s in
      sym (get_or-take p.target_count i p.targets (pos 0) (omega (arith, (prune_alive os s a).0)))
      ∙ ap (λ w. target w i) (window-prune_alive os s a)

  index_lt : s.current_index < s.target_count
  index_lt = ground arith

  next_lt : next_index s.current_index s.target_count < s.target_count
  next_lt = ground (arith, index_lt)

  signals_eq :
      (thread_round os s).1
      ≡ slept
          (sigstop (target (window s) s.current_index)
            ∷ sigcont (target (window s) (next_index s.current_index s.target_count))
            ∷ [])
          s.time_slice_ms
  signals_eq = rw (
    round_eq,
    (prune_alive os s a).0,
    (prune_alive os s a).1,
    target-prune_alive s.current_index index_lt,
    target-prune_alive (next_index s.current_index s.target_count) next_lt,
  )

  still-IsActive : IsActive os (thread_round os s).0
  still-IsActive = record {
    valid = thread_round-IsValid os s a.valid;
    on = rw round_eq (prune_dead_enabled os s ∙ a.on);
    runs = rw round_eq ((prune_dead-frame os s).3 ∙ a.runs);
    many = rw round_eq (omega (arith, (prune_alive os s a).0));
    alive = rw (round_eq, window-prune_alive os s a) a.alive;
  }

  -- A round keeps the window and moves the index on by one, round the end.
  pub thread_round_turns : Turned os s (thread_round os s)
  thread_round_turns = (
    rw (round_eq, (prune_alive os s a).0, (prune_alive os s a).1),
    rw round_eq (prune_alive os s a).0,
    rw round_eq (prune_dead-frame os s).1,
    rw round_eq (window-prune_alive os s a),
    signals_eq,
    still-IsActive,
  )

-- The state after `k` rounds.
unfoldable pub iterate : ℕ → Os → Scheduler → Scheduler
iterate zero os s = s
iterate (suc k) os s = iterate k os (thread_round os s).0

-- The index after `k` rounds.
abbrev turn : ℕ → ℕ → ℕ → ℕ
turn zero index count = index
turn (suc k) index count = turn k (next_index index count) count

turn_reaches :
    (k index count : ℕ)
    → index < count
    → k < count
    → turn k index count ≡ (if ltb (index + k) count then index + k else index + k - count)
turn_reaches zero index count h q = ground arith
turn_reaches (suc k) index count h q = ground (arith, turn_reaches k (next_index index count) count)

iterate_turns :
    (k : ℕ) (os : Os) (s : Scheduler)
    → IsActive os s
    → let t = iterate k os s in
      (t.current_index ≡ turn k s.current_index s.target_count)
      × (t.target_count ≡ s.target_count)
      × (t.time_slice_ms ≡ s.time_slice_ms)
      × (window t ≡ window s)
      × IsActive os t
unfolding iterate
iterate_turns zero os s a = (refl, refl, refl, refl, a)
iterate_turns (suc k) os s a =
    let (i, c, t, w, _, b) = thread_round_turns os s a in
    let (i', c', t', w', b') = iterate_turns k os (thread_round os s).0 b in
    (i' ∙ ap₂ (turn k) i c, c' ∙ c, t' ∙ t, w' ∙ w, b')

-- How many rounds pass before the one that resumes index `j`.
abbrev wait : ℕ → ℕ → ℕ → ℕ
wait index j count = if ltb index j then j - index - 1 else j + count - index - 1

next_index-wait :
    (index j count : ℕ)
    → index < count
    → j < count
    → next_index (turn (wait index j count) index count) count ≡ j
next_index-wait index j count h q = ground (arith, turn_reaches (wait index j count) index count)

-- Nobody starves: while the thread is active and no target dies, each target is resumed, for a
-- whole time slice, in one of the next target_count rounds, and that round stops one target of
-- the window, whose turn it was.
pub thread_resumes_all :
    (os : Os) (s : Scheduler) (j : ℕ)
    → IsActive os s
    → j < s.target_count
    → (k : ℕ) × (previous : ℕ) × (k < s.target_count)
      × (previous < s.target_count)
      × ((thread_round os (iterate k os s)).1
          ≡ slept
              (sigstop (target (window s) previous) ∷ sigcont (target (window s) j) ∷ [])
              s.time_slice_ms)
thread_resumes_all os s j a h =
    let k = wait s.current_index j s.target_count in
    let t = iterate k os s in
    let (index, count, slice, win, b) = iterate_turns k os s a in
    let next : next_index t.current_index t.target_count ≡ j =
      ap₂ next_index index count
      ∙ next_index-wait s.current_index j s.target_count (index_lt os s a) h in
    (
      k,
      t.current_index,
      ground (arith, index_lt os s a),
      omega (arith, index_lt os t b),
      signals_eq os t b ∙ rw (next, win, slice),
    )
