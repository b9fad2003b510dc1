-- ===== src/EventBus/Disorder.antt =====
-- events.log is written outside the lock, so two threads may append their lines in the other order
-- than they took their numbers. What `replay_events_file` makes of such a log.
use native.Mathlib.Nat.{mod-eq_of_lt}
use mathlib.Core.List.{append_assoc}
use container_internals_simu.Prelude.{
  ℕ, ◌+◌, ◌-◌, ◌%◌, ◌<◌, ◌≤◌, ◌≡◌, ap, ◌∙◌, true, false, some, List, [], ◌∷◌, ◌++◌, All, arith,
  length, length-append, get_or, ◌==◌, ltb, inl, inr, Bool-cases, All-append_right,
  get_or-append_length, tests,
}
use container_internals_simu.EventBus.Types.{Event, zero_event}
use container_internals_simu.EventBus.Line.{IsPlain}
use container_internals_simu.EventBus.{
  Bus, ring_size, slot, u64_mod, publish, replay, replay_window,
}
use container_internals_simu.EventBus.Ring.{Holds}
use container_internals_simu.EventBus.File.{log_text}
use container_internals_simu.EventBus.Replay.{replay_eq, loaded_window, loaded_window-Holds}

replay_window-total :
    (window : List Event) (b : Bus) (history : List Event)
    → Holds window history
    → 0 < length history
    → (replay_window window (length history) b).total
      ≡ ((get_or history (length history - 1) zero_event).seq + 1) % u64_mod
unfolding replay_window
replay_window-total window b history h some_event =
    elim (Bool-cases (ltb (length history) ring_size)) [
      | inl few ↦
          rw (few, ne0)
            (ap (λ (e : Event). (e.seq + 1) % u64_mod)
              (window_last (length history) (omega arith) some_event))
      | inr many ↦
          rw (many, ne0)
            (ap (λ (e : Event). (e.seq + 1) % u64_mod)
              (window_last ring_size (omega (tests, many)) (omega arith)))
    ]
  where
    ne0 : (length history == 0) ≡ false
    ne0 = ground arith

    -- The last slot that is read holds the last event.
    window_last :
        (loaded : ℕ)
        → loaded ≤ length history
        → 0 < loaded
        → get_or window (slot (length history - loaded + loaded - 1)) zero_event
          ≡ get_or history (length history - 1) zero_event
    window_last loaded p q =
        let e : length history - loaded + loaded - 1 ≡ length history - 1 = omega arith in
        rw e (h.held (length history - 1) (omega arith) (omega arith))

-- Whatever the order of the lines, the counter goes on behind the number of the last line.
replay-total :
    (b : Bus) (history : List Event)
    → b.file ≡ some (log_text history)
    → All IsPlain history
    → length history < u64_mod
    → 0 < length history
    → (replay true b).total ≡ ((get_or history (length history - 1) zero_event).seq + 1) % u64_mod
replay-total b history f a small some_event = rw (replay_eq b history f a small) (
    replay_window-total (loaded_window history) b history (loaded_window-Holds history a small)
      some_event)

-- After a log whose last two lines were appended in the wrong order, the next event published gets
-- the number of an event that the log already has.
pub publish-replay_disorder :
    (b : Bus) (history : List Event) (early late next : Event)
    → b.file ≡ some (log_text (history ++ late ∷ early ∷ []))
    → All IsPlain (history ++ late ∷ early ∷ [])
    → length history + 2 < u64_mod
    → late.seq ≡ early.seq + 1
    → (publish next (replay true b)).1.seq ≡ late.seq
unfolding publish
publish-replay_disorder b history early late next f a small order =
    replay-total b (history ++ late ∷ early ∷ []) f a (omega (arith, count)) (omega (arith, count))
    ∙ ap (λ (n : ℕ). (n + 1) % u64_mod) (ap (λ (e : Event). e.seq) at_end)
    ∙ rw (← order) (mod-eq_of_lt (omega (arith, late_plain.seq_fits)))
  where
    count : length (history ++ late ∷ early ∷ []) ≡ length history + 2
    count = omega (arith, length-append history (late ∷ early ∷ []))

    late_plain : IsPlain late
    late_plain = (All-append_right IsPlain history (late ∷ early ∷ []) a).0

    at_end :
        get_or (history ++ late ∷ early ∷ []) (length (history ++ late ∷ early ∷ []) - 1) zero_event
        ≡ early
    at_end =
        let e : length (history ++ late ∷ early ∷ []) - 1 ≡ length (history ++ late ∷ []) =
          omega (arith, count, length-append history (late ∷ [])) in
        rw (e, ← append_assoc history (late ∷ []) (early ∷ []))
          (get_or-append_length (history ++ late ∷ []) [] early zero_event)
