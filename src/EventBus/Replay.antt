-- ===== src/EventBus/Replay.antt =====
-- `replay_events_file`: the window of the last events, and the ring filled from it.
use native.Mathlib.Nat.{mod-eq_of_lt}
use native.Mathlib.Decide.{ℕ_discrete}
use mathlib.Core.List.{append_assoc, append-nil}
use container_internals_simu.Prelude.{
  ℕ, zero, suc, ◌+◌, ◌-◌, ◌%◌, ◌≤◌, ◌<◌, ◌≡◌, ◌⊎◌, inl, inr, refl, ap, subst, ◌∙◌, true, false,
  some, List, [], ◌∷◌, ◌++◌, map, All, arith, tests, length, get_or, set, ltb, ◌==◌, length-append,
  length-set, get_or-set_self, get_or-set_ne, Bool-cases,
}
use container_internals_simu.EventBus.Types.{Event, zero_event}
use container_internals_simu.EventBus.Line.{IsPlain, format_line, parse-format_line}
use container_internals_simu.EventBus.{
  Bus, ring_size, slot, u64_mod, empty_ring, load_window, fill_ring, replay_window, replay_text,
  replay,
}
use container_internals_simu.EventBus.Ring.{Holds, Recalls, empty_ring-Holds, set-Holds, slot-ne}
use container_internals_simu.EventBus.File.{log_text, read_lines-log_text}

-- The numbers of the events are their places in the history.
abbrev pub Numbered : List Event → Type 0
Numbered history = (i : ℕ) → i < length history → (get_or history i zero_event).seq ≡ i

-- The first loop puts the events, in order, into the window.
load_window-Holds :
    (es done : List Event) (window : List Event)
    → All IsPlain es
    → Holds window done
    → length done + length es < u64_mod
    → let r = load_window (map format_line es) window (length done) in
      Holds r.0 (done ++ es) × (r.1 ≡ length (done ++ es))
unfolding load_window
load_window-Holds [] done window a h small = rw (append-nil done) (h, refl)
load_window-Holds (e ∷ es) done window a h small =
    let next : (length done + 1) % u64_mod ≡ length (done ++ e ∷ []) =
      mod-eq_of_lt (omega arith) ∙ omega (arith, length-append done (e ∷ [])) in
    rw (parse-format_line e a.0, load_window, next, ← append_assoc done (e ∷ []) es)
      (load_window-Holds es (done ++ e ∷ []) (set window (slot (length done)) e) a.1
        (set-Holds window done e h) (omega (arith, length-append done (e ∷ []))))

-- The ring while it is filled: the events from `lo` up to `hi` are in their slots.
record Filled (ring history : List Event) (lo hi : ℕ) : Type 0 where
  size : length ring ≡ ring_size
  held : (j : ℕ) → lo ≤ j → j < hi → get_or ring (slot j) zero_event ≡ get_or history j zero_event
  blank : (j : ℕ) → length history ≤ j → j < ring_size → get_or ring j zero_event ≡ zero_event

set-Filled :
    (ring history : List Event) (lo i : ℕ)
    → lo ≤ i
    → i < length history
    → length history ≤ lo + ring_size
    → Filled ring history lo i
    → Filled (set ring (slot i) (get_or history i zero_event)) history lo (i + 1)
set-Filled ring history lo i p q near f = record {
  size = length-set ring (slot i) (get_or history i zero_event) ∙ f.size;
  held = λ j le lt. elim (ℕ_discrete j i) [
    | yes same ↦ rw same (
        get_or-set_self ring (slot i) (get_or history i zero_event) zero_event
          (omega (arith, f.size)))
    | no other ↦
        get_or-set_ne ring (slot i) (slot j) (get_or history i zero_event) zero_event
          (slot-ne j i (omega arith) (omega arith))
        ∙ f.held j le (omega arith)
  ];
  blank = λ j le lt.
      get_or-set_ne ring (slot i) j (get_or history i zero_event) zero_event (λ same. omega arith)
      ∙ f.blank j le lt;
}

fill_ring-Filled :
    (n i lo : ℕ) (window ring history : List Event)
    → Holds window history
    → Numbered history
    → lo ≤ i
    → i + n ≡ length history
    → length history ≤ lo + ring_size
    → Filled ring history lo i
    → Filled (fill_ring n i window ring) history lo (length history)
unfolding fill_ring
fill_ring-Filled zero i lo window ring history h num p e near f =
    subst (Filled ring history lo) (omega arith) f
fill_ring-Filled (suc n) i lo window ring history h num p e near f =
    rw (h.held i (omega arith) (omega arith), num i (omega arith))
      (fill_ring-Filled n (i + 1) lo window (set ring (slot i) (get_or history i zero_event))
        history h num (omega arith) (omega arith) near
        (set-Filled ring history lo i p (omega arith) near f))

Filled-Holds :
    (ring history : List Event) (lo : ℕ)
    → lo ≤ length history - ring_size
    → Filled ring history lo (length history)
    → Holds ring history
Filled-Holds ring history lo p f = record {
  size = f.size;
  held = λ i lt near. f.held i (omega arith) lt;
  blank = f.blank;
}

module _ (window : List Event) (b : Bus) (history : List Event) (h : Holds window history)
    (num : Numbered history) (small : length history < u64_mod) (blank : Holds b.ring []) where
  -- The second loop over all that was loaded.
  fill_ring-Holds :
      (loaded : ℕ)
      → loaded ≤ length history
      → loaded ≤ ring_size
      → (loaded ≡ ring_size) ⊎ (loaded ≡ length history)
      → Holds (fill_ring loaded (length history - loaded) window b.ring) history
  fill_ring-Holds loaded p q all =
      let start : ℕ = length history - loaded in
      Filled-Holds (fill_ring loaded start window b.ring) history start (omega arith) (
        fill_ring-Filled loaded start start window b.ring history h num (omega arith) (omega arith)
          (omega arith)
          (record {
            size = blank.size;
            held = λ j le lt. absurd (omega arith);
            blank = λ j le lt. blank.blank j (omega arith) lt;
          }))

  -- The counter goes one past the number of the last event.
  last-seq :
      (loaded : ℕ)
      → loaded ≤ length history
      → 0 < loaded
      → ((get_or window (slot (length history - loaded + loaded - 1)) zero_event).seq + 1) % u64_mod
        ≡ length history
  last-seq loaded p q =
      let e : length history - loaded + loaded - 1 ≡ length history - 1 = omega arith in
      rw
        (
          e,
          h.held (length history - 1) (omega arith) (omega arith),
          num (length history - 1) (omega arith),
        )
        (let e' : length history - 1 + 1 ≡ length history = omega arith in
          rw e' (mod-eq_of_lt small))

  replay_window-Recalls :
      0 < length history → Recalls (replay_window window (length history) b) history
  unfolding replay_window
  replay_window-Recalls some_event = elim (Bool-cases (ltb (length history) ring_size)) [
    | inl few ↦
        rw (few, ne0)
          (record {
            ring = fill_ring-Holds (length history) (omega arith) (omega (tests, few)) (inr refl);
            count = last-seq (length history) (omega arith) some_event;
          })
    | inr many ↦
        rw (many, ne0)
          (record {
            ring = fill_ring-Holds ring_size (omega (tests, many)) (omega arith) (inl refl);
            count = last-seq ring_size (omega (tests, many)) (omega arith);
          })
  ]
    where
      ne0 : (length history == 0) ≡ false
      ne0 = ground arith

-- The first loop over the whole file.
pub loaded_window : List Event → List Event
loaded_window history = (load_window (map format_line history) empty_ring 0).0

pub replay_eq :
    (b : Bus) (history : List Event)
    → b.file ≡ some (log_text history)
    → All IsPlain history
    → length history < u64_mod
    → replay true b ≡ replay_window (loaded_window history) (length history) b
unfolding replay loaded_window
replay_eq b history f a small =
    ap (λ t. replay_text true t b) f
    ∙ ap
        (λ lines.
          replay_window (load_window lines empty_ring 0).0 (load_window lines empty_ring 0).1 b)
        (read_lines-log_text (length (log_text history)) history a (omega arith))
    ∙ ap (λ n. replay_window (loaded_window history) n b)
        (load_window-Holds history [] empty_ring a empty_ring-Holds (omega arith)).1

pub loaded_window-Holds :
    (history : List Event)
    → All IsPlain history
    → length history < u64_mod
    → Holds (loaded_window history) history
unfolding loaded_window
loaded_window-Holds history a small =
    (load_window-Holds history [] empty_ring a empty_ring-Holds (omega arith)).0

pub replay-Recalls :
    (b : Bus) (history : List Event)
    → b.file ≡ some (log_text history)
    → All IsPlain history
    → Numbered history
    → length history < u64_mod
    → Holds b.ring []
    → b.total ≡ 0
    → Recalls (replay true b) history
unfolding replay_window
replay-Recalls b [] f a num small blank zeroed =
    rw (replay_eq b [] f a small) (record { ring = blank; count = zeroed })
replay-Recalls b (e ∷ es) f a num small blank zeroed = rw (replay_eq b (e ∷ es) f a small) (
    replay_window-Recalls (loaded_window (e ∷ es)) b (e ∷ es) (loaded_window-Holds (e ∷ es) a small)
      num small blank (omega arith))
