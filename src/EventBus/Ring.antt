-- ===== src/EventBus/Ring.antt =====
-- The ring against the history of all events: what the slots hold.

use native.Mathlib.Nat.{mod-eq_of_lt}
use native.Mathlib.Numerals.{add-one}
use native.Mathlib.Decide.{ℕ_discrete}
use container_internals_simu.Prelude.Text.{take-eq_of_le}
use container_internals_simu.Prelude.{
  ℕ, zero, suc, ◌+◌, ◌-◌, ◌^◌, ◌≤◌, ◌<◌, ◌≡◌, ◌≢◌, inl, inr, refl, sym, ap, ◌∙◌, Option, List, [],
  ◌∷◌, ◌++◌, arith, length, get_or, set, take, drop, replicate, ltb, leb, ◌==◌, length-append,
  length-set, length-replicate, get_or-set_self, get_or-set_ne, get_or-append_left,
  get_or-append_length, drop-eq-cons, drop-drop, drop-length-le, tests, leb→le, length-drop,
  Bool-cases, if◌then◌else◌,
}
use container_internals_simu.Prelude.Int.{ℤ, pos, negsuc}
use container_internals_simu.EventBus.Types.{Event, EventType, zero_event}
use container_internals_simu.EventBus.Filter.{of_type, keep-of_type}
use container_internals_simu.EventBus.{
  Bus, ring_size, slot, u64_mod, empty_ring, publish, read_ring, drain_from, wanted, no_events,
  listed, print_filtered,
}

-- The ring holds the last 256 events of the history at the slots of their numbers, and zeros in
-- the slots that were never written.
pub record Holds (ring : List Event) (history : List Event) : Type 0 where
  pub size : length ring ≡ ring_size
  pub held :
      (i : ℕ)
      → i < length history
      → length history ≤ i + ring_size
      → get_or ring (slot i) zero_event ≡ get_or history i zero_event
  pub blank : (j : ℕ) → length history ≤ j → j < ring_size → get_or ring j zero_event ≡ zero_event

get_or-replicate : (n j : ℕ) (e : Event) → get_or (replicate n e) j e ≡ e
get_or-replicate zero j e = refl
get_or-replicate (suc n) zero e = refl
get_or-replicate (suc n) (suc j) e = get_or-replicate n j e

pub empty_ring-Holds : Holds empty_ring []
empty_ring-Holds = record {
  size = length-replicate ring_size zero_event;
  held = λ i h _. absurd (omega arith);
  blank = λ j _ _. get_or-replicate ring_size j zero_event;
}

-- Two numbers less than 256 apart have different slots.
pub slot-ne : (i n : ℕ) → i < n → n < i + ring_size → slot n ≢ slot i
slot-ne i n p q e = omega arith

module _ (ring history : List Event) (e : Event) (h : Holds ring history) where
  set-held :
      (i : ℕ)
      → i < length (history ++ e ∷ [])
      → length (history ++ e ∷ []) ≤ i + ring_size
      → get_or (set ring (slot (length history)) e) (slot i) zero_event
        ≡ get_or (history ++ e ∷ []) i zero_event
  set-held i lt near = elim (ℕ_discrete i (length history)) [
    | yes here ↦ rw (here) (
        get_or-set_self ring (slot (length history)) e zero_event (omega (arith, h.size))
        ∙ sym (get_or-append_length history [] e zero_event))
    | no there ↦
        let old : i < length history = omega (arith, length-append history (e ∷ [])) in
        let close : length history < i + ring_size =
          omega (arith, length-append history (e ∷ [])) in
        get_or-set_ne ring (slot (length history)) (slot i) e zero_event
          (slot-ne i (length history) old close)
        ∙ h.held i old (omega arith)
        ∙ sym (get_or-append_left history (e ∷ []) i zero_event old)
  ]

  -- Writing an event at the slot of the next number adds it to the history.
  pub set-Holds : Holds (set ring (slot (length history)) e) (history ++ e ∷ [])
  set-Holds = record {
    size = length-set ring (slot (length history)) e ∙ h.size;
    held = set-held;
    blank = λ j le lt.
        get_or-set_ne ring (slot (length history)) j e zero_event
          (λ same. omega (arith, length-append history (e ∷ [])))
        ∙ h.blank j (omega (arith, length-append history (e ∷ []))) lt;
  }

-- Reading slots gives the events of those numbers, as long as they are among the last 256.
pub read_ring-history :
    (n i : ℕ) (ring history : List Event)
    → Holds ring history
    → i + n ≤ length history
    → length history ≤ i + ring_size
    → read_ring n i ring ≡ take n (drop i history)
unfolding read_ring
read_ring-history zero i ring history h fits near = refl
read_ring-history (suc n) i ring history h fits near =
    rw (drop-eq-cons i history zero_event (omega arith), h.held i (omega arith) near, ← add-one i)
      (ap (λ r. get_or history i zero_event ∷ r)
        (read_ring-history n (i + 1) ring history h (omega arith) (omega arith)))

-- A bus whose ring and counter tell the history of the events since the log began.
pub record Recalls (b : Bus) (history : List Event) : Type 0 where
  pub ring : Holds b.ring history
  pub count : b.total ≡ length history

-- The event that `publish` stores, with its number.
abbrev pub stamped : Event → List Event → Event
stamped e history = record e { seq = length history }

-- Publishing adds the event to the history, under the next number.
pub publish-Recalls :
    (e : Event) (b : Bus) (history : List Event)
    → Recalls b history
    → length history < u64_mod - 1
    → Recalls (publish e b).0 (history ++ stamped e history ∷ [])
      × ((publish e b).1 ≡ stamped e history)
unfolding publish
publish-Recalls e b history r small = (
  record {
    ring = rw r.count (set-Holds b.ring history (stamped e history) r.ring);
    count = rw r.count (
        mod-eq_of_lt (omega arith) ∙ omega (arith, length-append history (stamped e history ∷ [])));
  },
  rw r.count,
)

-- The last `n` elements.
abbrev pub last {ℓ} : {A : Type ℓ} → ℕ → List A → List A
last n xs = drop (length xs - n) xs

-- Reading from `start` to the end of the history.
pub read_ring-rest :
    (start : ℕ) (ring history : List Event)
    → Holds ring history
    → start ≤ length history
    → length history ≤ start + ring_size
    → read_ring (length history - start) start ring ≡ drop start history
read_ring-rest start ring history h le near =
    read_ring-history (length history - start) start ring history h (omega arith) near
    ∙ take-eq_of_le (length history - start) (drop start history)
        (omega (arith, length-drop start history))

last-drop :
    (k from_seq : ℕ) (history : List Event)
    → last k (drop from_seq history) ≡ drop (from_seq + (length history - from_seq - k)) history
last-drop k from_seq history =
    rw (length-drop from_seq history) (drop-drop (length history - from_seq - k) from_seq history)

-- While no other thread publishes between its two locks, draining from a number gives every event
-- from that number on, oldest first, but of a longer backlog only the last 256, and the number to
-- go on from is the count of all events.
pub drain_from-history :
    (from_seq : ℕ) (b : Bus) (history : List Event)
    → Recalls b history
    → drain_from from_seq b b ≡ (last ring_size (drop from_seq history), length history)
unfolding drain_from
drain_from-history from_seq b history r =
    rw (r.count, last-drop ring_size from_seq history)
      (elim (Bool-cases (leb (length history) from_seq)) [
        | inl done ↦ rw done (
            ap (λ xs. (xs, length history))
              (sym (
                drop-length-le (from_seq + (length history - from_seq - ring_size)) history
                  (omega (arith, leb→le (length history) from_seq done)))))
        | inr more ↦ rw more (elim (Bool-cases (ltb ring_size (length history - from_seq))) [
          | inl long ↦ rw long (
              ap (λ xs. (xs, length history))
                (read_ring-rest (length history - ring_size) b.ring history r.ring (omega arith)
                    (omega arith)
                  ∙ ap (λ k. drop k history) (omega (tests, long))))
          | inr short ↦ rw short (
              ap (λ xs. (xs, length history))
                (read_ring-rest from_seq b.ring history r.ring (omega (tests, more))
                    (omega (tests, short))
                  ∙ ap (λ k. drop k history) (omega (tests, short))))
        ])
      ])

-- The last events of the history that are shown: up to `n`, if it is positive, and up to 256.
abbrev pub recent : ℤ → List Event → List Event
recent (pos zero) history = last 256 history
recent (pos (suc n)) history = last 256 (last (suc n) history)
recent (negsuc n) history = last 256 history

last-wanted :
    (n : ℤ) (history : List Event) → last (wanted n (length history)) history ≡ recent n history
last-wanted (pos zero) history = ground arith
last-wanted (pos (suc n)) history =
    let count = length history in
    let from = count - suc n in
    let same : count - wanted (pos (suc n)) count ≡ from + (count - from - 256) = ground arith in
    ap (λ k. drop k history) same ∙ sym (last-drop 256 from history)
last-wanted (negsuc n) history = ground arith

-- While no other thread publishes between its two locks, and fewer than 2^32 events were published,
-- printing shows, oldest first, the events of the type asked for, or all if none is, among the last
-- 256 and, if `n` is positive, the last `n` of the history; or it says that there are none yet, if
-- the history is empty.
pub print_filtered-history :
    (n : ℤ) (filter : Option EventType) (b : Bus) (history : List Event)
    → Recalls b history
    → length history < 2 ^ 32
    → print_filtered n filter b b ≡ (
        if length history == 0
        then no_events
        else listed filter (of_type filter (recent n history)))
unfolding print_filtered
print_filtered-history n filter b history r small = ground (
  arith,
  r.count,
  mod-eq_of_lt small,
  read_ring-rest (length history - wanted n (length history)) b.ring history r.ring,
  keep-of_type filter (recent n history),
  last-wanted n history,
)
