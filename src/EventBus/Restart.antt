-- ===== src/EventBus/Restart.antt =====
-- `eventbus_init` after `eventbus_close`: the replay of events.log restores the bus.
use native.Mathlib.Decide.{dec_lt, ℕ_discrete}
use container_internals_simu.Prelude.{
  ℕ, ◌-◌, ◌%◌, ◌<◌, ◌≡◌, refl, sym, ap, subst, ◌∙◌, true, false, Option, none, some, List, [], ◌∷◌,
  ◌++◌, All, arith, length, list_ext, get_or, length-append, get_or-append_left,
  get_or-append_length, All-append,
}
use container_internals_simu.Prelude.Int.{ℤ}
use container_internals_simu.Prelude.Text.{Text}
use container_internals_simu.EventBus.Types.{Event, EventType, zero_event}
use container_internals_simu.EventBus.Line.{IsPlain, format_line}
use container_internals_simu.EventBus.{
  Bus, ring_size, slot, u64_mod, empty_ring, publish, persist, new_event, emit, append_file,
  created, replay_text, replay, init, close,
}
use container_internals_simu.EventBus.Ring.{
  Holds, Recalls, stamped, empty_ring-Holds, publish-Recalls,
}
use container_internals_simu.EventBus.File.{log_text, log_text-append}
use container_internals_simu.EventBus.Replay.{Numbered, replay-Recalls}

-- Two rings that hold one history are equal.
Holds-unique : (xs ys history : List Event) → Holds xs history → Holds ys history → xs ≡ ys
Holds-unique xs ys history h k = list_ext xs ys zero_event (h.size ∙ sym k.size) same
  where
    same : (j : ℕ) → j < length xs → get_or xs j zero_event ≡ get_or ys j zero_event
    same j lt = elim (dec_lt j (length history)) [
      | no never ↦
          h.blank j (omega arith) (omega (arith, h.size))
          ∙ sym (k.blank j (omega arith) (omega (arith, h.size)))
      | yes used ↦
          let i : ℕ = length history - 1 - (length history - 1 - j) % ring_size in
          let at : slot i ≡ j = omega (arith, h.size) in
          rw (← at)
            (h.held i (omega arith) (omega arith) ∙ sym (k.held i (omega arith) (omega arith)))
    ]

-- A bus whose log is open and has the line of every event of the history, each of which can be
-- read back.
pub record IsLogged (b : Bus) (history : List Event) : Type 0 where
  pub recalls : Recalls b history
  pub opened : b.log_open ≡ true
  pub logged : b.file ≡ some (log_text history)
  pub readable : All IsPlain history
  pub numbered : Numbered history
  pub small : length history < u64_mod

-- Closing a bus whose open log holds the line of every event of a history that can be read
-- back, and initialising again with memory and the log available, gives back the bus: ring,
-- counter and log.
pub init-close :
    (b : Bus) (history : List Event) → IsLogged b history → init true true (close b) ≡ b
unfolding init close created
init-close b history l = λ i. record {
  ring = Holds-unique _ _ history after.ring l.recalls.ring i;
  total = (after.count ∙ sym l.recalls.count) i;
  log_open = sym l.opened i;
  file = (ap (λ f. some (created f)) l.logged ∙ sym l.logged) i;
}
  where
    fresh : Bus
    fresh = record { ring = empty_ring; total = 0; log_open = false; file = b.file }

    after : Recalls (replay true fresh) history
    after =
        replay-Recalls fresh history l.logged l.readable l.numbered l.small empty_ring-Holds refl

persist-eq :
    (e : Event) (b : Bus) (t : Text)
    → b.log_open ≡ true
    → b.file ≡ some t
    → persist e b ≡ record b { file = some (t ++ format_line e) }
unfolding persist append_file
persist-eq e b t o f = rw (o, f, append_file)

publish-frame :
    (e : Event) (b : Bus)
    → ((publish e b).0.log_open ≡ b.log_open) × ((publish e b).0.file ≡ b.file)
unfolding publish
publish-frame e b = (refl, refl)

Numbered-snoc :
    (e : Event) (history : List Event)
    → Numbered history
    → Numbered (history ++ stamped e history ∷ [])
Numbered-snoc e history num i lt = elim (ℕ_discrete i (length history)) [
  | yes here ↦ rw (here, get_or-append_length history [] (stamped e history) zero_event)
  | no there ↦
      let old : i < length history =
        omega (arith, length-append history (stamped e history ∷ [])) in
      ap (λ (x : Event). x.seq)
        (get_or-append_left history (stamped e history ∷ []) i zero_event old)
      ∙ num i old
]

publish-IsLogged :
    (e : Event) (b : Bus) (history : List Event)
    → IsLogged b history
    → IsPlain (stamped e history)
    → length history < u64_mod - 1
    → IsLogged (persist (publish e b).1 (publish e b).0) (history ++ stamped e history ∷ [])
publish-IsLogged e b history l plain more =
    let (recalls, stored) = publish-Recalls e b history l.recalls more in
    rw
      (
        stored,
        persist-eq (stamped e history) (publish e b).0 (log_text history)
            ((publish-frame e b).0 ∙ l.opened) ((publish-frame e b).1 ∙ l.logged),
      )
      (record {
        recalls = record { ring = recalls.ring; count = recalls.count };
        opened = (publish-frame e b).0 ∙ l.opened;
        logged = ap some (sym (log_text-append history (stamped e history)));
        readable = All-append IsPlain history (stamped e history ∷ []) l.readable (plain, tt);
        numbered = Numbered-snoc e history l.numbered;
        small = omega (arith, length-append history (stamped e history ∷ []));
      })

-- The event that `eventbus_emit` makes of its arguments, with its number in the history.
abbrev pub emitted : ℤ → EventType → Option Text → Option Text → ℤ → List Event → Event
emitted now type id detail value history = stamped (new_event now type id detail value) history

-- Emitting an event that can be read back, to a bus whose open log and ring agree with a
-- history of fewer than 2^64 - 1 events, adds the event to ring, counter and log under the next
-- number, and hands the metrics that event.
pub emit-IsLogged :
    (now : ℤ) (type : EventType) (id detail : Option Text) (value : ℤ) (b : Bus)
    (history : List Event)
    → IsLogged b history
    → IsPlain (emitted now type id detail value history)
    → length history < u64_mod - 1
    → IsLogged
        (emit now type id detail value b).0
        (history ++ emitted now type id detail value history ∷ [])
      × ((emit now type id detail value b).2 ≡ emitted now type id detail value history)
unfolding emit
emit-IsLogged now type id detail value b history l plain more = (
  publish-IsLogged (new_event now type id detail value) b history l plain more,
  (publish-Recalls (new_event now type id detail value) b history l.recalls more).1,
)

-- The first start, with no log on disk, is such a state.
pub init-IsLogged : (b : Bus) → b.file ≡ none → IsLogged (init true true b) []
unfolding init replay created
init-IsLogged b none_yet =
    let fresh = record b { ring = empty_ring; total = 0 } in
    let kept : replay true fresh ≡ fresh = ap (λ f. replay_text true f fresh) none_yet in
    record {
      recalls = record {
        ring = subst (λ (x : Bus). Holds x.ring []) (sym kept) empty_ring-Holds;
        count = ap (λ (x : Bus). x.total) kept;
      };
      opened = refl;
      logged = ap (λ f. some (created f)) none_yet;
      readable = tt;
      numbered = λ i lt. absurd (omega arith);
      small = omega arith;
    }
