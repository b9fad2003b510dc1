-- ===== src/EventBus/Tests.antt =====
-- Runs of the event bus, and the theorems at concrete buses.
use container_internals_simu.Prelude.{
  ℕ, Option, map, set, replicate, take, ◌≡◌, ap, refl, true, false, none, some, [], ◌∷◌, ◌++◌,
  arith, length, drop,
}
use container_internals_simu.Prelude.Int.{ℤ, pos}
use container_internals_simu.Prelude.Text.{Text, codes}
use container_internals_simu.EventBus.Types.{Event, container_started, type_name}
use container_internals_simu.EventBus.Line.{
  IsPlain, format_line, parse_event_line, parse-format_line,
}
use container_internals_simu.EventBus.{
  Bus, ring_size, empty_ring, publish, emit, init, close, print_filtered, drain_from, replay,
  new_event, persist, read_ring, listed, wanted,
}
use container_internals_simu.EventBus.Filter.{of_type}
use container_internals_simu.EventBus.Ring.{
  last, drain_from-history, print_filtered-history, recent,
}
use container_internals_simu.EventBus.Json.{
  json_event, eventbus_json_recent, eventbus_json_recent-history,
}
use container_internals_simu.Prelude.Decimal.{print_nat, print_int}
use container_internals_simu.Json.{json_escape_copy, escape_loop, escape_byte}
use container_internals_simu.Json.Array.{
  Out, IsPrinted, finished, joined, print_entries, json_array,
}
use container_internals_simu.EventBus.File.{log_text}
use container_internals_simu.EventBus.Restart.{
  IsLogged, emitted, emit-IsLogged, init-IsLogged, init-close,
}
use container_internals_simu.EventBus.Disorder.{publish-replay_disorder}

-- Before the first start there is no log.
abbrev blank : Bus
blank = record { ring = empty_ring; total = 0; log_open = false; file = none }

abbrev first : Event
first =
    emitted (pos 1700000000) container_started (some (codes "container-0001")) (some (codes "web"))
      (pos 42) []

first-IsPlain : IsPlain first
unfolding new_event
first-IsPlain = record {
  id_fits = omega arith;
  detail_fits = omega arith;
  id_lacks = omega arith;
  detail_lacks = omega arith;
  id_ne_dash = λ e. omega (arith, ap length e);
  detail_ne_dash = λ e. omega (arith, ap length e);
  seq_fits = omega arith;
  timestamp_fits = omega arith;
  value_fits = omega arith;
}

parse-format_line_example : parse_event_line (format_line first) ≡ some first
parse-format_line_example = parse-format_line first first-IsPlain

begun : Bus
begun = init true true blank

begun-IsLogged : IsLogged begun []
unfolding begun
begun-IsLogged = init-IsLogged blank refl

busy : Bus
unfolding begun
busy =
    (emit (pos 1700000000) container_started (some (codes "container-0001")) (some (codes "web"))
      (pos 42) begun).0

emit-IsLogged_example :
    IsLogged
      (emit
        (pos 1700000000)
        container_started
        (some (codes "container-0001"))
        (some (codes "web"))
        (pos 42)
        begun).0
      (first ∷ [])
    × ((emit
          (pos 1700000000)
          container_started
          (some (codes "container-0001"))
          (some (codes "web"))
          (pos 42)
          begun).2
        ≡ first)
emit-IsLogged_example =
    emit-IsLogged (pos 1700000000) container_started (some (codes "container-0001"))
      (some (codes "web")) (pos 42) begun [] begun-IsLogged first-IsPlain (omega arith)

busy-IsLogged : IsLogged busy (first ∷ [])
unfolding busy
busy-IsLogged =
    (emit-IsLogged (pos 1700000000) container_started (some (codes "container-0001"))
      (some (codes "web")) (pos 42) begun [] begun-IsLogged first-IsPlain (omega arith)).0

init-close_example : init true true (close busy) ≡ busy
init-close_example = init-close busy (first ∷ []) busy-IsLogged

drain_from-history_example : drain_from 0 busy busy ≡ (last ring_size (drop 0 (first ∷ [])), 1)
drain_from-history_example = drain_from-history 0 busy (first ∷ []) busy-IsLogged.recalls

print_filtered-history_example :
    print_filtered (pos 20) (some container_started) busy busy
    ≡ listed
        (some container_started)
        (of_type (some container_started) (recent (pos 20) (first ∷ [])))
print_filtered-history_example =
    print_filtered-history (pos 20) (some container_started) busy (first ∷ []) busy-IsLogged.recalls
      (omega arith)

-- The text of a time.
abbrev clock : ℤ → Option Text
clock t = some (codes "2023-11-14T22:13:20")

eventbus_json_recent-history_example :
    let shown = map (json_event clock) (last (wanted (pos 20) 1) (first ∷ [])) in
    (k : ℕ) × IsPrinted 256 4096 (b'[' ∷ []) true shown k
    × (eventbus_json_recent clock (pos 20) true 4096 busy
        ≡ some (finished 4096 (b'[' ∷ joined true (take k shown))))
eventbus_json_recent-history_example =
    eventbus_json_recent-history clock (pos 20) 4096 busy (first ∷ []) busy-IsLogged.recalls
      (omega arith) (omega arith)

-- An event with a long detail, in a buffer with hardly more than 256 bytes, has more bytes than the
-- buffer.
written_of : Option Out → ℕ
written_of none = 0
written_of (some o) = o.written

abbrev wordy : Bus
wordy = record blank {
  ring =
      set empty_ring 0
        (record first { container_id = replicate 30 b'c'; detail = replicate 127 b'x' });
  total = 1;
}

overrun : written_of (eventbus_json_recent clock (pos 20) true 260 wordy) ≡ 269
unfolding eventbus_json_recent read_ring json_event json_array print_entries written_of print_nat
    json_escape_copy escape_loop type_name new_event escape_byte print_int
overrun = refl

drain_shows : drain_from 0 busy busy ≡ (first ∷ [], 1)
unfolding busy begun emit publish persist drain_from read_ring init replay
drain_shows = refl

-- Two events whose lines were appended in the wrong order.
abbrev second : Event
second = record first { seq = 1 }

swapped : Bus
swapped = record blank { file = some (log_text ([] ++ second ∷ first ∷ [])) }

second-IsPlain : IsPlain second
unfolding new_event
second-IsPlain = record {
  id_fits = first-IsPlain.id_fits;
  detail_fits = first-IsPlain.detail_fits;
  id_lacks = first-IsPlain.id_lacks;
  detail_lacks = first-IsPlain.detail_lacks;
  id_ne_dash = first-IsPlain.id_ne_dash;
  detail_ne_dash = first-IsPlain.detail_ne_dash;
  seq_fits = omega arith;
  timestamp_fits = first-IsPlain.timestamp_fits;
  value_fits = first-IsPlain.value_fits;
}

publish-replay_disorder_example : (publish first (replay true swapped)).1.seq ≡ second.seq
unfolding swapped
publish-replay_disorder_example =
    publish-replay_disorder swapped [] first second first refl (second-IsPlain, (first-IsPlain, tt))
      (omega arith) refl
