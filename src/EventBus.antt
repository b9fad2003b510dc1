-- ===== src/EventBus.antt =====
-- src/eventbus.c and src/eventbus.h: the ring of recent events, the append-only log and its replay.
-- The mutex-protected section of `eventbus_emit` is `publish`, the write to the log `persist`.
pub mod Types
pub mod Line
pub mod Filter
pub mod Ring
pub mod Json
pub mod File
pub mod Replay
pub mod Restart
pub mod Disorder
mod Tests
use container_internals_simu.Prelude.{
  ℕ, zero, suc, ◌+◌, ◌-◌, ◌%◌, ◌^◌, Bool, true, false, not, ◌&&◌, ◌||◌, Option, none, some, List,
  [], ◌∷◌, ◌++◌, length, get_or, set, keep, replicate, ltb, leb, ◌==◌, if◌then◌else◌,
}
use container_internals_simu.Prelude.Int.{ℤ, pos, negsuc, pos_part, positive}
use container_internals_simu.Prelude.Text.{Text, is_empty}
use Types.{Event, EventType, zero_event, type_name, type_code, copy_arg, id_size, detail_size}
use Line.{format_line, parse_event_line}
use container_internals_simu.Prelude.FileLines.{file_lines}

-- `EVENTBUS_RING_SIZE`; `seq & EVENTBUS_RING_MASK` is the remainder by it.
abbrev pub ring_size : ℕ
ring_size = 256

abbrev pub slot : ℕ → ℕ
slot seq = seq % ring_size

abbrev pub u64_mod : ℕ
u64_mod = 2 ^ 64

-- `(unsigned)` of a 64-bit number
abbrev pub as_unsigned : ℕ → ℕ
as_unsigned n = n % 2 ^ 32

-- `g_ring`, `g_total`, whether `g_logfile` is open, and what events.log holds, if it exists.
pub record Bus : Type 0 where
  pub ring : List Event
  pub total : ℕ
  pub log_open : Bool
  pub file : Option Text

abbrev pub empty_ring : List Event
empty_ring = replicate ring_size zero_event

-- The critical section of `eventbus_emit`: the next sequence number, the slot, the count.
unfoldable pub publish : Event → Bus → Bus × Event
publish e b =
    let stamped = record e { seq = b.total } in
    (
      record b { ring = set b.ring (slot b.total) stamped; total = (b.total + 1) % u64_mod },
      stamped,
    )

append_file : Option Text → Text → Text
append_file none s = s
append_file (some t) s = t ++ s

-- The line that `eventbus_emit` appends to events.log, if the log is open.
unfoldable pub persist : Event → Bus → Bus
unfolding append_file
persist e b =
    if b.log_open then record b { file = some (append_file b.file (format_line e)) } else b

-- The call of `log_event`, by the format that it takes.
pub data LogCall : Type 0 where
  full : Text → Text → Text → ℤ → LogCall
  with_id : Text → Text → ℤ → LogCall
  plain : Text → Text → LogCall

log_call : Event → LogCall
log_call e =
    if not (is_empty e.container_id) && not (is_empty e.detail)
    then full (type_name e.type) e.container_id e.detail e.value
    else if not (is_empty e.container_id)
    then with_id (type_name e.type) e.container_id e.value
    else plain (type_name e.type) e.detail

-- The event before it has a sequence number; `now` is `time(NULL)`.
unfoldable pub new_event : ℤ → EventType → Option Text → Option Text → ℤ → Event
new_event now type container_id detail value = record {
  type = type;
  timestamp = now;
  container_id = copy_arg id_size container_id;
  detail = copy_arg detail_size detail;
  value = value;
  seq = 0;
}

-- `eventbus_emit`: the bus after it, the call of the logger, and the event handed to
-- `metrics_on_event`.
unfoldable pub emit : ℤ → EventType → Option Text → Option Text → ℤ → Bus → Bus × LogCall × Event
unfolding log_call
emit now type container_id detail value b =
    let (published, e) = publish (new_event now type container_id detail value) b in
    (persist e published, log_call e, e)

-- `n` slots from sequence number `i` on.
unfoldable pub read_ring : ℕ → ℕ → List Event → List Event
read_ring zero i ring = []
read_ring (suc n) i ring = get_or ring (slot i) zero_event ∷ read_ring n (i + 1) ring

-- `type_filter == EVENT_TYPE_COUNT || e->type == type_filter`; `none` is the sentinel.
abbrev pub passes : Option EventType → Event → Bool
passes none e = true
passes (some t) e = type_code e.type == type_code t

-- How many events are shown for a request of `n`.
abbrev pub wanted : ℤ → ℕ → ℕ
wanted n total =
    let available = if ltb total ring_size then total else ring_size in
    if not (positive n) || ltb available (pos_part n) then available else pos_part n

pub data Printed : Type 0 where
  no_events : Printed
  listed : Option EventType → List Event → Printed

-- `eventbus_print_filtered`; the counter is read into an `unsigned`. It takes the lock twice: `b` is
-- the bus at the first time, when the total is read, and `later` at the second, when the slots are.
unfoldable pub print_filtered : ℤ → Option EventType → Bus → Bus → Printed
print_filtered n filter b later =
    let total = as_unsigned b.total in
    if total == 0
    then no_events
    else let want = wanted n total in
      listed filter (keep (passes filter) (read_ring want (total - want) later.ring))

unfoldable pub print_recent : ℤ → Bus → Bus → Printed
print_recent n b later = print_filtered n none b later

-- `eventbus_drain_from`. It takes the lock twice: `b` is the bus at the first time, when the total
-- is read, and `later` at the second, when the slots are.
unfoldable pub drain_from : ℕ → Bus → Bus → List Event × ℕ
drain_from from_seq b later =
    if leb b.total from_seq
    then ([], b.total)
    else let start = if ltb ring_size (b.total - from_seq) then b.total - ring_size else from_seq in
      (read_ring (b.total - start) start later.ring, b.total)

abbrev pub line_size : ℕ
line_size = 512

-- The lines that the loop of `replay_events_file` reads.
abbrev pub read_lines : ℕ → Text → List Text
read_lines = file_lines (line_size - 1)

-- The first loop of `replay_events_file`: the window of the last events, and their number.
unfoldable pub load_window : List Text → List Event → ℕ → List Event × ℕ
load_window [] window count = (window, count)
load_window (line ∷ lines) window count = elim (parse_event_line line) [
  | none ↦ load_window lines window count
  | some e ↦ load_window lines (set window (slot count) e) ((count + 1) % u64_mod)
]

-- The second loop: `n` events of the window from `i` on go to the slots of their numbers.
unfoldable pub fill_ring : ℕ → ℕ → List Event → List Event → List Event
fill_ring zero i window ring = ring
fill_ring (suc n) i window ring =
    let e = get_or window (slot i) zero_event in
    fill_ring n (i + 1) window (set ring (slot e.seq) e)

unfoldable pub replay_window : List Event → ℕ → Bus → Bus
replay_window window count b =
    if count == 0
    then b
    else let loaded = if ltb count ring_size then count else ring_size in
      let start = count - loaded in
      let last = get_or window (slot (start + loaded - 1)) zero_event in
      record b { ring = fill_ring loaded start window b.ring; total = (last.seq + 1) % u64_mod }

replay_text : Bool → Option Text → Bus → Bus
replay_text allocated none b = b
replay_text allocated (some text) b =
    if allocated
    then (let (window, count) = load_window (read_lines (length text) text) empty_ring 0 in
        replay_window window count b)
    else b

-- `replay_events_file`; `allocated` says whether `calloc` succeeds.
unfoldable pub replay : Bool → Bus → Bus
unfolding replay_text
replay allocated b = replay_text allocated b.file b

-- `fopen(path, "a")` keeps what the file holds, and makes it if there is none.
created : Option Text → Text
created none = []
created (some t) = t

-- `eventbus_init`; `opened` says whether the log can be opened for appending.
unfoldable pub init : Bool → Bool → Bus → Bus
unfolding created
init allocated opened b =
    let replayed = replay allocated (record b { ring = empty_ring; total = 0 }) in
    if opened
    then record replayed { log_open = true; file = some (created b.file) }
    else record replayed { log_open = false }

unfoldable pub close : Bus → Bus
close b = record b { log_open = false }

-- `eventbus_total`
abbrev pub total_events : Bus → ℕ
total_events b = b.total
