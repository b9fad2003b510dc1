-- ===== src/EventBus/Json.antt =====
-- `eventbus_json_recent` of src/eventbus.c. The text that `localtime` and `strftime` make of a time
-- is a parameter, `none` where `localtime` gives NULL. Those calls and the escaping of each string
-- are in `json_event`.
use native.Mathlib.Nat.{mod-eq_of_lt}
use container_internals_simu.Prelude.{
  ℕ, ◌-◌, ◌*◌, ◌^◌, ◌<◌, ◌≡◌, ap, Bool, true, false, not, ◌||◌, Option, none, some, List, [], ◌∷◌,
  ◌++◌, map, length, take, leb, arith, if◌then◌else◌,
}
use container_internals_simu.Prelude.Int.{ℤ}
use container_internals_simu.Prelude.Text.{Text, codes}
use container_internals_simu.Prelude.Decimal.{print_nat, print_int}
use container_internals_simu.Json.Array.{
  in_buffer, Out, json_array, IsPrinted, finished, joined, json_array_lem,
}
use container_internals_simu.EventBus.Types.{Event, type_name, id_size, detail_size}
use container_internals_simu.EventBus.{Bus, as_unsigned, wanted, read_ring}
use container_internals_simu.EventBus.Ring.{Recalls, last, read_ring-rest}

abbrev time_or_dash : Option Text → Text
time_or_dash none = codes "-"
time_or_dash (some t) = t

unfoldable pub json_event : (ℤ → Option Text) → Event → Text
json_event local_time e =
    codes "{\"seq\":"
    ++ (print_nat e.seq
        ++ (codes ",\"type\":\""
            ++ (in_buffer 40 (type_name e.type)
                ++ (codes "\",\"timestamp\":\""
                    ++ (in_buffer 32 (time_or_dash (local_time e.timestamp))
                        ++ (codes "\",\"container_id\":\""
                            ++ (in_buffer (id_size * 2) e.container_id
                                ++ (codes "\",\"detail\":\""
                                    ++ (in_buffer (detail_size * 2) e.detail
                                        ++ (codes "\",\"value\":"
                                            ++ (print_int e.value ++ codes "}")))))))))))

-- The buffer and the result; `none` is the result -1. A `buflen` below 0 is refused like 0.
unfoldable pub eventbus_json_recent : (ℤ → Option Text) → ℤ → Bool → ℕ → Bus → Option Out
eventbus_json_recent local_time n buf_given buflen b =
    let total = as_unsigned b.total in
    let want = wanted n total in
    if not buf_given || leb buflen 2
    then none
    else some
        (json_array 256 buflen (map (json_event local_time) (read_ring want (total - want) b.ring)))

pub recent-history :
    (n : ℤ) (b : Bus) (history : List Event)
    → Recalls b history
    → length history < 2 ^ 32
    → let total = as_unsigned b.total in
      read_ring (wanted n total) (total - wanted n total) b.ring
      ≡ last (wanted n (length history)) history
recent-history n b history r small = ground (
  arith,
  r.count,
  mod-eq_of_lt small,
  read_ring-rest (length history - wanted n (length history)) b.ring history r.ring,
)

-- While fewer than 2^32 events were published, and with more than two bytes of buffer,
-- eventbus_json_recent prints the array of the last n events (all that the ring holds, if n is
-- not positive or too large), oldest first, as long as an entry begins with more than 256 bytes
-- left. If there is room for the bracket and the terminator, the array is closed and the result
-- is its length; else it is cut off at the end of the buffer, and the result is the length of
-- the whole, which may lie past that end.
pub eventbus_json_recent-history :
    (local_time : ℤ → Option Text) (n : ℤ) (buflen : ℕ) (b : Bus) (history : List Event)
    → Recalls b history
    → length history < 2 ^ 32
    → 2 < buflen
    → let shown = map (json_event local_time) (last (wanted n (length history)) history) in
      (k : ℕ) × IsPrinted 256 buflen (b'[' ∷ []) true shown k
      × (eventbus_json_recent local_time n true buflen b
          ≡ some (finished buflen (b'[' ∷ joined true (take k shown))))
unfolding eventbus_json_recent
eventbus_json_recent-history local_time n buflen b history r small room =
    let shown = map (json_event local_time) (last (wanted n (length history)) history) in
    let (k, printed, e) = json_array_lem 256 buflen shown (omega arith) in
    let open_buffer : leb buflen 2 ≡ false = ground (arith, room) in
    (k, printed, rw (open_buffer, recent-history n b history r small) (ap (λ (o : Out). some o) e))
