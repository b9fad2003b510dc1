-- ===== src/Lifecycle/Metadata/Restart.antt =====
-- What a restart of the program finds in the metadata file.
use container_internals_simu.Prelude.{ℕ, ◌+◌, Option, List, [], ◌∷◌, ◌++◌, map}
use container_internals_simu.Prelude.Text.{Text}
use container_internals_simu.Bridge.{Bridge}
use container_internals_simu.Bridge.Pool.{scan_ip, bridge_mark_ip_used}
use container_internals_simu.Container.{Container}
use container_internals_simu.Prelude.Int.{ℤ}
use container_internals_simu.Prelude.Counters.{past_number}
use container_internals_simu.Lifecycle.Numbers.{number_of}
use container_internals_simu.Lifecycle.{System, Manager}
use container_internals_simu.Lifecycle.Create.{update_next_sequence, sequence_after}
use container_internals_simu.Lifecycle.Metadata.{revive}
use container_internals_simu.Lifecycle.Metadata.Record.{kept_at}

-- The containers as they come back, at the addresses that `calloc` gives from number `k` on.
abbrev pub revived : System → (ℕ → ℕ) → ℕ → List Container → List Container
revived sys addr k [] = []
revived sys addr k (c ∷ cs) = revive sys (kept_at (addr k) c) ∷ revived sys addr (k + 1) cs

abbrev marked : List Container → Bridge → Bridge
marked [] b = b
marked (c ∷ cs) b = marked cs (bridge_mark_ip_used c.ip_address b)

-- The manager with these containers added, as the loop leaves it.
abbrev added : System → (ℕ → ℕ) → ℕ → List Container → Manager → Manager
added sys addr k cs m = record {
  containers = m.containers ++ revived sys addr k cs;
  next_sequence = sequence_after cs m.next_sequence;
  world = record m.world { bridge = marked cs m.world.bridge };
}

-- One container more.
abbrev add : System → Manager → Container → Manager
add sys m d = record {
  containers = m.containers ++ revive sys d ∷ [];
  next_sequence = update_next_sequence d.id m.next_sequence;
  world = record m.world { bridge = bridge_mark_ip_used d.ip_address m.world.bridge };
}

-- The counter past a series of numbers that were read.
abbrev pub past_numbers : List (Option ℤ) → ℕ → ℕ
past_numbers [] next = next
past_numbers (number ∷ numbers) next = past_numbers numbers (past_number number next)

-- The manager with these containers added, and with the next number and the next address past
-- theirs.
abbrev pub with_restored : System → (ℕ → ℕ) → ℕ → List Container → Manager → Manager
with_restored sys addr k cs m = record {
  containers = m.containers ++ revived sys addr k cs;
  next_sequence = past_numbers (map (λ c. number_of c.id) cs) m.next_sequence;
  world = record m.world {
    bridge = record m.world.bridge {
      next_ip_host = past_numbers (map (λ c. scan_ip c.ip_address) cs) m.world.bridge.next_ip_host;
    };
  };
}
