-- ===== src/Lifecycle/Deletion.antt =====
-- `container_delete` and `container_prune_all` keep the manager in order.
use mathlib.Core.List.{map-append}
use container_internals_simu.Prelude.{
  ℕ, ◌+◌, ◌^◌, ◌≤◌, ◌<◌, ◌≡◌, ◌≢◌, sym, ap, ◌∙◌, inl, inr, List, [], ◌∷◌, ◌++◌, map, All,
  All-append, arith, leb, ◌==◌, if◌then◌else◌, Bool-cases, Option-cases, subst,
}
use container_internals_simu.Prelude.Text.{Text, is_empty}
use container_internals_simu.Container.{Container, is_live, find_container}
use container_internals_simu.Lifecycle.{System, World, Manager, poll_states}
use container_internals_simu.Lifecycle.Commands.{remove_by_addr, delete_found, container_delete}
use container_internals_simu.Lifecycle.Create.{
  update_next_sequence, prune_all_loop, sequence_after, container_prune_all,
}
use container_internals_simu.Lifecycle.Valid.{IsSound, Keeps, cleanup-Keeps}
use container_internals_simu.Lifecycle.Invariant.{
  Distinct, In, ids, addrs, IsNumbered, IsOrderly, poll_states-IsOrderly, find_container-In,
}
use container_internals_simu.Lifecycle.Numbers.{update_next_sequence-id_of}
use container_internals_simu.Lifecycle.Removal.{
  remove_by_addr-All, remove_by_addr-Distinct, All-In, remove_by_addr-gone,
}
use container_internals_simu.Lifecycle.Creation.{Distinct-snoc}

All-IsSound-remove_by_addr :
    (addr : ℕ) (cs : List Container) → All IsSound cs → All IsSound (remove_by_addr addr cs)
unfolding remove_by_addr
All-IsSound-remove_by_addr addr [] a = a
All-IsSound-remove_by_addr addr (d ∷ cs) a = elim (Bool-cases (d.addr == addr)) [
  | inl hit ↦ rw hit a.1
  | inr miss ↦ rw miss (a.0, All-IsSound-remove_by_addr addr cs a.1)
]

remove_by_addr-IsOrderly :
    (m : Manager) (addr : ℕ) (w : World)
    → IsOrderly m
    → IsOrderly (record m { containers = remove_by_addr addr m.containers; world = w })
remove_by_addr-IsOrderly m addr w v = record {
  sound = All-IsSound-remove_by_addr addr m.containers v.sound;
  distinct_ids = remove_by_addr-Distinct (λ c. c.id) addr m.containers v.distinct_ids;
  distinct_addrs = remove_by_addr-Distinct (λ c. c.addr) addr m.containers v.distinct_addrs;
  numbered =
      remove_by_addr-All (λ c. c.id) (IsNumbered m.next_sequence) addr m.containers v.numbered;
  small = v.small;
}

IsSound-In : (c : Container) (cs : List Container) → All IsSound cs → In c cs → IsSound c
IsSound-In c [] a i = absurd i
IsSound-In c (d ∷ cs) a (inl e) = subst IsSound (sym e) a.0
IsSound-In c (d ∷ cs) a (inr i) = IsSound-In c cs a.1 i

-- A container that is put back at the end.
put_back-IsOrderly :
    (m : Manager) (c c' : Container) (w : World)
    → IsOrderly m
    → In c m.containers
    → Keeps c c'
    → IsOrderly (record m { containers = remove_by_addr c.addr m.containers ++ c' ∷ []; world = w })
put_back-IsOrderly m c c' w v i k =
    let r = remove_by_addr-IsOrderly m c.addr w v in
    let cs = remove_by_addr c.addr m.containers in
    record {
      sound =
          All-append IsSound cs (c' ∷ []) r.sound
            (k.sound (IsSound-In c m.containers v.sound i), tt);
      distinct_ids = rw map-append (
          Distinct-snoc (ids cs) c'.id r.distinct_ids (
            rw k.id
              (remove_by_addr-gone (λ d. d.id) c m.containers i v.distinct_addrs v.distinct_ids)));
      distinct_addrs = rw map-append (
          Distinct-snoc (addrs cs) c'.addr r.distinct_addrs (
            rw k.addr (
              remove_by_addr-gone (λ d. d.addr) c m.containers i v.distinct_addrs
                v.distinct_addrs)));
      numbered = rw map-append (
          All-append (IsNumbered m.next_sequence) (ids cs) (c'.id ∷ []) r.numbered (
            rw k.id (All-In (λ d. d.id) (IsNumbered m.next_sequence) c m.containers v.numbered i),
            tt,
          ));
      small = v.small;
    }

delete_found-IsOrderly :
    (sys : System) (c : Container) (m : Manager)
    → IsOrderly m
    → In c m.containers
    → IsOrderly (delete_found sys c m).0
unfolding delete_found
delete_found-IsOrderly sys c m v i = elim (Bool-cases sys.saves) [
  | inl saved_ok ↦ rw saved_ok (remove_by_addr-IsOrderly m c.addr _ v)
  | inr lost ↦ rw lost (put_back-IsOrderly m c _ _ v i (cleanup-Keeps sys.host m.world.bridge c))
]

pub container_delete-IsOrderly :
    (sys : System) (id : Text) (m : Manager) → IsOrderly m → IsOrderly (container_delete sys id m).0
unfolding container_delete
container_delete-IsOrderly sys id m v =
    let polled = poll_states sys m in
    let v' = poll_states-IsOrderly sys m v in
    elim (Bool-cases (is_empty id)) [
      | inl empty ↦ rw empty v
      | inr named ↦ elim (Option-cases (find_container polled.containers id)) [
        | inl missing ↦ rw (named, missing, container_delete) v'
        | inr (c, found) ↦ elim (Bool-cases (is_live c.state)) [
          | inl live ↦ rw (named, found, live, container_delete) v'
          | inr ended ↦
              rw (named, found, ended, container_delete)
                (delete_found-IsOrderly sys c polled v'
                  (find_container-In polled.containers id c found))
        ]
      ]
    ]

module _ {ℓ} {B : Type ℓ} (f : Container → B) where
  prune-All {κ} :
      (P : B → Type κ) (cs : List Container) (w : World)
      → All P (map f cs)
      → All P (map f (prune_all_loop cs w).0)
  unfolding prune_all_loop
  prune-All P [] w a = a
  prune-All P (c ∷ cs) w a = elim (Bool-cases (is_live c.state)) [
    | inl live ↦ rw live (a.0, prune-All P cs w a.1)
    | inr ended ↦ rw ended (prune-All P cs _ a.1)
  ]

  prune-Distinct :
      (cs : List Container) (w : World)
      → Distinct (map f cs)
      → Distinct (map f (prune_all_loop cs w).0)
  unfolding prune_all_loop
  prune-Distinct [] w d = d
  prune-Distinct (c ∷ cs) w d = elim (Bool-cases (is_live c.state)) [
    | inl live ↦ rw live (prune-All (λ y. f c ≢ y) cs w d.0, prune-Distinct cs w d.1)
    | inr ended ↦ rw ended (prune-Distinct cs _ d.1)
  ]

prune-IsSound :
    (cs : List Container) (w : World) → All IsSound cs → All IsSound (prune_all_loop cs w).0
unfolding prune_all_loop
prune-IsSound [] w a = a
prune-IsSound (c ∷ cs) w a = elim (Bool-cases (is_live c.state)) [
  | inl live ↦ rw live (a.0, prune-IsSound cs w a.1)
  | inr ended ↦ rw ended (prune-IsSound cs _ a.1)
]

-- The number behind all that are in use.
sequence_after-IsNumbered :
    (n next : ℕ) (cs : List Container)
    → n < 2 ^ 31
    → next < 2 ^ 31
    → All (IsNumbered n) (ids cs)
    → (next ≤ sequence_after cs next)
      × (sequence_after cs next < 2 ^ 31)
      × All (IsNumbered (sequence_after cs next)) (ids cs)
unfolding sequence_after
sequence_after-IsNumbered n next [] h k a = (omega arith, k, tt)
sequence_after-IsNumbered n next (c ∷ cs) h k ((j, below, e), a) =
    let next' = update_next_sequence c.id next in
    let step : next' ≡ (if leb next j then j + 1 else next) =
      ap (λ (id : Text). update_next_sequence id next) e
      ∙ update_next_sequence-id_of j next (omega arith) k in
    let rest = sequence_after-IsNumbered n next' cs h (ground arith) a in
    (ground arith, rest.1, ((j, ground arith, e), rest.2))

pub container_prune_all-IsOrderly :
    (sys : System) (m : Manager) → IsOrderly m → IsOrderly (container_prune_all sys m)
unfolding container_prune_all
container_prune_all-IsOrderly sys m v =
    let polled = poll_states sys m in
    let v' = poll_states-IsOrderly sys m v in
    let cs = polled.containers in
    let numbers =
      prune-All (λ c. c.id) (IsNumbered polled.next_sequence) cs polled.world v'.numbered in
    let after = sequence_after-IsNumbered polled.next_sequence 1 _ v'.small (omega arith) numbers in
    record {
      sound = prune-IsSound cs polled.world v'.sound;
      distinct_ids = prune-Distinct (λ c. c.id) cs polled.world v'.distinct_ids;
      distinct_addrs = prune-Distinct (λ c. c.addr) cs polled.world v'.distinct_addrs;
      numbered = after.2;
      small = after.1;
    }
