-- ===== src/Lifecycle/Creation.antt =====
-- `container_create` keeps the manager in order.
use mathlib.Core.List.{map-append}
use container_internals_simu.Prelude.{
  ap, ◌∙◌, ℕ, ◌+◌, ◌^◌, ◌≤◌, ◌<◌, ◌≡◌, ◌≢◌, refl, inl, inr, some, List, [], ◌∷◌, ◌++◌, All,
  All-append, arith, Bool-cases, Option-cases,
}
use container_internals_simu.Prelude.Text.{Text}
use container_internals_simu.Container.{Container}
use container_internals_simu.Prelude.Scan.{as_int, succ_bits, as_int-pos, succ_bits-pos}
use container_internals_simu.Lifecycle.{System, World, Manager}
use container_internals_simu.Lifecycle.Create.{
  ContainerSpec, id_of, new_container, requested_rootfs, insert_container, container_create,
}
use container_internals_simu.Lifecycle.Valid.{IsSound}
use container_internals_simu.Lifecycle.ValidStart.{GivesPids}
use container_internals_simu.Lifecycle.Invariant.{Distinct, ids, addrs, IsNumbered, IsOrderly}
use container_internals_simu.Lifecycle.Numbers.{id_of-fresh}

IsNumbered-le :
    (m n : ℕ) (taken : List Text) → m ≤ n → All (IsNumbered m) taken → All (IsNumbered n) taken
IsNumbered-le m n [] h a = tt
IsNumbered-le m n (id ∷ taken) h ((k, below, e), a) =
    ((k, omega arith, e), IsNumbered-le m n taken h a)

pub Distinct-snoc {ℓ} :
    {A : Type ℓ} (xs : List A) (x : A) → Distinct xs → All (λ y. y ≢ x) xs → Distinct (xs ++ x ∷ [])
Distinct-snoc [] x d a = (tt, tt)
Distinct-snoc (y ∷ xs) x d a =
    (All-append (λ z. y ≢ z) xs (x ∷ []) d.0 (a.0, tt), Distinct-snoc xs x d.1 a.1)

-- Adding a sound container with a new id and a new address.
insert-IsOrderly :
    (m : Manager) (c : Container) (w : World)
    → IsOrderly m
    → IsSound c
    → c.id ≡ id_of m.next_sequence
    → All (λ a. a ≢ c.addr) (addrs m.containers)
    → m.next_sequence + 1 < 2 ^ 31
    → IsOrderly (record {
      containers = m.containers ++ c ∷ [];
      next_sequence = m.next_sequence + 1;
      world = w;
    })
insert-IsOrderly m c w v s e fresh small = record {
  sound = All-append IsSound m.containers (c ∷ []) v.sound (s, tt);
  distinct_ids = rw map-append (
      Distinct-snoc (ids m.containers) c.id v.distinct_ids
        (rw e (id_of-fresh m.next_sequence (ids m.containers) v.small v.numbered)));
  distinct_addrs = rw map-append (Distinct-snoc (addrs m.containers) c.addr v.distinct_addrs fresh);
  numbered = rw map-append (
      All-append (IsNumbered (m.next_sequence + 1)) (ids m.containers) (c.id ∷ [])
        (IsNumbered-le m.next_sequence (m.next_sequence + 1) (ids m.containers) (omega arith)
          v.numbered)
        ((m.next_sequence, omega arith, e), tt));
  small = small;
}

-- The next number may grow while nothing is added.
skip-IsOrderly :
    (m : Manager) (w : World)
    → IsOrderly m
    → m.next_sequence + 1 < 2 ^ 31
    → IsOrderly (record m { next_sequence = m.next_sequence + 1; world = w })
skip-IsOrderly m w v small = record {
  sound = v.sound;
  distinct_ids = v.distinct_ids;
  distinct_addrs = v.distinct_addrs;
  numbered =
      IsNumbered-le m.next_sequence (m.next_sequence + 1) (ids m.containers) (omega arith)
        v.numbered;
  small = small;
}

-- What the commands ask of the system: a positive pid for a child, an address that is not in use,
-- and room for one more number.
pub record IsPlausible (sys : System) (m : Manager) : Type 0 where
  pub pids : GivesPids sys
  pub fresh : (addr : ℕ) → sys.calloc ≡ some addr → All (λ a. a ≢ addr) (addrs m.containers)
  pub room : m.next_sequence + 1 < 2 ^ 31

insert_container-IsOrderly :
    (sys : System) (c : Container) (m : Manager)
    → IsOrderly m
    → IsSound c
    → c.id ≡ id_of m.next_sequence
    → All (λ a. a ≢ c.addr) (addrs m.containers)
    → m.next_sequence + 1 < 2 ^ 31
    → IsOrderly (insert_container sys c (record m { next_sequence = m.next_sequence + 1 })).0
unfolding insert_container
insert_container-IsOrderly sys c m v s e fresh small = elim (Bool-cases sys.saves) [
  | inl saved_ok ↦ rw saved_ok (insert-IsOrderly m c _ v s e fresh small)
  | inr lost ↦ rw lost (skip-IsOrderly m _ v small)
]

pub container_create-IsOrderly :
    (sys : System) (spec : ContainerSpec) (m : Manager)
    → IsPlausible sys m
    → IsOrderly m
    → IsOrderly (container_create sys spec m).0
unfolding container_create new_container
container_create-IsOrderly sys spec m p v = elim (Option-cases sys.calloc) [
  | inl missing ↦ rw (missing, container_create) v
  | inr (addr, given) ↦
      elim (Option-cases (
        sys.prepare_rootfs
          (requested_rootfs sys spec.rootfs (new_container sys spec addr m.next_sequence).id).0)) [
            | inl unprepared ↦
                rw (given, unprepared, container_create, counted)
                  (skip-IsOrderly m m.world v p.room)
            | inr (path, prepared) ↦
                rw (given, prepared, container_create, counted)
                  (insert_container-IsOrderly sys _ m v (record { process = refl; stack = λ h. cc })
                    refl (p.fresh addr given) p.room)
          ]
]
  where
    counted : succ_bits (as_int m.next_sequence) ≡ m.next_sequence + 1
    counted =
        ap succ_bits (as_int-pos m.next_sequence v.small) ∙ succ_bits-pos m.next_sequence v.small
