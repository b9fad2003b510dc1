-- ===== src/Lifecycle/Invariant.antt =====
-- The invariant of the manager and its preservation by every command.
use container_internals_simu.Prelude.{
  ℕ, ◌^◌, ◌<◌, ◌≡◌, ◌≢◌, refl, sym, ap, ap₂, ◌∙◌, inl, inr, ◌⊎◌, Bool, true, false, Option, none,
  some, List, [], ◌∷◌, map, All, arith, ◌==◌, Bool-cases, ==_iff, subst, Option-cases,
}
use container_internals_simu.Prelude.Text.{Text, is_empty, str_eq}
use container_internals_simu.Container.{
  Container, is_live, find_id, find_name, keep_best, find_container,
}
use container_internals_simu.Lifecycle.{
  System, World, Manager, check_oom, sync_container_state, poll_loop, poll_states,
}
use container_internals_simu.Lifecycle.Commands.{replace, on_container}
use container_internals_simu.Lifecycle.Create.{id_of}
use container_internals_simu.Lifecycle.Valid.{
  IsSound, Keeps, Keeps-refl, check_oom-Keeps, sync_container_state-Keeps,
}

module _ {ℓ} {A : Type ℓ} where
  -- No element stands twice in the list.
  abbrev pub Distinct : List A → Type ℓ
  Distinct [] = Unit
  Distinct (x ∷ xs) = All (λ y. x ≢ y) xs × Distinct xs

abbrev pub In : Container → List Container → Type 0
In c [] = ⊥
In c (d ∷ cs) = (c ≡ d) ⊎ In c cs

abbrev pub ids : List Container → List Text
ids cs = map (λ c. c.id) cs

abbrev pub addrs : List Container → List ℕ
addrs cs = map (λ c. c.addr) cs

-- An id that was made of a number below `next`.
abbrev pub IsNumbered : ℕ → Text → Type 0
IsNumbered next id = (k : ℕ) × (k < next) × (id ≡ id_of k)

-- The state of the manager is in order: each container is sound, no two have the same id or the
-- same address, and every id was made of a number below the next one.
pub record IsOrderly (m : Manager) : Type 0 where
  pub sound : All IsSound m.containers
  pub distinct_ids : Distinct (ids m.containers)
  pub distinct_addrs : Distinct (addrs m.containers)
  pub numbered : All (IsNumbered m.next_sequence) (ids m.containers)
  pub small : m.next_sequence < 2 ^ 31

-- The list at a later time, with the same containers.
pub record Kept (cs cs' : List Container) : Type 0 where
  pub same_ids : ids cs' ≡ ids cs
  pub same_addrs : addrs cs' ≡ addrs cs
  pub still_sound : All IsSound cs → All IsSound cs'

pub Kept-refl : (cs : List Container) → Kept cs cs
Kept-refl cs = record { same_ids = refl; same_addrs = refl; still_sound = λ a. a }

Kept-cons :
    {c c' : Container} {cs cs' : List Container}
    → Keeps c c'
    → Kept cs cs'
    → Kept (c ∷ cs) (c' ∷ cs')
Kept-cons k r = record {
  same_ids = ap₂ (λ (x : Text) (xs : List Text). x ∷ xs) k.id r.same_ids;
  same_addrs = ap₂ (λ (x : ℕ) (xs : List ℕ). x ∷ xs) k.addr r.same_addrs;
  still_sound = λ a. (k.sound a.0, r.still_sound a.1);
}

Keeps-trans : {a b c : Container} → Keeps a b → Keeps b c → Keeps a c
Keeps-trans p q = record {
  id = q.id ∙ p.id;
  addr = q.addr ∙ p.addr;
  sound = λ s. q.sound (p.sound s);
}

poll_loop-Kept : (sys : System) (w : World) (cs : List Container) → Kept cs (poll_loop sys w cs).1
unfolding poll_loop
poll_loop-Kept sys w [] = Kept-refl []
poll_loop-Kept sys w (c ∷ cs) =
    let r = check_oom sys w c in
    Kept-cons (Keeps-trans (check_oom-Keeps sys w c) (sync_container_state-Keeps sys r.0 r.1))
      (poll_loop-Kept sys (sync_container_state sys r.0 r.1).0 cs)

-- A manager with the same containers at a later time is still in order.
pub IsOrderly-Kept :
    {m m' : Manager}
    → IsOrderly m
    → Kept m.containers m'.containers
    → m'.next_sequence ≡ m.next_sequence
    → IsOrderly m'
IsOrderly-Kept {m} {m'} v k e = record {
  sound = k.still_sound v.sound;
  distinct_ids = rw k.same_ids v.distinct_ids;
  distinct_addrs = rw k.same_addrs v.distinct_addrs;
  numbered = rw (k.same_ids, e) v.numbered;
  small = rw e v.small;
}

pub poll_states-IsOrderly :
    (sys : System) (m : Manager) → IsOrderly m → IsOrderly (poll_states sys m)
unfolding poll_states
poll_states-IsOrderly sys m v = IsOrderly-Kept v (poll_loop-Kept sys m.world m.containers) refl

find_id-In : (cs : List Container) (id : Text) (c : Container) → find_id cs id ≡ some c → In c cs
unfolding find_id
find_id-In [] id c e = cc
find_id-In (d ∷ cs) id c e = elim (Bool-cases (str_eq d.id id)) [
  | inl hit ↦ inl (ground arith)
  | inr miss ↦ inr (find_id-In cs id c (ground arith))
]

-- The best container so far is the result, or the result is in the list.
find_name-In :
    (cs : List Container) (id : Text) (best : Option Container) (c : Container)
    → find_name cs id best ≡ some c
    → (best ≡ some c) ⊎ In c cs
unfolding find_name
find_name-In [] id best c e = inl e
find_name-In (d ∷ cs) id best c e = elim (Bool-cases (str_eq d.name id)) [
  | inr other ↦ step_or (find_name-In cs id best c (rw other at e))
  | inl named ↦ elim (Bool-cases (is_live d.state)) [
    | inl live ↦ inr (inl (let same : some d ≡ some c = rw (named, live) at e in cc))
    | inr ended ↦ best_or best (find_name-In cs id (keep_best best d) c (rw (named, ended) at e))
  ]
]
  where
    step_or : (best ≡ some c) ⊎ In c cs → (best ≡ some c) ⊎ In c (d ∷ cs)
    step_or (inl b) = inl b
    step_or (inr i) = inr (inr i)

    best_or :
        (b : Option Container) → (keep_best b d ≡ some c) ⊎ In c cs → (b ≡ some c) ⊎ In c (d ∷ cs)
    best_or none (inl h) = inr (inl (cc))
    best_or (some x) (inl h) = inl h
    best_or b (inr i) = inr (inr i)

pub find_container-In :
    (cs : List Container) (id : Text) (c : Container) → find_container cs id ≡ some c → In c cs
unfolding find_container
find_container-In cs id c e = elim (Option-cases (find_id cs id)) [
  | inr (d, found) ↦ find_id-In cs id c (ground arith)
  | inl missing ↦ elim (find_name-In cs id none c (ground arith)) [ inl x ↦ cc | inr i ↦ i ]
]

-- The element at an address is the one that was found.
pub not-In_addr :
    (c : Container) (addr : ℕ) (cs : List Container)
    → All (λ a. addr ≢ a) (addrs cs)
    → In c cs
    → c.addr ≢ addr
not-In_addr c addr [] a i = absurd i
not-In_addr c addr (d ∷ cs) a (inl e) = λ h. a.0 (sym h ∙ ap (λ (x : Container). x.addr) e)
not-In_addr c addr (d ∷ cs) a (inr i) = not-In_addr c addr cs a.1 i

pub replace-Kept :
    (c c' : Container) (cs : List Container)
    → In c cs
    → Distinct (addrs cs)
    → Keeps c c'
    → Kept cs (replace c' cs)
unfolding replace
replace-Kept c c' [] i d k = absurd i
replace-Kept c c' (x ∷ cs) (inl e) d k =
    let here : (x.addr == c'.addr) ≡ true =
      (==_iff x.addr c'.addr).1 (ap (λ (y : Container). y.addr) (sym e) ∙ sym k.addr) in
    rw here (Kept-cons (subst (λ y. Keeps y c') e k) (Kept-refl cs))
replace-Kept c c' (x ∷ cs) (inr i) d k =
    let there : (x.addr == c'.addr) ≡ false =
      ground (arith, not-In_addr c x.addr cs d.0 i, k.addr) in
    rw there (Kept-cons (Keeps-refl x) (replace-Kept c c' cs i d.1 k))

-- A command that works on one container keeps the order, if it keeps that container.
pub on_container-IsOrderly :
    (sys : System) (op : World → Container → World × Container × Bool) (id : Text) (m : Manager)
    → ((w : World) (c : Container) → Keeps c (op w c).1)
    → IsOrderly m
    → IsOrderly (on_container sys op id m).0
unfolding on_container
on_container-IsOrderly sys op id m keeps v =
    let polled = poll_states sys m in
    let v' = poll_states-IsOrderly sys m v in
    elim (Bool-cases (is_empty id)) [
      | inl empty ↦ rw empty v
      | inr named ↦ elim (Option-cases (find_container polled.containers id)) [
        | inl missing ↦ rw (named, missing, on_container) v'
        | inr (c, found) ↦
            rw (named, found, on_container)
              (IsOrderly-Kept v'
                (replace-Kept c (op polled.world c).1 polled.containers
                  (find_container-In polled.containers id c found) v'.distinct_addrs
                  (keeps polled.world c))
                refl)
      ]
    ]
