-- ===== src/Lifecycle/Removal.antt =====
-- What `remove` leaves of a list of containers with distinct addresses.
use container_internals_simu.Prelude.{
  ℕ, ◌≡◌, ◌≢◌, sym, ap, inl, inr, true, false, List, [], ◌∷◌, map, All, arith, ◌==◌, Bool-cases,
  subst, ==_iff,
}
use container_internals_simu.Container.{Container}
use container_internals_simu.Lifecycle.Commands.{remove_by_addr}
use container_internals_simu.Lifecycle.Invariant.{Distinct, In, addrs, not-In_addr}

module _ {ℓ} {B : Type ℓ} (f : Container → B) where
  pub remove_by_addr-All {κ} :
      (P : B → Type κ) (addr : ℕ) (cs : List Container)
      → All P (map f cs)
      → All P (map f (remove_by_addr addr cs))
  unfolding remove_by_addr
  remove_by_addr-All P addr [] a = a
  remove_by_addr-All P addr (d ∷ cs) a = elim (Bool-cases (d.addr == addr)) [
    | inl hit ↦ rw hit a.1
    | inr miss ↦ rw miss (a.0, remove_by_addr-All P addr cs a.1)
  ]

  pub remove_by_addr-Distinct :
      (addr : ℕ) (cs : List Container)
      → Distinct (map f cs)
      → Distinct (map f (remove_by_addr addr cs))
  unfolding remove_by_addr
  remove_by_addr-Distinct addr [] d = d
  remove_by_addr-Distinct addr (x ∷ cs) d = elim (Bool-cases (x.addr == addr)) [
    | inl hit ↦ rw hit d.1
    | inr miss ↦
        rw miss (remove_by_addr-All (λ y. f x ≢ y) addr cs d.0, remove_by_addr-Distinct addr cs d.1)
  ]

  pub All-In {κ} :
      (P : B → Type κ) (c : Container) (cs : List Container) → All P (map f cs) → In c cs → P (f c)
  All-In P c [] a i = absurd i
  All-In P c (d ∷ cs) a (inl e) = subst (λ x. P (f x)) (sym e) a.0
  All-In P c (d ∷ cs) a (inr i) = All-In P c cs a.1 i

  All-sym : (x : B) (ys : List B) → All (λ y. x ≢ y) ys → All (λ y. y ≢ x) ys
  All-sym x [] a = tt
  All-sym x (y ∷ ys) a = (λ e. a.0 (sym e), All-sym x ys a.1)

  -- The container that is removed is not left anywhere.
  pub remove_by_addr-gone :
      (c : Container) (cs : List Container)
      → In c cs
      → Distinct (addrs cs)
      → Distinct (map f cs)
      → All (λ y. y ≢ f c) (map f (remove_by_addr c.addr cs))
  unfolding remove_by_addr
  remove_by_addr-gone c [] i da d = tt
  remove_by_addr-gone c (x ∷ cs) (inl e) da d =
      let here : (x.addr == c.addr) ≡ true =
        (==_iff x.addr c.addr).1 (ap (λ (y : Container). y.addr) (sym e)) in
      rw here (subst (λ y. All (λ z. z ≢ f y) (map f cs)) (sym e) (All-sym (f x) (map f cs) d.0))
  remove_by_addr-gone c (x ∷ cs) (inr i) da d =
      let there : (x.addr == c.addr) ≡ false = ground (arith, not-In_addr c x.addr cs da.0 i) in
      rw there (All-In (λ y. f x ≢ y) c cs d.0 i, remove_by_addr-gone c cs i da.1 d.1)
