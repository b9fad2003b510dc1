-- ===== src/Lifecycle/Registry/Append.antt =====
-- Appending a structure to the list.
use container_internals_simu.Prelude.{
  ℕ, ◌<◌, ◌≡◌, ◌≢◌, refl, sym, subst, true, false, List, [], ◌∷◌, ◌++◌, All, All-append, arith,
  ◌==◌,
}
use container_internals_simu.Lifecycle.Registry.{
  Links, set_next, append_container, Leads, Separate, last_or, IsList,
}

-- A write at another structure does not matter.
pub Leads-set_next :
    (next : ℕ → ℕ) (p a b : ℕ) (xs : List ℕ) (stop : ℕ)
    → All (λ y. a ≢ y) xs
    → Leads next p xs stop
    → Leads (set_next a b next) p xs stop
unfolding set_next
Leads-set_next next p a b [] stop n h = h
Leads-set_next next p a b (x ∷ xs) stop n h =
    let other : (x == a) ≡ false = ground (arith, n.0) in
    (h.0, h.1, rw other (Leads-set_next next (next x) a b xs stop n.1 h.2))

pub last-ne : (p x : ℕ) (xs : List ℕ) → All (λ y. p ≢ y) (x ∷ xs) → p ≢ last_or x xs
last-ne p x [] n = n.0
last-ne p x (y ∷ xs) n = last-ne p y xs n.1

-- The last structure is made to point at a new one, behind which the list ends.
module _ (next : ℕ → ℕ) (c : ℕ) (pos : 0 < c) where
  Leads-snoc :
      (p : ℕ) (xs : List ℕ)
      → Separate (p ∷ xs)
      → All (λ y. c ≢ y) (p ∷ xs)
      → Leads next (next p) xs 0
      → Leads
          (set_next (last_or p xs) c (set_next c 0 next))
          (set_next (last_or p xs) c (set_next c 0 next) p)
          (xs ++ c ∷ [])
          0
  unfolding set_next
  Leads-snoc p [] s n h = (ground arith, pos, ground (arith, n.0))
  Leads-snoc p (x ∷ xs) s n h =
      (ground (arith, n.0, last-ne p x xs s.0, h.0), h.1, Leads-snoc x xs s.1 n.1 h.2)

last-pos : (next : ℕ → ℕ) (p x : ℕ) (xs : List ℕ) → Leads next p (x ∷ xs) 0 → 0 < last_or x xs
last-pos next p x [] h = h.1
last-pos next p x (y ∷ xs) h = last-pos next (next x) y xs h.2

Separate-snoc : (xs : List ℕ) (c : ℕ) → Separate xs → All (λ y. c ≢ y) xs → Separate (xs ++ c ∷ [])
Separate-snoc [] c s n = (tt, tt)
Separate-snoc (x ∷ xs) c s n =
    (All-append (λ y. x ≢ y) xs (c ∷ []) s.0 (λ e. n.0 (sym e), tt), Separate-snoc xs c s.1 n.1)

pub last-snoc : (p c : ℕ) (xs : List ℕ) → last_or p (xs ++ c ∷ []) ≡ c
last-snoc p c [] = refl
last-snoc p c (x ∷ xs) = last-snoc x c xs

-- Appending a structure that is not in the list puts it behind all others.
pub append_container-IsList :
    (l : Links) (xs : List ℕ) (c : ℕ)
    → IsList l xs
    → 0 < c
    → All (λ y. c ≢ y) xs
    → IsList (append_container c l) (xs ++ c ∷ [])
unfolding append_container set_next
append_container-IsList l [] c v pos new =
    let empty : (l.tail == 0) ≡ true = ground (arith, v.ends) in
    record { chain = rw empty (refl, pos, ground arith); separate = (tt, tt); ends = rw empty refl }
append_container-IsList l (x ∷ xs) c v pos new =
    let full : (l.tail == 0) ≡ false =
      ground (arith, v.ends, last-pos l.next l.head x xs v.chain) in
    let next : ℕ → ℕ = set_next l.tail c (set_next c 0 l.next) in
    let e : append_container c l ≡ record { head = l.head; tail = c; next = next } = rw full refl in
    subst (λ k. IsList k (x ∷ xs ++ c ∷ [])) (sym e)
      (record {
        chain = (
          v.chain.0,
          v.chain.1,
          subst
              (λ t.
                Leads (set_next t c (set_next c 0 l.next)) (set_next t c (set_next c 0 l.next) x)
                  (xs ++ c ∷ []) 0)
              (sym v.ends) (Leads-snoc l.next c pos x xs v.separate new v.chain.2),
        );
        separate = Separate-snoc (x ∷ xs) c v.separate new;
        ends = sym (last-snoc x c xs);
      })
