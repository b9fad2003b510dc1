-- ===== src/Lifecycle/Registry/Remove.antt =====
-- Removing a structure from the list.
use mathlib.Core.List.{append_assoc, append-nil}
use container_internals_simu.Prelude.{
  ℕ, zero, suc, ◌<◌, ◌≡◌, ◌≢◌, refl, sym, ap, inl, inr, subst, false, List, [], ◌∷◌, ◌++◌, All,
  length, arith, ◌==◌, if◌then◌else◌, Bool-cases, ==_refl, ==_iff, All-append_right,
}
use container_internals_simu.Lifecycle.Registry.{
  Links, set_next, unlink, remove_loop, remove_container, Leads, Separate, last_or, IsList, without,
}
use container_internals_simu.Lifecycle.Registry.Append.{Leads-set_next, last-ne, last-snoc}

-- What is known of a list with `c` between `ys` and `rest`.
Separate-mid :
    (ys rest : List ℕ) (c : ℕ)
    → Separate (ys ++ c ∷ rest)
    → Separate (ys ++ rest) × All (λ y. c ≢ y) rest
Separate-mid [] rest c s = (s.1, s.0)
Separate-mid (y ∷ ys) rest c s =
    let more = Separate-mid ys rest c s.1 in ((All-mid ys s.0, more.0), more.1)
  where
    All-mid : (zs : List ℕ) → All (λ z. y ≢ z) (zs ++ c ∷ rest) → All (λ z. y ≢ z) (zs ++ rest)
    All-mid [] a = a.1
    All-mid (z ∷ zs) a = (a.0, All-mid zs a.1)

All-left {ℓ κ} : {A : Type ℓ} (P : A → Type κ) (xs ys : List A) → All P (xs ++ ys) → All P xs
All-left P [] ys a = tt
All-left P (x ∷ xs) ys a = (a.0, All-left P xs ys a.1)

-- The structure before `c` is made to point behind it.
module _ (next : ℕ → ℕ) (c : ℕ) (rest : List ℕ) where
  Leads-relink :
      (p : ℕ) (ys : List ℕ)
      → Separate (p ∷ (ys ++ c ∷ rest))
      → Leads next (next p) (ys ++ c ∷ rest) 0
      → Leads
          (set_next c 0 (set_next (last_or p ys) (next c) next))
          (set_next c 0 (set_next (last_or p ys) (next c) next) p)
          (ys ++ rest)
          0
  unfolding set_next
  Leads-relink p [] s h =
      let relinked = set_next p (next c) next in
      let q : set_next c 0 relinked p ≡ next c = ground (arith, s.0.0) in
      subst (λ a. Leads (set_next c 0 relinked) a rest 0) (sym q)
        (Leads-set_next relinked (next c) c 0 rest 0 s.1.0
          (Leads-set_next next (next c) p (next c) rest 0 s.0.1 h.2))
  Leads-relink p (y ∷ ys) s h =
      let apart = All-left (λ z. p ≢ z) (y ∷ ys) (c ∷ rest) s.0 in
      let other : p ≢ c = (All-append_right (λ z. p ≢ z) (y ∷ ys) (c ∷ rest) s.0).0 in
      (ground (arith, other, last-ne p y ys apart, h.0), h.1, Leads-relink y ys s.1 h.2)

last-append : (p c : ℕ) (ys rest : List ℕ) → last_or p (ys ++ c ∷ rest) ≡ last_or c rest
last-append p c [] rest = refl
last-append p c (y ∷ ys) rest = last-append y c ys rest

-- The tail once `c` is gone.
tail-without :
    (ys rest : List ℕ) (c : ℕ)
    → All (λ y. c ≢ y) rest
    → (if last_or 0 (ys ++ c ∷ rest) == c then last_or 0 ys else last_or 0 (ys ++ c ∷ rest))
      ≡ last_or 0 (ys ++ rest)
tail-without ys [] c n =
    rw (last-append 0 c ys [], ==_refl c) (ap (last_or 0) (sym (append-nil ys)))
tail-without ys (x ∷ rest) c n =
    let miss : (last_or x rest == c) ≡ false = ground (arith, last-ne c x rest n) in
    rw (last-append 0 c ys (x ∷ rest), miss, last-append 0 x ys rest) refl

prev-pos :
    (next : ℕ → ℕ) (p y : ℕ) (ys rest : List ℕ) → Leads next p (y ∷ ys ++ rest) 0 → 0 < last_or y ys
prev-pos next p y [] rest h = h.1
prev-pos next p y (z ∷ ys) rest h = prev-pos next (next y) z ys rest h.2

unlink-IsList :
    (l : Links) (ys rest : List ℕ) (c : ℕ)
    → IsList l (ys ++ c ∷ rest)
    → IsList (unlink c (last_or 0 ys) l) (ys ++ rest)
unfolding unlink
unlink-IsList l [] rest c v =
    let e : unlink c 0 l ≡ record {
      head = l.next c;
      tail = if l.tail == c then 0 else l.tail;
      next = set_next c 0 l.next;
    } =
      refl in
    subst (λ k. IsList k rest) (sym e)
      (record {
        chain = Leads-set_next l.next (l.next c) c 0 rest 0 v.separate.0 v.chain.2;
        separate = v.separate.1;
        ends =
            subst (λ t. (if t == c then 0 else t) ≡ last_or 0 rest) (sym v.ends)
              (tail-without [] rest c v.separate.0);
      })
unlink-IsList l (y ∷ ys) rest c v =
    let some_prev : (last_or y ys == 0) ≡ false =
      ground (arith, prev-pos l.next l.head y ys (c ∷ rest) v.chain) in
    let e : unlink c (last_or y ys) l ≡ record {
      head = l.head;
      tail = if l.tail == c then last_or y ys else l.tail;
      next = set_next c 0 (set_next (last_or y ys) (l.next c) l.next);
    } =
      rw some_prev refl in
    subst (λ k. IsList k (y ∷ ys ++ rest)) (sym e)
      (record {
        chain = (v.chain.0, v.chain.1, Leads-relink l.next c rest y ys v.separate v.chain.2);
        separate = (Separate-mid (y ∷ ys) rest c v.separate).0;
        ends =
            subst (λ t. (if t == c then last_or y ys else t) ≡ last_or y (ys ++ rest)) (sym v.ends)
              (tail-without (y ∷ ys) rest c (Separate-mid (y ∷ ys) rest c v.separate).1);
      })

remove_loop-IsList :
    (fuel c cursor : ℕ) (l : Links) (ys zs : List ℕ)
    → IsList l (ys ++ zs)
    → Leads l.next cursor zs 0
    → length zs < fuel
    → IsList (remove_loop fuel c (last_or 0 ys) cursor l) (ys ++ without c zs)
unfolding remove_loop without
remove_loop-IsList zero c cursor l ys zs v h enough = absurd (omega arith)
remove_loop-IsList (suc fuel) c cursor l ys [] v h enough = rw h v
remove_loop-IsList (suc fuel) c cursor l ys (x ∷ zs) v h enough =
    let here : (x == 0) ≡ false = ground (arith, h.1) in
    rw h.0 (elim (Bool-cases (x == c)) [
      | inl hit ↦
          let e : x ≡ c = (==_iff x c).0 hit in
          rw (here, hit)
            (subst (λ d. IsList (unlink d (last_or 0 ys) l) (ys ++ zs)) e
              (unlink-IsList l ys zs x v))
      | inr miss ↦
          let r =
            remove_loop-IsList fuel c (l.next x) l (ys ++ x ∷ []) zs
              (subst (IsList l) (sym (append_assoc ys (x ∷ []) zs)) v) h.2 (omega arith) in
          rw (here, miss)
            (subst (IsList (remove_loop fuel c x (l.next x) l))
              (append_assoc ys (x ∷ []) (without c zs))
              (subst
                (λ q. IsList (remove_loop fuel c q (l.next x) l) ((ys ++ x ∷ []) ++ without c zs))
                (last-snoc 0 x ys) r))
    ])

-- Removing a structure takes it out of the list and leaves the others in their order; a structure
-- that is not in the list changes nothing. `fuel` must exceed the length of the list.
pub remove_container-IsList :
    (fuel c : ℕ) (l : Links) (xs : List ℕ)
    → IsList l xs
    → length xs < fuel
    → IsList (remove_container fuel c l) (without c xs)
unfolding remove_container
remove_container-IsList fuel c l xs v enough =
    remove_loop-IsList fuel c l.head l [] xs v v.chain enough
