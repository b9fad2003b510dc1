-- ===== src/Lifecycle/Registry.antt =====
-- `append_container` and `remove_container` of src/container.c on the linked structures
-- themselves, and the lists that they stand for. A pointer is a number, and 0 is NULL.
pub mod Append
pub mod Remove
pub mod Calls
mod Tests
use mathlib.Core.List.{append_assoc, append-nil}
use container_internals_simu.Prelude.{
  ℕ, zero, suc, ◌+◌, ◌≤◌, ◌<◌, ◌≡◌, ◌≢◌, refl, sym, ap, inl, inr, subst, true, false, List, [], ◌∷◌,
  ◌++◌, All, All-append, length, arith, ◌==◌, if◌then◌else◌, Bool-cases, ==_refl, ==_iff,
  length-append, All-append_right,
}

-- `head`, `tail` and the field `next` of every structure.
pub record Links : Type 0 where
  pub head : ℕ
  pub tail : ℕ
  pub next : ℕ → ℕ

unfoldable pub set_next : ℕ → ℕ → (ℕ → ℕ) → ℕ → ℕ
set_next p q next a = if a == p then q else next a

unfoldable pub append_container : ℕ → Links → Links
unfolding set_next
append_container c l =
    let next = set_next c 0 l.next in
    if l.tail == 0
    then record { head = c; tail = c; next = next }
    else record { head = l.head; tail = c; next = set_next l.tail c next }

-- The found structure is taken out behind `prev`.
unlink : ℕ → ℕ → Links → Links
unfolding set_next
unlink c prev l =
    let after = l.next c in
    record {
      head = if prev == 0 then after else l.head;
      tail = if l.tail == c then prev else l.tail;
      next = set_next c 0 (if prev == 0 then l.next else set_next prev after l.next);
    }

-- The loop, with the cursor and the structure before it.
remove_loop : ℕ → ℕ → ℕ → ℕ → Links → Links
unfolding unlink
remove_loop zero c prev cursor l = l
remove_loop (suc fuel) c prev cursor l =
    let later = remove_loop fuel c cursor (l.next cursor) l in
    if cursor == 0 then l else if cursor == c then unlink c prev l else later

-- `fuel` is a bound on the length of the list.
unfoldable pub remove_container : ℕ → ℕ → Links → Links
unfolding remove_loop
remove_container fuel c l = remove_loop fuel c 0 l.head l

-- From `p` the pointers lead through the structures of the list to `stop`.
abbrev pub Leads : (ℕ → ℕ) → ℕ → List ℕ → ℕ → Type 0
Leads next p [] stop = p ≡ stop
Leads next p (x ∷ xs) stop = (p ≡ x) × (0 < x) × Leads next (next x) xs stop

abbrev pub Separate : List ℕ → Type 0
Separate [] = Unit
Separate (x ∷ xs) = All (λ y. x ≢ y) xs × Separate xs

abbrev pub last_or : ℕ → List ℕ → ℕ
last_or p [] = p
last_or p (x ∷ xs) = last_or x xs

-- The links hold these structures, in this order.
pub record IsList (l : Links) (xs : List ℕ) : Type 0 where
  pub chain : Leads l.next l.head xs 0
  pub separate : Separate xs
  pub ends : l.tail ≡ last_or 0 xs

-- The list without a structure.
unfoldable pub without : ℕ → List ℕ → List ℕ
without c [] = []
without c (x ∷ xs) = if x == c then xs else x ∷ without c xs
