-- ===== src/Orchestrator/Topo/Queue.antt =====
-- The queue of `topo_sort`: each service at most once, behind everything it depends on.
use native.Mathlib.Decide.{ℕ_discrete}
use container_internals_simu.Prelude.{
  ℕ, zero, suc, ◌+◌, ◌≤◌, ◌<◌, ◌≡◌, ◌≢◌, refl, ◌∙◌, inl, inr, Bool, true, false, List, [], ◌∷◌,
  ◌++◌, length, get_or, take, if◌then◌else◌, arith, Option-cases, take-append_left,
  take-append_length, get_or-append_left, get_or-append_length, length-append,
}
use container_internals_simu.Prelude.Text.{Text}
use container_internals_simu.Orchestrator.Types.{Spec, count, service, max_services, max_deps}
use container_internals_simu.Orchestrator.Topo.{find_svc}
use container_internals_simu.Orchestrator.Topo.Count.{elem, left, elem-append}

abbrev pub deps_of : Spec → ℕ → List Text
deps_of spec i = (service spec i).deps

-- The bounds of the arrays in the C types.
pub record IsBounded (spec : Spec) : Type 0 where
  pub few : count spec ≤ max_services
  pub few_deps : (i : ℕ) → length (deps_of spec i) ≤ max_deps

-- How many numbers below `n` are not in the list.
unfoldable pub waiting : ℕ → List ℕ → ℕ
waiting zero queue = 0
waiting (suc n) queue = (if elem n queue then 0 else 1) + waiting n queue

pub waiting_nil : (n : ℕ) → waiting n [] ≡ n
unfolding waiting
waiting_nil zero = refl
waiting_nil (suc n) = omega (arith, waiting_nil n)

waiting_above : (n x : ℕ) (queue : List ℕ) → n ≤ x → waiting n (queue ++ x ∷ []) ≡ waiting n queue
unfolding waiting
waiting_above zero x queue h = refl
waiting_above (suc n) x queue h =
    ground (arith, waiting_above n x queue, elem-append n queue (x ∷ []))

waiting-snoc :
    (n x : ℕ) (queue : List ℕ)
    → x < n
    → elem x queue ≡ false
    → waiting n queue ≡ suc (waiting n (queue ++ x ∷ []))
unfolding waiting
waiting-snoc zero x queue h fresh = absurd (omega arith)
waiting-snoc (suc n) x queue h fresh = elim (ℕ_discrete n x) [
  | yes e ↦ ground (arith, waiting_above n x queue, elem-append n queue (x ∷ []), e)
  | no ne ↦ ground (arith, waiting-snoc n x queue, elem-append n queue (x ∷ []), ne)
]

pub waiting_all :
    (n : ℕ) (queue : List ℕ) → ((i : ℕ) → i < n → elem i queue ≡ true) → waiting n queue ≡ 0
unfolding waiting
waiting_all zero queue h = refl
waiting_all (suc n) queue h =
    rw (h n (omega arith)) (omega (arith, waiting_all n queue (λ i lt. h i (omega arith))))

pub waiting_none :
    (n : ℕ) (queue : List ℕ) → waiting n queue ≡ 0 → (i : ℕ) → i < n → elem i queue ≡ true
unfolding waiting
waiting_none zero queue h i lt = absurd (omega arith)
waiting_none (suc n) queue h i lt = elim (ℕ_discrete i n) [
  | yes e ↦ ground (arith, e, h)
  | no ne ↦ waiting_none n queue (ground (arith, h)) i (omega (arith, ne))
]

-- With more services started, no more dependencies wait.
pub left_mono :
    (spec : Spec) (few many : List ℕ) (ds : List Text)
    → ((x : ℕ) → elem x few ≡ true → elem x many ≡ true)
    → left spec many ds ≤ left spec few ds
unfolding left
left_mono spec few many [] h = omega arith
left_mono spec few many (d ∷ ds) h = elim (Option-cases (find_svc spec d)) [
  | inl e ↦ rw e (omega (arith, left_mono spec few many ds h))
  | inr (j, e) ↦ rw e (ground (arith, left_mono spec few many ds h, h j))
]

pub left_le : (spec : Spec) (order : List ℕ) (ds : List Text) → left spec order ds ≤ length ds
unfolding left
left_le spec order [] = omega arith
left_le spec order (d ∷ ds) = elim (Option-cases (find_svc spec d)) [
  | inl e ↦ rw e (omega (arith, left_le spec order ds))
  | inr (j, e) ↦ rw e (ground (arith, left_le spec order ds))
]

pub elem-take : (k x : ℕ) (xs : List ℕ) → elem x (take k xs) ≡ true → elem x xs ≡ true
elem-take zero x xs h = absurd (ground (arith, h))
elem-take (suc k) x [] h = h
elem-take (suc k) x (y ∷ ys) h = ground (arith, elem-take k x ys, h)

-- A queue that holds the services that are ready.
pub record IsQueue (spec : Spec) (ready : ℕ → Bool) (queue : List ℕ) : Type 0 where
  pub members : (j : ℕ) → elem j queue ≡ ready j
  pub room : length queue + waiting (count spec) queue ≡ count spec
  pub once : (p : ℕ) → p < length queue → elem (get_or queue p 0) (take p queue) ≡ false
  pub behind :
      (p : ℕ) → p < length queue → left spec (take p queue) (deps_of spec (get_or queue p 0)) ≡ 0

pub IsQueue-same :
    (spec : Spec) (ready ready' : ℕ → Bool) (queue : List ℕ)
    → IsQueue spec ready queue
    → ((j : ℕ) → ready j ≡ ready' j)
    → IsQueue spec ready' queue
IsQueue-same spec ready ready' queue q same = record {
  members = λ j. q.members j ∙ same j;
  room = q.room;
  once = q.once;
  behind = q.behind;
}

-- What holds of each entry and the entries before it still holds when one more that has it is
-- appended.
snoc_entries :
    (P : List ℕ → ℕ → Type 0) (queue : List ℕ) (i : ℕ)
    → ((p : ℕ) → p < length queue → P (take p queue) (get_or queue p 0))
    → P queue i
    → (p : ℕ) → p < length (queue ++ i ∷ [])
    → P (take p (queue ++ i ∷ [])) (get_or (queue ++ i ∷ []) p 0)
snoc_entries P queue i old new p lt = elim (ℕ_discrete p (length queue)) [
  | yes e ↦ rw (e, take-append_length queue (i ∷ []), get_or-append_length queue [] i 0) new
  | no ne ↦
      let in_old : p < length queue = omega (arith, length-append queue (i ∷ []), ne) in
      rw
        (
          take-append_left p queue (i ∷ []) (omega arith),
          get_or-append_left queue (i ∷ []) p 0 in_old,
        )
        (old p in_old)
]

pub IsQueue-push :
    (spec : Spec) (ready ready' : ℕ → Bool) (queue : List ℕ) (i : ℕ)
    → IsQueue spec ready queue
    → i < count spec
    → ready i ≡ false
    → left spec queue (deps_of spec i) ≡ 0
    → ready' i ≡ true
    → ((j : ℕ) → j ≢ i → ready j ≡ ready' j)
    → IsQueue spec ready' (queue ++ i ∷ [])
IsQueue-push spec ready ready' queue i q lt fresh met now same = record {
  members = λ j. elem-append j queue (i ∷ []) ∙ elim (ℕ_discrete j i) [
    | yes e ↦ rw (e, q.members i, fresh, now) (ground arith)
    | no ne ↦ rw (q.members j, ← same j ne) (ground (arith, ne))
  ];
  room = omega (
    arith,
    q.room,
    length-append queue (i ∷ []),
    waiting-snoc (count spec) i queue lt (q.members i ∙ fresh),
  );
  once = snoc_entries (λ before x. elem x before ≡ false) queue i q.once (q.members i ∙ fresh);
  behind = snoc_entries (λ before x. left spec before (deps_of spec x) ≡ 0) queue i q.behind met;
}
