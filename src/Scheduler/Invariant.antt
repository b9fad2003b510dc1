-- ===== src/Scheduler/Invariant.antt =====
-- What holds of the scheduler between two critical sections, whatever calls and thread rounds run
-- in whatever order.
use mathlib.Core.List.{Mem, Nodup, Nodup-nil, Nodup-cons, perm_middle, append-nil}
use mathlib.Core.List.Perm
use container_internals_simu.Prelude.{
  ℕ, ◌+◌, ◌-◌, ◌^◌, ◌≤◌, ◌<◌, ◌≡◌, ◌⊎◌, inl, inr, refl, sym, subst, ◌∙◌, Bool, true, Option, none,
  some, List, [], ◌∷◌, ◌++◌, arith, length, length-set,
}
use container_internals_simu.Prelude.Int.{ℤ}
use container_internals_simu.Scheduler.{
  Scheduler, Os, Status, target, init, clamp_index, pid_is_alive, prune_dead, thread_round, start,
  request_stop, finish_stop, set_enabled, set_time_slice_ms, find_target, append_target, add_target,
  remove_at, remove_target, clear_targets,
}
use container_internals_simu.Scheduler.Window.{window, Nodup-keep}
use container_internals_simu.Scheduler.Prune.{
  window-prune_dead, length-prune_dead, prune_dead_count,
}
use container_internals_simu.Scheduler.Capacity.{ensure_capacity_frame}
use container_internals_simu.Scheduler.Targets.{IsAllocated, add_target_cases, remove_target_cases}

pub record IsValid (s : Scheduler) : Type 0 where
  pub array : IsAllocated s
  pub index_in : (s.current_index < s.target_count) ⊎ (s.current_index ≡ 0)
  pub distinct : Nodup (window s)
  pub slice_pos : 0 < s.time_slice_ms
  pub stop_started : s.stop_requested ≡ true → s.thread_started ≡ true

-- One critical section: a call, or a round of the scheduler's thread, with the system's answers.
pub data Op : Type 0 where
  starts : Bool → Option ℕ → Op
  requests_stop finishes_stop clears : Op
  sets_enabled : Bool → Op
  sets_slice : ℕ → Op
  adds : Os → ℤ → Op
  removes : ℤ → Op
  rounds : Os → Op

unfoldable pub step : Op → Scheduler → Scheduler
step (starts created config) s = (start created config s).0
step requests_stop s = (request_stop s).0
step finishes_stop s = finish_stop s
step clears s = clear_targets s
step (sets_enabled b) s = set_enabled b s
step (sets_slice slice) s = (set_time_slice_ms slice s).0
step (adds os pid) s = (add_target os pid s).0
step (removes pid) s = (remove_target pid s).0
step (rounds os) s = (thread_round os s).0

unfoldable pub run : List Op → Scheduler → Scheduler
run [] s = s
run (op ∷ ops) s = run ops (step op s)

pub init-IsValid : IsValid init
unfolding init
init-IsValid = record {
  array = omega arith;
  index_in = inr refl;
  distinct = Nodup-nil;
  slice_pos = omega arith;
  stop_started = λ e. cc;
}

pub prune_dead-frame :
    (os : Os) (s : Scheduler)
    → let t = prune_dead os s in
      (t.target_capacity ≡ s.target_capacity)
      × (t.time_slice_ms ≡ s.time_slice_ms)
      × (t.thread_started ≡ s.thread_started)
      × (t.stop_requested ≡ s.stop_requested)
      × ((t.current_index < t.target_count) ⊎ (t.current_index ≡ 0))
unfolding prune_dead
prune_dead-frame os s = ground arith

pub prune_dead_index :
    (os : Os) (s : Scheduler)
    → (prune_dead os s).current_index ≡ clamp_index s.current_index (prune_dead os s).target_count
unfolding prune_dead
prune_dead_index os s = refl

pub prune_dead_enabled : (os : Os) (s : Scheduler) → (prune_dead os s).enabled ≡ s.enabled
unfolding prune_dead
prune_dead_enabled os s = refl

pub prune_dead-IsValid : (os : Os) (s : Scheduler) → IsValid s → IsValid (prune_dead os s)
prune_dead-IsValid os s v =
    let frame = prune_dead-frame os s in
    record {
      array = record {
        allocated = length-prune_dead os s ∙ v.array.allocated ∙ sym frame.0;
        count_fits = omega (arith, prune_dead_count os s);
      };
      index_in = frame.4;
      distinct =
          subst Nodup (sym (window-prune_dead os s (omega arith)))
            (Nodup-keep (pid_is_alive os.probe) (window s) v.distinct);
      slice_pos = omega arith;
      stop_started = λ e. frame.2 ∙ v.stop_started (sym frame.3 ∙ e);
    }

add_target-frame :
    (os : Os) (pid : ℤ) (s : Scheduler)
    → let t = (add_target os pid s).0 in
      (t.time_slice_ms ≡ s.time_slice_ms)
      × (t.current_index ≡ s.current_index)
      × (t.thread_started ≡ s.thread_started)
      × (t.stop_requested ≡ s.stop_requested)
      × (s.target_count ≤ t.target_count)
      × (t.target_count ≤ s.target_count + 1)
unfolding add_target append_target
add_target-frame os pid s = ground (arith, ensure_capacity_frame os (s.target_count + 1) s)

remove_target-frame :
    (pid : ℤ) (s : Scheduler)
    → let t = (remove_target pid s).0 in
      (t.time_slice_ms ≡ s.time_slice_ms)
      × ((t.current_index < t.target_count) ⊎ (t.current_index ≡ 0))
      × (t.thread_started ≡ s.thread_started)
      × (t.stop_requested ≡ s.stop_requested)
      × (t.target_count ≤ s.target_count)
unfolding remove_target remove_at
remove_target-frame pid s = ground arith

-- A round with something to switch moves the index within the window.
pub thread_round-IsValid : (os : Os) (s : Scheduler) → IsValid s → IsValid (thread_round os s).0
unfolding thread_round
thread_round-IsValid os s v = ground (arith, prune_dead-IsValid os s v)

Nodup-snoc : (xs : List ℤ) (x : ℤ) → ¬ Mem x xs → Nodup xs → Nodup (xs ++ x ∷ [])
Nodup-snoc xs x m d =
    Perm.nodup (Perm.symm (perm_middle xs [])) (rw (append-nil xs) (Nodup-cons.1 (m, d)))

add_target-IsValid :
    (os : Os) (pid : ℤ) (s : Scheduler)
    → s.target_count < 2 ^ 60
    → IsValid s
    → IsValid (add_target os pid s).0
add_target-IsValid os pid s small v = elim (add_target_cases os pid s v.array small) [
  | inl (_, e) ↦ subst (λ (r : Scheduler × Status). IsValid r.0) (sym e) v
  | inr (inl (_, e)) ↦ subst (λ (r : Scheduler × Status). IsValid r.0) (sym e) v
  | inr (inr (m, _, w, a)) ↦
      let (slice, index, started, stopped, more, _) = add_target-frame os pid s in
      record {
        array = a;
        index_in = omega arith;
        distinct = subst Nodup (sym w) (Nodup-snoc (window s) pid m v.distinct);
        slice_pos = omega arith;
        stop_started = λ e. started ∙ v.stop_started (sym stopped ∙ e);
      }
]

remove_at-array : (o : Option ℕ) (s : Scheduler) → IsAllocated s → IsAllocated (remove_at o s)
unfolding remove_at
remove_at-array none s v = v
remove_at-array (some i) s v =
    omega (arith, length-set s.targets i (target s.targets (s.target_count - 1)))

remove_target-array :
    (pid : ℤ) (s : Scheduler) → IsAllocated s → IsAllocated (remove_target pid s).0
unfolding remove_target
remove_target-array pid s v =
    ground (arith, remove_at-array (find_target s.target_count 0 s.targets pid) s v)

remove_target-IsValid : (pid : ℤ) (s : Scheduler) → IsValid s → IsValid (remove_target pid s).0
remove_target-IsValid pid s v =
    let (slice, index, started, stopped, _) = remove_target-frame pid s in
    record {
      array = remove_target-array pid s v.array;
      index_in = index;
      distinct = elim (remove_target_cases pid s v.array) [
        | inl (_, _, w) ↦ subst Nodup (sym w) v.distinct
        | inr (_, p) ↦ (Nodup-cons.0 (Perm.nodup p v.distinct)).1
      ];
      slice_pos = omega arith;
      stop_started = λ e. started ∙ v.stop_started (sym stopped ∙ e);
    }

-- Every critical section keeps the invariant.
pub step-IsValid :
    (op : Op) (s : Scheduler) → s.target_count < 2 ^ 60 → IsValid s → IsValid (step op s)
unfolding step start request_stop finish_stop set_enabled set_time_slice_ms clear_targets
step-IsValid (starts created none) s small v = v
step-IsValid (starts created (some slice)) s small v = ground arith
step-IsValid requests_stop s small v = ground arith
step-IsValid finishes_stop s small v = ground arith
step-IsValid clears s small v = record {
  array = record { allocated = v.array.allocated; count_fits = omega arith };
  index_in = inr refl;
  distinct = Nodup-nil;
  slice_pos = v.slice_pos;
  stop_started = v.stop_started;
}
step-IsValid (sets_enabled b) s small v = ground arith
step-IsValid (sets_slice slice) s small v = ground arith
step-IsValid (adds os pid) s small v = add_target-IsValid os pid s small v
step-IsValid (removes pid) s small v = remove_target-IsValid pid s v
step-IsValid (rounds os) s small v = thread_round-IsValid os s v

target_count-step : (op : Op) (s : Scheduler) → (step op s).target_count ≤ s.target_count + 1
unfolding step start request_stop finish_stop set_enabled set_time_slice_ms clear_targets
    thread_round
target_count-step (starts created none) s = omega arith
target_count-step (starts created (some slice)) s = ground arith
target_count-step requests_stop s = ground arith
target_count-step finishes_stop s = omega arith
target_count-step clears s = omega arith
target_count-step (sets_enabled b) s = omega arith
target_count-step (sets_slice slice) s = ground arith
target_count-step (adds os pid) s = omega (arith, add_target-frame os pid s)
target_count-step (removes pid) s = omega (arith, remove_target-frame pid s)
target_count-step (rounds os) s = ground (arith, prune_dead_count os s)

run-IsValid :
    (ops : List Op) (s : Scheduler)
    → s.target_count + length ops ≤ 2 ^ 60
    → IsValid s
    → IsValid (run ops s)
unfolding run
run-IsValid [] s small v = v
run-IsValid (op ∷ ops) s small v =
    run-IsValid ops (step op s) (omega (arith, target_count-step op s))
      (step-IsValid op s (omega arith) v)

-- From the initial state, any interleaving of at most 2^60 critical sections (calls and rounds
-- of the thread, with any answers of the system) keeps the scheduler well formed: the array is
-- as long as its capacity and holds the targets, the current index lies in the window or is 0,
-- no pid is scheduled twice, the time slice is positive, and a stop is only asked of a thread
-- that was started.
pub run-init-IsValid : (ops : List Op) → length ops ≤ 2 ^ 60 → IsValid (run ops init)
unfolding init
run-init-IsValid ops small = run-IsValid ops init (omega arith) init-IsValid
