-- ===== src/Container/Find.antt =====
-- What `find_container` prefers.
use container_internals_simu.Prelude.{
  ◌≡◌, refl, ◌∙◌, inl, inr, Bool, true, Option, none, some, List, [], ◌∷◌, Bool-cases,
  if◌then◌else◌, ◌&&◌, false,
}
use container_internals_simu.Prelude.Text.{Text, str_eq}
use container_internals_simu.Container.{
  Container, ContainerState, state_created, state_running, state_paused, state_stopped, is_live,
  find_id, keep_best, find_name, or_else, find_container,
}

-- The first container that passes.
abbrev pub first_such : (Container → Bool) → List Container → Option Container
first_such p [] = none
first_such p (c ∷ rest) = if p c then some c else first_such p rest

-- The container runs or is paused.
abbrev pub has_process : Container → Bool
has_process c = elim c.state [
  | state_created ↦ false
  | state_running ↦ true
  | state_paused ↦ true
  | state_stopped ↦ false
]

-- The first container of that name among those that pass.
abbrev first_named : (Container → Bool) → List Container → Text → Option Container
first_named p [] id = none
first_named p (c ∷ rest) id =
    if str_eq c.name id
    then (if p c then some c else first_named p rest id)
    else first_named p rest id

find_name-eq :
    (registry : List Container) (id : Text) (best : Option Container)
    → find_name registry id best
      ≡ or_else
          (first_named (λ c. is_live c.state) registry id)
          (or_else best (first_named (λ c. true) registry id))
unfolding find_name
find_name-eq [] id none = refl
find_name-eq [] id (some best) = refl
find_name-eq (c ∷ rest) id best = elim (Bool-cases (str_eq c.name id)) [
  | inr other ↦ rw other (find_name-eq rest id best)
  | inl named ↦ elim (Bool-cases (is_live c.state)) [
    | inl live ↦ rw (named, live) refl
    | inr ended ↦ rw (named, ended) (find_name-eq rest id (keep_best best c) ∙ rest_case best)
  ]
]
  where
    rest_case :
        (b : Option Container)
        → or_else
            (first_named (λ x. is_live x.state) rest id)
            (or_else (keep_best b c) (first_named (λ x. true) rest id))
          ≡ or_else (first_named (λ x. is_live x.state) rest id) (or_else b (some c))
    rest_case none = refl
    rest_case (some x) = refl

find_id-first_such :
    (registry : List Container) (id : Text)
    → find_id registry id ≡ first_such (λ c. str_eq c.id id) registry
unfolding find_id
find_id-first_such [] id = refl
find_id-first_such (c ∷ rest) id = rw (find_id-first_such rest id) refl

is_live-has_process : (c : Container) → is_live c.state ≡ has_process c
is_live-has_process c = by_state c.state refl
  where
    by_state : (s : ContainerState) → c.state ≡ s → is_live c.state ≡ has_process c
    by_state state_created e = rw e refl
    by_state state_running e = rw e refl
    by_state state_paused e = rw e refl
    by_state state_stopped e = rw e refl

first_named-live :
    (registry : List Container) (id : Text)
    → first_named (λ c. is_live c.state) registry id
      ≡ first_such (λ c. str_eq c.name id && has_process c) registry
first_named-live [] id = refl
first_named-live (c ∷ rest) id = elim (Bool-cases (str_eq c.name id)) [
  | inl named ↦ rw (named, is_live-has_process c, first_named-live rest id) refl
  | inr other ↦ rw (other, first_named-live rest id) refl
]

first_named-any :
    (registry : List Container) (id : Text)
    → first_named (λ c. true) registry id ≡ first_such (λ c. str_eq c.name id) registry
first_named-any [] id = refl
first_named-any (c ∷ rest) id = rw (first_named-any rest id) refl

-- The container found is the first of the list with this id; if there is none, the first of this
-- name that is running or paused; else the first of this name.
pub find_container_lem :
    (registry : List Container) (id : Text)
    → find_container registry id
      ≡ or_else (first_such (λ c. str_eq c.id id) registry) (
          or_else
            (first_such (λ c. str_eq c.name id && has_process c) registry)
            (first_such (λ c. str_eq c.name id) registry))
unfolding find_container
find_container_lem registry id =
    rw
      (
        find_id-first_such registry id,
        find_name-eq registry id none,
        first_named-live registry id,
        first_named-any registry id,
      )
      refl
