-- ===== src/Container/Tests.antt =====
-- Command lines and lookups, and the theorems at them.
use container_internals_simu.Prelude.{◌≡◌, refl, ◌&&◌, List, [], ◌∷◌, All, arith}
use container_internals_simu.Prelude.Text.{Text, codes, str_eq}
use container_internals_simu.Container.{
  Container, zeroed, state_running, state_stopped, or_else, find_container, split,
  split_command_argv, split_loop, skip_blanks, until, next_arg, some_args, state_to_string,
  string_to_state,
}
use container_internals_simu.Container.Args.{
  Fits, IsPlain, join, split_command_argv-Fits, split_command_argv-join,
}
use container_internals_simu.Container.Find.{first_such, has_process, find_container_lem}

quoted :
    split_command_argv (codes "sh -c \"ls /tmp\"") 8
    ≡ split (codes "sh" ∷ codes "-c" ∷ codes "ls /tmp" ∷ [])
unfolding split_command_argv split_loop skip_blanks until next_arg some_args
quoted = refl

state_back : string_to_state (state_to_string state_stopped) ≡ state_stopped
unfolding string_to_state state_to_string str_eq
state_back = refl

split_command_argv-Fits_example : Fits 8 (split_command_argv (codes "sh -c") 8)
split_command_argv-Fits_example = split_command_argv-Fits (codes "sh -c") 8

abbrev words : List Text
words = codes "ls" ∷ codes "/tmp" ∷ []

words-IsPlain : All IsPlain words
words-IsPlain = ((refl, (refl, (refl, tt))), ((refl, (refl, (refl, (refl, (refl, tt))))), tt))

split_command_argv-join_example : split_command_argv (join words) 8 ≡ split words
split_command_argv-join_example =
    split_command_argv-join words 8 words-IsPlain (λ e. cc) (omega arith)

abbrev registry : List Container
registry =
    record (zeroed 1) { id = codes "container-0001"; name = codes "web"; state = state_stopped }
    ∷ record (zeroed 2) { id = codes "container-0002"; name = codes "web"; state = state_running }
    ∷ []

find_container_lem_example :
    find_container registry (codes "web")
    ≡ or_else (first_such (λ c. str_eq c.id (codes "web")) registry) (
        or_else
          (first_such (λ c. str_eq c.name (codes "web") && has_process c) registry)
          (first_such (λ c. str_eq c.name (codes "web")) registry))
find_container_lem_example = find_container_lem registry (codes "web")
