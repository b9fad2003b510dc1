-- ===== src/Lifecycle/Registry/Tests.antt =====
-- The linked list at a sequence of calls.
use container_internals_simu.Prelude.{refl, List, [], ◌∷◌, arith}
use container_internals_simu.Lifecycle.Registry.{Links, IsList}
use container_internals_simu.Lifecycle.Registry.Calls.{
  LinkCall, append, remove, run_links, run_list, run_links-IsList,
}

abbrev no_links : Links
no_links = record { head = 0; tail = 0; next = λ a. 0 }

no_links-IsList : IsList no_links []
no_links-IsList = record { chain = refl; separate = tt; ends = refl }

abbrev link_calls : List LinkCall
link_calls = append 5 ∷ append 7 ∷ remove 7 ∷ append 9 ∷ []

run_links-IsList_example : IsList (run_links 5 link_calls no_links) (run_list link_calls [])
unfolding run_list
run_links-IsList_example =
    run_links-IsList 5 link_calls no_links [] no_links-IsList
      (
        omega arith,
        tt,
        (omega arith, ((λ e. omega arith), tt), (omega arith, ((λ e. omega arith), tt), tt)),
      )
      (omega arith)
