-- ===== src/Orchestrator/Tests.antt =====
-- Runs of the orchestrator, and the theorems at concrete specifications.
use container_internals_simu.Prelude.{
  All, ℕ, zero, suc, ◌+◌, ◌≤◌, ◌<◌, ◌≡◌, ◌≢◌, ◌↔◌, refl, inl, inr, true, false, none, some, Option,
  List, [], ◌∷◌, ◌++◌, arith, length,
}
use container_internals_simu.Prelude.Int.{pos}
use container_internals_simu.Prelude.Text.{Text, codes, str_eq}
use container_internals_simu.EventBus.Types.{orch_spec_down}
use container_internals_simu.Orchestrator.Types.{
  ServiceState, always, Service, Spec, zero_service, no_health, count, service,
}
use container_internals_simu.Orchestrator.Topo.{
  find_from, count_deps, count_indegrees, enqueue_ready, visit_deps, visit_all, drain,
  started_order, topo_sort,
}
use container_internals_simu.Orchestrator.Topo.Queue.{IsBounded}
use container_internals_simu.Orchestrator.Topo.Order.{
  IsStartupOrder, topo_sort-IsStartupOrder, topo_sort_finds,
}
use container_internals_simu.Orchestrator.SpecFile.{
  JNode, obj_node, str_node, field, no_fields, get_field, jp_get, read_deps, health_of_node,
  parse_service, read_services, spec_of_root,
}
use container_internals_simu.Orchestrator.SpecFile.Bounds.{IsConfigured}
use container_internals_simu.Json.{raw_string}
use container_internals_simu.Orchestrator.SpecFile.Tokens.{
  got, too_deep, arena_size, jp_raw_string, string_body, up_to_zero, jp_parse_string, jp_node,
  jp_alloc, jp_peek, jp_consume, jp_skip_ws, skip_ws,
}
use container_internals_simu.Orchestrator.SpecFile.Parser.{
  max_depth, jp_parse_value, parse_as, jp_parse_object, object_body, object_loop, skip_byte,
  parse_buffer, orch_parse_spec,
}
use container_internals_simu.Orchestrator.SpecFile.Fuel.{jp_parse_value-max_depth}
use container_internals_simu.Orchestrator.SpecFile.File.{orch_parse_spec-IsBounded}
use container_internals_simu.Orchestrator.Validate.{orch_validate}
use container_internals_simu.Orchestrator.Validate.Sound.{IsStartable, orch_validate_iff}
use container_internals_simu.Container.{state_running}
use container_internals_simu.Orchestrator.State.{Orchestrator, Runtime, emitted}
use container_internals_simu.Orchestrator.Monitor.{tick}
use container_internals_simu.Orchestrator.Monitor.Limits.{AllLimited}
use container_internals_simu.Orchestrator.Monitor.Bound.{tick-AllLimited}
use container_internals_simu.Orchestrator.Monitor.Health.{run_checks, checked, run_checks_lem}
use container_internals_simu.Orchestrator.Control.{MonitorWait, orch_down}
use container_internals_simu.Orchestrator.Control.Down.{stop_calls_down, orch_down_lem}

abbrev db : Service
db = record zero_service {
  name = codes "db";
  image = codes "base";
  command = codes "/bin/db";
  restart = always;
  max_restarts = 3;
  health = record no_health { retries = 2 };
}

abbrev web : Service
web = record db { name = codes "web"; deps = codes "db" ∷ codes "cache" ∷ [] }

abbrev cache : Service
cache = record db { name = codes "cache"; deps = codes "db" ∷ [] }

abbrev shop : Spec
shop = record {
  name = codes "shop";
  spec_path = codes "shop.json";
  services = web ∷ db ∷ cache ∷ [];
}

few_deps : (i : ℕ) → length (service shop i).deps ≤ 8
few_deps zero = omega arith
few_deps (suc zero) = omega arith
few_deps (suc (suc zero)) = omega arith
few_deps (suc (suc (suc i))) = omega arith

shop-IsBounded : IsBounded shop
shop-IsBounded = record { few = omega arith; few_deps = few_deps }

shop_order : topo_sort shop ≡ some (1 ∷ 2 ∷ 0 ∷ [])
unfolding find_from str_eq count_deps count_indegrees enqueue_ready visit_deps visit_all drain
    started_order topo_sort
shop_order = refl

topo_sort-IsStartupOrder_example : IsStartupOrder shop (1 ∷ 2 ∷ 0 ∷ [])
topo_sort-IsStartupOrder_example =
    topo_sort-IsStartupOrder shop (1 ∷ 2 ∷ 0 ∷ []) shop-IsBounded shop_order

shop-IsStartupOrder : IsStartupOrder shop (1 ∷ 2 ∷ 0 ∷ [])
shop-IsStartupOrder = topo_sort-IsStartupOrder shop (1 ∷ 2 ∷ 0 ∷ []) shop-IsBounded shop_order

topo_sort_finds_example :
    (order : List ℕ) × (topo_sort shop ≡ some order) × IsStartupOrder shop order
topo_sort_finds_example = topo_sort_finds shop (1 ∷ 2 ∷ 0 ∷ []) shop-IsBounded shop-IsStartupOrder

orch_validate_iff_example : (orch_validate shop ≡ []) ↔ IsStartable shop
orch_validate_iff_example = orch_validate_iff shop shop-IsBounded

-- Containers run, commands succeed, images are unknown.
abbrev rt : Runtime
rt = record {
  get_info = λ cid. some (record { state = state_running; exit_code = pos 0 });
  exec_quiet = λ cid cmd. pos 0;
  resolve_image = λ image. none;
  run_background = λ name rootfs cmd. some (name ++ codes "-1");
  overshift = λ n. pos 0;
}

abbrev clock : ℕ → ℕ
clock i = 100 + i

abbrev idle : Orchestrator
idle = record { is_running = false; spec = record shop { services = [] } }

-- The monitor gets through one pass, and through an item of the next.
abbrev one_pass : Option MonitorWait
one_pass = some (record {
  passes = record { now = 21; clock = clock } ∷ [];
  underway = some (record { now = 22; clock = clock }, 1);
})

-- The same services with two containers.
abbrev live_shop : Spec
live_shop = record shop {
  services =
      record web { container_id = codes "c-web"; state = ServiceState.running }
      ∷ record db { container_id = codes "c-db"; state = ServiceState.running }
      ∷ cache
      ∷ [];
}

abbrev live : Orchestrator
live = record { is_running = true; spec = live_shop }

live_few_deps : (i : ℕ) → length (service live_shop i).deps ≤ 8
live_few_deps zero = omega arith
live_few_deps (suc zero) = omega arith
live_few_deps (suc (suc zero)) = omega arith
live_few_deps (suc (suc (suc i))) = omega arith

live_shop-IsBounded : IsBounded live_shop
live_shop-IsBounded = record { few = omega arith; few_deps = live_few_deps }

live_order : topo_sort live_shop ≡ some (1 ∷ 2 ∷ 0 ∷ [])
unfolding find_from str_eq count_deps count_indegrees enqueue_ready visit_deps visit_all drain
    started_order topo_sort
live_order = refl

orch_down_lem_example :
    IsStartupOrder live_shop (1 ∷ 2 ∷ 0 ∷ [])
    × ((orch_down [] live).1
        ≡ stop_calls_down 3 (1 ∷ 2 ∷ 0 ∷ []) live_shop
          ++ emitted orch_spec_down (codes "shop") [] (pos 0) ∷ [])
    × ((i : ℕ) → i < count live_shop → (service (orch_down [] live).0.spec i).container_id ≡ [])
orch_down_lem_example = orch_down_lem [] (1 ∷ 2 ∷ 0 ∷ []) live live_shop-IsBounded refl live_order

live-AllLimited : AllLimited live
live-AllLimited zero = inr (omega arith)
live-AllLimited (suc zero) = inr (omega arith)
live-AllLimited (suc (suc zero)) = inr (omega arith)
live-AllLimited (suc (suc (suc j))) = inl refl

tick-AllLimited_example : AllLimited (tick rt 50 clock live).0
tick-AllLimited_example = tick-AllLimited rt 50 clock live live-AllLimited

run_checks_lem_example :
    let after = run_checks (pos 1 ∷ pos 1 ∷ pos 0 ∷ []) 0 (codes "c-web") live in
    (service after.spec 0 ≡ checked (pos 1 ∷ pos 1 ∷ pos 0 ∷ []) (service live_shop 0))
    × (after.is_running ≡ true)
    × (count after.spec ≡ 3)
run_checks_lem_example =
    run_checks_lem (pos 1 ∷ pos 1 ∷ pos 0 ∷ []) 0 (codes "c-web") live (omega arith) refl refl refl
      (omega arith)

abbrev file_root : JNode
file_root = obj_node (
    field (codes "services")
      (obj_node (
        field (codes "db") (obj_node (field (codes "image") (str_node (codes "base")) no_fields))
          no_fields))
      no_fields)

abbrev file_spec : Spec
file_spec = record {
  name = codes "unnamed";
  spec_path = codes "shop.json";
  services = record zero_service { name = codes "db"; image = codes "base" } ∷ [];
}

file_read : spec_of_root (λ text. pos 0) (codes "shop.json") (some file_root) ≡ some file_spec
unfolding spec_of_root read_services parse_service jp_get get_field health_of_node str_eq read_deps
file_read = refl

abbrev file_text : Text
file_text = codes "// a shop\n{\"services\": {\"db\": {\"image\": \"base\"}}}\n"

file_parsed : (jp_parse_value max_depth (record { src = file_text; apos = 0 })).1 ≡ got file_root
unfolding jp_parse_value parse_as jp_parse_object object_body object_loop jp_raw_string string_body
    raw_string up_to_zero jp_parse_string jp_node jp_alloc skip_byte jp_peek jp_consume jp_skip_ws
    skip_ws
file_parsed = refl

jp_parse_value-max_depth_example :
    ((jp_parse_value 300 (record { src = file_text; apos = 0 })).1 ≢ too_deep)
    × ((jp_parse_value 300 (record { src = file_text; apos = 0 })).0.apos ≤ arena_size)
    × (jp_parse_value 300 (record { src = file_text; apos = 0 })
        ≡ jp_parse_value max_depth (record { src = file_text; apos = 0 }))
jp_parse_value-max_depth_example = jp_parse_value-max_depth file_text 300 (omega arith)

file_whole : orch_parse_spec (λ text. pos 0) (codes "shop.json") (some file_text) ≡ some file_spec
unfolding orch_parse_spec parse_buffer
file_whole = rw file_parsed file_read

orch_parse_spec-IsBounded_example : IsBounded file_spec × All IsConfigured file_spec.services
orch_parse_spec-IsBounded_example =
    orch_parse_spec-IsBounded (λ text. pos 0) (codes "shop.json") (some file_text) file_spec
      file_whole
