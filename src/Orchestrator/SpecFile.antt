-- ===== src/Orchestrator/SpecFile.antt =====
-- `jp_get`, `parse_service`, and `orch_parse_spec` from the parsed JSON on; Tokens and Parser have
-- the rest. A number is kept as its text; `to_int` says what `(int)atof(...)` makes of it.
pub mod Bounds
pub mod Tokens
pub mod Parser
pub mod Depth
pub mod Fuel
pub mod File
use container_internals_simu.Prelude.{
  ℕ, zero, suc, Bool, true, false, Option, none, some, List, [], ◌∷◌, ◌++◌, length, ltb,
  if◌then◌else◌,
}
use container_internals_simu.Prelude.Int.{ℤ, pos, pos_part, ltb_ℤ}
use container_internals_simu.Prelude.Text.{Text, codes, str_eq, is_empty, copy_string}
use container_internals_simu.Orchestrator.Types.{
  RestartPolicy, never, on_failure, always, HealthCheck, no_health, Service, zero_service, Spec,
  max_services, max_deps, name_size, image_size, command_size,
}

-- `JNode`
mutual
  pub data JNode : Type 0 where
    null_node : JNode
    bool_node : Bool → JNode
    num_node str_node : Text → JNode
    arr_node : JItems → JNode
    obj_node : JFields → JNode

  pub data JItems : Type 0 where
    no_items : JItems
    item : JNode → JItems → JItems

  pub data JFields : Type 0 where
    no_fields : JFields
    field : Text → JNode → JFields → JFields

-- The loop of `jp_get`: the first field of that name.
unfoldable pub get_field : JFields → Text → Option JNode
get_field no_fields key = none
get_field (field k v rest) key =
    let later = get_field rest key in if str_eq k key then some v else later

-- `none` stands for NULL, here and below.
unfoldable pub jp_get : Option JNode → Text → Option JNode
jp_get (some (obj_node members)) key = get_field members key
jp_get _ key = none

abbrev pub jp_str : Option JNode → Option Text
jp_str (some (str_node s)) = some s
jp_str _ = none

-- `... ?: ""`
abbrev pub or_text : Text → Option Text → Text
or_text default none = default
or_text default (some s) = s

abbrev pub restart_policy : Option Text → RestartPolicy
restart_policy none = never
restart_policy (some s) =
    if str_eq s (codes "always")
    then always
    else if str_eq s (codes "on-failure")
    then on_failure
    else never

-- `(v < low) ? low : (v > high ? high : v)`
abbrev pub clamp : ℕ → ℕ → ℤ → ℕ
clamp low high v =
    if ltb_ℤ v (pos low) then low else if ltb_ℤ (pos high) v then high else pos_part v

abbrev add_dep : List Text → Option Text → List Text
add_dep deps none = deps
add_dep deps (some d) = deps ++ copy_string name_size d ∷ []

-- The loop over `depends_on`.
unfoldable pub read_deps : JItems → List Text → List Text
read_deps no_items deps = deps
read_deps (item v rest) deps =
    let more = read_deps rest (add_dep deps (jp_str (some v))) in
    if ltb (length deps) max_deps then more else deps

deps_of_node : Option JNode → List Text
deps_of_node (some (arr_node items)) = read_deps items []
deps_of_node _ = []

module _ (to_int : Text → ℤ) where
  abbrev pub jp_int : Option JNode → ℤ → ℤ
  jp_int (some (num_node text)) default = to_int text
  jp_int _ default = default

  -- `jp_int(jp_get(hc, key), default)`
  abbrev pub setting : Option JNode → Text → ℕ → ℤ
  setting hc key default = jp_int (jp_get hc key) (pos default)

  -- The settings of a check that is on.
  abbrev pub check_with : Option JNode → Text → HealthCheck
  check_with hc exec = record {
    exec = copy_string command_size exec;
    enabled = true;
    interval_ms = clamp 100 300000 (setting hc (codes "interval_ms") 5000);
    timeout_ms = clamp 100 60000 (setting hc (codes "timeout_ms") 1000);
    retries = clamp 1 100 (setting hc (codes "retries") 3);
    start_period_ms = clamp 0 300000 (setting hc (codes "start_period_ms") 1000);
  }

  checks_of_exec : Option JNode → Option Text → HealthCheck
  checks_of_exec hc none = no_health
  checks_of_exec hc (some exec) = if is_empty exec then no_health else check_with hc exec

  -- `jp_get` finds nothing in a node that is not an object.
  unfoldable pub health_of_node : Option JNode → HealthCheck
  unfolding checks_of_exec
  health_of_node hc = checks_of_exec hc (jp_str (jp_get hc (codes "exec")))

  unfoldable pub parse_service : Option JNode → Text → Service
  unfolding deps_of_node
  parse_service sobj name = record zero_service {
    name = copy_string name_size name;
    image = copy_string image_size (or_text [] (jp_str (jp_get sobj (codes "image"))));
    command = copy_string command_size (or_text [] (jp_str (jp_get sobj (codes "command"))));
    restart = restart_policy (jp_str (jp_get sobj (codes "restart")));
    max_restarts = clamp 0 1000 (jp_int (jp_get sobj (codes "max_restarts")) (pos 0));
    deps = deps_of_node (jp_get sobj (codes "depends_on"));
    health = health_of_node (jp_get sobj (codes "health_check"));
  }

  -- The loop over the fields of `services`.
  unfoldable pub read_services : JFields → List Service → List Service
  read_services no_fields services = services
  read_services (field k v rest) services =
      let more = read_services rest (services ++ parse_service (some v) k ∷ []) in
      if ltb (length services) max_services then more else services

  spec_of_services : Text → Option Text → Option JNode → Option Spec
  spec_of_services path name (some (obj_node members)) = some (record {
    name = copy_string name_size (or_text (codes "unnamed") name);
    spec_path = copy_string 256 path;
    services = read_services members [];
  })
  spec_of_services path name _ = none

  -- From the root that `jp_parse_value` returned; `none` stands for the result -1.
  unfoldable pub spec_of_root : Text → Option JNode → Option Spec
  unfolding spec_of_services
  spec_of_root path (some (obj_node members)) =
      spec_of_services path (jp_str (jp_get (some (obj_node members)) (codes "name")))
        (jp_get (some (obj_node members)) (codes "services"))
  spec_of_root path _ = none
