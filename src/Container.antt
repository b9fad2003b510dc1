-- ===== src/Container.antt =====
-- Parts of src/container.c: the names of states, `find_container`, `split_command_argv` and the
-- clock difference.
pub mod Args
pub mod Find
mod Tests
use container_internals_simu.Prelude.{
  ℕ, zero, suc, ◌+◌, ◌-◌, ◌*◌, ◌/◌, Bool, true, false, ◌||◌, Option, none, some, List, [], ◌∷◌,
  ◌++◌, length, ltb, leb, ◌==◌, if◌then◌else◌,
}
use container_internals_simu.Prelude.Int.{ℤ, pos}
use container_internals_simu.Prelude.Text.{Text, codes, str_eq}
use container_internals_simu.Bridge.{PortMapping, LastError}

-- `ContainerState`
pub data ContainerState : Type 0 where
  state_created state_running state_paused state_stopped : ContainerState

unfoldable pub state_to_string : ContainerState → Text
state_to_string state_created = codes "CREATED"
state_to_string state_running = codes "RUNNING"
state_to_string state_paused = codes "PAUSED"
state_to_string state_stopped = codes "STOPPED"

unfoldable pub string_to_state : Text → ContainerState
string_to_state value =
    if str_eq value (codes "RUNNING")
    then state_running
    else if str_eq value (codes "PAUSED")
    then state_paused
    else if str_eq value (codes "STOPPED")
    then state_stopped
    else state_created

-- `ResourceConfig`
pub record ResourceConfig : Type 0 where
  pub cpu_seconds : ℕ
  pub memory_mb : ℕ
  pub max_processes : ℕ

pub record SecurityConfig : Type 0 where
  pub privileged : ℤ
  pub readonly_rootfs : ℤ
  pub cap_keep : ℕ
  pub seccomp_enabled : ℤ

-- What `network_error` says.
pub data NetworkError : Type 0 where
  no_network_error ports_need_bridge loopback_only : NetworkError
  bridge_error : LastError → NetworkError

-- `Container`; `addr` is the address of the structure, and `has_stack` says that `stack` is not
-- NULL. A list has them in the order from
-- `head`.
pub record Container : Type 0 where
  pub addr : ℕ
  pub id : Text
  pub name : Text
  pub pid : ℤ
  pub hostname : Text
  pub rootfs : Text
  pub command_line : Text
  pub log_path : Text
  pub image_ref : Text
  pub resource_limits : ResourceConfig
  pub ip_address : Text
  pub veth_host : Text
  pub network_error : NetworkError
  pub port_maps : List PortMapping
  pub security : SecurityConfig
  pub state : ContainerState
  pub started_at : ℤ
  pub stopped_at : ℤ
  pub exit_code : ℤ
  pub oom_kill_count : ℤ
  pub has_stack : Bool

-- What `calloc` gives.
abbrev pub zeroed : ℕ → Container
zeroed addr = record {
  addr = addr;
  id = [];
  name = [];
  pid = pos 0;
  hostname = [];
  rootfs = [];
  command_line = [];
  log_path = [];
  image_ref = [];
  resource_limits = record { cpu_seconds = 0; memory_mb = 0; max_processes = 0 };
  ip_address = [];
  veth_host = [];
  network_error = no_network_error;
  port_maps = [];
  security = record {
    privileged = pos 0;
    readonly_rootfs = pos 0;
    cap_keep = 0;
    seccomp_enabled = pos 0;
  };
  state = state_created;
  started_at = pos 0;
  stopped_at = pos 0;
  exit_code = pos 0;
  oom_kill_count = pos 0;
  has_stack = false;
}

abbrev pub is_live : ContainerState → Bool
is_live state_running = true
is_live state_paused = true
is_live _ = false

unfoldable pub find_id : List Container → Text → Option Container
find_id [] id = none
find_id (c ∷ rest) id = let later = find_id rest id in if str_eq c.id id then some c else later

abbrev pub keep_best : Option Container → Container → Option Container
keep_best none c = some c
keep_best (some best) c = some best

-- The second loop, with the best container so far.
unfoldable pub find_name : List Container → Text → Option Container → Option Container
find_name [] id best = best
find_name (c ∷ rest) id best =
    let named = str_eq c.name id in
    let later = find_name rest id (if named then keep_best best c else best) in
    if named then (if is_live c.state then some c else later) else later

abbrev pub or_else : Option Container → Option Container → Option Container
or_else none other = other
or_else (some c) other = some c

unfoldable pub find_container : List Container → Text → Option Container
find_container registry id = or_else (find_id registry id) (find_name registry id none)

abbrev pub is_blank : ℕ → Bool
is_blank c = c == 32 || c == 9

-- `while (*p == ' ' || *p == '\t') p++;`
unfoldable pub skip_blanks : Text → Text
skip_blanks [] = []
skip_blanks (c ∷ s) = let rest = skip_blanks s in if is_blank c then rest else c ∷ s

-- The text before the first byte that ends it, and the text behind that byte.
unfoldable pub until : (ℕ → Bool) → Text → Text × Text
until ends [] = ([], [])
until ends (c ∷ s) = let (word, rest) = until ends s in if ends c then ([], s) else (c ∷ word, rest)

abbrev pub is_quote : ℕ → Bool
is_quote c = c == 34 || c == 39

-- The argument at a byte that is no blank, and what is left of the text.
unfoldable pub next_arg : ℕ → Text → Text × Text
next_arg c s = if is_quote c then until (λ x. x == c) s else until is_blank (c ∷ s)

-- What `split_command_argv` gives: the arguments, or -1 with its `errno`.
pub data Split : Type 0 where
  split : List Text → Split
  e2big einval : Split

-- The loop, with the arguments so far.
unfoldable pub split_loop : ℕ → ℕ → List Text → Text → Split
split_loop zero max_args argv s = split argv
split_loop (suc fuel) max_args argv s = elim (skip_blanks s) [
  | [] ↦ split argv
  | c ∷ rest ↦
      let (word, left) = next_arg c rest in
      let later = split_loop fuel max_args (argv ++ word ∷ []) left in
      if leb (max_args - 1) (length argv) then e2big else later
]

some_args : Split → Split
some_args (split []) = einval
some_args r = r

-- No argument is NULL. Each turn of the loop takes at least a byte.
unfoldable pub split_command_argv : Text → ℕ → Split
unfolding some_args
split_command_argv buffer max_args =
    if ltb max_args 2
    then einval
    else some_args (split_loop (suc (length buffer)) max_args [] buffer)

-- `struct timespec`, with the nanoseconds below a second.
pub record Timespec : Type 0 where
  pub tv_sec : ℕ
  pub tv_nsec : ℕ

-- `elapsed_ms_between` of two times that are not NULL; an end before the start gives 0.
unfoldable pub elapsed_ms_between : Timespec → Timespec → ℕ
elapsed_ms_between start end =
    let borrow = ltb end.tv_nsec start.tv_nsec in
    let nsec =
      if borrow then end.tv_nsec + 1000000000 - start.tv_nsec else end.tv_nsec - start.tv_nsec in
    let due = if borrow then start.tv_sec + 1 else start.tv_sec in
    if ltb end.tv_sec due then 0 else (end.tv_sec - due) * 1000 + nsec / 1000000
