-- ===== src/Lifecycle/Create.antt =====
-- `container_create`, the two ways to run a container, and `container_prune_all`, with the numbers
-- that ids are made of.
use container_internals_simu.Prelude.{
  suc, ℕ, ◌-◌, Bool, true, false, Option, none, some, List, [], ◌∷◌, ◌++◌, length, replicate, take,
  if◌then◌else◌,
}
use container_internals_simu.Prelude.Int.{ℤ, leb_ℤ, pos, negsuc}
use container_internals_simu.Prelude.Text.{Text, codes, is_empty, copy_string}
use container_internals_simu.Prelude.Decimal.{print_nat}
use container_internals_simu.Prelude.Scan.{as_int, succ_bits, scan_int, strip_prefix}
use container_internals_simu.EventBus.Types.{container_created, container_deleted}
use container_internals_simu.Bridge.{PortMapping}
use container_internals_simu.Container.{
  Container, ResourceConfig, SecurityConfig, is_live, zeroed, find_container,
}
use container_internals_simu.Lifecycle.{System, emitted, saved, World, act, Manager, poll_states}
use container_internals_simu.Lifecycle.Stop.{wait_for_container_process}
use container_internals_simu.Lifecycle.Start.{start_found, ensure_container_log_path}
use container_internals_simu.Lifecycle.Commands.{replace, on_container}

-- `ContainerSpec`, with [] for a text that is NULL or empty.
pub record ContainerSpec : Type 0 where
  pub name : Text
  pub hostname : Text
  pub rootfs : Text
  pub command_line : Text
  pub resource_limits : ResourceConfig
  pub security : SecurityConfig
  pub port_maps : List PortMapping

unfoldable pub pad4 : Text → Text
pad4 s = replicate (4 - length s) b'0' ++ s

-- `%04d`
unfoldable pub print_04d : ℤ → Text
unfolding pad4
print_04d (pos n) = pad4 (print_nat n)
print_04d (negsuc n) = b'-' ∷ replicate (3 - length (print_nat (suc n))) b'0' ++ print_nat (suc n)

-- The id made of `next_sequence`, an `int` that is kept as its 32 bits.
unfoldable pub id_of : ℕ → Text
unfolding print_04d as_int
id_of n = copy_string 64 (codes "container-" ++ print_04d (as_int n))

abbrev pub text_or : Text → Text → Text
text_or [] other = other
text_or (c ∷ s) other = c ∷ s

-- The root file system that is asked for, and the image that it comes from.
unfoldable pub requested_rootfs : System → Text → Text → Text × Text
requested_rootfs sys rootfs id =
    if is_empty rootfs
    then (copy_string 512 (codes "./rootfs/" ++ id), [])
    else elim (sys.resolve_image rootfs) [
      | none ↦ (copy_string 512 rootfs, [])
      | some path ↦ (copy_string 512 path, copy_string 98 rootfs)
    ]

-- The container before its root file system is prepared.
unfoldable pub new_container : System → ContainerSpec → ℕ → ℕ → Container
unfolding requested_rootfs id_of
new_container sys spec addr n =
    let id = id_of n in
    let name = copy_string 64 (text_or spec.name id) in
    record (zeroed addr) {
      id = id;
      name = name;
      hostname = copy_string 64 (text_or spec.hostname name);
      image_ref = (requested_rootfs sys spec.rootfs id).1;
      command_line = copy_string 256 (text_or spec.command_line (codes "/bin/sh"));
      resource_limits = spec.resource_limits;
      port_maps = take 8 spec.port_maps;
      security = spec.security;
      pid = negsuc 0;
      exit_code = negsuc 0;
    }

-- Behind a root file system that is prepared. If the file cannot be written the container is taken
-- out again.
unfoldable pub insert_container : System → Container → Manager → Manager × Option Text
insert_container sys c m =
    let w = act saved m.world in
    if sys.saves
    then (
      record m {
        containers = m.containers ++ c ∷ [];
        world = act (emitted container_created c.id c.rootfs (pos 0)) w;
      },
      some c.id,
    )
    else (record m { world = w }, none)

-- The result is the new id. A `spec` that is NULL is taken for one of empty texts and the default
-- profile, as the callers give it.
unfoldable pub container_create : System → ContainerSpec → Manager → Manager × Option Text
unfolding new_container insert_container as_int succ_bits
container_create sys spec m = elim sys.calloc [
  | none ↦ (m, none)
  | some addr ↦
      let n = m.next_sequence in
      let c = new_container sys spec addr n in
      let m' = record m { next_sequence = succ_bits (as_int n) } in
      elim (sys.prepare_rootfs (requested_rootfs sys spec.rootfs c.id).0) [
        | none ↦ (m', none)
        | some path ↦ insert_container sys (record c { rootfs = copy_string 512 path }) m'
      ]
]

-- The last step of `container_run`: the container is found without another poll.
unfoldable pub wait_for : System → Text → Manager → Manager × Bool
wait_for sys id m = elim (find_container m.containers id) [
  | none ↦ (m, false)
  | some c ↦
      let (w, c', done) = wait_for_container_process sys m.world c in
      (record m { containers = replace c' m.containers; world = w }, done)
]

unfoldable pub container_run : System → ContainerSpec → Manager → Manager × Bool
unfolding container_create on_container wait_for
container_run sys spec m =
    let (created, id) = container_create sys spec m in
    elim id [
      | none ↦ (created, false)
      | some cid ↦
          let (started, done) = on_container sys (start_found sys false false) cid created in
          if done then wait_for sys cid started else (started, false)
    ]

-- The path of the log is set before the start; that save is not looked at.
unfoldable pub set_log_path : Text → Manager → Manager
set_log_path id m = elim (find_container m.containers id) [
  | none ↦ m
  | some c ↦ record m {
    containers = replace (ensure_container_log_path c) m.containers;
    world = act saved m.world;
  }
]

unfoldable pub container_run_background : System → ContainerSpec → Manager → Manager × Option Text
unfolding container_create set_log_path on_container
container_run_background sys spec m =
    let (created, id) = container_create sys spec m in
    elim id [
      | none ↦ (created, none)
      | some cid ↦
          let (started, done) =
            on_container sys (start_found sys true true) cid (set_log_path cid created) in
          (started, if done then some cid else none)
    ]

-- The events of the containers that are pruned.
unfoldable pub prune_all_loop : List Container → World → List Container × World
prune_all_loop [] w = ([], w)
prune_all_loop (c ∷ rest) w =
    let (kept, told) =
      prune_all_loop rest
        (if is_live c.state then w else act (emitted container_deleted c.id [] (pos 0)) w) in
    ((if is_live c.state then c ∷ kept else kept), told)

-- `sscanf(id, "container-%d", &val) == 1 && val >= next_sequence`
unfoldable pub update_next_sequence : Text → ℕ → ℕ
unfolding as_int succ_bits
update_next_sequence id next = elim (strip_prefix (codes "container-") id) [
  | none ↦ next
  | some rest ↦ elim (scan_int rest) [
    | none ↦ next
    | some (value, after) ↦ if leb_ℤ (as_int next) value then succ_bits value else next
  ]
]

unfoldable pub sequence_after : List Container → ℕ → ℕ
unfolding update_next_sequence
sequence_after [] next = next
sequence_after (c ∷ rest) next = sequence_after rest (update_next_sequence c.id next)

unfoldable pub container_prune_all : System → Manager → Manager
unfolding prune_all_loop sequence_after
container_prune_all sys m =
    let polled = poll_states sys m in
    let (kept, w) = prune_all_loop polled.containers polled.world in
    record { containers = kept; next_sequence = sequence_after kept 1; world = act saved w }
