-- ===== src/Lifecycle/Metadata/Lines.antt =====
-- The lines of the metadata file: what `fgets`, `trim_newline` and the splitter make of them.

use container_internals_simu.Prelude.{
  ◌&◌, ℕ, suc, ◌≤◌, ◌<◌, ◌≡◌, ◌≢◌, refl, ap, ◌∙◌, List, [], ◌∷◌, ◌++◌, map, length, All, All-append,
  arith,
}
use container_internals_simu.Prelude.Int.{ℤ, pos, negsuc}
use container_internals_simu.Prelude.Text.{Text}
use container_internals_simu.Prelude.Decimal.{print_nat, print_int, IsDigit, print_nat-IsDigit}
use container_internals_simu.Prelude.Hex.{print_hex, IsHexDigit, print_hex-IsHexDigit}
use container_internals_simu.EventBus.Line.{tab, split_fields, split_fields-cons, split_fields-last}
use container_internals_simu.Bridge.PortMaps.{bridge_serialize_port_maps}
use container_internals_simu.Bridge.PortMaps.RoundTrip.Bytes.{bridge_serialize_port_maps-All}
use container_internals_simu.Container.{
  Container, ContainerState, state_created, state_running, state_paused, state_stopped,
  state_to_string,
}
use container_internals_simu.Prelude.Counters.{IsBelowMax}
use container_internals_simu.Bridge.Pool.{scan_ip}
use container_internals_simu.Lifecycle.Numbers.{number_of}
use container_internals_simu.Lifecycle.Metadata.{
  fields_of, join_tabs, format_record, metadata_of, trim_newline, metadata_lines,
}
use container_internals_simu.Lifecycle.Metadata.Record.{Fits}
use container_internals_simu.Prelude.FileLines.{newline, Lacks, IsLine, file_lines-print_all}

-- The byte ends no field and no line.
abbrev pub IsPlainByte : ℕ → Type 0
IsPlainByte c = (c ≢ 9) × (c ≢ 10) × (c ≢ 13)

-- A container whose line can be read back.
pub record IsStorable (c : Container) : Type 0 where
  pub fits : Fits c
  pub id : All IsPlainByte c.id
  pub name : All IsPlainByte c.name
  pub hostname : All IsPlainByte c.hostname
  pub rootfs : All IsPlainByte c.rootfs
  pub command_line : All IsPlainByte c.command_line
  pub log_path : All IsPlainByte c.log_path
  pub image_ref : All IsPlainByte c.image_ref
  pub ip_address : All IsPlainByte c.ip_address
  pub veth_host : All IsPlainByte c.veth_host
  -- the line fits the buffer of `container_manager_init`
  pub short : length (join_tabs (fields_of c)) < 1023
  -- the numbers behind that of the id and that of the address are `int`s
  pub id_number : IsBelowMax (number_of c.id)
  pub ip_number : IsBelowMax (scan_ip c.ip_address)

print_nat-plain : (n : ℕ) → All IsPlainByte (print_nat n)
print_nat-plain n = digits (print_nat n) (print_nat-IsDigit n)
  where
    digits : (s : Text) → All IsDigit s → All IsPlainByte s
    digits [] a = tt
    digits (c ∷ s) a = ((ground arith, ground arith, ground arith), digits s a.1)

print_int-plain : (z : ℤ) → All IsPlainByte (print_int z)
unfolding print_int
print_int-plain (pos n) = print_nat-plain n
print_int-plain (negsuc n) =
    ((λ e. omega arith, λ e. omega arith, λ e. omega arith), print_nat-plain (suc n))

print_hex-plain : (n : ℕ) → All IsPlainByte (print_hex n)
print_hex-plain n = digits (print_hex n) (print_hex-IsHexDigit n)
  where
    digits : (s : Text) → All IsHexDigit s → All IsPlainByte s
    digits [] a = tt
    digits (c ∷ s) a = ((ground arith, ground arith, ground arith), digits s a.1)

state_to_string-plain : (s : ContainerState) → All IsPlainByte (state_to_string s)
unfolding state_to_string
state_to_string-plain state_created = omega arith
state_to_string-plain state_running = omega arith
state_to_string-plain state_paused = omega arith
state_to_string-plain state_stopped = omega arith

sign-plain : (c : ℕ) → 13 < c → IsPlainByte c
sign-plain c h = (λ e. omega arith, λ e. omega arith, λ e. omega arith)

port_maps-plain :
    (c : Container) → Fits c → All IsPlainByte (bridge_serialize_port_maps c.port_maps 128)
port_maps-plain c h =
    bridge_serialize_port_maps-All IsPlainByte (λ b d. ground arith) (λ b d. ground arith)
      (sign-plain b':' (omega arith), sign-plain b'/' (omega arith), sign-plain b',' (omega arith))
      c.port_maps h.port_maps h.few_port_maps

fields_of-plain : (c : Container) → IsStorable c → All (All IsPlainByte) (fields_of c)
unfolding fields_of
fields_of-plain c v =
    v.id
    & v.name
    & print_int-plain c.pid
    & v.hostname
    & v.rootfs
    & state_to_string-plain c.state
    & v.command_line
    & print_nat-plain c.resource_limits.cpu_seconds
    & print_nat-plain c.resource_limits.memory_mb
    & print_nat-plain c.resource_limits.max_processes
    & print_int-plain c.started_at
    & print_int-plain c.stopped_at
    & print_int-plain c.exit_code
    & v.log_path
    & v.image_ref
    & v.ip_address
    & v.veth_host
    & port_maps-plain c v.fits
    & print_int-plain c.security.privileged
    & print_int-plain c.security.seccomp_enabled
    & print_int-plain c.security.readonly_rootfs
    & print_hex-plain c.security.cap_keep
    & tt

Lacks-tab : (s : Text) → All IsPlainByte s → Lacks tab s
Lacks-tab [] a = tt
Lacks-tab (c ∷ s) a = (a.0.0, Lacks-tab s a.1)

-- The splitter gives back the fields that tabs join.
split_fields-join_tabs :
    (s : Text) (fields : List Text)
    → All (All IsPlainByte) (s ∷ fields)
    → split_fields (length (s ∷ fields)) (join_tabs (s ∷ fields)) ≡ s ∷ fields
unfolding join_tabs
split_fields-join_tabs s [] a = split_fields-last s (Lacks-tab s a.0)
split_fields-join_tabs s (t ∷ fields) a =
    split_fields-cons (length (t ∷ fields)) s (join_tabs (t ∷ fields)) (Lacks-tab s a.0)
    ∙ ap (λ (r : List Text). s ∷ r) (split_fields-join_tabs t fields a.1)

-- The byte ends no line.
abbrev IsInLine : ℕ → Type 0
IsInLine c = (c ≢ 10) × (c ≢ 13)

plain-IsInLine : (s : Text) → All IsPlainByte s → All IsInLine s
plain-IsInLine [] a = tt
plain-IsInLine (c ∷ s) a = ((a.0.1, a.0.2), plain-IsInLine s a.1)

join_tabs-IsInLine :
    (fields : List Text) → All (All IsPlainByte) fields → All IsInLine (join_tabs fields)
unfolding join_tabs
join_tabs-IsInLine [] a = tt
join_tabs-IsInLine (s ∷ []) a = plain-IsInLine s a.0
join_tabs-IsInLine (s ∷ t ∷ fields) a =
    All-append IsInLine s (tab ∷ join_tabs (t ∷ fields)) (plain-IsInLine s a.0)
      ((λ e. omega arith, λ e. omega arith), join_tabs-IsInLine (t ∷ fields) a.1)

trim_newline_lem : (s : Text) → All IsInLine s → trim_newline (s ++ newline ∷ []) ≡ s
unfolding trim_newline
trim_newline_lem [] a = refl
trim_newline_lem (c ∷ s) a = ground (arith, a.0, trim_newline_lem s a.1)

Lacks-newline : (s : Text) → All IsInLine s → Lacks newline s
Lacks-newline [] a = tt
Lacks-newline (c ∷ s) a = (a.0.0, Lacks-newline s a.1)

pub fields-format_record :
    (c : Container) → IsStorable c → split_fields 22 (trim_newline (format_record c)) ≡ fields_of c
unfolding format_record fields_of
fields-format_record c v =
    let a = fields_of-plain c v in
    ap (split_fields 22)
      (trim_newline_lem (join_tabs (fields_of c)) (join_tabs-IsInLine (fields_of c) a))
    ∙ split_fields-join_tabs c.id _ a

format_record-IsLine : (c : Container) → IsStorable c → IsLine 1023 (format_record c)
unfolding format_record
format_record-IsLine c v = record {
  body = join_tabs (fields_of c);
  ends = refl;
  one =
      Lacks-newline (join_tabs (fields_of c))
        (join_tabs-IsInLine (fields_of c) (fields_of-plain c v));
  short = v.short;
}

-- The lines read are the lines written.
pub metadata_lines-metadata_of :
    (fuel : ℕ) (cs : List Container)
    → All IsStorable cs
    → length (metadata_of cs) ≤ fuel
    → metadata_lines fuel (metadata_of cs) ≡ map format_record cs
metadata_lines-metadata_of = file_lines-print_all IsStorable format_record 1023 format_record-IsLine
