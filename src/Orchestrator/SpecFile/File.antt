-- ===== src/Orchestrator/SpecFile/File.antt =====
-- `orch_parse_spec` from the file's bytes to the specification.
use container_internals_simu.Prelude.{◌≡◌, [], ◌∷◌, Option, none, some, All, take}
use container_internals_simu.Prelude.Int.{ℤ}
use container_internals_simu.Prelude.Text.{Text}
use container_internals_simu.Orchestrator.Types.{Spec}
use container_internals_simu.Orchestrator.Topo.Queue.{IsBounded}
use container_internals_simu.Orchestrator.SpecFile.Bounds.{IsConfigured, spec_of_root-IsBounded}
use container_internals_simu.Orchestrator.SpecFile.Parser.{parse_buffer, orch_parse_spec}

parse_buffer-IsBounded :
    (to_int : Text → ℤ) (path fbuf : Text) (spec : Spec)
    → parse_buffer to_int path fbuf ≡ some spec
    → IsBounded spec × All IsConfigured spec.services
unfolding parse_buffer
parse_buffer-IsBounded to_int path [] spec e = absurd (cc e)
parse_buffer-IsBounded to_int path (c ∷ fbuf) spec e = spec_of_root-IsBounded to_int path _ spec e

-- Whatever bytes a specification file has, the specification that is read from it stays within the
-- bounds of the arrays, its services have not been started, and their limits and the settings of
-- their health checks are in range.
pub orch_parse_spec-IsBounded :
    (to_int : Text → ℤ) (path : Text) (file : Option Text) (spec : Spec)
    → orch_parse_spec to_int path file ≡ some spec
    → IsBounded spec × All IsConfigured spec.services
unfolding orch_parse_spec
orch_parse_spec-IsBounded to_int path none spec e = absurd (cc e)
orch_parse_spec-IsBounded to_int path (some bytes) spec e =
    parse_buffer-IsBounded to_int path (take 65535 bytes) spec e
