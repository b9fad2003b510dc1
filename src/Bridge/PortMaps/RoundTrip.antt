-- ===== src/Bridge/PortMaps/RoundTrip.antt =====
-- The text of port maps is read back.
pub mod Bytes
use container_internals_simu.Prelude.{
  ℕ, zero, suc, ◌+◌, ◌-◌, ◌*◌, ◌≤◌, ◌<◌, ◌≡◌, refl, sym, ap, ◌∙◌, Bool, true, false, ◌&&◌, Option,
  none, some, List, [], ◌∷◌, ◌++◌, length, All, arith, ltb, leb, ◌==◌, if◌then◌else◌, length-append,
  All-append, lt→ltb, map,
}
use container_internals_simu.Prelude.Int.{ℤ, pos, pos_part}
use container_internals_simu.Prelude.Text.{
  Text, codes, copy_string, copy_string_fits, take-eq_of_le, is_empty,
}
use container_internals_simu.Prelude.Decimal.{
  print_nat, length-print_nat, skip_spaces, is_space, IsDigit, print_nat-IsDigit,
}
use container_internals_simu.Prelude.Scan.{scan_int, strip_prefix, scan_int-print_nat}
use mathlib.Core.List.{append-nil, append_assoc}
use container_internals_simu.Bridge.{PortMapping}
use container_internals_simu.Bridge.PortMaps.{
  print_mapping, serialize_from, bridge_serialize_port_maps, push_token, tokens_from, take_word,
  scan_proto, scan_mapping, map_of_token, parse_tokens, bridge_parse_port_maps, IsProtoByte,
  IsMapping,
}

take_word_lem : (n : ℕ) (s : Text) → All IsProtoByte s → length s ≤ n → take_word n s ≡ s
unfolding take_word
take_word_lem zero [] a h = refl
take_word_lem zero (c ∷ s) a h = absurd (omega arith)
take_word_lem (suc n) [] a h = refl
take_word_lem (suc n) (c ∷ s) a h = rw (a.0.0, take_word_lem n s a.1 (omega arith)) refl

skip_spaces_none : (s : Text) → All IsProtoByte s → skip_spaces s ≡ s
unfolding skip_spaces
skip_spaces_none [] a = refl
skip_spaces_none (c ∷ s) a = rw a.0.0 refl

scan_proto_lem :
    (proto : Text)
    → All IsProtoByte proto
    → 1 ≤ length proto
    → length proto ≤ 3
    → scan_proto (b'/' ∷ proto) ≡ proto
unfolding scan_proto strip_prefix
scan_proto_lem [] a h k = absurd (omega arith)
scan_proto_lem (c ∷ proto) a h k =
    rw (skip_spaces_none (c ∷ proto) a, take_word_lem 3 (c ∷ proto) a k) refl

scan_mapping_lem :
    (pm : PortMapping)
    → IsMapping pm
    → scan_mapping (print_mapping true pm)
      ≡ some (pos pm.host_port, pos pm.container_port, pm.proto)
unfolding scan_mapping print_mapping strip_prefix
scan_mapping_lem pm v =
    let container = print_nat pm.container_port ++ b'/' ∷ pm.proto in
    rw (scan_int-print_nat pm.host_port (b':' ∷ container) (omega arith) refl, scan_mapping)
      (rw (scan_int-print_nat pm.container_port (b'/' ∷ pm.proto) (omega arith) refl)
        (rw (scan_proto_lem pm.proto v.proto_bytes v.proto_pos v.proto_le) refl))

-- A mapping's own text is read back.
map_of_token_lem :
    (pm : PortMapping) → IsMapping pm → map_of_token (print_mapping true pm) ≡ some pm
unfolding map_of_token
map_of_token_lem pm v =
    rw (scan_mapping_lem pm v, map_of_token) (ground (arith, take-eq_of_le 3 pm.proto))

no_comma_append :
    (word s rest : Text)
    → All (λ c. (c == b',') ≡ false) s
    → tokens_from word (s ++ rest) ≡ tokens_from (word ++ s) rest
unfolding tokens_from
no_comma_append word [] rest a = ap (λ (w : Text). tokens_from w rest) (sym (append-nil word))
no_comma_append word (c ∷ s) rest a = rw a.0 (
    no_comma_append (word ++ c ∷ []) s rest a.1
    ∙ ap (λ (w : Text). tokens_from w rest) (append_assoc word (c ∷ []) s))

digit_no_comma : (s : Text) → All IsDigit s → All (λ c. (c == b',') ≡ false) s
digit_no_comma [] a = tt
digit_no_comma (c ∷ s) a = (ground arith, digit_no_comma s a.1)

proto_no_comma : (s : Text) → All IsProtoByte s → All (λ c. (c == b',') ≡ false) s
proto_no_comma [] a = tt
proto_no_comma (c ∷ s) a = (a.0.1, proto_no_comma s a.1)

no_comma_mapping :
    (pm : PortMapping) → IsMapping pm → All (λ c. (c == b',') ≡ false) (print_mapping true pm)
unfolding print_mapping
no_comma_mapping pm v =
    let P : ℕ → Type 0 = λ c. (c == b',') ≡ false in
    All-append P (print_nat pm.host_port) (b':' ∷ (print_nat pm.container_port ++ b'/' ∷ pm.proto))
      (digit_no_comma (print_nat pm.host_port) (print_nat-IsDigit pm.host_port))
      (
        refl,
        All-append P (print_nat pm.container_port) (b'/' ∷ pm.proto)
            (digit_no_comma (print_nat pm.container_port) (print_nat-IsDigit pm.container_port))
            (refl, proto_no_comma pm.proto v.proto_bytes),
      )

-- The text of all maps, in a buffer that is large enough.
join : Bool → List PortMapping → Text
join first [] = []
join first (pm ∷ maps) = print_mapping first pm ++ join false maps

length-mapping :
    (pm : PortMapping)
    → IsMapping pm
    → (length (print_mapping true pm) ≤ 15) × (length (print_mapping false pm) ≤ 16)
unfolding print_mapping
length-mapping pm v =
    let container = print_nat pm.container_port ++ b'/' ∷ pm.proto in
    let inner = length-append (print_nat pm.container_port) (b'/' ∷ pm.proto) in
    let outer = length-append (print_nat pm.host_port) (b':' ∷ container) in
    let h = length-print_nat pm.host_port 4 (omega arith) in
    let c = length-print_nat pm.container_port 4 (omega arith) in omega arith

length-join :
    (maps : List PortMapping) → All IsMapping maps → length (join false maps) ≤ 16 * length maps
unfolding join
length-join [] a = omega arith
length-join (pm ∷ maps) a = omega (
  arith,
  length-append (print_mapping false pm) (join false maps),
  (length-mapping pm a.0).1,
  length-join maps a.1,
)

serialize_from-join :
    (buf_size off : ℕ) (first : Bool) (maps : List PortMapping)
    → off + length (join first maps) < buf_size
    → serialize_from buf_size off first maps ≡ join first maps
unfolding serialize_from join
serialize_from-join buf_size off first [] h = refl
serialize_from-join buf_size off first (pm ∷ maps) h =
    let piece = print_mapping first pm in
    let long = length-append piece (join false maps) in
    let room : ltb off buf_size ≡ true = lt→ltb off buf_size (omega arith) in
    rw (room, copy_string_fits (buf_size - off) piece (omega arith))
      (ap (λ (r : Text). piece ++ r)
        (serialize_from-join buf_size (off + length piece) false maps (omega arith)))

push_token_cons :
    (word : Text) (tokens : List Text) → 0 < length word → push_token word tokens ≡ word ∷ tokens
unfolding push_token
push_token_cons [] tokens h = absurd (omega arith)
push_token_cons (c ∷ word) tokens h = refl

length-mapping_pos : (first : Bool) (pm : PortMapping) → 0 < length (print_mapping first pm)
unfolding print_mapping
length-mapping_pos true pm = omega (
  arith,
  length-append (print_nat pm.host_port) (b':' ∷ (print_nat pm.container_port ++ b'/' ∷ pm.proto)),
)
length-mapping_pos false pm = omega arith

-- Behind a token, each further mapping is a token.
tokens_from-join :
    (word : Text) (maps : List PortMapping)
    → 0 < length word
    → All IsMapping maps
    → tokens_from word (join false maps) ≡ word ∷ map (print_mapping true) maps
unfolding tokens_from join print_mapping
tokens_from-join word [] h a = push_token_cons word [] h
tokens_from-join word (pm ∷ maps) h a =
    push_token_cons word _ h
    ∙ ap (λ (r : List Text). word ∷ r)
        (no_comma_append [] (print_mapping true pm) (join false maps) (no_comma_mapping pm a.0)
          ∙ tokens_from-join (print_mapping true pm) maps (length-mapping_pos true pm) a.1)

parse_tokens-map :
    (maps : List PortMapping) (left : ℕ)
    → All IsMapping maps
    → length maps ≤ left
    → parse_tokens (map (print_mapping true) maps) left ≡ maps
unfolding parse_tokens
parse_tokens-map [] left a h = refl
parse_tokens-map (pm ∷ maps) zero a h = absurd (omega arith)
parse_tokens-map (pm ∷ maps) (suc left) a h =
    rw (map_of_token_lem pm a.0, parse_tokens)
      (ap (λ (r : List PortMapping). pm ∷ r) (parse_tokens-map maps left a.1 (omega arith)))

length-join_first :
    (maps : List PortMapping) → All IsMapping maps → length maps ≤ 8 → length (join true maps) < 128
unfolding join
length-join_first [] a h = omega arith
length-join_first (pm ∷ maps) a h = omega (
  arith,
  length-append (print_mapping true pm) (join false maps),
  (length-mapping pm a.0).0,
  length-join maps a.1,
)

tokens_from-join_first :
    (maps : List PortMapping)
    → All IsMapping maps
    → tokens_from [] (join true maps) ≡ map (print_mapping true) maps
unfolding tokens_from join print_mapping
tokens_from-join_first [] a = refl
tokens_from-join_first (pm ∷ maps) a =
    no_comma_append [] (print_mapping true pm) (join false maps) (no_comma_mapping pm a.0)
    ∙ tokens_from-join (print_mapping true pm) maps (length-mapping_pos true pm) a.1

-- Up to eight mappings, with ports from 1 to 65535 and protocols of one to three bytes without
-- spaces and commas, fit into the 128 bytes that the metadata file gives them, and are read back
-- as they were.
pub bridge_parse_port_maps-bridge_serialize_port_maps :
    (maps : List PortMapping)
    → All IsMapping maps
    → length maps ≤ 8
    → bridge_parse_port_maps (bridge_serialize_port_maps maps 128) 8 ≡ maps
unfolding bridge_parse_port_maps bridge_serialize_port_maps
bridge_parse_port_maps-bridge_serialize_port_maps maps a h =
    let short = length-join_first maps a h in
    rw
      (
        serialize_from-join 128 0 true maps (omega arith),
        copy_string_fits 256 (join true maps) (omega arith),
        tokens_from-join_first maps a,
      )
      (parse_tokens-map maps 8 a h)
