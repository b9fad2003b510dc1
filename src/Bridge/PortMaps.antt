-- ===== src/Bridge/PortMaps.antt =====
-- `bridge_serialize_port_maps` and `bridge_parse_port_maps`: the published ports as text.
pub mod RoundTrip
use container_internals_simu.Prelude.{
  ℕ, zero, suc, ◌+◌, ◌-◌, ◌*◌, ◌≤◌, ◌<◌, ◌≡◌, refl, sym, ap, ◌∙◌, Bool, true, false, ◌&&◌, Option,
  none, some, List, [], ◌∷◌, ◌++◌, length, All, arith, ltb, leb, ◌==◌, if◌then◌else◌, length-append,
  All-append, lt→ltb, map,
}
use container_internals_simu.Prelude.Int.{ℤ, pos, pos_part}
use container_internals_simu.Prelude.Text.{
  Text, codes, copy_string, copy_string_fits, take-eq_of_le, is_empty,
}
use container_internals_simu.Prelude.Decimal.{
  print_nat, length-print_nat, skip_spaces, is_space, IsDigit, print_nat-IsDigit,
}
use container_internals_simu.Prelude.Scan.{scan_int, strip_prefix, scan_int-print_nat}
use mathlib.Core.List.{append-nil, append_assoc}
use container_internals_simu.Bridge.{PortMapping}

-- `"%s%d:%d/%s"`
unfoldable pub print_mapping : Bool → PortMapping → Text
print_mapping first pm =
    (if first then [] else b',' ∷ [])
    ++ (print_nat pm.host_port ++ b':' ∷ (print_nat pm.container_port ++ b'/' ∷ pm.proto))

-- The loop: `off` counts what the text would need, and a piece is cut at the end of the buffer.
unfoldable pub serialize_from : ℕ → ℕ → Bool → List PortMapping → Text
serialize_from buf_size off first [] = []
serialize_from buf_size off first (pm ∷ maps) =
    let piece = print_mapping first pm in
    let rest = serialize_from buf_size (off + length piece) false maps in
    if ltb off buf_size then copy_string (buf_size - off) piece ++ rest else []

unfoldable pub bridge_serialize_port_maps : List PortMapping → ℕ → Text
unfolding serialize_from print_mapping
bridge_serialize_port_maps maps buf_size = serialize_from buf_size 0 true maps

-- The tokens that `strtok` finds between commas, none of them empty.
push_token : Text → List Text → List Text
push_token [] tokens = tokens
push_token (c ∷ word) tokens = (c ∷ word) ∷ tokens

unfoldable pub tokens_from : Text → Text → List Text
unfolding push_token
tokens_from word [] = push_token word []
tokens_from word (c ∷ s) =
    let rest = tokens_from (if c == b',' then [] else word ++ c ∷ []) s in
    if c == b',' then push_token word rest else rest

-- `%3s`: at most three bytes up to a space.
unfoldable pub take_word : ℕ → Text → Text
take_word zero s = []
take_word (suc n) [] = []
take_word (suc n) (c ∷ s) = let rest = take_word n s in if is_space c then [] else c ∷ rest

-- The protocol is `tcp` unless the text has another behind a slash.
scan_proto : Text → Text
scan_proto s = elim (strip_prefix (b'/' ∷ []) s) [
  | none ↦ codes "tcp"
  | some rest ↦
      let word = take_word 3 (skip_spaces rest) in if is_empty word then codes "tcp" else word
]

-- `sscanf(tok, "%d:%d/%3s", &hp, &cp, proto) >= 2`; where that fails, `"%d:%d"` fails too.
unfoldable pub scan_mapping : Text → Option (ℤ × ℤ × Text)
unfolding scan_proto
scan_mapping tok = elim (scan_int tok) [
  | none ↦ none
  | some (hp, rest) ↦ elim (strip_prefix (b':' ∷ []) rest) [
    | none ↦ none
    | some rest' ↦ elim (scan_int rest') [
      | none ↦ none
      | some (cp, rest'') ↦ some (hp, cp, scan_proto rest'')
    ]
  ]
]

is_port : ℤ → Bool
is_port (pos n) = leb 1 n && leb n 65535
is_port p = false

-- What a token adds to the maps.
unfoldable pub map_of_token : Text → Option PortMapping
unfolding is_port
map_of_token tok = elim (scan_mapping tok) [
  | none ↦ none
  | some (hp, cp, proto) ↦
      if is_port hp && is_port cp
      then some (record {
        host_port = pos_part hp;
        container_port = pos_part cp;
        proto = copy_string 4 proto;
      })
      else none
]

unfoldable pub parse_tokens : List Text → ℕ → List PortMapping
parse_tokens [] left = []
parse_tokens (tok ∷ toks) zero = []
parse_tokens (tok ∷ toks) (suc left) = elim (map_of_token tok) [
  | none ↦ parse_tokens toks (suc left)
  | some pm ↦ pm ∷ parse_tokens toks left
]

-- The maps that are stored; the text is copied to 256 bytes.
unfoldable pub bridge_parse_port_maps : Text → ℕ → List PortMapping
unfolding parse_tokens tokens_from
bridge_parse_port_maps str max_maps = parse_tokens (tokens_from [] (copy_string 256 str)) max_maps

-- Bytes that a protocol's name may have.
abbrev pub IsProtoByte : ℕ → Type 0
IsProtoByte c = (is_space c ≡ false) × ((c == b',') ≡ false)

pub record IsMapping (pm : PortMapping) : Type 0 where
  pub host_pos : 1 ≤ pm.host_port
  pub host_le : pm.host_port ≤ 65535
  pub container_pos : 1 ≤ pm.container_port
  pub container_le : pm.container_port ≤ 65535
  pub proto_pos : 1 ≤ length pm.proto
  pub proto_le : length pm.proto ≤ 3
  pub proto_bytes : All IsProtoByte pm.proto
