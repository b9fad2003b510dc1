-- ===== src/Orchestrator/SpecFile/Parser.antt =====
-- The parser of specification files in src/orchestrator.c, `jp_alloc` to `jp_parse_value`, and
-- `orch_parse_spec` from the file's bytes on. The messages in `err` are left out. Pointers have 8
-- bytes, so a `JNode` has 32.
use container_internals_simu.Prelude.{
  ℕ, zero, suc, true, false, ◌&&◌, ◌||◌, Option, none, some, [], ◌∷◌, take, drop, leb, ◌==◌,
  if◌then◌else◌,
}
use container_internals_simu.Prelude.Int.{ℤ}
use container_internals_simu.Prelude.Text.{Text}
use container_internals_simu.Json.{quote}
use container_internals_simu.Orchestrator.Types.{Spec}
use container_internals_simu.Orchestrator.SpecFile.{
  JNode, null_node, bool_node, arr_node, obj_node, JItems, no_items, item, JFields, no_fields,
  field, spec_of_root,
}
use container_internals_simu.Orchestrator.SpecFile.Tokens.{
  Jp, Parsed, got, null, too_deep, and_then, table_size, max_members, jp_alloc, jp_peek, jp_consume,
  jp_node, jp_raw_string, jp_parse_string, jp_parse_number,
}

-- `if (jp_peek(p) == x) jp_consume(p);`
unfoldable pub skip_byte : ℕ → Jp → Jp
unfolding jp_peek jp_consume
skip_byte x p = let (q, c) = jp_peek p in if c == x then (jp_consume q).0 else q

-- The loops over the members, with the slots that are left; `value` is `jp_parse_value`.
module _ (value : Jp → Jp × Parsed JNode) where
  unfoldable pub object_loop : ℕ → Jp → Jp × Parsed JFields
  unfolding jp_peek jp_raw_string jp_consume skip_byte
  object_loop zero p = ((jp_peek p).0, got no_fields)
  object_loop (suc slots) p =
      let (q, c) = jp_peek p in
      elim (c == b'}' || c == 0) [
        | true ↦ (q, got no_fields)
        | false ↦ and_then (jp_raw_string q) λ r key.
            let (s, colon) = jp_consume r in
            elim (colon == b':') [
              | true ↦ and_then (value s) λ t node.
                  and_then (object_loop slots (skip_byte b',' t))
                    λ u rest. (u, got (field key node rest))
              | false ↦ (s, null)
            ]
      ]

  -- Behind the brace.
  unfoldable pub object_body : Jp → Jp × Parsed JNode
  unfolding object_loop jp_node jp_alloc skip_byte
  object_body p = and_then (jp_node p) λ q u. and_then (jp_alloc table_size q) λ r keys.
      and_then (jp_alloc table_size r) λ s vals.
        and_then (object_loop max_members s) λ t members. (skip_byte b'}' t, got (obj_node members))

  unfoldable pub jp_parse_object : Jp → Jp × Parsed JNode
  unfolding object_body jp_consume
  jp_parse_object p =
      let (q, c) = jp_consume p in elim (c == b'{') [ true ↦ object_body q | false ↦ (q, null) ]

  unfoldable pub array_loop : ℕ → Jp → Jp × Parsed JItems
  unfolding jp_peek skip_byte
  array_loop zero p = ((jp_peek p).0, got no_items)
  array_loop (suc slots) p =
      let (q, c) = jp_peek p in
      elim (c == b']' || c == 0) [
        | true ↦ (q, got no_items)
        | false ↦ and_then (value q) λ r node.
            and_then (array_loop slots (skip_byte b',' r)) λ s rest. (s, got (item node rest))
      ]

  unfoldable pub array_body : Jp → Jp × Parsed JNode
  unfolding array_loop jp_node jp_alloc skip_byte
  array_body p = and_then (jp_node p) λ q u. and_then (jp_alloc table_size q) λ r items.
      and_then (array_loop max_members r) λ s members. (skip_byte b']' s, got (arr_node members))

  unfoldable pub jp_parse_array : Jp → Jp × Parsed JNode
  unfolding array_body jp_consume
  jp_parse_array p =
      let (q, c) = jp_consume p in elim (c == b'[') [ true ↦ array_body q | false ↦ (q, null) ]

-- What a value starts with.
pub data Start : Type 0 where
  an_object an_array a_string a_true a_false a_null a_number an_error : Start

abbrev pub start_of : ℕ → Start
start_of c =
    if c == b'{'
    then an_object
    else if c == b'['
    then an_array
    else if c == quote
    then a_string
    else if c == b't'
    then a_true
    else if c == b'f'
    then a_false
    else if c == b'n'
    then a_null
    else if c == b'-' || leb b'0' c && leb c b'9'
    then a_number
    else an_error

-- A word is skipped without a look at its letters.
unfoldable pub parse_word : ℕ → JNode → Jp → Jp × Parsed JNode
unfolding jp_node
parse_word n node p = and_then (jp_node (record p { src = drop n p.src })) λ q u. (q, got node)

unfoldable pub parse_as : (Jp → Jp × Parsed JNode) → Start → Jp → Jp × Parsed JNode
unfolding jp_parse_object jp_parse_array jp_parse_string jp_parse_number parse_word
parse_as value an_object p = jp_parse_object value p
parse_as value an_array p = jp_parse_array value p
parse_as value a_string p = jp_parse_string p
parse_as value a_true p = parse_word 4 (bool_node true) p
parse_as value a_false p = parse_word 5 (bool_node false) p
parse_as value a_null p = parse_word 4 null_node p
parse_as value a_number p = jp_parse_number p
parse_as value an_error p = (p, null)

-- The fuel is the depth of the recursion.
unfoldable pub jp_parse_value : ℕ → Jp → Jp × Parsed JNode
unfolding parse_as jp_peek
jp_parse_value zero p = (p, too_deep)
jp_parse_value (suc depth) p =
    let (q, c) = jp_peek p in parse_as (jp_parse_value depth) (start_of c) q

-- A depth that the arena has no room for.
abbrev pub max_depth : ℕ
max_depth = 241

abbrev pub root_of : Parsed JNode → Option JNode
root_of (got node) = some node
root_of _ = none

-- From the bytes that were read on.
unfoldable pub parse_buffer : (Text → ℤ) → Text → Text → Option Spec
parse_buffer to_int path [] = none
parse_buffer to_int path (c ∷ fbuf) =
    let p : Jp = record { src = c ∷ fbuf; apos = 0 } in
    spec_of_root to_int path (root_of (jp_parse_value max_depth p).1)

-- The file's bytes, or `none` if it cannot be opened or read; at most 65535 are read. The other
-- `none` stands for the result -1.
unfoldable pub orch_parse_spec : (Text → ℤ) → Text → Option Text → Option Spec
orch_parse_spec to_int path none = none
orch_parse_spec to_int path (some bytes) = parse_buffer to_int path (take 65535 bytes)
