-- ===== src/Orchestrator/SpecFile/Tokens.antt =====
-- The parser's arena, spaces and comments, strings and numbers.
use container_internals_simu.Prelude.{
  ℕ, zero, suc, ◌+◌, ◌*◌, ◌/◌, Bool, true, false, not, ◌&&◌, ◌||◌, [], ◌∷◌, length, drop, ltb, leb,
  ◌==◌, if◌then◌else◌,
}
use container_internals_simu.Prelude.Text.{Text}
use container_internals_simu.Json.{raw_string, quote}
use container_internals_simu.Orchestrator.SpecFile.{JNode, num_node, str_node}

-- `JP`, with the source from `pos` on; behind its end there is nothing.
pub record Jp : Type 0 where
  pub src : Text
  pub apos : ℕ

-- A pointer that is not NULL, NULL, or a recursion that is deeper than the fuel.
pub data Parsed {ℓ} (A : Type ℓ) : Type ℓ where
  got : A → Parsed A
  null too_deep : Parsed A

-- `if (!x) return NULL;`
abbrev pub and_then {ℓ κ} :
    {A : Type ℓ} {B : Type κ} → Jp × Parsed A → (Jp → A → Jp × Parsed B) → Jp × Parsed B
and_then (p, got a) next = next p a
and_then (p, null) next = (p, null)
and_then (p, too_deep) next = (p, too_deep)

abbrev pub arena_size : ℕ
arena_size = 131072

abbrev pub node_size : ℕ
node_size = 32

-- The sizes of `keys`, `vals` and `items`, and the number of their slots.
abbrev pub table_size : ℕ
table_size = 512

abbrev pub max_members : ℕ
max_members = 64

-- The pointer is not looked at; `tt` stands for it.
unfoldable pub jp_alloc : ℕ → Jp → Jp × Parsed (Unit {0})
jp_alloc sz p =
    let aligned = (sz + 7) / 8 * 8 in
    if ltb arena_size (p.apos + aligned)
    then (p, null)
    else (record p { apos = p.apos + aligned }, got tt)

abbrev is_blank : ℕ → Bool
is_blank c = c == b' ' || c == 9 || c == 10 || c == 13

abbrev starts_slash : Text → Bool
starts_slash [] = false
starts_slash (c ∷ s) = c == b'/'

-- The loops of `jp_skip_ws`; the first argument says that a comment is being skipped. A comment
-- ends at a newline, which is skipped as a blank.
unfoldable pub skip_ws : Bool → Text → Text
skip_ws comment [] = []
skip_ws comment (c ∷ s) =
    let opens = c == b'/' && starts_slash s in
    let rest = skip_ws (if comment then not (c == 10) else opens) s in
    if comment || is_blank c || opens then rest else c ∷ s

unfoldable pub jp_skip_ws : Jp → Jp
unfolding skip_ws
jp_skip_ws p = record p { src = skip_ws false p.src }

-- The byte at the front, or 0.
abbrev pub front : Text → ℕ
front [] = 0
front (c ∷ s) = c

unfoldable pub jp_peek : Jp → Jp × ℕ
unfolding jp_skip_ws
jp_peek p = let q = jp_skip_ws p in (q, front q.src)

unfoldable pub jp_consume : Jp → Jp × ℕ
unfolding jp_skip_ws
jp_consume p = let q = jp_skip_ws p in (record q { src = drop 1 q.src }, front q.src)

unfoldable pub jp_node : Jp → Jp × Parsed (Unit {0})
unfolding jp_alloc
jp_node p = jp_alloc node_size p

-- What a C string is of an array of bytes.
unfoldable pub up_to_zero : Text → Text
up_to_zero [] = []
up_to_zero (c ∷ s) = let rest = up_to_zero s in if c == 0 then [] else c ∷ rest

-- The part behind the opening quote; a string has at most 510 bytes.
unfoldable pub string_body : Jp → Jp × Parsed Text
unfolding jp_alloc raw_string up_to_zero
string_body p =
    let (text, rest) = raw_string 510 p.src in
    and_then (jp_alloc (length text + 1) (record p { src = rest }))
      λ q u. (q, got (up_to_zero text))

unfoldable pub jp_raw_string : Jp → Jp × Parsed Text
unfolding string_body jp_consume
jp_raw_string p =
    let (q, c) = jp_consume p in elim (c == quote) [ true ↦ string_body q | false ↦ (q, null) ]

unfoldable pub jp_parse_string : Jp → Jp × Parsed JNode
unfolding jp_raw_string jp_node
jp_parse_string p =
    and_then (jp_node p) λ q u. and_then (jp_raw_string q) λ r text. (r, got (str_node text))

abbrev is_number_byte : ℕ → Bool
is_number_byte c =
    leb b'0' c && leb c b'9' || c == b'-' || c == b'+' || c == b'.' || c == b'e' || c == b'E'

-- What goes into `buf`, and what is left.
unfoldable pub take_number : ℕ → Text → Text × Text
take_number zero s = ([], s)
take_number (suc room) [] = ([], [])
take_number (suc room) (c ∷ s) =
    let (text, rest) = take_number room s in
    if is_number_byte c then (c ∷ text, rest) else ([], c ∷ s)

-- A number is kept as its text.
unfoldable pub jp_parse_number : Jp → Jp × Parsed JNode
unfolding jp_skip_ws take_number jp_node
jp_parse_number p =
    let q = jp_skip_ws p in
    let (text, rest) = take_number 63 q.src in
    and_then (jp_node (record q { src = rest })) λ r u. (r, got (num_node text))
