-- ===== src/Json.antt =====
-- How strings get into JSON and out of it: `json_escape_copy`, of which src/eventbus.c, src/alert.c
-- and src/container.c have each a copy, and the loop of `jp_raw_string` in src/orchestrator.c.
pub mod Escape
pub mod Array
pub mod RoundTrip
mod Tests
use container_internals_simu.Prelude.{
  ℕ, zero, suc, ◌+◌, ◌-◌, Bool, true, false, ◌&&◌, ◌||◌, Option, none, some, List, [], ◌∷◌, ◌++◌,
  length, ltb, leb, ◌==◌, if◌then◌else◌,
}
use container_internals_simu.Prelude.Text.{Text}

abbrev pub backslash : ℕ
backslash = 92

abbrev pub quote : ℕ
quote = 34

-- What the body of the loop appends for a byte, with `out` bytes written.
unfoldable pub escape_byte : ℕ → ℕ → ℕ → Text
escape_byte size out c =
    let room = ltb (out + 2) size in
    if (c == backslash || c == quote) && room
    then backslash ∷ c ∷ []
    else if c == 10 && room
    then backslash ∷ b'n' ∷ []
    else if c == 13 && room
    then backslash ∷ b'r' ∷ []
    else if c == 9 && room
    then backslash ∷ b't' ∷ []
    else if leb 32 c
    then c ∷ []
    else []

unfoldable pub escape_loop : ℕ → ℕ → Text → Text
escape_loop size out [] = []
escape_loop size out (c ∷ src) =
    let bytes = escape_byte size out c in
    let rest = escape_loop size (out + length bytes) src in
    if ltb (out + 1) size then bytes ++ rest else []

-- What is in `dst` after the call; nothing is written if it has no byte.
unfoldable pub json_escape_copy : ℕ → Option Text → Option Text
json_escape_copy zero src = none
json_escape_copy (suc n) none = some []
json_escape_copy (suc n) (some src) = some (escape_loop (suc n) 0 src)

-- `case 'n': ... default: ...`
abbrev pub decode : ℕ → ℕ
decode c = if c == b'n' then 10 else if c == b't' then 9 else if c == b'r' then 13 else c

-- The loop of `jp_raw_string` behind the opening quote, with room for `room` bytes: the string, and
-- the source behind the closing quote, if there is one.
unfoldable pub raw_string : ℕ → Text → Text × Text
raw_string room [] = ([], [])
raw_string zero (c ∷ src) = if c == quote then ([], src) else ([], c ∷ src)
raw_string (suc room) (c ∷ []) = if c == quote || c == backslash then ([], []) else (c ∷ [], [])
raw_string (suc room) (c ∷ d ∷ src) =
    let (escaped, behind) = raw_string room src in
    let (text, rest) = raw_string room (d ∷ src) in
    if c == quote
    then ([], d ∷ src)
    else if c == backslash
    then (decode d ∷ escaped, behind)
    else (c ∷ text, rest)
