-- ===== src/Json/Tests.antt =====
-- Escaped strings, and the theorems at one of them.
use container_internals_simu.Prelude.{◌≡◌, refl, inl, inr, some, [], ◌∷◌, ◌++◌, All, arith}
use container_internals_simu.Prelude.Text.{Text, codes}
use container_internals_simu.Json.{
  json_escape_copy, escape_loop, escape_byte, quote, backslash, raw_string,
}
use container_internals_simu.Json.RoundTrip.{IsKept, raw_string-json_escape_copy}

-- `a"b` and a newline.
abbrev line : Text
line = 97 ∷ quote ∷ 98 ∷ 10 ∷ []

escaped_line :
    json_escape_copy 16 (some line) ≡ some (97 ∷ backslash ∷ quote ∷ 98 ∷ backslash ∷ 110 ∷ [])
unfolding json_escape_copy escape_loop escape_byte
escaped_line = refl

-- In a buffer that is nearly full the quote is copied as it is.
raw_quote : json_escape_copy 3 (some line) ≡ some (97 ∷ quote ∷ [])
unfolding json_escape_copy escape_loop escape_byte
raw_quote = refl

line-IsKept : All IsKept line
line-IsKept = (
  inr (inr (inr (omega arith))),
  (inr (inr (inr (omega arith))), (inr (inr (inr (omega arith))), (inl refl, tt))),
)

raw_string-json_escape_copy_example :
    (dst : Text) × (json_escape_copy 16 (some line) ≡ some dst)
    × (raw_string 510 (dst ++ quote ∷ codes ",") ≡ (line, codes ","))
raw_string-json_escape_copy_example =
    raw_string-json_escape_copy 15 line (codes ",") line-IsKept (omega arith) (omega arith)
