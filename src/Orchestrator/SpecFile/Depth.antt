-- ===== src/Orchestrator/SpecFile/Depth.antt =====
-- The parser stays in its arena, and the arena bounds the depth of its recursion.
use container_internals_simu.Prelude.{
  ℕ, zero, suc, ◌+◌, ◌*◌, ◌/◌, ◌≤◌, ◌<◌, ◌≡◌, ◌≢◌, refl, inl, inr, true, false, ◌||◌, arith, ltb,
  ◌==◌, Bool-cases,
}
use container_internals_simu.Json.{quote}
use container_internals_simu.Orchestrator.SpecFile.{JNode, str_node, bool_node, null_node}
use container_internals_simu.Orchestrator.SpecFile.Tokens.{
  Jp, Parsed, got, null, too_deep, and_then, arena_size, node_size, table_size, max_members,
  jp_alloc, jp_skip_ws, jp_peek, jp_consume, jp_node, string_body, jp_raw_string, jp_parse_string,
  jp_parse_number,
}
use container_internals_simu.Orchestrator.SpecFile.Parser.{
  skip_byte, object_loop, object_body, jp_parse_object, array_loop, array_body, jp_parse_array,
  Start, an_object, an_array, a_string, a_true, a_false, a_null, a_number, an_error, start_of,
  parse_word, parse_as, jp_parse_value,
}

-- The arena is used up to `apos` before, and no more than all of it after; the recursion has come
-- to an end.
pub record Fine {ℓ} {A : Type ℓ} (before : ℕ) (r : Jp × Parsed A) : Type ℓ where
  pub grows : before ≤ r.0.apos
  pub fits : r.0.apos ≤ arena_size
  pub ends : r.1 ≢ too_deep

-- The rule for a step behind which the code goes on.
and_then-Fine {ℓ κ} :
    {A : Type ℓ} {B : Type κ} (before : ℕ) (r : Jp × Parsed A) (next : Jp → A → Jp × Parsed B)
    → Fine before r
    → ((q : Jp) (a : A) → before ≤ q.apos → q.apos ≤ arena_size → Fine before (next q a))
    → Fine before (and_then r next)
and_then-Fine before (q, got a) next f g = g q a f.grows f.fits
and_then-Fine before (q, null) next f g = record { grows = f.grows; fits = f.fits; ends = λ e. cc }
and_then-Fine before (q, too_deep) next f g = absurd (f.ends refl)

pub Fine-le {ℓ} : {A : Type ℓ} (m n : ℕ) (r : Jp × Parsed A) → m ≤ n → Fine n r → Fine m r
Fine-le m n r h f = record { grows = omega (arith, f.grows); fits = f.fits; ends = f.ends }

-- A result of a step that takes nothing from the arena.
still {ℓ} :
    {A : Type ℓ} (before : ℕ) (p : Jp) (r : Parsed A)
    → before ≤ p.apos
    → p.apos ≤ arena_size
    → r ≢ too_deep
    → Fine before (p, r)
still before p r h k e = record { grows = h; fits = k; ends = e }

-- The rule for an allocation.
pub alloc-Fine {κ} :
    {B : Type κ} (sz before : ℕ) (p : Jp) (next : Jp → Unit → Jp × Parsed B)
    → before ≤ p.apos
    → p.apos ≤ arena_size
    → ((q : Jp) (u : Unit) → p.apos + sz ≤ q.apos → q.apos ≤ arena_size → Fine before (next q u))
    → Fine before (and_then (jp_alloc sz p) next)
unfolding jp_alloc
alloc-Fine sz before p next h k g = elim (Bool-cases (ltb arena_size (p.apos + (sz + 7) / 8 * 8))) [
  | inl full ↦ rw full (still before p null h k (λ e. cc))
  | inr room ↦ rw room (g _ tt (omega arith) (ground arith))
]

string_body-Fine : (p : Jp) → p.apos ≤ arena_size → Fine p.apos (string_body p)
unfolding string_body
string_body-Fine p k =
    alloc-Fine _ p.apos _ _ (omega arith) k λ q u h l. still p.apos q _ (omega arith) l (λ e. cc)

pub jp_raw_string-Fine : (p : Jp) → p.apos ≤ arena_size → Fine p.apos (jp_raw_string p)
unfolding jp_raw_string jp_consume jp_skip_ws
jp_raw_string-Fine p k = elim (Bool-cases ((jp_consume p).1 == quote)) [
  | inl opens ↦ rw (opens, jp_raw_string) (string_body-Fine (jp_consume p).0 k)
  | inr other ↦
      rw (other, jp_raw_string) (still p.apos (jp_consume p).0 null (omega arith) k (λ e. cc))
]

parse_string-Fine : (p : Jp) → p.apos ≤ arena_size → Fine p.apos (jp_parse_string p)
unfolding jp_parse_string jp_node
parse_string-Fine p k = alloc-Fine node_size p.apos p _ (omega arith) k λ q u h l.
    and_then-Fine p.apos (jp_raw_string q) _
      (Fine-le p.apos q.apos (jp_raw_string q) (omega arith) (jp_raw_string-Fine q l))
      λ r text h' l'. still p.apos r (got (str_node text)) h' l' (λ e. cc)

parse_number-Fine : (p : Jp) → p.apos ≤ arena_size → Fine p.apos (jp_parse_number p)
unfolding jp_parse_number jp_node jp_skip_ws
parse_number-Fine p k =
    alloc-Fine node_size p.apos _ _ (omega arith) k
      λ q u h l. still p.apos q _ (omega arith) l (λ e. cc)

parse_word-Fine :
    (n : ℕ) (node : JNode) (p : Jp) → p.apos ≤ arena_size → Fine p.apos (parse_word n node p)
unfolding parse_word jp_node
parse_word-Fine n node p k =
    alloc-Fine node_size p.apos _ _ (omega arith) k
      λ q u h l. still p.apos q _ (omega arith) l (λ e. cc)

pub skip_byte_apos : (x : ℕ) (p : Jp) → (skip_byte x p).apos ≡ p.apos
unfolding skip_byte jp_peek jp_consume jp_skip_ws
skip_byte_apos x p = ground arith

-- A value is fine wherever less than `k` bytes of the arena are left.
module _ (value : Jp → Jp × Parsed JNode) (k : ℕ)
    (fine : (p : Jp) → p.apos ≤ arena_size → arena_size < p.apos + k → Fine p.apos (value p)) where
  -- Behind a comma that may be there.
  pub comma-Fine {ℓ} :
      {A : Type ℓ} (f : Jp → Jp × Parsed A) (before x : ℕ) (r : Jp)
      → ((q : Jp) → q.apos ≤ arena_size → arena_size < q.apos + k → Fine q.apos (f q))
      → before ≤ r.apos
      → r.apos ≤ arena_size
      → arena_size < before + k
      → Fine before (f (skip_byte x r))
  comma-Fine f before x r g h l m =
      let same = skip_byte_apos x r in
      Fine-le before (skip_byte x r).apos _ (omega (arith, same))
        (g (skip_byte x r) (omega (arith, same)) (omega (arith, same)))

  pub array_loop-Fine :
      (slots : ℕ) (p : Jp)
      → p.apos ≤ arena_size
      → arena_size < p.apos + k
      → Fine p.apos (array_loop value slots p)
  unfolding array_loop jp_peek jp_skip_ws
  array_loop-Fine zero p l m = still p.apos _ _ (omega arith) l (λ e. cc)
  array_loop-Fine (suc slots) p l m =
      let q = (jp_peek p).0 in
      let c = (jp_peek p).1 in
      elim (Bool-cases (c == b']' || c == 0)) [
        | inl stops ↦ rw (stops, array_loop) (still p.apos q _ (omega arith) l (λ e. cc))
        | inr more ↦
            rw (more, array_loop)
              (and_then-Fine p.apos (value q) _ (fine q l m) λ r node h' l'.
                and_then-Fine p.apos (array_loop value slots (skip_byte b',' r)) _
                  (comma-Fine (array_loop value slots) p.apos b',' r (array_loop-Fine slots) h' l'
                    m)
                  λ s rest h'' l''. still p.apos s _ h'' l'' (λ e. cc))
      ]

  pub object_loop-Fine :
      (slots : ℕ) (p : Jp)
      → p.apos ≤ arena_size
      → arena_size < p.apos + k
      → Fine p.apos (object_loop value slots p)
  unfolding object_loop jp_peek jp_skip_ws jp_consume
  object_loop-Fine zero p l m = still p.apos _ _ (omega arith) l (λ e. cc)
  object_loop-Fine (suc slots) p l m =
      let q = (jp_peek p).0 in
      let c = (jp_peek p).1 in
      elim (Bool-cases (c == b'}' || c == 0)) [
        | inl stops ↦ rw (stops, object_loop) (still p.apos q _ (omega arith) l (λ e. cc))
        | inr more ↦
            rw (more, object_loop)
              (and_then-Fine p.apos (jp_raw_string q) _ (jp_raw_string-Fine q l) λ r key h' l'.
                let s = (jp_consume r).0 in
                elim (Bool-cases ((jp_consume r).1 == b':')) [
                  | inr other ↦ rw other (still p.apos s null h' l' (λ e. cc))
                  | inl colon ↦ rw colon (
                      and_then-Fine p.apos (value s) _
                        (Fine-le p.apos s.apos (value s) h' (fine s l' (omega arith)))
                        λ t node h'' l''.
                          and_then-Fine p.apos (object_loop value slots (skip_byte b',' t)) _
                            (comma-Fine (object_loop value slots) p.apos b',' t
                              (object_loop-Fine slots) h'' l'' m)
                            λ u rest h3 l3. still p.apos u _ h3 l3 (λ e. cc))
                ])
      ]

  -- A table and its node leave less of the arena to the members.
  array_body-Fine :
      (p : Jp)
      → p.apos ≤ arena_size
      → arena_size < p.apos + (k + 544)
      → Fine p.apos (array_body value p)
  unfolding array_body jp_node
  array_body-Fine p l m = alloc-Fine node_size p.apos p _ (omega arith) l λ q u h1 l1.
      alloc-Fine table_size p.apos q _ (omega arith) l1 λ r items h2 l2.
        and_then-Fine p.apos (array_loop value max_members r) _
          (Fine-le p.apos r.apos _ (omega arith) (array_loop-Fine max_members r l2 (omega arith)))
          λ s members h3 l3.
            let same = skip_byte_apos b']' s in
            still p.apos (skip_byte b']' s) _ (omega (arith, same)) (omega (arith, same)) (λ e. cc)

  object_body-Fine :
      (p : Jp)
      → p.apos ≤ arena_size
      → arena_size < p.apos + (k + 544)
      → Fine p.apos (object_body value p)
  unfolding object_body jp_node
  object_body-Fine p l m = alloc-Fine node_size p.apos p _ (omega arith) l λ q u h1 l1.
      alloc-Fine table_size p.apos q _ (omega arith) l1 λ r keys h2 l2.
        alloc-Fine table_size p.apos r _ (omega arith) l2 λ s vals h3 l3.
          and_then-Fine p.apos (object_loop value max_members s) _
            (Fine-le p.apos s.apos _ (omega arith)
              (object_loop-Fine max_members s l3 (omega arith)))
            λ t members h4 l4.
              let same = skip_byte_apos b'}' t in
              still p.apos (skip_byte b'}' t) _ (omega (arith, same)) (omega (arith, same))
                (λ e. cc)

  parse_as-Fine :
      (start : Start) (p : Jp)
      → p.apos ≤ arena_size
      → arena_size < p.apos + (k + 544)
      → Fine p.apos (parse_as value start p)
  unfolding parse_as jp_parse_object jp_parse_array jp_consume jp_skip_ws
  parse_as-Fine an_object p l m = elim (Bool-cases ((jp_consume p).1 == b'{')) [
    | inl opens ↦ rw (opens, jp_parse_object) (object_body-Fine (jp_consume p).0 l m)
    | inr other ↦
        rw (other, jp_parse_object) (still p.apos (jp_consume p).0 null (omega arith) l (λ e. cc))
  ]
  parse_as-Fine an_array p l m = elim (Bool-cases ((jp_consume p).1 == b'[')) [
    | inl opens ↦ rw (opens, jp_parse_array) (array_body-Fine (jp_consume p).0 l m)
    | inr other ↦
        rw (other, jp_parse_array) (still p.apos (jp_consume p).0 null (omega arith) l (λ e. cc))
  ]
  parse_as-Fine a_string p l m = parse_string-Fine p l
  parse_as-Fine a_true p l m = parse_word-Fine 4 (bool_node true) p l
  parse_as-Fine a_false p l m = parse_word-Fine 5 (bool_node false) p l
  parse_as-Fine a_null p l m = parse_word-Fine 4 null_node p l
  parse_as-Fine a_number p l m = parse_number-Fine p l
  parse_as-Fine an_error p l m = still p.apos p null (omega arith) l (λ e. cc)

pub jp_parse_value-Fine :
    (depth : ℕ) (p : Jp)
    → p.apos ≤ arena_size
    → arena_size < p.apos + depth * 544
    → Fine p.apos (jp_parse_value depth p)
unfolding jp_parse_value jp_peek jp_skip_ws
jp_parse_value-Fine zero p l m = absurd (omega arith)
jp_parse_value-Fine (suc depth) p l m =
    let q = (jp_peek p).0 in
    parse_as-Fine (jp_parse_value depth) (depth * 544) (jp_parse_value-Fine depth)
      (start_of (jp_peek p).1) q l (omega arith)
