-- ===== src/Orchestrator/SpecFile/Fuel.antt =====
-- Fuel for more levels than the arena has room for changes nothing.
use container_internals_simu.Prelude.{
  ℕ, zero, suc, ◌+◌, ◌*◌, ◌≤◌, ◌<◌, ◌≡◌, ◌≢◌, refl, inl, inr, ◌||◌, arith, ◌==◌, ltb, ◌/◌,
  Bool-cases,
}
use container_internals_simu.Prelude.Text.{Text}
use container_internals_simu.Orchestrator.SpecFile.{JNode}
use container_internals_simu.Orchestrator.SpecFile.Tokens.{
  Jp, Parsed, got, null, too_deep, and_then, arena_size, node_size, table_size, max_members,
  jp_alloc, jp_skip_ws, jp_peek, jp_consume, jp_node, jp_raw_string,
}
use container_internals_simu.Orchestrator.SpecFile.Parser.{
  skip_byte, object_loop, object_body, jp_parse_object, array_loop, array_body, jp_parse_array,
  Start, an_object, an_array, a_string, a_true, a_false, a_null, a_number, an_error, start_of,
  parse_as, jp_parse_value, max_depth,
}
use container_internals_simu.Orchestrator.SpecFile.Depth.{
  Fine, Fine-le, jp_raw_string-Fine, skip_byte_apos, jp_parse_value-Fine,
}

-- Steps that go on in the same way.
and_then-cong {ℓ κ} :
    {A : Type ℓ} {B : Type κ} (before : ℕ) (r : Jp × Parsed A) (next next' : Jp → A → Jp × Parsed B)
    → Fine before r
    → ((q : Jp) (a : A) → before ≤ q.apos → q.apos ≤ arena_size → next' q a ≡ next q a)
    → and_then r next' ≡ and_then r next
and_then-cong before (q, got a) next next' f g = g q a f.grows f.fits
and_then-cong before (q, null) next next' f g = refl
and_then-cong before (q, too_deep) next next' f g = refl

alloc-cong {κ} :
    {B : Type κ} (sz : ℕ) (p : Jp) (next next' : Jp → Unit → Jp × Parsed B)
    → ((q : Jp) (u : Unit) → p.apos + sz ≤ q.apos → q.apos ≤ arena_size → next' q u ≡ next q u)
    → and_then (jp_alloc sz p) next' ≡ and_then (jp_alloc sz p) next
unfolding jp_alloc
alloc-cong sz p next next' g = elim (Bool-cases (ltb arena_size (p.apos + (sz + 7) / 8 * 8))) [
  | inl full ↦ rw full refl
  | inr room ↦ rw room (g _ tt (omega arith) (ground arith))
]

-- Two parsers of values that agree wherever less than `k` bytes of the arena are left.
module _ (value value' : Jp → Jp × Parsed JNode) (k : ℕ)
    (fine : (p : Jp) → p.apos ≤ arena_size → arena_size < p.apos + k → Fine p.apos (value p))
    (same : (p : Jp) → p.apos ≤ arena_size → arena_size < p.apos + k → value' p ≡ value p) where
  array_loop-same :
      (slots : ℕ) (p : Jp)
      → p.apos ≤ arena_size
      → arena_size < p.apos + k
      → array_loop value' slots p ≡ array_loop value slots p
  unfolding array_loop jp_peek jp_skip_ws
  array_loop-same zero p l m = refl
  array_loop-same (suc slots) p l m =
      let q = (jp_peek p).0 in
      let c = (jp_peek p).1 in
      elim (Bool-cases (c == b']' || c == 0)) [
        | inl stops ↦ rw (stops, array_loop) refl
        | inr more ↦
            rw (more, array_loop, same q l m)
              (and_then-cong p.apos (value q) _ _ (fine q l m) λ r node h' l'.
                let e = skip_byte_apos b',' r in
                rw (array_loop-same slots (skip_byte b',' r) (omega (arith, e)) (omega (arith, e)))
                  refl)
      ]

  object_loop-same :
      (slots : ℕ) (p : Jp)
      → p.apos ≤ arena_size
      → arena_size < p.apos + k
      → object_loop value' slots p ≡ object_loop value slots p
  unfolding object_loop jp_peek jp_skip_ws jp_consume
  object_loop-same zero p l m = refl
  object_loop-same (suc slots) p l m =
      let q = (jp_peek p).0 in
      let c = (jp_peek p).1 in
      elim (Bool-cases (c == b'}' || c == 0)) [
        | inl stops ↦ rw (stops, object_loop) refl
        | inr more ↦
            rw (more, object_loop)
              (and_then-cong p.apos (jp_raw_string q) _ _ (jp_raw_string-Fine q l) λ r key h' l'.
                let s = (jp_consume r).0 in
                elim (Bool-cases ((jp_consume r).1 == b':')) [
                  | inr other ↦ rw other refl
                  | inl colon ↦
                      rw (colon, same s l' (omega arith))
                        (and_then-cong p.apos (value s) _ _
                          (Fine-le p.apos s.apos (value s) h' (fine s l' (omega arith)))
                          λ t node h'' l''.
                            let e = skip_byte_apos b',' t in
                            rw
                              (object_loop-same slots (skip_byte b',' t) (omega (arith, e))
                                (omega (arith, e)))
                              refl)
                ])
      ]

  array_body-same :
      (p : Jp) → arena_size < p.apos + (k + 544) → array_body value' p ≡ array_body value p
  unfolding array_body jp_node
  array_body-same p m = alloc-cong node_size p _ _ λ q u h1 l1.
      alloc-cong table_size q _ _
        λ r items h2 l2. rw (array_loop-same max_members r l2 (omega arith)) refl

  object_body-same :
      (p : Jp) → arena_size < p.apos + (k + 544) → object_body value' p ≡ object_body value p
  unfolding object_body jp_node
  object_body-same p m = alloc-cong node_size p _ _ λ q u h1 l1.
      alloc-cong table_size q _ _ λ r keys h2 l2.
        alloc-cong table_size r _ _
          λ s vals h3 l3. rw (object_loop-same max_members s l3 (omega arith)) refl

  parse_as-same :
      (start : Start) (p : Jp)
      → arena_size < p.apos + (k + 544)
      → parse_as value' start p ≡ parse_as value start p
  unfolding parse_as jp_parse_object jp_parse_array jp_consume jp_skip_ws
  parse_as-same an_object p m = elim (Bool-cases ((jp_consume p).1 == b'{')) [
    | inl opens ↦ rw (opens, jp_parse_object) (object_body-same (jp_consume p).0 m)
    | inr other ↦ rw (other, jp_parse_object) refl
  ]
  parse_as-same an_array p m = elim (Bool-cases ((jp_consume p).1 == b'[')) [
    | inl opens ↦ rw (opens, jp_parse_array) (array_body-same (jp_consume p).0 m)
    | inr other ↦ rw (other, jp_parse_array) refl
  ]
  parse_as-same a_string p m = refl
  parse_as-same a_true p m = refl
  parse_as-same a_false p m = refl
  parse_as-same a_null p m = refl
  parse_as-same a_number p m = refl
  parse_as-same an_error p m = refl

jp_parse_value-same :
    (depth deeper : ℕ) (p : Jp)
    → p.apos ≤ arena_size
    → arena_size < p.apos + depth * 544
    → depth ≤ deeper
    → jp_parse_value deeper p ≡ jp_parse_value depth p
unfolding jp_parse_value jp_peek jp_skip_ws
jp_parse_value-same zero deeper p l m h = absurd (omega arith)
jp_parse_value-same (suc depth) zero p l m h = absurd (omega arith)
jp_parse_value-same (suc depth) (suc deeper) p l m h =
    parse_as-same (jp_parse_value depth) (jp_parse_value deeper) (depth * 544)
      (jp_parse_value-Fine depth)
      (λ q l' m'. jp_parse_value-same depth deeper q l' m' (omega arith)) (start_of (jp_peek p).1)
      (jp_peek p).0 (omega arith)

-- Whatever the text, parsing it ends: no value is nested deeper than the 240 levels that the arena
-- has room for, so fuel for 241 is never used up, and more fuel gives the same. The arena is never
-- used beyond its end.
pub jp_parse_value-max_depth :
    (src : Text) (depth : ℕ)
    → max_depth ≤ depth
    → ((jp_parse_value depth (record { src = src; apos = 0 })).1 ≢ too_deep)
      × ((jp_parse_value depth (record { src = src; apos = 0 })).0.apos ≤ arena_size)
      × (jp_parse_value depth (record { src = src; apos = 0 })
          ≡ jp_parse_value max_depth (record { src = src; apos = 0 }))
jp_parse_value-max_depth src depth enough =
    let p : Jp = record { src = src; apos = 0 } in
    let f = jp_parse_value-Fine depth p (omega arith) (omega arith) in
    (f.ends, f.fits, jp_parse_value-same max_depth depth p (omega arith) (omega arith) enough)
