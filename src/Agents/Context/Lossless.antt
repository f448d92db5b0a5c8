-- ===== src/Agents/Context/Lossless.antt =====
-- The tables of app/agents/context.py hold every row and value.
use mottainai_ia.Base.{
  ◌≡◌, refl, sym, subst, ◌∙◌, inl, inr, Bool, true, false, not, ◌||◌, List, [], ◌∷◌, some, all, any,
  map, length, ltb, Bool-cases, arith, ◌==◌, if◌then◌else◌,
}
use mottainai_ia.Text.Case.{Str, codes}
use mottainai_ia.Text.Search.{str_eq}
use mottainai_ia.Agents.Judge.{
  Json, null, boolean, integer, number, string, array, object, Items, nil, cons, Fields, end, field,
  get_field,
}
use mottainai_ia.Agents.Context.{
  Printing, is_object, fields_of, items, keys, context_json, same_keys, is_shared, table_of,
  pack_rows, pack_list, pack_records, pack_items, pack_fields,
}
use mottainai_ia.Agents.Context.Reading.{
  says_table, is_table, NoTables, NoTablesAmong, NoTablesUnder, Denotes, DenotesAll, DenotesFields,
  DenotesRows, null_itself, boolean_itself, integer_itself, number_itself, string_itself, list,
  record_of, table, none_of, one_of, no_field, one_field,
}
use mottainai_ia.Agents.Context.Tables.{table-read, rows-Denote, rows_agree}

module _ {F : Type 0} (pr : Printing F) where
  none_other :
      (columns : List Str) (rs : List (Fields F))
      → any (λ row. not (same_keys pr columns row)) rs ≡ false
      → all (λ row. same_keys pr columns row) rs ≡ true
  none_other columns [] h = refl
  none_other columns (r ∷ rs) h = ground (arith, h, none_other columns rs)

  chosen :
      (odd smaller : Bool) {plain t v : Json F}
      → Denotes pr plain v
      → (odd ≡ false → Denotes pr t v)
      → Denotes pr (if odd then plain else if smaller then t else plain) v
  chosen true smaller d e = d
  chosen false true d e = e refl
  chosen false false d e = d

  table_of-Denotes :
      (p : Json F) (ps : List (Json F)) (vs : Items F)
      → DenotesAll pr (p ∷ ps) vs
      → all is_object (p ∷ ps) ≡ true
      → all (λ row. same_keys pr (keys (fields_of p)) row) (fields_of p ∷ map fields_of ps) ≡ true
      → Denotes pr (table_of pr (keys (fields_of p)) (fields_of p) (map fields_of ps)) (array vs)
  unfolding table_of is_shared
  table_of-Denotes p ps vs ds objects same =
      let columns = keys (fields_of p) in
      let shared = is_shared pr (fields_of p) (map fields_of ps) in
      let (tabled, rows) = table-read pr columns (fields_of p) (map fields_of ps) in
      let agreeing =
        rows_agree pr columns (fields_of p) shared (map fields_of ps) (ground (arith, same))
          (λ key is_one. is_one) in
      table _ vs tabled (
        subst (λ rs. DenotesRows pr rs vs) (sym rows)
          (rows-Denote pr columns (fields_of p) shared (p ∷ ps) vs ds objects
            ((ground (arith, same), λ key is_one. refl), agreeing)))

  pack_rows-Denotes :
      (p : Json F) (ps : List (Json F)) (vs : Items F)
      → DenotesAll pr (p ∷ ps) vs
      → all is_object (p ∷ ps) ≡ true
      → Denotes pr (pack_rows pr (fields_of p) (map fields_of ps) (p ∷ ps)) (array vs)
  unfolding pack_rows
  pack_rows-Denotes p ps vs ds objects =
      let columns = keys (fields_of p) in
      let rows = fields_of p ∷ map fields_of ps in
      let t = table_of pr columns (fields_of p) (map fields_of ps) in
      chosen ((length columns == 0) || any (λ row. not (same_keys pr columns row)) rows)
        (pr.is_smaller (length (context_json pr t))
          (length (context_json pr (array (items (p ∷ ps))))))
        (list (p ∷ ps) vs ds)
        (λ uniform.
          table_of-Denotes p ps vs ds objects (none_other columns rows (ground (arith, uniform))))

  pack_list-Denotes :
      (ps : List (Json F)) (vs : Items F)
      → DenotesAll pr ps vs
      → Denotes pr (pack_list pr ps) (array vs)
  unfolding pack_list
  pack_list-Denotes [] vs ds = list [] vs ds
  pack_list-Denotes (p ∷ ps) vs ds =
      elim (Bool-cases (ltb (length (p ∷ ps)) 3 || not (all is_object (p ∷ ps)))) [
        | inl few ↦ rw few (list (p ∷ ps) vs ds)
        | inr enough ↦ rw enough (pack_rows-Denotes p ps vs ds (ground (arith, enough)))
      ]

  says-choice :
      (odd smaller : Bool) (xs : Items F) (t : Fields F)
      → says_table (some (if odd then array xs else if smaller then object t else array xs)) ≡ false
  says-choice true smaller xs t = refl
  says-choice false true xs t = refl
  says-choice false false xs t = refl

  rows_say :
      (first : Fields F) (others : List (Fields F)) (ps : List (Json F))
      → says_table (some (pack_rows pr first others ps)) ≡ false
  unfolding pack_rows table_of
  rows_say first others ps =
      says-choice
        ((length (keys first) == 0)
          || any (λ row. not (same_keys pr (keys first) row)) (first ∷ others))
        (pr.is_smaller (length (context_json pr (table_of pr (keys first) first others)))
          (length (context_json pr (array (items ps)))))
        _ _

  list_says : (ps : List (Json F)) → says_table (some (pack_list pr ps)) ≡ false
  unfolding pack_list
  list_says [] = refl
  list_says (p ∷ ps) = elim (Bool-cases (ltb (length (p ∷ ps)) 3 || not (all is_object (p ∷ ps)))) [
    | inl few ↦ rw few refl
    | inr enough ↦ rw enough (rows_say (fields_of p) (map fields_of ps) (p ∷ ps))
  ]

  packed_says : (v : Json F) → says_table (some (pack_records pr v)) ≡ says_table (some v)
  unfolding pack_records
  packed_says null = refl
  packed_says (boolean b) = refl
  packed_says (integer n) = refl
  packed_says (number x) = refl
  packed_says (string s) = refl
  packed_says (array xs) = list_says (pack_items pr xs)
  packed_says (object fs) = refl

  is_table-pack : (fs : Fields F) → is_table (pack_fields pr fs) ≡ is_table fs
  unfolding pack_records is_table get_field
  is_table-pack end = refl
  is_table-pack (field k v fs) = elim (Bool-cases (str_eq k (codes "format"))) [
    | inl named ↦ rw named (packed_says v)
    | inr other ↦ rw other (is_table-pack fs)
  ]

  mutual
    unfolding pack_records NoTables

    packed-Denotes : (v : Json F) → NoTables v → Denotes pr (pack_records pr v) v
    packed-Denotes null h = null_itself
    packed-Denotes (boolean b) h = boolean_itself b
    packed-Denotes (integer n) h = integer_itself n
    packed-Denotes (number x) h = number_itself x
    packed-Denotes (string s) h = string_itself s
    packed-Denotes (array xs) h = pack_list-Denotes (pack_items pr xs) xs (items-Denote xs h)
    packed-Denotes (object fs) (plain, h) =
        record_of _ fs (is_table-pack fs ∙ plain) (fields-Denote fs h)

    items-Denote : (xs : Items F) → NoTablesAmong xs → DenotesAll pr (pack_items pr xs) xs
    items-Denote nil h = none_of
    items-Denote (cons v xs) (hv, h) = one_of _ v _ xs (packed-Denotes v hv) (items-Denote xs h)

    fields-Denote : (fs : Fields F) → NoTablesUnder fs → DenotesFields pr (pack_fields pr fs) fs
    fields-Denote end h = no_field
    fields-Denote (field k v fs) (hv, h) =
        one_field k _ v _ fs (packed-Denotes v hv) (fields-Denote fs h)

  -- A reader who expands the tables of a packed value has the value back: every list with all its
  -- rows in order, every record with its keys, and the same text in each cell. The value itself must
  -- hold no object that says `"format": "table"`.
  pub pack_records-Denotes : (v : Json F) → NoTables v → Denotes pr (pack_records pr v) v
  pack_records-Denotes v h = packed-Denotes v h
