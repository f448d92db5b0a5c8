-- ===== src/Agents/Context/Tables.antt =====
-- What a reader gets from one table of app/agents/context.py: its rows, cell by cell.
use mottainai_ia.Base.{
  ◌≡◌, refl, sym, subst, ap, ◌∙◌, ◌⊎◌, inl, inr, Bool, true, false, not, ◌&&◌, List, [], ◌∷◌, none,
  some, All, all, map, keep, Bool-cases, arith, if◌then◌else◌,
}
use mottainai_ia.Text.Case.{Str, codes}
use mottainai_ia.Text.Search.{str_eq, str_eq_iff, str_eq_refl, str_mem}
use mottainai_ia.Agents.Judge.{
  Json, null, boolean, integer, number, string, array, object, Items, Fields, end, field, get_field,
}
use mottainai_ia.Agents.Context.{
  Printing, is_object, fields_of, items, keys, context_json, cell, same_keys, is_shared,
  shared_fields, row_cells, with_shared, table_of,
}
use mottainai_ia.Agents.Context.Reading.{
  read_strings, read_rows, zip_cells, fields_at, is_table, read_table, text_at, SameCells, Denotes,
  DenotesAll, DenotesRows, none_of, one_of, no_row, one_row,
}

str_eq-cases :
    (s t : Str)
    → ((s ≡ t) × (str_eq s t ≡ true) × (str_eq t s ≡ true))
      ⊎ ((str_eq s t ≡ false) × (str_eq t s ≡ false))
str_eq-cases s t = elim (Bool-cases (str_eq s t)) [
  | inl same ↦
      inl ((str_eq_iff s t).0 same, same, (str_eq_iff t s).1 (sym ((str_eq_iff s t).0 same)))
  | inr other ↦ inr (other, ground (arith, other, str_eq_iff s t, str_eq_iff t s))
]

mem_keep :
    (key : Str) (p : Str → Bool) (ks : List Str)
    → str_mem key (keep p ks) ≡ (str_mem key ks && p key)
unfolding str_mem
mem_keep key p [] = refl
mem_keep key p (k ∷ ks) = elim (str_eq-cases key k) [
  | inl (same, e, e') ↦ rw (← same) (ground (arith, str_eq_refl key, mem_keep key p ks))
  | inr (e, e') ↦ rw e (ground (arith, e, mem_keep key p ks))
]

all_mem :
    (p : Str → Bool) (ks : List Str) (key : Str)
    → all p ks ≡ true
    → str_mem key ks ≡ true
    → p key ≡ true
unfolding str_mem
all_mem p [] key h m = cc
all_mem p (k ∷ ks) key h m = elim (str_eq-cases key k) [
  | inl (same, e, e') ↦ subst (λ x. p x ≡ true) (sym same) (ground (arith, h))
  | inr (e, e') ↦ all_mem p ks key (ground (arith, h)) (rw e at m)
]

strings-read : (F : Type 0) (ks : List Str) → read_strings {F = F} (items (map string ks)) ≡ ks
unfolding read_strings
strings-read F [] = refl
strings-read F (k ∷ ks) = ap (λ xs. k ∷ xs) (strings-read F ks)

module _ {F : Type 0} where
  get_field-missing :
      (key : Str) (fs : Fields F) → str_mem key (keys fs) ≡ false → get_field key fs ≡ none
  unfolding get_field keys str_mem
  get_field-missing key end h = refl
  get_field-missing key (field k v fs) h =
      ground (arith, str_eq_iff key k, str_eq_iff k key, get_field-missing key fs)

  get_field-present :
      (pr : Printing F) (key : Str) (fs : Fields F)
      → str_mem key (keys fs) ≡ true
      → get_field key fs ≡ some (cell pr key fs)
  unfolding get_field keys str_mem cell
  get_field-present pr key end h = cc
  get_field-present pr key (field k v fs) h =
      ground (arith, str_eq_iff key k, str_eq_iff k key, get_field-present pr key fs)

  zip-get :
      (pr : Printing F) (key : Str) (ks : List Str) (r rest : Fields F)
      → get_field key (zip_cells ks (items (map (λ k. cell pr k r) ks)) rest)
        ≡ (if str_mem key ks then some (cell pr key r) else get_field key rest)
  unfolding str_mem get_field zip_cells
  zip-get pr key [] r rest = refl
  zip-get pr key (k ∷ ks) r rest = elim (str_eq-cases key k) [
    | inl (same, e, e') ↦ rw (← same, str_eq_refl key) refl
    | inr (e, e') ↦ rw (e, e') (zip-get pr key ks r rest)
  ]

  shared-get :
      (pr : Printing F) (key : Str) (first : Fields F) (ks : List Str)
      → get_field key (shared_fields pr first ks)
        ≡ (if str_mem key ks then some (cell pr key first) else none)
  unfolding str_mem get_field shared_fields
  shared-get pr key first [] = refl
  shared-get pr key first (k ∷ ks) = elim (str_eq-cases key k) [
    | inl (same, e, e') ↦ rw (← same, str_eq_refl key) refl
    | inr (e, e') ↦ rw (e, e') (shared-get pr key first ks)
  ]

  shared-read :
      (pr : Printing F) (fs : Fields F)
      → fields_at (get_field (codes "shared") (with_shared pr fs)) ≡ fs
  unfolding get_field str_eq
  shared-read pr end = refl
  shared-read pr (field k v fs) = refl

  pub object_of : (p : Json F) → is_object p ≡ true → object (fields_of p) ≡ p
  object_of (object fs) h = refl
  object_of null h = cc
  object_of (boolean b) h = cc
  object_of (integer n) h = cc
  object_of (number x) h = cc
  object_of (string s) h = cc
  object_of (array xs) h = cc

module _ {F : Type 0} (pr : Printing F) (columns : List Str) (first : Fields F) where
  -- What the code has checked of a row before it makes a table with the test `shared`.
  abbrev pub Row : (Str → Bool) → Fields F → Type 0
  Row shared r =
      (same_keys pr columns r ≡ true)
      × ((key : Str)
          → shared key ≡ true
          → context_json pr (cell pr key r) ≡ context_json pr (cell pr key first))

  pub expanded : (Str → Bool) → Fields F → Fields F
  expanded shared r =
      zip_cells (keep (λ k. not (shared k)) columns)
        (items (map (λ k. cell pr k r) (keep (λ k. not (shared k)) columns)))
        (shared_fields pr first (keep shared columns))

  mem_row :
      (r : Fields F) (key : Str)
      → same_keys pr columns r ≡ true
      → str_mem key columns ≡ str_mem key (keys r)
  unfolding same_keys
  mem_row r key same = elim (Bool-cases (str_mem key columns)) [
    | inl known ↦
        known ∙ sym (all_mem (λ k. str_mem k (keys r)) columns key (ground (arith, same)) known)
    | inr unknown ↦ elim (Bool-cases (str_mem key (keys r))) [
      | inl there ↦
          sym (
            there
            ∙ sym (all_mem (λ k. str_mem k columns) (keys r) key (ground (arith, same)) there))
      | inr missing ↦ unknown ∙ sym missing
    ]
  ]

  get-expanded :
      (shared : Str → Bool) (r : Fields F) (key : Str)
      → get_field key (expanded shared r) ≡ (
          if str_mem key columns && not (shared key)
          then some (cell pr key r)
          else if str_mem key columns && shared key
          then some (cell pr key first)
          else none)
  unfolding expanded
  get-expanded shared r key =
      rw
        (
          zip-get pr key (keep (λ k. not (shared k)) columns) r
              (shared_fields pr first (keep shared columns)),
          mem_keep key (λ k. not (shared k)) columns,
          shared-get pr key first (keep shared columns),
          mem_keep key shared columns,
        )
        refl

  expanded-SameCells :
      (shared : Str → Bool) (r : Fields F) → Row shared r → SameCells pr (expanded shared r) r
  unfolding text_at
  expanded-SameCells shared r (same, agree) key = elim (Bool-cases (str_mem key columns)) [
    | inr unknown ↦
        rw
          (
            text_at,
            get-expanded shared r key,
            unknown,
            get_field-missing key r (sym (mem_row r key same) ∙ unknown),
          )
          refl
    | inl known ↦
        let there = get_field-present pr key r (sym (mem_row r key same) ∙ known) in
        elim (Bool-cases (shared key)) [
          | inl is_one ↦
              rw (text_at, get-expanded shared r key, known, is_one, there, agree key is_one) refl
          | inr varies ↦ rw (text_at, get-expanded shared r key, known, varies, there) refl
        ]
  ]

  rows-expanded :
      (vs : List Str) (common : Fields F) (rs : List (Fields F))
      → map (λ cells. zip_cells vs cells common) (read_rows (items (map (row_cells pr vs) rs)))
        ≡ map (λ r. zip_cells vs (items (map (λ k. cell pr k r) vs)) common) rs
  unfolding read_rows row_cells
  rows-expanded vs common [] = refl
  rows-expanded vs common (r ∷ rs) =
      ap (λ rest. zip_cells vs (items (map (λ k. cell pr k r) vs)) common ∷ rest)
        (rows-expanded vs common rs)

  made : Items F → Items F → Fields F → Fields F
  made cs rs common =
      field (codes "format") (string (codes "table")) (
        field (codes "columns") (array cs)
          (field (codes "rows") (array rs) (with_shared pr common)))

  made-read :
      (cs rs : Items F) (common : Fields F)
      → (is_table (made cs rs common) ≡ true)
        × (read_table (made cs rs common)
            ≡ map
                (λ cells.
                  zip_cells
                    (read_strings cs)
                    cells
                    (fields_at (get_field (codes "shared") (with_shared pr common))))
                (read_rows rs))
  unfolding made is_table read_table get_field str_eq
  made-read cs rs common = (refl, refl)

  pub table-read :
      (others : List (Fields F))
      → (is_table (fields_of (table_of pr columns first others)) ≡ true)
        × (read_table (fields_of (table_of pr columns first others))
            ≡ map (expanded (is_shared pr first others)) (first ∷ others))
  unfolding table_of expanded made
  table-read others =
      let shared = is_shared pr first others in
      let varying = keep (λ k. not (shared k)) columns in
      let common = shared_fields pr first (keep shared columns) in
      let rows : Items F = items (map (row_cells pr varying) (first ∷ others)) in
      let taken = made-read (items (map string varying)) rows common in
      (
        taken.0,
        taken.1
            ∙ ap
                (λ ks.
                  map
                    (λ cells.
                      zip_cells ks cells
                        (fields_at (get_field (codes "shared") (with_shared pr common))))
                    (read_rows rows))
                (strings-read F varying)
            ∙ ap (λ fs. map (λ cells. zip_cells varying cells fs) (read_rows rows))
                (shared-read pr common)
            ∙ rows-expanded varying common (first ∷ others),
      )

  pub rows-Denote :
      (shared : Str → Bool) (ps : List (Json F)) (vs : Items F)
      → DenotesAll pr ps vs
      → all is_object ps ≡ true
      → All (Row shared) (map fields_of ps)
      → DenotesRows pr (map (expanded shared) (map fields_of ps)) vs
  rows-Denote shared _ _ none_of objects rows = no_row
  rows-Denote shared _ _ (one_of p v ps vs d ds) objects (row, rows) =
      one_row (expanded shared (fields_of p)) (fields_of p) v _ vs
        (expanded-SameCells shared (fields_of p) row)
        (subst (λ q. Denotes pr q v) (sym (object_of p (ground (arith, objects)))) d)
        (rows-Denote shared ps vs ds (ground (arith, objects)) rows)

  pub rows_agree :
      (shared : Str → Bool) (rs : List (Fields F))
      → all (λ r. same_keys pr columns r) rs ≡ true
      → ((key : Str)
          → shared key ≡ true
          → all
              (λ r. str_eq (context_json pr (cell pr key r)) (context_json pr (cell pr key first)))
              rs
            ≡ true)
      → All (Row shared) rs
  rows_agree shared [] same agree = tt
  rows_agree shared (r ∷ rs) same agree = (
    (ground (arith, same), λ key is_one. (str_eq_iff _ _).0 (ground (arith, agree key is_one))),
    rows_agree shared rs (ground (arith, same)) (λ key is_one. ground (arith, agree key is_one)),
  )
