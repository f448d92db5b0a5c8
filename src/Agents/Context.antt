-- ===== src/Agents/Context.antt =====
-- app/agents/context.py: the compact text of the data that a model is given. The values are those
-- that `json.loads` returns; `_encode`, which turns decimals and dates into such values, is left
-- out. How Python prints a float, and the test `m < n * 0.85`, are parameters.
pub mod Reading
pub mod Tables
pub mod Lossless
use mottainai_ia.Base.{
  ℕ, ◌+◌, ◌-◌, ◌/◌, ◌%◌, Bool, true, false, not, ◌&&◌, ◌||◌, List, [], ◌∷◌, ◌++◌, Option, none,
  some, length, map, keep, all, any, ltb, ◌==◌, if◌then◌else◌,
}
use mottainai_ia.Base.Int.{ℤ}
use mottainai_ia.Text.Case.{Str, codes}
use mottainai_ia.Text.Search.{str_eq, str_mem}
use mottainai_ia.Text.Decimal.{str_ℤ}
use mottainai_ia.Agents.Judge.{
  Json, null, boolean, integer, number, string, array, object, Items, nil, cons, Fields, end, field,
  get_field,
}

-- `repr` of a float and `m < n * 0.85`.
pub record Printing (F : Type 0) : Type 0 where
  pub float_repr : F → Str
  pub is_smaller : ℕ → ℕ → Bool

abbrev hex_digit : ℕ → ℕ
hex_digit n = if ltb n 10 then 48 + n else 87 + n

-- The escapes of `json.dumps` with `ensure_ascii=False`.
unfoldable pub escape_code : ℕ → Str
escape_code c =
    if c == 34
    then 92 ∷ 34 ∷ []
    else if c == 92
    then 92 ∷ 92 ∷ []
    else if c == 10
    then codes "\\n"
    else if c == 13
    then codes "\\r"
    else if c == 9
    then codes "\\t"
    else if c == 12
    then codes "\\f"
    else if c == 8
    then codes "\\b"
    else if ltb c 32
    then codes "\\u00" ++ (hex_digit (c / 16) ∷ hex_digit (c % 16) ∷ [])
    else c ∷ []

unfoldable pub escape : Str → Str
unfolding escape_code
escape [] = []
escape (c ∷ s) = escape_code c ++ escape s

unfoldable pub quoted : Str → Str
unfolding escape
quoted s = 34 ∷ (escape s ++ codes "\"")

abbrev pub is_object : {F : Type 0} → Json F → Bool
is_object (object fs) = true
is_object (array xs) = false
is_object null = false
is_object (boolean b) = false
is_object (integer n) = false
is_object (number x) = false
is_object (string s) = false

abbrev pub fields_of : {F : Type 0} → Json F → Fields F
fields_of (object fs) = fs
fields_of (array xs) = end
fields_of null = end
fields_of (boolean b) = end
fields_of (integer n) = end
fields_of (number x) = end
fields_of (string s) = end

abbrev pub items : {F : Type 0} → List (Json F) → Items F
items [] = nil
items (v ∷ vs) = cons v (items vs)

unfoldable pub keys : {F : Type 0} → Fields F → List Str
keys end = []
keys (field k v fs) = k ∷ keys fs

module _ {F : Type 0} (pr : Printing F) where
  -- `context_json`: `json.dumps` with compact separators.
  unfoldable mutual
    unfolding quoted str_ℤ

    pub context_json : Json F → Str
    context_json null = codes "null"
    context_json (boolean b) = if b then codes "true" else codes "false"
    context_json (integer n) = str_ℤ n
    context_json (number x) = pr.float_repr x
    context_json (string s) = quoted s
    context_json (array xs) = 91 ∷ (items_json xs ++ codes "]")
    context_json (object fs) = 123 ∷ (fields_json fs ++ codes "}")

    pub items_json : Items F → Str
    items_json nil = []
    items_json (cons v xs) = context_json v ++ more_items xs

    pub more_items : Items F → Str
    more_items nil = []
    more_items (cons v xs) = 44 ∷ (context_json v ++ more_items xs)

    pub fields_json : Fields F → Str
    fields_json end = []
    fields_json (field k v fs) = quoted k ++ (58 ∷ (context_json v ++ more_fields fs))

    pub more_fields : Fields F → Str
    more_fields end = []
    more_fields (field k v fs) = 44 ∷ (quoted k ++ (58 ∷ (context_json v ++ more_fields fs)))

  -- `row[key]`; the callers have checked that the key is there.
  unfoldable pub cell : Str → Fields F → Json F
  unfolding get_field
  cell key row = elim (get_field key row) [ none ↦ null | some v ↦ v ]

  -- `set(row) == set(columns)`
  unfoldable pub same_keys : List Str → Fields F → Bool
  unfolding keys str_mem
  same_keys columns row =
      all (λ k. str_mem k columns) (keys row) && all (λ k. str_mem k (keys row)) columns

  unfoldable pub is_shared : Fields F → List (Fields F) → Str → Bool
  unfolding cell str_eq
  is_shared first others key =
      all (λ row. str_eq (context_json (cell key row)) (context_json (cell key first))) others

  unfoldable pub shared_fields : Fields F → List Str → Fields F
  unfolding cell
  shared_fields first [] = end
  shared_fields first (key ∷ ks) = field key (cell key first) (shared_fields first ks)

  unfoldable pub row_cells : List Str → Fields F → Json F
  unfolding cell
  row_cells varying row = array (items (map (λ key. cell key row) varying))

  abbrev pub with_shared : Fields F → Fields F
  with_shared end = end
  with_shared (field k v fs) = field (codes "shared") (object (field k v fs)) end

  unfoldable pub table_of : List Str → Fields F → List (Fields F) → Json F
  unfolding is_shared shared_fields row_cells
  table_of columns first others =
      let shared = is_shared first others in
      let varying = keep (λ key. not (shared key)) columns in
      object (
        field (codes "format") (string (codes "table")) (
          field (codes "columns") (array (items (map string varying))) (
            field (codes "rows") (array (items (map (row_cells varying) (first ∷ others))))
              (with_shared (shared_fields first (keep shared columns))))))

  -- The rest of `_pack_records` for a list, once its elements are packed.
  unfoldable pub pack_rows : Fields F → List (Fields F) → List (Json F) → Json F
  unfolding table_of keys same_keys
  pack_rows first others records =
      let columns = keys first in
      let table = table_of columns first others in
      let plain = array (items records) in
      if (length columns == 0) || any (λ row. not (same_keys columns row)) (first ∷ others)
      then plain
      else if pr.is_smaller (length (context_json table)) (length (context_json plain))
      then table
      else plain

  unfoldable pub pack_list : List (Json F) → Json F
  unfolding pack_rows
  pack_list [] = array nil
  pack_list (first ∷ others) =
      let records = first ∷ others in
      if ltb (length records) 3 || not (all is_object records)
      then array (items records)
      else pack_rows (fields_of first) (map fields_of others) records

  unfoldable mutual
    unfolding pack_list

    pub pack_records : Json F → Json F
    pack_records null = null
    pack_records (boolean b) = boolean b
    pack_records (integer n) = integer n
    pack_records (number x) = number x
    pack_records (string s) = string s
    pack_records (array xs) = pack_list (pack_items xs)
    pack_records (object fs) = object (pack_fields fs)

    pub pack_items : Items F → List (Json F)
    pack_items nil = []
    pack_items (cons v xs) = pack_records v ∷ pack_items xs

    pub pack_fields : Fields F → Fields F
    pack_fields end = end
    pack_fields (field k v fs) = field k (pack_records v) (pack_fields fs)

  unfoldable pub model_context_json : Json F → Str
  unfolding context_json pack_records
  model_context_json value = context_json (pack_records value)
