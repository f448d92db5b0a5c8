-- ===== src/Agents/Context/Reading.antt =====
-- What a packed value of app/agents/context.py stands for, for a reader who knows the format of the
-- tables.
use mottainai_ia.Base.{◌≡◌, Bool, true, false, List, [], ◌∷◌, Option, none, some, map}
use mottainai_ia.Base.Int.{ℤ}
use mottainai_ia.Text.Case.{Str, codes}
use mottainai_ia.Text.Search.{str_eq}
use mottainai_ia.Agents.Judge.{
  Json, null, boolean, integer, number, string, array, object, Items, nil, cons, Fields, end, field,
  get_field,
}
use mottainai_ia.Agents.Context.{Printing, items, context_json}

-- How a reader takes a table apart.
module _ {F : Type 0} where
  unfoldable pub read_strings : Items F → List Str
  read_strings nil = []
  read_strings (cons (string s) xs) = s ∷ read_strings xs
  read_strings (cons v xs) = read_strings xs

  unfoldable pub read_rows : Items F → List (Items F)
  read_rows nil = []
  read_rows (cons (array cells) xs) = cells ∷ read_rows xs
  read_rows (cons v xs) = read_rows xs

  unfoldable pub zip_cells : List Str → Items F → Fields F → Fields F
  zip_cells [] cells rest = rest
  zip_cells (k ∷ ks) nil rest = rest
  zip_cells (k ∷ ks) (cons v cells) rest = field k v (zip_cells ks cells rest)

  abbrev pub list_at : Option (Json F) → Items F
  list_at (some (array xs)) = xs
  list_at _ = nil

  abbrev pub fields_at : Option (Json F) → Fields F
  fields_at (some (object fs)) = fs
  fields_at _ = end

  abbrev pub says_table : Option (Json F) → Bool
  says_table (some (string s)) = str_eq s (codes "table")
  says_table _ = false

  unfoldable pub is_table : Fields F → Bool
  unfolding get_field str_eq
  is_table fs = says_table (get_field (codes "format") fs)

  unfoldable pub read_table : Fields F → List (Fields F)
  unfolding get_field str_eq read_strings read_rows zip_cells
  read_table t =
      map
        (λ cells.
          zip_cells (read_strings (list_at (get_field (codes "columns") t))) cells
            (fields_at (get_field (codes "shared") t)))
        (read_rows (list_at (get_field (codes "rows") t)))

-- No object inside says that it is a table.
unfoldable mutual
  unfolding is_table

  pub NoTables : {F : Type 0} → Json F → Type 0
  NoTables null = Unit
  NoTables (boolean b) = Unit
  NoTables (integer n) = Unit
  NoTables (number x) = Unit
  NoTables (string s) = Unit
  NoTables (array xs) = NoTablesAmong xs
  NoTables (object fs) = (is_table fs ≡ false) × NoTablesUnder fs

  pub NoTablesAmong : {F : Type 0} → Items F → Type 0
  NoTablesAmong nil = Unit
  NoTablesAmong (cons v xs) = NoTables v × NoTablesAmong xs

  pub NoTablesUnder : {F : Type 0} → Fields F → Type 0
  NoTablesUnder end = Unit
  NoTablesUnder (field k v fs) = NoTables v × NoTablesUnder fs

module _ {F : Type 0} (pr : Printing F) where
  unfoldable pub text_at : Str → Fields F → Option Str
  unfolding get_field
  text_at key row = elim (get_field key row) [ none ↦ none | some v ↦ some (context_json pr v) ]

  -- Two records with the same keys, and the same text under each key.
  abbrev pub SameCells : Fields F → Fields F → Type 0
  SameCells r r' = (key : Str) → text_at key r ≡ text_at key r'

  -- What a packed value stands for.
  mutual
    pub data Denotes : Json F → Json F → Type 0 where
      null_itself : Denotes null null
      boolean_itself : (b : Bool) → Denotes (boolean b) (boolean b)
      integer_itself : (n : ℤ) → Denotes (integer n) (integer n)
      number_itself : (x : F) → Denotes (number x) (number x)
      string_itself : (s : Str) → Denotes (string s) (string s)
      list :
          (ps : List (Json F)) (vs : Items F)
          → DenotesAll ps vs
          → Denotes (array (items ps)) (array vs)
      record_of :
          (fs gs : Fields F)
          → is_table fs ≡ false
          → DenotesFields fs gs
          → Denotes (object fs) (object gs)
      table :
          (t : Fields F) (vs : Items F)
          → is_table t ≡ true
          → DenotesRows (read_table t) vs
          → Denotes (object t) (array vs)

    pub data DenotesAll : List (Json F) → Items F → Type 0 where
      none_of : DenotesAll [] nil
      one_of :
          (p v : Json F) (ps : List (Json F)) (vs : Items F)
          → Denotes p v
          → DenotesAll ps vs
          → DenotesAll (p ∷ ps) (cons v vs)

    pub data DenotesFields : Fields F → Fields F → Type 0 where
      no_field : DenotesFields end end
      one_field :
          (k : Str) (p v : Json F) (fs gs : Fields F)
          → Denotes p v
          → DenotesFields fs gs
          → DenotesFields (field k p fs) (field k v gs)

    pub data DenotesRows : List (Fields F) → Items F → Type 0 where
      no_row : DenotesRows [] nil
      one_row :
          (r r' : Fields F) (v : Json F) (rs : List (Fields F)) (vs : Items F)
          → SameCells r r'
          → Denotes (object r') v
          → DenotesRows rs vs
          → DenotesRows (r ∷ rs) (cons v vs)
