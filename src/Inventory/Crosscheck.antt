-- ===== src/Inventory/Crosscheck.antt =====
-- `get_shelf_inventory_crosscheck` of app/tools/postgres_tools.py: the products seen on a shelf against
-- the stock. The queries of app/tools/analytics_tools.py are parameters: `matches` for the rows of
-- `get_inventory_matches` by wanted name, and the inventory and the alerts as lists.
pub mod Missing
use mottainai_ia.Base.{
  ℕ, Bool, true, false, not, ◌&&◌, ◌||◌, List, [], ◌∷◌, ◌++◌, Option, none, some, any, take,
  if◌then◌else◌,
}
use mottainai_ia.Text.Case.{Str, codes, strip, lower}
use mottainai_ia.Text.Search.{str_eq, str_mem, str_contains}

-- A row of `get_inventory_status`, as far as the check reads it.
pub record Item : Type 0 where
  pub product_name : Str
  pub store_name : Str
  pub stock_status : Str

abbrev pub max_product_name_chars : ℕ
max_product_name_chars = 80

-- The names that the query is asked for: cut, in lower case, each once.
unfoldable pub wanted_names : List Str → List Str → List Str
unfolding strip lower str_mem
wanted_names seen [] = []
wanted_names seen (name ∷ names) =
    let name' = lower (take max_product_name_chars (strip name)) in
    let rest = wanted_names seen names in
    let further = wanted_names (name' ∷ seen) names in
    if str_eq (strip name) [] || str_mem name' seen then rest else name' ∷ further

-- The names without spaces around them whose lower case has not come before, in their order.
unfoldable pub first_seen : List Str → List Str → List Str
unfolding strip lower str_mem
first_seen seen [] = []
first_seen seen (name ∷ names) =
    let name' = strip name in
    let rest = first_seen seen names in
    let further = first_seen (lower name' ∷ seen) names in
    if str_eq name' [] || str_mem (lower name') seen then rest else name' ∷ further

abbrev pub with_match : {M : Type 0} → Option M → List M → List M
with_match none found = found
with_match (some m) found = m ∷ found

-- The matches of the names, in their order.
unfoldable pub found_of : {M : Type 0} → (Str → Option M) → List Str → List M
unfolding lower
found_of matches [] = []
found_of matches (name ∷ names) =
    with_match (matches (lower (take max_product_name_chars name))) (found_of matches names)

abbrev pub critical_statuses : List Str
critical_statuses = codes "RUPTURA" ∷ codes "ABAIXO_MINIMO" ∷ []

unfoldable pub is_critical : Item → Bool
unfolding str_mem
is_critical i = str_mem i.stock_status critical_statuses

-- `name in …` either way, of a product and a name seen.
unfoldable pub is_visible : List Str → Item → Bool
unfolding str_contains lower
is_visible detected i =
    any
      (λ name. str_contains (lower i.product_name) name || str_contains name (lower i.product_name))
      detected

unfoldable pub same_key : Item → Item → Bool
unfolding str_eq lower
same_key i j =
    str_eq (lower i.product_name) (lower j.product_name) && str_eq i.store_name j.store_name

-- The loop over the inventory, with the items that have been listed.
unfoldable pub missing_after : List Str → List Item → List Item → List Item
unfolding is_critical is_visible same_key
missing_after detected listed [] = []
missing_after detected listed (i ∷ items) =
    let rest = missing_after detected listed items in
    let further = missing_after detected (i ∷ listed) items in
    if not (is_critical i) || (any (same_key i) listed || is_visible detected i)
    then rest
    else i ∷ further

pub record Crosscheck (M A : Type 0) : Type 0 where
  pub encontrados : List M
  pub ausentes_esperados : List Item
  pub alertas_ativos : List A

abbrev lower_all : List Str → List Str
unfolding lower
lower_all [] = []
lower_all (s ∷ ss) = lower s ∷ lower_all ss

-- `detected_names`
unfoldable pub seen_names : List Str → List Str
unfolding first_seen lower_all
seen_names detected_products = lower_all (lower_all (first_seen [] detected_products))

unfoldable pub get_shelf_inventory_crosscheck :
    {M A : Type 0} → (List Str → Str → Option M) → List Item → List A → List Str → Crosscheck M A
unfolding wanted_names first_seen found_of missing_after seen_names
get_shelf_inventory_crosscheck query inventory alerts detected_products =
    let names = first_seen [] detected_products in
    record {
      encontrados = found_of (query (wanted_names [] detected_products)) names;
      ausentes_esperados = missing_after (seen_names detected_products) [] inventory;
      alertas_ativos = alerts;
    }
