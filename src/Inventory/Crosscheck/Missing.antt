-- ===== src/Inventory/Crosscheck/Missing.antt =====
-- The products that `get_shelf_inventory_crosscheck` expects on the shelf and does not see.
use mottainai_ia.Base.{
  ◌≡◌, refl, ◌⊎◌, inl, inr, Bool, true, false, not, ◌||◌, List, [], ◌∷◌, Option, Bool-cases, All,
  All-map, Any, Pairwise, any, arith, if◌then◌else◌,
}
use mottainai_ia.Text.Case.{Str, lower}
use mottainai_ia.Text.Search.{str_eq_refl}
use mottainai_ia.Inventory.Crosscheck.{
  Item, is_critical, is_visible, same_key, missing_after, seen_names,
  get_shelf_inventory_crosscheck,
}

-- An item for the list: stock that is critical and that no name seen covers.
abbrev pub IsMissing : List Str → Item → Type 0
IsMissing detected i = (is_critical i ≡ true) × (is_visible detected i ≡ false)

either : (a b : Bool) → (a || b) ≡ false → (a ≡ false) × (b ≡ false)
either false b e = (refl, e)
either true b e = cc

any_of : (p : Item → Bool) (is : List Item) → any p is ≡ true → Any (λ j. p j ≡ true) is
any_of p [] e = cc
any_of p (i ∷ is) e = elim (Bool-cases (p i)) [
  | inl here ↦ inl here
  | inr other ↦ inr (any_of p is (rw other at e))
]

none_of : (p : Item → Bool) (is : List Item) → any p is ≡ false → All (λ j. p j ≡ false) is
none_of p [] e = tt
none_of p (i ∷ is) e = let (here, later) = either (p i) (any p is) e in (here, none_of p is later)

same_key_refl : (i : Item) → same_key i i ≡ true
unfolding same_key
same_key_refl i = rw (str_eq_refl (lower i.product_name), str_eq_refl i.store_name) refl

-- Where an item of the inventory has gone: it is covered, listed before, or in the list.
abbrev Accounted : List Str → List Item → List Item → Item → Type 0
Accounted detected listed missing i =
    IsMissing detected i
    → Any (λ j. same_key i j ≡ true) listed ⊎ Any (λ j. same_key i j ≡ true) missing

-- A list of what is missing of an inventory, after what has been listed.
abbrev pub IsListing : List Str → List Item → List Item → List Item → Type 0
IsListing detected listed items missing =
    All (IsMissing detected) missing
    × All (λ j. All (λ l. same_key j l ≡ false) listed) missing
    × Pairwise (λ i j. same_key j i ≡ false) missing
    × All (Accounted detected listed missing) items

weaken :
    (detected : List Str) (listed missing : List Item) (i j : Item)
    → Accounted detected (i ∷ listed) missing j
    → Accounted detected listed (i ∷ missing) j
weaken detected listed missing i j h critical = elim (h critical) [
  | inl (inl same) ↦ inr (inl same)
  | inl (inr before) ↦ inl before
  | inr there ↦ inr (inr there)
]

module _ (detected : List Str) (listed : List Item) (i : Item)
    (items rest further : List Item) where
  abbrev is_skipped : Bool
  is_skipped = not (is_critical i) || (any (same_key i) listed || is_visible detected i)

  skipped-Accounted : is_skipped ≡ true → Accounted detected listed rest i
  skipped-Accounted e (critical, unseen) = elim (Bool-cases (any (same_key i) listed)) [
    | inl before ↦ inl (any_of (same_key i) listed before)
    | inr new ↦ cc (rw (critical, unseen, new) at e)
  ]

  one_more :
      (b : Bool)
      → is_skipped ≡ b
      → IsListing detected listed items rest
      → IsListing detected (i ∷ listed) items further
      → IsListing detected listed (i ∷ items) (if b then rest else i ∷ further)
  one_more true e (missing, new, apart, accounted) h =
      (missing, new, apart, (skipped-Accounted e, accounted))
  one_more false e h (missing, new, apart, accounted) =
      let (critical, uncovered) = either (not (is_critical i)) _ e in
      let (first, unseen) = either (any (same_key i) listed) (is_visible detected i) uncovered in
      let is_critical_i : is_critical i ≡ true = ground (arith, critical) in
      (
        ((is_critical_i, unseen), missing),
        (none_of (same_key i) listed first, All-map (λ j g. g.1) further new),
        (All-map (λ j g. g.0) further new, apart),
        (
          (λ _. inr (inl (same_key_refl i))),
          All-map (λ j g. weaken detected listed further i j g) items accounted,
        ),
      )

missing_after-IsListing :
    (detected : List Str) (listed items : List Item)
    → IsListing detected listed items (missing_after detected listed items)
unfolding missing_after
missing_after-IsListing detected listed [] = (tt, tt, tt, tt)
missing_after-IsListing detected listed (i ∷ items) =
    one_more detected listed i items (missing_after detected listed items)
      (missing_after detected (i ∷ listed) items) _ refl
      (missing_after-IsListing detected listed items)
      (missing_after-IsListing detected (i ∷ listed) items)

-- The list of the products that are missing has only items with critical stock that none of the names
-- seen on the shelf covers, no two of the same product in one store. Every item of the inventory of that
-- kind has its product and store in the list.
pub crosscheck-IsListing :
    {M A : Type 0} (query : List Str → Str → Option M) (inventory : List Item) (alerts : List A)
    (detected_products : List Str)
    → IsListing
        (seen_names detected_products)
        []
        inventory
        (get_shelf_inventory_crosscheck query inventory alerts detected_products).ausentes_esperados
unfolding get_shelf_inventory_crosscheck
crosscheck-IsListing query inventory alerts detected_products =
    missing_after-IsListing (seen_names detected_products) [] inventory
