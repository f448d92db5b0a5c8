-- ===== src/Analytics/Forecasting/Daily.antt =====
-- A day of the series of app/analytics/forecasting.py, counted from the rows.
use mottainai_ia.Base.{
  ℕ, zero, suc, ◌+◌, ◌*◌, ◌/◌, ◌%◌, ◌^◌, ◌<◌, arith, ◌≡◌, refl, sym, ap, ◌∙◌, inl, inr, false, List,
  [], ◌∷◌, Bool-cases, map, if◌then◌else◌,
}
use native.Mathlib.Nat.{mod-lt, div-add-mod'}
use mottainai_ia.Base.Int.{ℤ, pos, negsuc, eqb_ℤ, eqb_ℤ_iff, ◌+ℤ◌, ◌-ℤ◌}
use mottainai_ia.Analytics.Forecasting.{
  Row, int, day_of, get_day, set_day, add_rows, days_from, build_daily_series,
}

-- The whole units of a quantity, given by its coefficient and scale: a rest of less than one unit is
-- cut off, towards zero.
abbrev pub IsWhole : ℤ → ℕ → ℤ → Type 0
IsWhole (pos n) scale k =
    (q rest : ℕ) × (k ≡ pos q) × (n ≡ q * 10 ^ scale + rest) × (rest < 10 ^ scale)
IsWhole (negsuc n) scale k =
    (q rest : ℕ) × (k ≡ pos 0 -ℤ pos q) × (suc n ≡ q * 10 ^ scale + rest) × (rest < 10 ^ scale)

ten-positive : (n : ℕ) → 0 < 10 ^ n
ten-positive zero = omega arith
ten-positive (suc n) = omega (arith, ten-positive n)

whole_rest : (n scale : ℕ) → n ≡ n / 10 ^ scale * 10 ^ scale + n % 10 ^ scale
whole_rest n scale = sym (div-add-mod' n (10 ^ scale))

int-IsWhole :
    (coefficient : ℤ) (scale : ℕ)
    → IsWhole coefficient scale (int (record { coefficient = coefficient; scale = scale }))
unfolding int
int-IsWhole (pos n) k = (n / 10 ^ k, n % 10 ^ k, refl, whole_rest n k, mod-lt n (ten-positive k))
int-IsWhole (negsuc n) k =
    (suc n / 10 ^ k, suc n % 10 ^ k, refl, whole_rest (suc n) k, mod-lt (suc n) (ten-positive k))

-- `1 … n`, the largest first.
pub countdown : ℕ → List ℕ
countdown zero = []
countdown (suc n) = suc n ∷ countdown n

-- What the whole units of the rows of a product add up to on a day, from an amount on.
pub sold_on : ℤ → ℤ → ℤ → List Row → ℤ
sold_on product_id day amount [] = amount
sold_on product_id day amount (row ∷ rows) =
    sold_on product_id day
      (if eqb_ℤ row.product_id product_id
        then if eqb_ℤ (day_of row.sale_date) day then amount +ℤ int row.quantity_sold else amount
        else amount)
      rows

get_day-set : (day value : ℤ) (m : List (ℤ × ℤ)) → get_day day (set_day day value m) ≡ value
unfolding get_day set_day
get_day-set day value [] = rw ((eqb_ℤ_iff day day).1 refl) refl
get_day-set day value ((d, q) ∷ m) = elim (Bool-cases (eqb_ℤ d day)) [
  | inl same ↦ rw (same, same) refl
  | inr other ↦ rw (other, other) (get_day-set day value m)
]

get_day-others :
    (day other value : ℤ) (m : List (ℤ × ℤ))
    → eqb_ℤ day other ≡ false
    → get_day other (set_day day value m) ≡ get_day other m
unfolding get_day set_day
get_day-others day other value [] h = rw h refl
get_day-others day other value ((d, q) ∷ m) h = elim (Bool-cases (eqb_ℤ d day)) [
  | inl same ↦
      let apart : eqb_ℤ d other ≡ false = ap (λ z. eqb_ℤ z other) ((eqb_ℤ_iff d day).0 same) ∙ h in
      rw (same, apart) refl
  | inr differs ↦
      rw differs (ap (λ z. if eqb_ℤ d other then q else z) (get_day-others day other value m h))
]

get_day-add :
    (day d value : ℤ) (m : List (ℤ × ℤ))
    → get_day day (set_day d (get_day d m +ℤ value) m)
      ≡ (if eqb_ℤ d day then get_day day m +ℤ value else get_day day m)
get_day-add day d value m = elim (Bool-cases (eqb_ℤ d day)) [
  | inl same ↦ rw same (
      ap (λ z. get_day z (set_day d (get_day d m +ℤ value) m)) (sym ((eqb_ℤ_iff d day).0 same))
      ∙ get_day-set d (get_day d m +ℤ value) m
      ∙ ap (λ z. get_day z m +ℤ value) ((eqb_ℤ_iff d day).0 same))
  | inr other ↦ rw other (get_day-others d day (get_day d m +ℤ value) m other)
]

get_day-rows :
    (product_id day : ℤ) (rows : List Row) (m : List (ℤ × ℤ))
    → get_day day (add_rows product_id m rows) ≡ sold_on product_id day (get_day day m) rows
unfolding add_rows sold_on
get_day-rows product_id day [] m = refl
get_day-rows product_id day (row ∷ rows) m = elim (Bool-cases (eqb_ℤ row.product_id product_id)) [
  | inl own ↦ rw own (
      get_day-rows product_id day rows (
        set_day (day_of row.sale_date) (get_day (day_of row.sale_date) m +ℤ int row.quantity_sold)
          m)
      ∙ ap (λ z. sold_on product_id day z rows)
          (get_day-add day (day_of row.sale_date) (int row.quantity_sold) m))
  | inr other ↦ rw other (get_day-rows product_id day rows m)
]

days_from-counted :
    (rows : List Row) (product_id reference_date : ℤ) (n : ℕ)
    → days_from n reference_date (add_rows product_id [] rows)
      ≡ map (λ k. sold_on product_id (reference_date -ℤ pos k) (pos 0) rows) (countdown n)
unfolding days_from countdown get_day
days_from-counted rows product_id reference_date zero = refl
days_from-counted rows product_id reference_date (suc n) =
    let day = get_day-rows product_id (reference_date -ℤ pos (suc n)) rows [] in
    let rest = days_from-counted rows product_id reference_date n in (λ i. day i ∷ rest i)

-- The series has one entry for each of the days before the reference date, the oldest first: what the
-- rows of the product add up to on that day, each row's quantity cut to whole units first, and nothing
-- where there are no rows. A row's time of day and its place among the rows of other products and days
-- do not matter. The cut is towards zero, whatever the quantity and its digits: less than a unit is lost.
pub build_daily_series-days :
    (rows : List Row) (product_id : ℤ) (days_back : ℕ) (reference_date : ℤ)
    → (build_daily_series rows product_id days_back reference_date
        ≡ map
            (λ n. sold_on product_id (reference_date -ℤ pos n) (pos 0) rows)
            (countdown days_back))
      × ((coefficient : ℤ) (scale : ℕ)
          → IsWhole coefficient scale (int (record { coefficient = coefficient; scale = scale })))
unfolding build_daily_series
build_daily_series-days rows product_id days_back reference_date =
    (days_from-counted rows product_id reference_date days_back, int-IsWhole)
