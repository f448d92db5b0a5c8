-- ===== src/Analytics/Forecasting.antt =====
-- app/analytics/forecasting.py: the daily sales of a product and the forecast for a week. Days are
-- numbered, as `date.toordinal` does; floats are a parameter.
pub mod Daily
pub mod Trend
use mottainai_ia.Base.{
  ℕ, zero, suc, ◌-◌, ◌/◌, ◌^◌, Bool, true, false, ◌==◌, List, [], ◌∷◌, Option, none, some, drop,
  leb, length, take, if◌then◌else◌,
}
use mottainai_ia.Base.Int.{ℤ, pos, negsuc, eqb_ℤ, ◌+ℤ◌, ◌-ℤ◌}
use mottainai_ia.Text.Case.{Str, codes}

-- A `date`, or a `datetime` with the time of day in it.
pub data SaleDate : Type 0 where
  date : ℤ → SaleDate
  datetime : ℤ → ℕ → SaleDate

-- A `Decimal`: the coefficient over ten to the scale.
pub record Decimal : Type 0 where
  pub coefficient : ℤ
  pub scale : ℕ

-- `int` of it, which cuts the digits after the point off, towards zero.
unfoldable pub int : Decimal → ℤ
int d = elim d.coefficient [
  | pos n ↦ pos (n / 10 ^ d.scale)
  | negsuc n ↦ pos 0 -ℤ pos (suc n / 10 ^ d.scale)
]

pub record Row : Type 0 where
  pub product_id : ℤ
  pub sale_date : SaleDate
  pub quantity_sold : Decimal

abbrev pub day_of : SaleDate → ℤ
day_of (date d) = d
day_of (datetime d time) = d

-- `by_date.get(day, 0)`
unfoldable pub get_day : ℤ → List (ℤ × ℤ) → ℤ
get_day day [] = pos 0
get_day day ((d, q) ∷ rest) = if eqb_ℤ d day then q else get_day day rest

-- `by_date[day] = value`
unfoldable pub set_day : ℤ → ℤ → List (ℤ × ℤ) → List (ℤ × ℤ)
set_day day value [] = (day, value) ∷ []
set_day day value ((d, q) ∷ rest) =
    let later = set_day day value rest in if eqb_ℤ d day then (d, value) ∷ rest else (d, q) ∷ later

-- The loop over the rows, with the dictionary so far.
unfoldable pub add_rows : ℤ → List (ℤ × ℤ) → List Row → List (ℤ × ℤ)
unfolding get_day set_day int
add_rows product_id by_date [] = by_date
add_rows product_id by_date (row ∷ rows) =
    let day = day_of row.sale_date in
    add_rows product_id
      (if eqb_ℤ row.product_id product_id
        then set_day day (get_day day by_date +ℤ int row.quantity_sold) by_date
        else by_date)
      rows

-- `for offset in range(days_back, 0, -1)`
unfoldable pub days_from : ℕ → ℤ → List (ℤ × ℤ) → List ℤ
unfolding get_day
days_from zero reference_date by_date = []
days_from (suc n) reference_date by_date =
    get_day (reference_date -ℤ pos (suc n)) by_date ∷ days_from n reference_date by_date

unfoldable pub build_daily_series : List Row → ℤ → ℕ → ℤ → List ℤ
unfolding add_rows days_from
build_daily_series rows product_id days_back reference_date =
    days_from days_back reference_date (add_rows product_id [] rows)

-- The floats of the forecast: `a / n` of integers, the operations, and the literals.
pub record Reals : Type 1 where
  pub R : Type 0
  pub lt : R → R → Bool
  pub quotient : ℤ → ℕ → R
  pub add : R → R → R
  pub sub : R → R → R
  pub mul : R → R → R
  pub div : R → R → R
  pub nought : R
  pub half : R
  pub one : R
  pub two : R
  pub seven : R
  pub hundred : R
  pub four_tenths : R
  pub six_tenths : R
  -- `round(x, n)` and `round(x)`
  pub round_to : ℕ → R → R
  pub round : R → ℤ

abbrev pub sum : List ℤ → ℤ
sum [] = pos 0
sum (q ∷ qs) = q +ℤ sum qs

-- `quantities[-n:]`
abbrev pub last : ℕ → List ℤ → List ℤ
last n qs = drop (length qs - n) qs

module _ (rs : Reals) where
  open rs use {
    R, lt, quotient, add, sub, mul, div, nought, half, one, two, seven, hundred, four_tenths,
    six_tenths, round_to, round,
  }

  pub record Forecast : Type 0 where
    pub avg_daily_demand : R
    pub recent_week_avg_daily : Option R
    pub trend_pct : R
    pub forecast_next_7_days : ℤ
    pub days_of_history : ℕ
    pub method : Str

  -- `max(0.5, min(trend_ratio, 2.0))`
  unfoldable pub clamped : R → R
  clamped ratio =
      let least = if lt two ratio then two else ratio in if lt half least then least else half

  unfoldable pub trend_ratio : R → R → R
  unfolding clamped
  trend_ratio recent prior =
      clamped (if lt nought prior then div recent prior else if lt nought recent then two else one)

  abbrev pub recent_avg : List ℤ → R
  recent_avg qs = quotient (sum (last 7 qs)) 7

  -- `quantities[-14:-7]`, of at least fourteen days
  abbrev pub prior_avg : List ℤ → R
  prior_avg qs = quotient (sum (take 7 (last 14 qs))) 7

  unfoldable pub with_trend : List ℤ → R → R → Forecast
  with_trend qs avg ratio = record {
    avg_daily_demand = round_to 2 avg;
    recent_week_avg_daily = some (round_to 2 (recent_avg qs));
    trend_pct = round_to 1 (mul (sub ratio one) hundred);
    forecast_next_7_days =
        round (mul (add (mul (mul six_tenths (recent_avg qs)) ratio) (mul four_tenths avg)) seven);
    days_of_history = length qs;
    method = codes "media_movel_ponderada_com_tendencia";
  }

  unfoldable pub flat : List ℤ → R → Forecast
  flat qs avg = record {
    avg_daily_demand = round_to 2 avg;
    recent_week_avg_daily = none;
    trend_pct = nought;
    forecast_next_7_days = round (mul avg seven);
    days_of_history = length qs;
    method = codes "media_simples_historico_curto";
  }

  abbrev pub no_history : Forecast
  no_history = record {
    avg_daily_demand = nought;
    recent_week_avg_daily = none;
    trend_pct = nought;
    forecast_next_7_days = pos 0;
    days_of_history = 0;
    method = codes "sem_historico";
  }

  unfoldable pub forecast_product_demand : List ℤ → Forecast
  unfolding with_trend flat trend_ratio
  forecast_product_demand [] = no_history
  forecast_product_demand (q ∷ qs) =
      let avg = quotient (sum (q ∷ qs)) (length (q ∷ qs)) in
      if leb 14 (length (q ∷ qs))
      then with_trend (q ∷ qs) avg (trend_ratio (recent_avg (q ∷ qs)) (prior_avg (q ∷ qs)))
      else flat (q ∷ qs) avg
