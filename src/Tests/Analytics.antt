-- ===== src/Tests/Analytics.antt =====
-- Two weeks of sales of one product, with tenths for floats.
use mottainai_ia.Base.{
  ℕ, ◌+◌, ◌-◌, ◌*◌, ◌/◌, ◌≡◌, ◌≤◌, ◌<◌, refl, ◌⊎◌, List, [], ◌∷◌, ◌++◌, none, length, map, ltb,
  arith,
}
use mottainai_ia.Base.Int.{ℤ, pos, negsuc, pos_part, ◌-ℤ◌}
use mottainai_ia.Analytics.Forecasting.{
  Row, Decimal, int, date, datetime, get_day, set_day, add_rows, days_from, build_daily_series,
  Reals, sum, clamped, trend_ratio, with_trend, forecast_product_demand,
}
use mottainai_ia.Analytics.Forecasting.Daily.{IsWhole, countdown, sold_on, build_daily_series-days}
use mottainai_ia.Analytics.Forecasting.Trend.{
  IsOrdered, IsModest, Blends, forecast_product_demand-Blends,
}

-- In tenths, as a quantity with one digit after the point.
abbrev units : ℤ → Decimal
units n = record { coefficient = n; scale = 1 }

abbrev sale : ℤ → ℤ → ℤ → Row
sale product d n = record {
  product_id = product;
  sale_date = datetime d 43200;
  quantity_sold = units n;
}

abbrev sales : List Row
sales =
    sale (pos 5) (pos 100) (pos 25)
    ∷ sale (pos 6) (pos 101) (pos 90)
    ∷ sale (pos 5) (pos 102) (pos 40)
    ∷ record { product_id = pos 5; sale_date = date (pos 100); quantity_sold = units (pos 15) }
    ∷ []

-- Two and a half and one and a half units on the first day count as three.
sums_days : build_daily_series sales (pos 5) 4 (pos 103) ≡ pos 0 ∷ pos 3 ∷ pos 0 ∷ pos 4 ∷ []
unfolding build_daily_series add_rows days_from get_day set_day int
sums_days = refl

cuts_towards_zero : int (units (negsuc 24)) ≡ negsuc 1
unfolding int
cuts_towards_zero = refl

build_daily_series-days_example :
    (build_daily_series sales (pos 5) 4 (pos 103)
      ≡ map (λ n. sold_on (pos 5) (pos 103 -ℤ pos n) (pos 0) sales) (countdown 4))
    × ((coefficient : ℤ) (scale : ℕ)
        → IsWhole coefficient scale (int (record { coefficient = coefficient; scale = scale })))
build_daily_series-days_example = build_daily_series-days sales (pos 5) 4 (pos 103)

abbrev tenths : Reals
tenths = record {
  R = ℕ;
  lt = ltb;
  quotient = λ a n. pos_part a * 10 / n;
  add = λ a b. a + b;
  sub = λ a b. a - b;
  mul = λ a b. a * b / 10;
  div = λ a b. a * 10 / b;
  nought = 0;
  half = 5;
  one = 10;
  two = 20;
  seven = 70;
  hundred = 1000;
  four_tenths = 4;
  six_tenths = 6;
  round_to = λ n a. a;
  round = λ a. pos ((a + 5) / 10);
}

abbrev week : ℤ → List ℤ
week n = n ∷ n ∷ n ∷ n ∷ n ∷ n ∷ n ∷ []

doubles :
    (forecast_product_demand tenths (week (pos 2) ++ week (pos 9))).forecast_next_7_days ≡ pos 91
unfolding forecast_product_demand with_trend trend_ratio clamped
doubles = refl

tenths-IsOrdered : IsOrdered tenths
tenths-IsOrdered = record {
  lt_irrefl = λ a. ground arith;
  lt_asym = λ a b h. ground (arith, h);
  two_half = refl;
}

forecast_product_demand-Blends_example :
    (14 ≤ length (week (pos 2) ++ week (pos 9)))
      × ((t : ℕ) × IsModest tenths t × Blends tenths (week (pos 2) ++ week (pos 9)) t)
    ⊎ (length (week (pos 2) ++ week (pos 9)) < 14)
      × ((forecast_product_demand tenths (week (pos 2) ++ week (pos 9))).forecast_next_7_days
          ≡ tenths.round (
              tenths.mul
                (tenths.quotient
                  (sum (week (pos 2) ++ week (pos 9)))
                  (length (week (pos 2) ++ week (pos 9))))
                tenths.seven))
      × ((forecast_product_demand tenths (week (pos 2) ++ week (pos 9))).recent_week_avg_daily
          ≡ none)
forecast_product_demand-Blends_example =
    forecast_product_demand-Blends tenths (pos 2)
      (pos 2 ∷ pos 2 ∷ pos 2 ∷ pos 2 ∷ pos 2 ∷ pos 2 ∷ week (pos 9)) tenths-IsOrdered
