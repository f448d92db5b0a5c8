-- ===== src/Analytics/Forecasting/Trend.antt =====
-- The forecast of app/analytics/forecasting.py stays near what was sold.
use mottainai_ia.Base.{
  ◌≡◌, ◌≤◌, ◌<◌, refl, ◌⊎◌, inl, inr, true, false, leb, List, ◌∷◌, none, Bool-cases, length, arith,
}
use mottainai_ia.Base.Int.{ℤ}
use mottainai_ia.Analytics.Forecasting.{
  Reals, sum, clamped, trend_ratio, recent_avg, prior_avg, with_trend, flat,
  forecast_product_demand,
}

-- The order of the floats that are numbers, and of two of the literals.
pub record IsOrdered (rs : Reals) : Type 0 where
  pub lt_irrefl : (a : rs.R) → rs.lt a a ≡ false
  pub lt_asym : (a b : rs.R) → rs.lt a b ≡ true → rs.lt b a ≡ false
  pub two_half : rs.lt rs.two rs.half ≡ false

module _ (rs : Reals) where
  open rs use {R, lt, quotient, add, mul, half, two, seven, four_tenths, six_tenths, round}

  -- From a half to the double.
  abbrev pub IsModest : R → Type 0
  IsModest t = (lt t half ≡ false) × (lt two t ≡ false)

  clamped-IsModest : IsOrdered rs → (ratio : R) → IsModest (clamped rs ratio)
  unfolding clamped
  clamped-IsModest o ratio = elim (Bool-cases (lt two ratio)) [
    | inl above ↦ rw above (elim (Bool-cases (lt half two)) [
      | inl usual ↦ rw usual (o.two_half, o.lt_irrefl two)
      | inr equal ↦ rw equal (o.lt_irrefl half, o.two_half)
    ])
    | inr below ↦ rw below (elim (Bool-cases (lt half ratio)) [
      | inl usual ↦ rw usual (o.lt_asym half ratio usual, below)
      | inr low ↦ rw low (o.lt_irrefl half, o.two_half)
    ])
  ]

  -- What the forecast of a week is, of the mean of all days and of the last week.
  abbrev pub Blends : List ℤ → R → Type 0
  Blends qs t =
      (forecast_product_demand rs qs).forecast_next_7_days
      ≡ round (
          mul
            (add (mul (mul six_tenths (recent_avg rs qs)) t)
              (mul four_tenths (quotient (sum qs) (length qs))))
            seven)

  -- With at least fourteen days of sales, the forecast is that of a blend of the last week and the mean
  -- in which the trend counts from a half to the double, however the weeks differ and also if nothing
  -- was sold in the earlier one. With fewer days it is the mean for seven days, without a trend. The
  -- floats are numbers.
  pub forecast_product_demand-Blends :
      (q : ℤ) (qs : List ℤ)
      → IsOrdered rs
      → (14 ≤ length (q ∷ qs)) × ((t : R) × IsModest t × Blends (q ∷ qs) t)
        ⊎ (length (q ∷ qs) < 14)
          × ((forecast_product_demand rs (q ∷ qs)).forecast_next_7_days
              ≡ round (mul (quotient (sum (q ∷ qs)) (length (q ∷ qs))) seven))
          × ((forecast_product_demand rs (q ∷ qs)).recent_week_avg_daily ≡ none)
  unfolding forecast_product_demand with_trend flat trend_ratio
  forecast_product_demand-Blends q qs o = elim (Bool-cases (leb 14 (length (q ∷ qs)))) [
    | inl long ↦
        let enough : 14 ≤ length (q ∷ qs) = ground (arith, long) in
        inl (
          enough,
          (
            trend_ratio rs (recent_avg rs (q ∷ qs)) (prior_avg rs (q ∷ qs)),
            clamped-IsModest o _,
            rw long refl,
          ),
        )
    | inr short ↦
        let few : length (q ∷ qs) < 14 = ground (arith, short) in
        inr (few, rw short refl, rw short refl)
  ]
