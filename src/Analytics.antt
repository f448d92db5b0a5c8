-- ===== src/Analytics.antt =====
-- app/analytics/: the figures that the predictive agent puts into words.
pub mod Forecasting
