-- ===== src/Text.antt =====
-- Python's `str`: the list of its code points, with the methods that the source calls.
pub mod Case
pub mod Search
pub mod Decimal
pub mod Regex
pub mod Split
pub mod Trim
