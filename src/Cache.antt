-- ===== src/Cache.antt =====
-- app/cache/: the Redis services of the layer.
pub mod Keyspace
pub mod SortedSets
pub mod RateLimit
pub mod Idempotency
pub mod Notifications
