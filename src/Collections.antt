-- ===== src/Collections.antt =====
-- The standard collections that the components use: hash maps as association lists with one entry
-- a key, and recency queues as lists of keys, oldest first.
pub mod Keys
pub mod Dict
