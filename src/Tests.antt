-- ===== src/Tests.antt =====
-- The theorems of the library at concrete inputs.
mod Pools
mod Cache
mod Requests
mod Scheduling
