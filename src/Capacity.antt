-- ===== src/Capacity.antt =====
-- core/capacity: the arithmetic of an exit's share (assign.go, estimator.go), and a declared monthly
-- quota (quota.go). A `Rate` and a `Bytes` are unsigned 64-bit numbers.
pub mod Share
pub mod Quota
pub mod Limiter
