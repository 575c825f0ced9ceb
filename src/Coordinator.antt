-- ===== src/Coordinator.antt =====
-- cmd/coordinator: the gate of the signed policy, the limits of a tier, the choice of an exit, and the
-- answers replayed to a connect that is sent again.
pub mod PolicyGate
pub mod Assign
pub mod Idempotency
