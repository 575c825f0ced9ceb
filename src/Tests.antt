-- ===== src/Tests.antt =====
-- The theorems at concrete inputs, one file for each group of parts.
mod Toys
mod Releases
mod Updated
mod Located
mod Signed
mod Replayed
mod Metering
mod Admitted
mod Coordinated
mod Stored
mod Helper
mod Dialing
mod Relayed
