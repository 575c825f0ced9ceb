-- ===== src/Update.antt =====
-- core/update: signed release manifests, the floor that survives a restart, and the replacement of a
-- binary with a way back. `crypto/sha256`, `encoding/json` and the signatures are the fields of
-- `Platform`; the source of a release, the clock and the file system are arguments.
pub mod Manifest
pub mod Bundle
pub mod Apply
pub mod State
pub mod Updater
