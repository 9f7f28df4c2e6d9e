-- ===== src/Store.antt =====
-- internal/store: the file-backed store, a module for each of its files.
pub mod State
pub mod File
pub mod TelemetryLog
pub mod Commit
pub mod Users
pub mod Todos
pub mod Messages
pub mod Devices
pub mod Telemetry
pub mod Open
pub mod Validity
pub mod Reachable
