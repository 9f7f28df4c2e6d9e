-- ===== src/Httpapi.antt =====
-- internal/httpapi: handlers as functions of a request and the store, with the services of
-- internal/service, which pass each call on to the store, put in place.
pub mod Request
pub mod Auth
pub mod Todos
pub mod Devices
pub mod Messages
pub mod Telemetry
pub mod Snapshots
pub mod Api
