-- ===== src/Service.antt =====
-- internal/service: the services between the handlers and the store, over any store.
pub mod Interface
pub mod Users
pub mod Devices
pub mod Messages
pub mod Todos
pub mod Telemetry
pub mod Files
