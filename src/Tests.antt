-- ===== src/Tests.antt =====
-- Concrete inputs: a small store, runs of the operations on it, and the theorems at such inputs.
mod Fixtures
mod StoreTests
mod DeviceTests
mod FileTests
mod HttpTests
mod LogTests
mod WeatherTests
mod ApiTests
