-- ===== src/Weather.antt =====
-- internal/weather: the weather service, its client and the cache in front of it.
pub mod Client
pub mod Requests
pub mod Forecasts
pub mod Cache
