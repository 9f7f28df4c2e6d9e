-- ===== src/Domain.antt =====
-- The data of internal/domain/models.go, one record for each struct.
-- A `time.Time` is the number of nanoseconds since Go's zero time (January 1, year 1, UTC), so the
-- zero time is 0; the instants before it are not represented. A pointer that may be nil is an
-- `Option`. A `float64` is its IEEE 754 bit pattern, since the program only carries such values.
-- An `int` or `int64` is a `ℤ`.
mod Basic
mod WeatherData
mod TelemetryData
mod Entities
pub use Basic.*
pub use WeatherData.*
pub use TelemetryData.*
pub use Entities.*
