-- ===== src/Domain/TelemetryData.antt =====
-- The telemetry structs of internal/domain/models.go. A value of `App` is kept as its JSON text.
use tinypanel_hub.Prelude.{String, List, Option, Bool, ℤ}
use tinypanel_hub.Domain.Basic.{Time, Float64}

pub record TelemetryBattery : Type 0 where
  pub raw_adc : ℤ
  pub raw_voltage_mv : ℤ
  pub voltage_mv : ℤ
  pub percentage : Float64
  pub status : String

pub record TelemetryPower : Type 0 where
  pub battery : TelemetryBattery
  pub usb_connected : Bool

pub record TelemetryShtc3 : Type 0 where
  pub temperature_c : Float64
  pub humidity_rh : Float64
  pub sensor_ok : Bool

pub record TelemetryEnvironment : Type 0 where
  pub shtc3 : TelemetryShtc3

pub record TelemetryNetwork : Type 0 where
  pub wifi_connected : Bool
  pub ssid : String
  pub rssi_dbm : ℤ
  pub ip : String

pub record TelemetrySystem : Type 0 where
  pub free_heap_bytes : ℤ
  pub free_psram_bytes : ℤ
  pub ntp_sync : Bool

pub record TelemetryStorage : Type 0 where
  pub sd_card_present : Bool
  pub sd_card_total_mb : ℤ
  pub sd_card_used_mb : ℤ

pub record Telemetry : Type 0 where
  pub id : ℤ
  pub schema_version : ℤ
  pub device_id : String
  pub boot_id : String
  pub sequence : ℤ
  pub report_timestamp : Time
  pub uptime_seconds : ℤ
  pub power : TelemetryPower
  pub environment : TelemetryEnvironment
  pub network : TelemetryNetwork
  pub system : TelemetrySystem
  pub storage : TelemetryStorage
  pub app : Option (List (String × String))
  pub received_at : Time
