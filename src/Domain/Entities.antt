-- ===== src/Domain/Entities.antt =====
-- Users, devices, messages, todos and the snapshot of internal/domain/models.go.
use tinypanel_hub.Prelude.{String, List, Option, Bool, ℤ}
use tinypanel_hub.Domain.Basic.{Time}
use tinypanel_hub.Domain.WeatherData.{Weather}
use tinypanel_hub.Domain.TelemetryData.{Telemetry}

pub record Message : Type 0 where
  pub id : ℤ
  pub owner_id : String
  pub device_id : String
  pub author_id : String
  pub body : String
  pub priority : String
  pub status : String
  pub created_at : Time
  pub acked_at : Option Time

pub record Todo : Type 0 where
  pub id : ℤ
  pub owner_id : String
  pub text : String
  pub status : ℤ
  pub version : ℤ
  pub created_at : Time
  pub updated_at : Time

pub record TodoPatch : Type 0 where
  pub text : Option String
  pub status : Option ℤ

pub record Snapshot : Type 0 where
  pub weather : Weather
  pub messages : List Message
  pub todos : List Todo
  pub telemetry : List Telemetry

abbrev pub message_priority_normal : String
message_priority_normal = "normal"

abbrev pub message_priority_high : String
message_priority_high = "high"

abbrev pub message_status_pending : String
message_status_pending = "pending"

abbrev pub message_status_acked : String
message_status_acked = "acked"

pub record User : Type 0 where
  pub id : String
  pub name : String
  pub email : String
  pub api_token_hash : String
  pub created_at : Time

pub record Device : Type 0 where
  pub id : String
  pub owner_id : String
  pub name : String
  pub secret_hash : String
  pub bind_code : String
  pub bind_code_expires_at : Option Time
  pub bound_at : Option Time
  pub last_seen_at : Option Time
  pub created_at : Time

pub record DeviceHello : Type 0 where
  pub device_id : String
  pub device_secret : String
  pub bound : Bool
  pub name : String
  pub bind_code : String
  pub bind_code_ttl : ℤ
  pub server_time : Time
  pub bound_at : Option Time
